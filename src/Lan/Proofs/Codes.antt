-- ===== src/Lan/Proofs/Codes.antt =====
-- src/LanPeer.cpp: the comparison of codes, byte by byte and without an early end, is equality.
use ii_server_host.Prelude.{
  ◌==◌, if◌then◌else◌, length, all, All, ℕ, zero, suc, ◌+◌, ◌*◌, ◌/◌, ◌%◌, ◌<◌, ◌≡◌, refl, ap, ◌↔◌,
  true, [], ◌∷◌, arith,
}
use ii_server_host.Prelude.Text.{Text, Bytes, to_latin1, is_lower_hex}
use ii_server_host.Lan.Link.{hex_token, xor_bits, or_bits, diff_loop, same_code}

-- A number of this many bits
abbrev Fits : ℕ → ℕ → Type 0
Fits zero a = a ≡ 0
Fits (suc n) a = Fits n (a / 2)

byte-Fits : (a : ℕ) → a < 256 → Fits 8 a
byte-Fits a h = omega (arith, h)

zero-Fits : (n : ℕ) → Fits n 0
zero-Fits zero = refl
zero-Fits (suc n) = zero-Fits n

xor_bits_zero : (n a b : ℕ) → Fits n a → Fits n b → xor_bits n a b ≡ 0 → a ≡ b
unfolding xor_bits
xor_bits_zero zero a b f g h = omega arith
xor_bits_zero (suc n) a b f g h =
    let rest = xor_bits_zero n (a / 2) (b / 2) f g (omega arith) in omega arith

xor_bits_same : (n a : ℕ) → xor_bits n a a ≡ 0
unfolding xor_bits
xor_bits_same zero a = refl
xor_bits_same (suc n) a = omega (arith, xor_bits_same n (a / 2))

xor_bits-Fits : (n a b : ℕ) → Fits n (xor_bits n a b)
unfolding xor_bits
xor_bits-Fits zero a b = refl
xor_bits-Fits (suc n) a b =
    let half : ((a % 2 + b % 2) % 2 + 2 * xor_bits n (a / 2) (b / 2)) / 2
        ≡ xor_bits n (a / 2) (b / 2) =
      omega arith in
    rw half (xor_bits-Fits n (a / 2) (b / 2))

or_bits-Fits : (n a b : ℕ) → Fits n (or_bits n a b)
unfolding or_bits
or_bits-Fits zero a b = refl
or_bits-Fits (suc n) a b =
    let bit : ℕ = if a % 2 + b % 2 == 0 then 0 else 1 in
    let half : (bit + 2 * or_bits n (a / 2) (b / 2)) / 2 ≡ or_bits n (a / 2) (b / 2) =
      ground arith in
    rw half (or_bits-Fits n (a / 2) (b / 2))

or_bits_zero : (n a b : ℕ) → Fits n a → Fits n b → or_bits n a b ≡ 0 → (a ≡ 0) × (b ≡ 0)
unfolding or_bits
or_bits_zero zero a b f g h = (f, g)
or_bits_zero (suc n) a b f g h =
    let rest = or_bits_zero n (a / 2) (b / 2) f g (ground arith) in ground (arith, rest)

or_bits_none : (n : ℕ) → or_bits n 0 0 ≡ 0
unfolding or_bits
or_bits_none zero = refl
or_bits_none (suc n) = omega (arith, or_bits_none n)

-- Every unit of the text is a byte.
abbrev AreBytes : Bytes → Type 0
AreBytes s = All (λ (u : ℕ). Fits 8 u) s

diff_loop_zero :
    (diff : ℕ) (s t : Bytes)
    → Fits 8 diff
    → AreBytes s
    → AreBytes t
    → length s ≡ length t
    → diff_loop diff s t ≡ 0
    → (diff ≡ 0) × (s ≡ t)
unfolding diff_loop
diff_loop_zero diff [] [] f g h e z = (z, refl)
diff_loop_zero diff [] (b ∷ t) f g h e z = absurd (omega arith)
diff_loop_zero diff (a ∷ s) [] f g h e z = absurd (omega arith)
diff_loop_zero diff (a ∷ s) (b ∷ t) f g h e z =
    let rest =
      diff_loop_zero (or_bits 8 diff (xor_bits 8 a b)) s t (or_bits-Fits 8 _ _) g.1 h.1
        (omega arith) z in
    let bits = or_bits_zero 8 diff (xor_bits 8 a b) f (xor_bits-Fits 8 a b) rest.0 in
    (bits.0, cc (xor_bits_zero 8 a b g.0 h.0 bits.1, rest.1))

diff_loop_same : (s : Bytes) → diff_loop 0 s s ≡ 0
unfolding diff_loop
diff_loop_same [] = refl
diff_loop_same (a ∷ s) = rw (xor_bits_same 8 a, or_bits_none 8) (diff_loop_same s)

to_latin1-AreBytes : (s : Text) → AreBytes (to_latin1 s)
unfolding to_latin1
to_latin1-AreBytes [] = tt
to_latin1-AreBytes (u ∷ us) = (byte-Fits _ (ground arith), to_latin1-AreBytes us)

length-to_latin1 : (s : Text) → length (to_latin1 s) ≡ length s
unfolding to_latin1
length-to_latin1 [] = refl
length-to_latin1 (u ∷ us) = ap suc (length-to_latin1 us)

cons_parts : (u v : ℕ) (s t : Text) → (u ∷ s) ≡ (v ∷ t) → (u ≡ v) × (s ≡ t)
cons_parts u v s t e = (cc e, cc e)

to_latin1_hex : (s t : Text) → all is_lower_hex t ≡ true → to_latin1 s ≡ to_latin1 t → s ≡ t
unfolding to_latin1 is_lower_hex
to_latin1_hex [] [] h e = refl
to_latin1_hex [] (v ∷ vs) h e = absurd (cc e)
to_latin1_hex (u ∷ us) [] h e = absurd (cc e)
to_latin1_hex (u ∷ us) (v ∷ vs) h e =
    let parts = cons_parts _ _ (to_latin1 us) (to_latin1 vs) e in
    let rest : us ≡ vs = to_latin1_hex us vs (ground (arith, h)) parts.1 in
    let here : u ≡ v = ground (arith, h, parts.0) in cc (here, rest)

same_code_bytes :
    (a b : Text)
    → (same_code a b ≡ true) ↔ ((length a ≡ 64) × (length b ≡ 64) × (to_latin1 a ≡ to_latin1 b))
unfolding same_code
same_code_bytes a b =
    let la = length-to_latin1 a in
    let lb = length-to_latin1 b in
    (
      (λ h.
          let sizes : (length a ≡ 64) × (length b ≡ 64) = ground (arith, la, lb, h) in
          let zero : diff_loop 0 (to_latin1 a) (to_latin1 b) ≡ 0 = ground (arith, la, lb, h) in
          (
            sizes.0,
            sizes.1,
            (diff_loop_zero 0 (to_latin1 a) (to_latin1 b) (zero-Fits 8) (to_latin1-AreBytes a)
                (to_latin1-AreBytes b) (omega (arith, la, lb, sizes)) zero).1,
          )),
      (λ h.
          let same : diff_loop 0 (to_latin1 a) (to_latin1 b) ≡ 0 =
            rw h.2 (diff_loop_same (to_latin1 b)) in
          ground (arith, la, lb, h, same)),
    )

-- The comparison that goes on to the end of both codes is equality, if the second code is a token
-- of 64 hexadecimal digits.
pub same_code_exact : (a b : Text) → hex_token b ≡ true → (same_code a b ≡ true) ↔ (a ≡ b)
unfolding hex_token
same_code_exact a b h = (
  (λ e. to_latin1_hex a b (ground (arith, h)) ((same_code_bytes a b).0 e).2),
  (λ e.
      let size : length b ≡ 64 = ground (arith, h) in
      (same_code_bytes a b).1 (rw e (size, size, refl))),
)
