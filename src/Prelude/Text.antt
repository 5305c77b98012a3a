-- ===== src/Prelude/Text.antt =====
-- Texts as `QString` keeps them: lists of UTF-16 code units. A byte array is a list of bytes.
use Prim.Native.Nat.{ℕ}
use Prim.Native.Char.{code}
use Prim.Native.String.{String}
use mathlib.Core.Path.{◌≡◌, refl}
use mathlib.Core.Logic.{◌↔◌}
use mathlib.Core.Bool.{not, Bool, true, false, ◌&&◌, ◌||◌}
use mathlib.Core.List.{List, [], ◌∷◌}
use native.Mathlib.Omega.{arith}
use ii_server_host.Prelude.Tests.{ltb, leb, ◌==◌, if◌then◌else◌}

abbrev pub Text : Type 0
Text = List ℕ

abbrev pub Bytes : Type 0
Bytes = List ℕ

-- A literal of the source; all of them are ASCII.
unfoldable pub text : String → Text
text String.[] = []
text (String.◌∷◌ c s) = code c ∷ text s

unfoldable pub eq : Text → Text → Bool
eq [] [] = true
eq [] (y ∷ ys) = false
eq (x ∷ xs) [] = false
eq (x ∷ xs) (y ∷ ys) = x == y && eq xs ys

pub eq_refl : (s : Text) → eq s s ≡ true
unfolding eq
eq_refl [] = refl
eq_refl (x ∷ xs) = ground (arith, eq_refl xs)

pub eq_sound : (s t : Text) → eq s t ≡ true → s ≡ t
unfolding eq
eq_sound [] [] h = refl
eq_sound [] (y ∷ ys) h = cc
eq_sound (x ∷ xs) [] h = cc
eq_sound (x ∷ xs) (y ∷ ys) h = ground (arith, eq_sound xs ys)

pub eq_iff : (s t : Text) → (eq s t ≡ true) ↔ (s ≡ t)
eq_iff s t = (eq_sound s t, λ e. rw e (eq_refl t))

abbrev pub is_empty {ℓ} : {A : Type ℓ} → List A → Bool
is_empty [] = true
is_empty (x ∷ xs) = false

-- `operator<` of `QString`: the order of the code units.
unfoldable pub lt : Text → Text → Bool
lt [] [] = false
lt [] (y ∷ ys) = true
lt (x ∷ xs) [] = false
lt (x ∷ xs) (y ∷ ys) = ltb x y || (x == y && lt xs ys)

pub lt_asymm : (s t : Text) → lt s t ≡ true → lt t s ≡ false
unfolding lt
lt_asymm [] [] h = refl
lt_asymm [] (y ∷ ys) h = refl
lt_asymm (x ∷ xs) [] h = cc
lt_asymm (x ∷ xs) (y ∷ ys) h = ground (arith, lt_asymm xs ys)

pub lt_irrefl : (s : Text) → lt s s ≡ false
unfolding lt
lt_irrefl [] = refl
lt_irrefl (x ∷ xs) = ground (arith, lt_irrefl xs)

unfoldable pub starts_with : Text → Text → Bool
starts_with s [] = true
starts_with [] (y ∷ ys) = false
starts_with (x ∷ xs) (y ∷ ys) = x == y && starts_with xs ys

unfoldable pub contains_unit : Text → ℕ → Bool
contains_unit [] u = false
contains_unit (x ∷ xs) u = x == u || contains_unit xs u

-- `QString::toLatin1`: a unit above 255 becomes a question mark.
unfoldable pub to_latin1 : Text → Bytes
to_latin1 [] = []
to_latin1 (u ∷ us) = (if ltb u 256 then u else b'?') ∷ to_latin1 us

-- `QString::fromLatin1` keeps each byte as a code unit.
abbrev pub from_latin1 : Bytes → Text
from_latin1 bs = bs

-- The classes of the regular expressions.
unfoldable pub is_lower_hex : ℕ → Bool
is_lower_hex u = (leb b'0' u && leb u b'9') || (leb b'a' u && leb u b'f')

unfoldable pub is_alnum : ℕ → Bool
is_alnum u = (leb b'a' u && leb u b'z') || (leb b'A' u && leb u b'Z') || (leb b'0' u && leb u b'9')

unfoldable pub is_high : ℕ → Bool
is_high u = leb 55296 u && leb u 56319

unfoldable pub is_low : ℕ → Bool
is_low u = leb 56320 u && leb u 57343

-- Does every high surrogate stand before a low one, and no low one elsewhere? The flag says that a
-- low one is due.
unfoldable pub pairs_up : Bool → Text → Bool
unfolding is_high is_low
pairs_up due [] = not due
pairs_up due (u ∷ us) =
    (if due then is_low u else not (is_low u)) && pairs_up (not due && is_high u) us

-- QString::isValidUtf16
unfoldable pub is_valid_utf16 : Text → Bool
is_valid_utf16 s = pairs_up false s
