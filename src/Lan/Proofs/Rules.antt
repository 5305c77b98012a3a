-- ===== src/Lan/Proofs/Rules.antt =====
-- src/LanPeer.cpp: the lists of addresses and of effects.
use ii_server_host.Prelude.{
  ◌==◌, ==_iff, All, ℕ, ◌≡◌, refl, ap, true, false, List, [], ◌∷◌, ◌++◌, arith,
}
use ii_server_host.Prelude.Text.{Text, is_empty, contains_unit}
use ii_server_host.Prelude.Patterns.{split_at, has_unit}
use ii_server_host.Lan.Link.{join_with}

split_none : (sep : ℕ) (s : Text) → has_unit sep s ≡ false → split_at sep s ≡ s ∷ []
unfolding split_at contains_unit
split_none sep [] h = refl
split_none sep (u ∷ us) h =
    let rest = split_none sep us (ground (arith, h)) in
    let here : (u == sep) ≡ false = ground (arith, h) in rw (here, rest) refl

split_append :
    (sep : ℕ) (s t : Text)
    → has_unit sep s ≡ false
    → split_at sep (s ++ sep ∷ t) ≡ s ∷ split_at sep t
unfolding split_at contains_unit
split_append sep [] t h =
    let here : (sep == sep) ≡ true = ground (arith, ==_iff sep sep) in rw here refl
split_append sep (u ∷ us) t h =
    let rest = split_append sep us t (ground (arith, h)) in
    let here : (u == sep) ≡ false = ground (arith, h) in rw (here, rest) refl

-- No text on the list has the separator.
abbrev pub AreFree : ℕ → List Text → Type 0
AreFree sep ss = All (λ (s : Text). has_unit sep s ≡ false) ss

pub split-join :
    (sep : ℕ) (ss : List Text)
    → is_empty ss ≡ false
    → AreFree sep ss
    → split_at sep (join_with sep ss) ≡ ss
unfolding join_with
split-join sep [] n f = absurd (cc n)
split-join sep (s ∷ []) n f = split_none sep s f.0
split-join sep (s ∷ t ∷ ts) n f =
    rw (split_append sep s (join_with sep (t ∷ ts)) f.0)
      (ap (λ rest. s ∷ rest) (split-join sep (t ∷ ts) refl f.1))
