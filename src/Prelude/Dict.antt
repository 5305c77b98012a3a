-- ===== src/Prelude/Dict.antt =====
-- `QHash`: an association list with one entry for each key. Its order is as free as that of the
-- hash.
use Prim.Native.Nat.{ℕ, ◌+◌, ◌≤◌}
use mathlib.Core.Path.{◌≡◌}
use mathlib.Core.Logic.{◌↔◌, ◌⊎◌, ◌≢◌}
use mathlib.Core.Bool.{Bool, true}
use mathlib.Core.Option.{Option, none, some}
use mathlib.Core.List.{List, [], ◌∷◌}
use native.Mathlib.Omega.{arith}
use ii_server_host.Prelude.Tests.{if◌then◌else◌, ==_iff, is_some, ◌==◌ as nat_beq}
use ii_server_host.Prelude.Lists.{length, any}
use ii_server_host.Prelude.Text.{Text, eq, eq_iff}

pub record Eq {ℓ} (A : Type ℓ) : Type ℓ where
  pub beq : A → A → Bool
  pub beq_iff : (a b : A) → (beq a b ≡ true) ↔ (a ≡ b)

instance abbrev pub nat_eq : Eq ℕ
nat_eq = record { beq = nat_beq; beq_iff = ==_iff }

instance abbrev pub text_eq : Eq Text
text_eq = record { beq = eq; beq_iff = eq_iff }

abbrev pub Dict {ℓ κ} : Type ℓ → Type κ → Type (ℓ ⊔ κ)
Dict K V = List (K × V)

module _ {ℓ κ} {K : Type ℓ} {V : Type κ} where
  unfoldable pub keys : Dict K V → List K
  keys [] = []
  keys ((j, v) ∷ d) = j ∷ keys d

module _ {ℓ} {K : Type ℓ} ⦃e : Eq K⦄ where
  -- Is the key on the list?
  abbrev pub listed : K → List K → Bool
  listed k ks = any (λ j. e.beq j k) ks

module _ {ℓ κ} {K : Type ℓ} {V : Type κ} ⦃e : Eq K⦄ where
  unfoldable pub find : K → Dict K V → Option V
  find k [] = none
  find k ((j, v) ∷ d) = if e.beq j k then some v else find k d

  unfoldable pub remove : K → Dict K V → Dict K V
  remove k [] = []
  remove k ((j, v) ∷ d) = let rest = remove k d in if e.beq j k then rest else (j, v) ∷ rest

  unfoldable pub insert : K → V → Dict K V → Dict K V
  insert k v d = (k, v) ∷ remove k d

  abbrev pub contains : K → Dict K V → Bool
  contains k d = is_some (find k d)

  pub find-remove :
      (k j : K) (d : Dict K V) → find j (remove k d) ≡ (if e.beq k j then none else find j d)
  unfolding find remove
  find-remove k j [] = ground arith
  find-remove k j ((i, v) ∷ d) =
      ground (arith, find-remove k j d, e.beq_iff i k, e.beq_iff i j, e.beq_iff k j)

  pub find-insert :
      (k j : K) (v : V) (d : Dict K V)
      → find j (insert k v d) ≡ (if e.beq k j then some v else find j d)
  unfolding find insert
  find-insert k j v d = ground (arith, find-remove k j d)

  pub length-remove-le : (k : K) (d : Dict K V) → length (remove k d) ≤ length d
  unfolding remove
  length-remove-le k [] = omega arith
  length-remove-le k ((j, v) ∷ d) = ground (arith, length-remove-le k d)

  pub length-insert-le : (k : K) (v : V) (d : Dict K V) → length (insert k v d) ≤ length d + 1
  unfolding insert
  length-insert-le k v d = omega (arith, length-remove-le k d)

  pub find_of_remove :
      (k j : K) (d : Dict K V) (v : V) → find j (remove k d) ≡ some v → find j d ≡ some v
  find_of_remove k j d v h = ground (arith, find-remove k j d)

  pub not-find-remove : (k : K) (d : Dict K V) → find k (remove k d) ≡ none
  not-find-remove k d = ground (arith, find-remove k k d, e.beq_iff k k)

  pub find_of_insert :
      (k j : K) (v w : V) (d : Dict K V)
      → find j (insert k v d) ≡ some w
      → ((k ≡ j) × (v ≡ w)) ⊎ (find j d ≡ some w)
  find_of_insert k j v w d h = ground (arith, find-insert k j v d, e.beq_iff k j)

  pub contains-insert :
      (k j : K) (v : V) (d : Dict K V) → contains j d ≡ true → contains j (insert k v d) ≡ true
  contains-insert k j v d h = ground (arith, find-insert k j v d)

  pub contains-insert_self : (k : K) (v : V) (d : Dict K V) → contains k (insert k v d) ≡ true
  contains-insert_self k v d = ground (arith, find-insert k k v d, e.beq_iff k k)

  pub contains_of_insert :
      (k j : K) (v : V) (d : Dict K V)
      → contains j (insert k v d) ≡ true
      → (k ≡ j) ⊎ (contains j d ≡ true)
  contains_of_insert k j v d h = ground (arith, find-insert k j v d, e.beq_iff k j)

  pub contains-remove :
      (k j : K) (d : Dict K V) → k ≢ j → contains j d ≡ true → contains j (remove k d) ≡ true
  contains-remove k j d n h = ground (arith, find-remove k j d, e.beq_iff k j)

  pub contains_of_remove :
      (k j : K) (d : Dict K V) → contains j (remove k d) ≡ true → contains j d ≡ true
  contains_of_remove k j d h = ground (arith, find-remove k j d)

  pub listed-keys : (k : K) (d : Dict K V) (v : V) → find k d ≡ some v → listed k (keys d) ≡ true
  unfolding find keys
  listed-keys k [] v h = cc
  listed-keys k ((j, w) ∷ d) v h = ground (arith, listed-keys k d v)

  pub find-insert_self : (k : K) (v : V) (d : Dict K V) → find k (insert k v d) ≡ some v
  find-insert_self k v d = ground (arith, find-insert k k v d, e.beq_iff k k)

  pub find-insert_ne : (k j : K) (v : V) (d : Dict K V) → j ≢ k → find j (insert k v d) ≡ find j d
  find-insert_ne k j v d n = ground (arith, find-insert k j v d, e.beq_iff k j)

  pub length-remove_lt :
      (k : K) (d : Dict K V) (v : V) → find k d ≡ some v → length (remove k d) + 1 ≤ length d
  unfolding find remove
  length-remove_lt k [] v h = cc
  length-remove_lt k ((j, w) ∷ d) v h = ground (arith, length-remove_lt k d v, length-remove-le k d)
