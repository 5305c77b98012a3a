-- ===== src/Json/Laws.antt =====
-- Lookup after insertion, and the restoration of a member that was replaced.
use ii_server_host.Prelude.{Bool-cases, ◌≡◌, refl, inl, inr, true, false, arith}
use ii_server_host.Prelude.Text.{Text, eq, eq_refl, eq_sound, lt, lt_asymm, lt_irrefl}
use ii_server_host.Json.{Json, Object, end, field, is_undefined, value, has, remove, place}

-- The keys grow along the object, here and in its members that are objects.
abbrev pub Above : Text → Object → Type 0
Above k end = Unit
Above k (field j v o) = (lt k j ≡ true) × Above k o

unfoldable pub IsSorted : Object → Type 0
IsSorted end = Unit
IsSorted (field k v o) = Above k o × IsSorted o

module _ (k : Text) where
  pub value-place : (v : Json) (o : Object) → value k (place k v o) ≡ v
  unfolding value place
  value-place v end = rw (eq_refl k)
  value-place v (field j w o) = ground (arith, eq_refl k, value-place v o)

  pub place-place : (v w : Json) (o : Object) → place k v (place k w o) ≡ place k v o
  unfolding place
  place-place v w end = rw (eq_refl k)
  place-place v w (field j x o) = ground (arith, eq_refl k, place-place v w o)

  pub place-remove-Above : (v : Json) (o : Object) → Above k o → place k v o ≡ field k v o
  unfolding place
  place-remove-Above v end h = refl
  place-remove-Above v (field j x o) h = ground (arith, eq_sound j k, lt_irrefl k, h.0)

  pub has-Above : (j : Text) (o : Object) → Above j o → has k o ≡ true → lt j k ≡ true
  unfolding has
  has-Above j end a h = cc
  has-Above j (field i x o) a h = ground (arith, eq_sound i k, has-Above j o a.1)

  -- A member that is there comes back where it stood.
  pub place-remove :
      (o : Object) → IsSorted o → has k o ≡ true → place k (value k o) (remove k o) ≡ o
  unfolding value has remove place IsSorted
  place-remove end s h = cc
  place-remove (field j x o) s h = elim (Bool-cases (eq j k)) [
    | inl e ↦ ground (arith, eq_sound j k, place-remove-Above x o)
    | inr n ↦ ground (arith, lt_asymm j k, has-Above j o s.0, place-remove o s.1)
  ]

  pub place-value : (o : Object) → IsSorted o → has k o ≡ true → place k (value k o) o ≡ o
  unfolding value has place IsSorted
  place-value end s h = cc
  place-value (field j x o) s h = elim (Bool-cases (eq j k)) [
    | inl e ↦ ground (arith, eq_sound j k)
    | inr n ↦ ground (arith, lt_asymm j k, has-Above j o s.0, place-value o s.1)
  ]

  pub has-remove : (o : Object) → IsSorted o → has k (remove k o) ≡ false
  unfolding has remove IsSorted
  has-remove end s = refl
  has-remove (field j x o) s = elim (Bool-cases (eq j k)) [
    | inl e ↦ elim (Bool-cases (has k o)) [
      | inl y ↦ ground (arith, eq_sound j k, has-Above j o s.0, lt_irrefl k)
      | inr y ↦ rw e y
    ]
    | inr n ↦ ground (arith, has-remove o s.1)
  ]

  pub has_of_value : (o : Object) → is_undefined (value k o) ≡ false → has k o ≡ true
  unfolding value has is_undefined
  has_of_value end h = cc
  has_of_value (field j x o) h = ground (arith, has_of_value o)
