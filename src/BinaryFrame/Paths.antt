-- ===== src/BinaryFrame/Paths.antt =====
-- Taking a member out along a key path, and putting it back.
use ii_server_host.Prelude.{
  Bool-cases, All, ℕ, zero, suc, ◌<◌, ◌≡◌, refl, sym, inl, inr, false≢true, true, false, some, List,
  [], ◌∷◌, arith,
}
use ii_server_host.Prelude.Text.{Text, text}
use mathlib.Core.Path.{subst}
use mathlib.Core.Option.{some-injective}
use ii_server_host.Json.{
  Json, undefined, obj, Object, is_undefined, is_object, to_object, value, place, insert, object,
}
use ii_server_host.Json.Laws.{
  IsSorted, value-place, place-place, place-remove, place-value, has-remove, has_of_value,
}
use ii_server_host.BinaryFrame.{KeyPath, paths, at, replace, open_parent, get_path}

-- Every object on the way along the keys is sorted, as Qt keeps it.
unfoldable pub SortedAlong : Object → KeyPath → Type 0
SortedAlong object [] = Unit
SortedAlong object (k ∷ []) = IsSorted object
SortedAlong object (k ∷ j ∷ path) =
    IsSorted object × SortedAlong (to_object (value k object)) (j ∷ path)

obj-to_object : (v : Json) → is_object v ≡ true → obj (to_object v) ≡ v
unfolding is_object to_object
obj-to_object (obj o) h = refl
obj-to_object _ h = cc

defined_of_object : (v : Json) → is_object v ≡ true → is_undefined v ≡ false
unfolding is_object is_undefined
defined_of_object (obj o) h = refl
defined_of_object undefined h = cc
defined_of_object _ h = refl

-- A member replaced twice is replaced once.
place-nested :
    (k : Text) (r m : Object) (p : KeyPath) (v : Json)
    → place k (obj (replace (to_object (value k (place k (obj r) m))) p v)) (place k (obj r) m)
      ≡ place k (obj (replace r p v)) m
unfolding to_object
place-nested k r m p v = rw (value-place k (obj r) m) (place-place k _ _ m)

-- Taking the string out and putting it back restores the message.
pub replace-replace :
    (m : Object) (p : KeyPath)
    → SortedAlong m p
    → is_undefined (at m p) ≡ false
    → replace (replace m p undefined) p (at m p) ≡ m
unfolding at replace SortedAlong insert is_undefined
replace-replace m [] s h = refl
replace-replace m (k ∷ []) s h = rw h (place-remove k m s (has_of_value k m h))
replace-replace m (k ∷ j ∷ path) s h = elim (Bool-cases (is_object (value k m))) [
  | inl o ↦
      let m' : Object = to_object (value k m) in
      let r : Object = replace m' (j ∷ path) undefined in
      rw o (
        cc (
          place-nested k r m (j ∷ path) (at m' (j ∷ path)),
          replace-replace m' (j ∷ path) s.1 (rw o at h),
          obj-to_object (value k m) o,
          place-value k m s.0 (has_of_value k m (defined_of_object (value k m) o)),
        ))
  | inr n ↦ absurd (false≢true (sym (rw n at h)))
]

abbrev pub EndsInData : KeyPath → Type 0
EndsInData [] = ⊥
EndsInData (k ∷ []) = k ≡ text "data"
EndsInData (k ∷ j ∷ path) = EndsInData (j ∷ path)

-- Once the string is taken out, the walk of `decode` finds its place free.
pub open_parent-replace :
    (m : Object) (p : KeyPath)
    → EndsInData p
    → SortedAlong m p
    → is_undefined (at m p) ≡ false
    → open_parent (replace m p undefined) p ≡ true
unfolding at replace SortedAlong insert is_undefined open_parent is_object to_object
open_parent-replace m [] e s h = absurd e
open_parent-replace m (k ∷ []) e s h = rw (← e, has-remove k m s) refl
open_parent-replace m (k ∷ j ∷ path) e s h = elim (Bool-cases (is_object (value k m))) [
  | inl o ↦
      let m' : Object = to_object (value k m) in
      rw (value-place k (obj (replace m' (j ∷ path) undefined)) m)
        (open_parent-replace m' (j ∷ path) e s.1 (rw o at h))
  | inr n ↦ absurd (false≢true (sym (rw n at h)))
]

pub path_index : (i : ℕ) (p : KeyPath) → get_path paths i ≡ some p → (i < 3) × EndsInData p
unfolding get_path paths
path_index zero p h = (omega arith, subst EndsInData (some-injective _ _ h) refl)
path_index (suc zero) p h = (omega arith, subst EndsInData (some-injective _ _ h) refl)
path_index (suc (suc zero)) p h = (omega arith, subst EndsInData (some-injective _ _ h) refl)
path_index (suc (suc (suc i))) p h = cc

pub All-get_path :
    (P : KeyPath → Type 0) (ps : List KeyPath) (i : ℕ) (p : KeyPath)
    → All P ps
    → get_path ps i ≡ some p
    → P p
unfolding get_path
All-get_path P [] i p a h = cc
All-get_path P (q ∷ ps) zero p a h = subst P (some-injective _ _ h) a.0
All-get_path P (q ∷ ps) (suc i) p a h = All-get_path P ps i p a.1 h
