-- ===== src/Json.antt =====
-- The `QJsonValue` and `QJsonObject` operations that the sources call. A value is a tree; an
-- object keeps its members sorted by key, as Qt does. A number that is no natural number is kept by
-- its spelling.
pub mod Laws
use ii_server_host.Prelude.{
  ltb, if◌then◌else◌, ℕ, suc, ◌^◌, Bool, true, false, ◌||◌, Option, none, some, List, [], ◌∷◌,
}
use ii_server_host.Prelude.Text.{Text, eq, lt}

mutual
  pub data Json : Type 0 where
    null undefined : Json
    bool : Bool → Json
    num : ℕ → Json
    other_num : Text → Json
    str : Text → Json
    arr : Items → Json
    obj : Object → Json

  pub data Items : Type 0 where
    nil : Items
    cons : Json → Items → Items

  pub data Object : Type 0 where
    end : Object
    field : Text → Json → Object → Object

unfoldable pub is_undefined : Json → Bool
is_undefined undefined = true
is_undefined _ = false

unfoldable pub is_string : Json → Bool
is_string (str s) = true
is_string _ = false

unfoldable pub is_object : Json → Bool
is_object (obj o) = true
is_object _ = false

unfoldable pub is_array : Json → Bool
is_array (arr xs) = true
is_array _ = false

-- `toString()`, `toBool()`, `toObject()` and `toArray()`: the empty value where the type differs.
unfoldable pub to_str : Json → Text
to_str (str s) = s
to_str _ = []

unfoldable pub to_bool : Json → Bool
to_bool (bool b) = b
to_bool _ = false

unfoldable pub to_object : Json → Object
to_object (obj o) = o
to_object _ = end

to_list : Items → List Json
to_list nil = []
to_list (cons x xs) = x ∷ to_list xs

unfoldable pub to_array : Json → List Json
unfolding to_list
to_array (arr xs) = to_list xs
to_array _ = []

items : List Json → Items
items [] = nil
items (x ∷ xs) = cons x (items xs)

unfoldable pub array : List Json → Json
unfolding items
array xs = arr (items xs)

-- `toInt(-1)`; `none` stands for a negative result.
unfoldable pub to_int : Json → Option ℕ
to_int (num n) = if ltb n (2 ^ 31) then some n else none
to_int _ = none

unfoldable pub value : Text → Object → Json
value k end = undefined
value k (field j v o) = if eq j k then v else value k o

unfoldable pub has : Text → Object → Bool
has k end = false
has k (field j v o) = eq j k || has k o

unfoldable pub size : Object → ℕ
size end = 0
size (field k v o) = suc (size o)

unfoldable pub remove : Text → Object → Object
remove k end = end
remove k (field j v o) = if eq j k then o else field j v (remove k o)

unfoldable pub place : Text → Json → Object → Object
place k v end = field k v end
place k v (field j w o) =
    if eq j k
    then field k v o
    else if lt k j
    then field k v (field j w o)
    else field j w (place k v o)

-- Inserting an undefined value removes the key.
unfoldable pub insert : Text → Json → Object → Object
unfolding place
insert k v o = if is_undefined v then remove k o else place k v o

-- The initialiser list of a `QJsonObject`.
unfoldable pub object : List (Text × Json) → Object
object [] = end
object ((k, v) ∷ ms) = insert k v (object ms)

unfoldable pub is_null_object : Object → Bool
is_null_object end = true
is_null_object (field k v o) = false
