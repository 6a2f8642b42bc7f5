-- ===== src/Json/Defs.antt =====
-- `serde_json::Value`: its data, reading by key and by type, and writing by key.
use rapid_gate.Base.{ℕ, Bool, Text, text_eq, Option, none, some, List, [], ◌∷◌, if◌then◌else◌}

pub data Number : Type 0 where
  natural : ℕ → Number
  negative : ℕ → Number
  float : ℕ → Number

mutual
  pub data Value : Type 0 where
    null : Value
    bool : Bool → Value
    number : Number → Value
    string : Text → Value
    array : Items → Value
    object : Fields → Value

  pub data Items : Type 0 where
    nil : Items
    cons : Value → Items → Items

  pub data Fields : Type 0 where
    end : Fields
    field : Text → Value → Fields → Fields

-- `Map::get`, `Map::insert`, `Map::remove`
unfoldable pub lookup : Text → Fields → Option Value
lookup k end = none
lookup k (field j v fs) = let rest = lookup k fs in if text_eq j k then some v else rest

unfoldable pub insert : Text → Value → Fields → Fields
insert k v end = field k v end
insert k v (field j w fs) =
    let rest = insert k v fs in if text_eq j k then field k v fs else field j w rest

unfoldable pub remove : Text → Fields → Fields
remove k end = end
remove k (field j w fs) = let rest = remove k fs in if text_eq j k then rest else field j w rest

-- `Value::get` by a key
unfoldable pub get : Text → Value → Option Value
get k (object fs) = lookup k fs
get k _ = none

-- `Value::as_str`, `as_bool`, `as_u64`, `as_array`
unfoldable pub as_str : Value → Option Text
as_str (string s) = some s
as_str _ = none

unfoldable pub as_bool : Value → Option Bool
as_bool (bool b) = some b
as_bool _ = none

unfoldable pub as_u64 : Value → Option ℕ
as_u64 (number (natural n)) = some n
as_u64 _ = none

abbrev pub elements : Items → List Value
elements nil = []
elements (cons v vs) = v ∷ elements vs

abbrev pub items : List Value → Items
items [] = nil
items (v ∷ vs) = cons v (items vs)

unfoldable pub as_array : Value → Option (List Value)
as_array (array vs) = some (elements vs)
as_array _ = none

-- `slice::first`
abbrev pub first {ℓ} : {A : Type ℓ} → List A → Option A
first [] = none
first (x ∷ xs) = some x

-- The object and the array that `json!` builds.
abbrev pub fields : List (Text × Value) → Fields
fields [] = end
fields ((k, v) ∷ kvs) = field k v (fields kvs)

abbrev pub json_object : List (Text × Value) → Value
json_object kvs = object (fields kvs)

abbrev pub json_array : List Value → Value
json_array vs = array (items vs)

abbrev pub json_number : ℕ → Value
json_number n = number (natural n)

-- `value[key] = v`: an object takes the entry and `null` becomes one; any other value panics, which
-- is `none`.
unfoldable pub index_set : Text → Value → Value → Option Value
index_set k v (object fs) = some (object (insert k v fs))
index_set k v null = some (object (field k v end))
index_set k v _ = none

-- `Option::unwrap_or`
abbrev pub unwrap_or {ℓ} : {A : Type ℓ} → A → Option A → A
unwrap_or a none = a
unwrap_or a (some b) = b
