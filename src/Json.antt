-- ===== src/Json.antt =====
-- JSON values as `serde_json::Value` presents them, and the accessors and literals that the source uses.
-- A number is an unsigned, a negative (`neg n` is -n) or a float; a float is its 64 bits.
use kernmini.Prelude.{
  ℕ, String, Bool, List, [], ◌∷◌, Option, none, some, ◌≡◌, refl, arith, ◌==◌, string_eq,
  if◌then◌else◌,
}

pub data Number : Type 0 where
  unsigned neg float : ℕ → Number

mutual
  pub data Value : Type 0 where
    null : Value
    bool : Bool → Value
    number : Number → Value
    string : String → Value
    array : Items → Value
    object : Fields → Value

  pub data Items : Type 0 where
    nil : Items
    cons : Value → Items → Items

  -- `serde_json::Map<String, Value>`
  pub data Fields : Type 0 where
    empty : Fields
    field : String → Value → Fields → Fields

-- `Map::get`
unfoldable pub lookup : String → Fields → Option Value
lookup k empty = none
lookup k (field j v m) = if j == k then some v else lookup k m

-- `Map::insert`
unfoldable pub insert : String → Value → Fields → Fields
insert k v empty = field k v empty
insert k v (field j w m) = if j == k then field k v m else field j w (insert k v m)

unfoldable pub fields : List (String × Value) → Fields
fields [] = empty
fields ((k, v) ∷ l) = field k v (fields l)

unfoldable pub items : List Value → Items
items [] = nil
items (v ∷ l) = cons v (items l)

unfoldable pub to_list : Items → List Value
to_list nil = []
to_list (cons v l) = v ∷ to_list l

-- `json!({ … })` and `json!([ … ])`
abbrev pub obj : List (String × Value) → Value
obj l = object (fields l)

abbrev pub arr : List Value → Value
arr l = array (items l)

abbrev pub num : ℕ → Value
num n = number (unsigned n)

-- `Value::get` with a text key
unfoldable pub get : String → Value → Option Value
unfolding lookup
get k (object m) = lookup k m
get k _ = none

abbrev pub as_object : Value → Option Fields
as_object (object m) = some m
as_object _ = none

abbrev pub as_str : Value → Option String
as_str (string s) = some s
as_str _ = none

abbrev pub as_bool : Value → Option Bool
as_bool (bool b) = some b
as_bool _ = none

abbrev pub as_array : Value → Option (List Value)
as_array (array l) = some (to_list l)
as_array _ = none

abbrev pub as_u64 : Value → Option ℕ
as_u64 (number (unsigned n)) = some n
as_u64 _ = none

-- `content[k] = v` on an object
unfoldable pub set : String → Value → Value → Value
unfolding insert
set k v (object m) = object (insert k v m)
set k v other = other

-- `v[k]` on a value: null where the key is missing
unfoldable pub index : String → Value → Value
unfolding get
index k v = elim (get k v) [ none ↦ null | some w ↦ w ]

pub lookup-insert :
    (k j : String) (v : Value) (m : Fields)
    → lookup j (insert k v m) ≡ (if k == j then some v else lookup j m)
unfolding lookup insert
lookup-insert k j v empty = refl
lookup-insert k j v (field i w m) = ground (arith, lookup-insert k j v m)
