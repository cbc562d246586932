-- ===== src/Value.antt =====
-- The values that Go code holds in an `interface{}` after encoding/json has decoded a document:
-- nil, bool, float64, string, []interface{} and map[string]interface{}.
-- A float64 is the number that its 64 bits spell. A map is an association list: reading a key gives
-- its first entry, and writing a key keeps one entry of it.
use assisted_events_stream.Prelude.{
  ℕ, String, ◌≡◌, refl, Bool, Option, none, some, List, [], ◌∷◌, arith, ◌==◌, eq_iff, if◌then◌else◌,
}

mutual
  pub data Value : Type 0 where
    null : Value
    bool : Bool → Value
    num : ℕ → Value
    str : String → Value
    obj : Fields → Value
    arr : Items → Value

  pub data Items : Type 0 where
    nil : Items
    cons : Value → Items → Items

  pub data Fields : Type 0 where
    end : Fields
    field : String → Value → Fields → Fields

-- `m[k]` with its `ok`.
unfoldable pub lookup : String → Fields → Option Value
lookup k end = none
lookup k (field j v m) = if j == k then some v else lookup k m

-- `m[k] = v`
unfoldable pub insert : String → Value → Fields → Fields
insert k v end = field k v end
insert k v (field j w m) = if j == k then field k v m else field j w (insert k v m)

-- `delete(m, k)`
unfoldable pub erase : String → Fields → Fields
erase k end = end
erase k (field j v m) = let rest = erase k m in if j == k then rest else field j v rest

pub lookup-insert :
    (j k : String) (v : Value) (m : Fields)
    → lookup j (insert k v m) ≡ (if k == j then some v else lookup j m)
unfolding lookup insert
lookup-insert j k v end = refl
lookup-insert j k v (field i w m) =
    ground (arith, eq_iff k j, eq_iff i k, eq_iff i j, lookup-insert j k v m)

pub lookup-erase :
    (j k : String) (m : Fields) → lookup j (erase k m) ≡ (if k == j then none else lookup j m)
unfolding lookup erase
lookup-erase j k end = ground arith
lookup-erase j k (field i w m) =
    ground (arith, eq_iff k j, eq_iff i k, eq_iff i j, lookup-erase j k m)

-- `v.(string)`, `v.([]interface{})` and `v.(map[string]interface{})` with their `ok`.
abbrev pub as_string : Value → Option String
as_string (str s) = some s
as_string _ = none

-- A variable of type map[string]interface{}: `none` is the nil map, which reads as an empty one.
abbrev pub Map : Type 0
Map = Option Fields

abbrev pub entries : Map → Fields
entries none = end
entries (some m) = m

-- A map as an `interface{}`: a nil one is written as null.
abbrev pub to_value : Map → Value
to_value none = null
to_value (some m) = obj m

abbrev pub as_map : Value → Option Fields
as_map (obj m) = some m
as_map _ = none

abbrev pub to_list : Items → List Value
to_list nil = []
to_list (cons v vs) = v ∷ to_list vs

abbrev pub from_list : List Value → Items
from_list [] = nil
from_list (v ∷ vs) = cons v (from_list vs)

abbrev pub as_list : Value → Option (List Value)
as_list (arr vs) = some (to_list vs)
as_list _ = none

pub to_list-from_list : (vs : List Value) → to_list (from_list vs) ≡ vs
to_list-from_list [] = refl
to_list-from_list (v ∷ vs) = cc (to_list-from_list vs)
