-- ===== src/JsonEdit/Paths.antt =====
-- What a path without wildcards means in a decoded document, and what gjson and sjson do with it.
use Prim.Native.Char.{code}
use assisted_events_stream.Prelude.{
  String, ◌≡◌, ◌≢◌, Bool, true, false, ◌&&◌, ◌||◌, Option, none, some, List, [], ◌∷◌, leb, nat_eq,
}
use assisted_events_stream.Value.{Value, null, str, obj, lookup, insert, erase}
use assisted_events_stream.Types.{Codec}
use assisted_events_stream.Text
use assisted_events_stream.JsonEdit.{PathLib}

abbrev pub and_then : Option Value → (Value → Option Value) → Option Value
and_then none f = none
and_then (some v) f = f v

abbrev pub member : String → Value → Option Value
member k (obj m) = lookup k m
member k _ = none

-- The value under a list of keys.
unfoldable pub at : List String → Value → Option Value
at [] v = some v
at (k ∷ ks) v = and_then (member k v) (at ks)

abbrev pub with_member : String → Value → Value → Option Value
with_member k x (obj m) = some (obj (insert k x m))
with_member k x _ = none

-- The value with `x` put under the keys, where the objects on the way are there.
unfoldable pub put_at : List String → Value → Value → Option Value
put_at [] x v = some x
put_at (k ∷ []) x v = with_member k x v
put_at (k ∷ ks) x v =
    and_then (member k v) (λ w. and_then (put_at ks x w) (λ w'. with_member k w' v))

abbrev pub without_member : String → Value → Value
without_member k (obj m) = obj (erase k m)
without_member k v = v

abbrev pub or_value : Value → Option Value → Value
or_value v none = v
or_value v (some w) = w

-- The value with what stands under the keys taken out, if anything does.
unfoldable pub remove_at : List String → Value → Value
remove_at [] v = v
remove_at (k ∷ []) v = without_member k v
remove_at (k ∷ ks) v = or_value v (and_then (member k v) (λ w. with_member k (remove_at ks w) v))

is_plain_code : String → Bool
is_plain_code String.[] = true
is_plain_code (String.◌∷◌ c s) =
    (leb b'a' (code c) && leb (code c) b'z' || nat_eq (code c) b'_' || nat_eq (code c) b'.')
    && is_plain_code s

abbrev no_empty : List String → Bool
no_empty [] = true
no_empty (String.[] ∷ parts) = false
no_empty (String.◌∷◌ c s ∷ parts) = no_empty parts

-- A path of small letters, underscores and dots, with no empty key: the syntax that gjson and sjson
-- give to other characters, and to numbers, does not come up.
unfoldable pub is_plain : String → Bool
unfolding is_plain_code
is_plain path = is_plain_code path && no_empty (Text.split path ".")

abbrev pub keys : String → List String
keys path = Text.split path "."

-- The documented behaviour of gjson.Get, sjson.Set and sjson.Delete on such paths.
pub record IsLawful (json : Codec) (lib : PathLib) : Type 0 where
  pub get_missing :
      (doc path : String) (v : Value)
      → is_plain path ≡ true
      → json.unmarshal doc ≡ some v
      → at (keys path) v ≡ none
      → lib.get doc path ≡ none
  pub get_null :
      (doc path : String) (v : Value)
      → is_plain path ≡ true
      → json.unmarshal doc ≡ some v
      → at (keys path) v ≡ some null
      → lib.get doc path ≡ some (record { is_null = true; text = "" })
  pub get_text :
      (doc path : String) (v : Value) (s : String)
      → is_plain path ≡ true
      → json.unmarshal doc ≡ some v
      → at (keys path) v ≡ some (str s)
      → lib.get doc path ≡ some (record { is_null = false; text = s })
  pub get_raw :
      (doc path : String) (v w : Value)
      → is_plain path ≡ true
      → json.unmarshal doc ≡ some v
      → at (keys path) v ≡ some w
      → w ≢ null
      → ((s : String) → w ≢ str s)
      → (text : String) × (lib.get doc path ≡ some (record { is_null = false; text = text }))
        × (json.unmarshal text ≡ some w)
  pub set_present :
      (doc path : String) (x v v' : Value)
      → is_plain path ≡ true
      → json.unmarshal doc ≡ some v
      → put_at (keys path) x v ≡ some v'
      → (doc' : String) × (lib.set doc path x ≡ some doc') × (json.unmarshal doc' ≡ some v')
  pub delete_lem :
      (doc path : String) (v : Value)
      → is_plain path ≡ true
      → json.unmarshal doc ≡ some v
      → (doc' : String) × (lib.delete doc path ≡ some doc')
        × (json.unmarshal doc' ≡ some (remove_at (keys path) v))
