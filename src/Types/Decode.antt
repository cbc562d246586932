-- ===== src/Types/Decode.antt =====
-- What json.Unmarshal does with a decoded document when the target is a map or an Event.
pub mod Enriched
pub mod ReadBack
pub mod Only
pub mod Members
use Prim.Native.Char.{code}
use assisted_events_stream.Prelude.{
  ℕ, ◌-◌, String, ◌≡◌, refl, Bool, true, false, ◌&&◌, Option, none, some, nat_eq, leb,
  if◌then◌else◌,
}
use assisted_events_stream.Value.{Value, null, bool, str, obj, Fields, end, field, insert, Map}
use assisted_events_stream.Types.{Codec, Error, failed, Event}

-- A target of type map[string]interface{} that holds an empty map: an object fills it, `null` makes
-- it nil, and anything else is an error that leaves it as it was.
unfoldable pub decode_map : Option Value → Map × Option Error
decode_map none = (some end, some (failed "syntax error"))
decode_map (some (obj m)) = (some m, none)
decode_map (some null) = (none, none)
decode_map (some _) = (some end, some (failed "cannot unmarshal into a map"))

-- Keys of an object fit a field of a struct without regard to case: ASCII letters fold, and the
-- long s and the Kelvin sign fold to the letters that they stand for.
fold_code : ℕ → ℕ
fold_code c =
    if leb b'a' c && leb c b'z'
    then c - 32
    else if nat_eq c 383
    then b'S'
    else if nat_eq c 8490
    then b'K'
    else c

unfoldable pub equal_fold : String → String → Bool
unfolding fold_code
equal_fold String.[] String.[] = true
equal_fold String.[] (String.◌∷◌ d t) = false
equal_fold (String.◌∷◌ c s) String.[] = false
equal_fold (String.◌∷◌ c s) (String.◌∷◌ d t) =
    nat_eq (fold_code (code c)) (fold_code (code d)) && equal_fold s t

-- A second object for one map field is merged into the first.
unfoldable pub merge : Fields → Fields → Fields
merge end m = m
merge m end = m
merge m (field k v n) = merge (insert k v m) n

set_name : Value → Event → Option Event
set_name (str s) e = some (record e { name = s })
set_name null e = some e
set_name _ e = none

set_metadata : Value → Event → Option Event
unfolding merge
set_metadata (obj m) e = some (record e { metadata = merge e.metadata m })
set_metadata null e = some (record e { metadata = end })
set_metadata _ e = none

decode_field : String → Value → Event → Option Event
unfolding equal_fold set_name set_metadata
decode_field k v e =
    if equal_fold k "name"
    then set_name v e
    else if equal_fold k "payload"
    then some (record e { payload = v })
    else if equal_fold k "metadata"
    then set_metadata v e
    else some e

-- The first field that does not fit makes Unmarshal return an error, and the caller drops the event.
decode_fields : Fields → Event → Option Event
unfolding decode_field
decode_fields end e = some e
decode_fields (field k v m) e = elim (decode_field k v e) [
  | none ↦ none
  | some e' ↦ decode_fields m e'
]

abbrev pub zero_event : Event
zero_event = record { name = ""; payload = null; metadata = end }

decode_event : Option Value → Option Event
unfolding decode_fields
decode_event (some (obj m)) = decode_fields m zero_event
decode_event (some null) = some zero_event
decode_event _ = none

-- `getEventFromMessage`
unfoldable pub get_event_from_message : Codec → String → Option Event
unfolding decode_event
get_event_from_message json value = decode_event (json.unmarshal value)

decode_state :
    decode_event (
      some (
        obj (
          field "Name"
            (str "ClusterState")
            (field "payload" (obj (field "id" (str "c1") end)) (field "other" (bool true) end)))))
    ≡ some (record {
      name = "ClusterState";
      payload = obj (field "id" (str "c1") end);
      metadata = end;
    })
unfolding decode_event
decode_state = refl
