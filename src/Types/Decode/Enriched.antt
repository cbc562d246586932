-- ===== src/Types/Decode/Enriched.antt =====
-- json.Unmarshal into an EnrichedEvent, by the tags of internal/types: a member that does not fit is
-- skipped, and the first such error is returned when all members are read.
use assisted_events_stream.Prelude.{String, Option, none, some, List, [], ◌∷◌, if◌then◌else◌}
use assisted_events_stream.Value.{
  Value, null, str, obj, arr, Items, nil, cons, Fields, end, field, Map, entries,
}
use assisted_events_stream.Types.{Error, failed, HostsSummary, EnrichedEvent}
use assisted_events_stream.Types.Decode.{equal_fold, merge}

-- What a target holds afterwards, and the error.
abbrev pub Decoded : Type 0 → Type 0
Decoded A = A × Option Error

abbrev pub misfit : Option Error
misfit = some (failed "cannot unmarshal into the field")

abbrev pub decode_text : Value → String → Decoded String
decode_text (str s) old = (s, none)
decode_text null old = (old, none)
decode_text _ old = (old, misfit)

-- The members of an object are set in the map that the target holds, or in a new one.
abbrev pub decode_into_map : Value → Map → Decoded Map
decode_into_map (obj m) old = (some (merge (entries old) m), none)
decode_into_map null old = (none, none)
decode_into_map _ old = (old, misfit)

abbrev pub first_error : Option Error → Option Error → Option Error
first_error none e = e
first_error (some e) _ = some e

abbrev add_element : Decoded Map → Decoded (List Map) → Decoded (List Map)
add_element (m, e) (ms, e') = (m ∷ ms, first_error e e')

-- The elements are decoded into those that the slice holds, as far as it reaches.
unfoldable pub decode_elements : List Map → Items → Decoded (List Map)
unfolding merge
decode_elements old nil = ([], none)
decode_elements [] (cons v vs) = add_element (decode_into_map v none) (decode_elements [] vs)
decode_elements (m ∷ old) (cons v vs) = add_element (decode_into_map v m) (decode_elements old vs)

abbrev pub decode_list : Value → List Map → Decoded (List Map)
decode_list (arr vs) old = decode_elements old vs
decode_list null old = ([], none)
decode_list _ old = (old, misfit)

-- A nil pointer is allocated before the literal is looked at.
abbrev allocated : Option String → Option String
allocated none = some ""
allocated (some s) = some s

abbrev pub decode_pointer : Value → Option String → Decoded (Option String)
decode_pointer (str s) old = (some s, none)
decode_pointer null old = (none, none)
decode_pointer _ old = (allocated old, misfit)

abbrev decode_prop : Decoded Map → Option Error → Decoded Map
decode_prop (m, e') e = (m, first_error e e')

-- the fields of an EmbeddedEvent
unfoldable pub decode_props : Fields → Map → Option Error → Decoded Map
unfolding equal_fold merge
decode_props end old e = (old, e)
decode_props (field k v m) old e =
    let (props, e') =
      if equal_fold k "props" then decode_prop (decode_into_map v old) e else (old, e) in
    decode_props m props e'

abbrev pub decode_embedded : Value → Map → Decoded Map
decode_embedded (obj m) old = decode_props m old none
decode_embedded null old = (old, none)
decode_embedded _ old = (old, misfit)

-- `decode_summary` is json.Unmarshal into the pointer to a HostsSummary.
module _ (decode_summary : Value → Option HostsSummary → Decoded (Option HostsSummary)) where
  unfoldable pub decode_member : String → Value → EnrichedEvent → Decoded EnrichedEvent
  unfolding equal_fold merge decode_elements decode_props
  decode_member k v t =
      if equal_fold k "id"
      then (let (s, e) = decode_text v t.id in (record t { id = s }, e))
      else if equal_fold k "message"
      then (let (s, e) = decode_text v t.message in (record t { message = s }, e))
      else if equal_fold k "category"
      then (let (s, e) = decode_text v t.category in (record t { category = s }, e))
      else if equal_fold k "cluster_id"
      then (let (s, e) = decode_text v t.cluster_id in (record t { cluster_id = s }, e))
      else if equal_fold k "event_time"
      then (let (s, e) = decode_text v t.event_time in (record t { event_time = s }, e))
      else if equal_fold k "host_summary"
      then (let (s, e) = decode_summary v t.hosts_summary in (record t { hosts_summary = s }, e))
      else if equal_fold k "name"
      then (let (s, e) = decode_text v t.name in (record t { name = s }, e))
      else if equal_fold k "request_id"
      then (let (s, e) = decode_text v t.request_id in (record t { request_id = s }, e))
      else if equal_fold k "severity"
      then (let (s, e) = decode_text v t.severity in (record t { severity = s }, e))
      else if equal_fold k "event"
      then (let (m, e) = decode_embedded v t.properties in (record t { properties = m }, e))
      else if equal_fold k "cluster"
      then (let (m, e) = decode_into_map v t.cluster in (record t { cluster = m }, e))
      else if equal_fold k "infra_envs"
      then (let (ms, e) = decode_list v t.infra_envs in (record t { infra_envs = ms }, e))
      else if equal_fold k "versions"
      then (let (m, e) = decode_into_map v t.versions in (record t { versions = m }, e))
      else if equal_fold k "release_tag"
      then (let (s, e) = decode_pointer v t.release_tag in (record t { release_tag = s }, e))
      else (t, none)

  unfoldable pub decode_members : Fields → EnrichedEvent → Option Error → Decoded EnrichedEvent
  unfolding decode_member
  decode_members end t e = (t, e)
  decode_members (field k v m) t e =
      let (t', e') = decode_member k v t in decode_members m t' (first_error e e')

  unfoldable pub decode_enriched_event : Option Value → EnrichedEvent → Decoded EnrichedEvent
  unfolding decode_members
  decode_enriched_event none t = (t, some (failed "syntax error"))
  decode_enriched_event (some (obj m)) t = decode_members m t none
  decode_enriched_event (some null) t = (t, none)
  decode_enriched_event (some _) t = (t, misfit)

abbrev pub zero_enriched_event : EnrichedEvent
zero_enriched_event = record {
  id = "";
  message = "";
  category = "";
  cluster_id = "";
  event_time = "";
  hosts_summary = none;
  name = "";
  request_id = "";
  severity = "";
  properties = none;
  cluster = none;
  infra_envs = [];
  versions = none;
  release_tag = none;
}
