-- ===== src/Enricher/Assembly.antt =====
-- internal/projection/process/event_enricher.go: how an enriched event is put together, and the order
-- of its transformations. Errors of the steps are logged only.
use assisted_events_stream.Prelude.{ℕ, String, Option, none, some, List, [], ◌∷◌, ◌<>◌}
use assisted_events_stream.Value.{Value, obj, Fields, Map, insert, erase, to_value}
use assisted_events_stream.Types.{Codec, Float, HostsSummary, Event, EnrichedEvent}
use assisted_events_stream.Types.Decode.Enriched.{
  Decoded, decode_enriched_event, zero_enriched_event,
}
use assisted_events_stream.Types.Encode.{encode_enriched_event}
use assisted_events_stream.JsonEdit.{PathLib, delete}
use assisted_events_stream.JsonEdit.Rename.{Renamed}
use assisted_events_stream.Process.{
  slice, unpack_json, map_to_list_json_drop_key, map_to_list_json, anonymize_json,
  get_default_fields_to_unpack, get_default_fields_map_to_list_drop_key,
  get_default_fields_map_to_list, get_default_fields_to_delete,
}
use assisted_events_stream.Summary.{Counter, add_hosts_summary}
use assisted_events_stream.Enricher.{
  get_hosts_with_embedded_infra_env, get_versions_from_metadata, get_release_tag_from_metadata,
  get_props,
}

-- What the enricher calls of other libraries: the nearest float64 of a quotient, json.Unmarshal of a
-- summary, the text of `uuid.NewSHA1` and the digest of crypto/md5.
pub record Tools : Type 0 where
  pub bits : Float → ℕ
  pub decode_summary : Value → Option HostsSummary → Decoded (Option HostsSummary)
  pub new_sha1 : String → String → String
  pub md5_hex : String → String

-- The orders in which the maps are visited: a map that becomes a list, a counter of the summary, and
-- `fieldsToAnonymize` for its keys and for its pairs.
pub record Visits : Type 0 where
  pub members : Fields → Fields
  pub counter : Counter → Counter
  pub sensitive_keys : List String
  pub sensitive_paths : List (String × String)

abbrev pub namespace : String
namespace = "abcdefghilmnopqr"

-- `payload, ok := event.Payload.(map[string]interface{})`, then `delete(payload, "ID")`
unfoldable pub payload_without_id : Value → Map
payload_without_id (obj payload) = some (erase "ID" payload)
payload_without_id _ = none

abbrev pub values_of : List Map → List Value
values_of [] = []
values_of (m ∷ ms) = to_value m ∷ values_of ms

-- `cluster["hosts"] = hosts`; a nil map panics. No hosts are the nil slice of the snapshots.
abbrev pub set_hosts : Map → Option (List Map) → Option Fields
set_hosts (some cluster) (some hosts) = some (insert "hosts" (slice (values_of hosts)) cluster)
set_hosts _ _ = none

module _ (json : Codec) (lib : PathLib) (tools : Tools) (visits : Visits) where
  abbrev decode : Option Value → EnrichedEvent → Decoded EnrichedEvent
  decode = decode_enriched_event tools.decode_summary

  -- The properties, and over them what the payload says.
  unfoldable pub decode_payload : Event → Decoded EnrichedEvent
  unfolding get_props payload_without_id
  decode_payload event =
      decode (json.unmarshal (json.marshal (to_value (payload_without_id event.payload))))
        (record zero_enriched_event { properties = (get_props json event.payload).0 })

  abbrev pub with_cluster :
      Event → Option Fields → List Map → Decoded EnrichedEvent → Option (Decoded EnrichedEvent)
  with_cluster event none infra_envs decoded = none
  with_cluster event (some cluster) infra_envs (e, error) = some (
    record e {
      id = tools.new_sha1 namespace (e.message <> e.event_time);
      versions = get_versions_from_metadata event.metadata;
      release_tag = get_release_tag_from_metadata event.metadata;
      cluster = some cluster;
      infra_envs = infra_envs;
    },
    error,
  )

  -- `GetBaseEnrichedEvent`; `none` is a panic
  unfoldable pub get_base_enriched_event :
      Event → Map → List Map → List Map → Option (Decoded EnrichedEvent)
  unfolding decode_payload
  get_base_enriched_event event cluster hosts infra_envs =
      with_cluster event (set_hosts cluster (get_hosts_with_embedded_infra_env hosts infra_envs))
        infra_envs (decode_payload event)

  -- `getEnrichedEventFromJson`
  unfoldable pub get_enriched_event_from_json : String → EnrichedEvent
  get_enriched_event_from_json doc = (decode (json.unmarshal doc) zero_enriched_event).0

  -- `addHostsSummaryJson`, which never fails
  unfoldable pub add_hosts_summary_json : String → String
  unfolding get_enriched_event_from_json
  add_hosts_summary_json doc = json.marshal (
      encode_enriched_event tools.bits
        (add_hosts_summary visits.counter (get_enriched_event_from_json doc)))

  -- The document before its anonymization.
  unfoldable pub transform_json : EnrichedEvent → String
  transform_json e =
      map_to_list_json json lib visits.members
        (map_to_list_json_drop_key json lib visits.members
          (unpack_json json lib (json.marshal (encode_enriched_event tools.bits e))
            get_default_fields_to_unpack)
          get_default_fields_map_to_list_drop_key)
        get_default_fields_map_to_list

  abbrev pub after_anonymize : Renamed → Option EnrichedEvent
  after_anonymize none = none
  after_anonymize (some (doc, error)) = some (
      get_enriched_event_from_json
        (add_hosts_summary_json (delete json lib doc get_default_fields_to_delete).0))

  -- `getTransformedEvent`; `none` is a panic
  unfoldable pub get_transformed_event : EnrichedEvent → Option EnrichedEvent
  unfolding transform_json add_hosts_summary_json
  get_transformed_event e = after_anonymize (
      anonymize_json json lib tools.md5_hex (transform_json e) visits.sensitive_keys
        visits.sensitive_paths)

  abbrev pub transformed : Option (Decoded EnrichedEvent) → Option EnrichedEvent
  transformed none = none
  transformed (some (e, error)) = get_transformed_event e

  -- `GetEnrichedEvent`
  unfoldable pub get_enriched_event : Event → Map → List Map → List Map → Option EnrichedEvent
  unfolding get_base_enriched_event get_transformed_event
  get_enriched_event event cluster hosts infra_envs =
      transformed (get_base_enriched_event event cluster hosts infra_envs)
