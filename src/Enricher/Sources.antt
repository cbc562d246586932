-- ===== src/Enricher/Sources.antt =====
-- Where the parts of an enriched event come from.
use assisted_events_stream.Prelude.{
  String, ◌≡◌, refl, ap, ◌∙◌, Option, none, some, List, All, ◌<>◌, ◌==◌, if◌then◌else◌,
}
use assisted_events_stream.Value.{Value, Fields, Map, entries, lookup, lookup-insert}
use assisted_events_stream.Types.{Codec, Error, Event, EnrichedEvent}
use assisted_events_stream.Types.Encode.{encode_enriched_event, encode_hosts_summary}
use assisted_events_stream.Types.Decode.Enriched.{
  Decoded, decode_enriched_event, zero_enriched_event,
}
use assisted_events_stream.Types.Decode.ReadBack.{
  omitted, decode_enriched_event-encode_enriched_event,
}
use assisted_events_stream.JsonEdit.{PathLib}
use assisted_events_stream.Process.{slice}
use assisted_events_stream.Summary.{summary_of, add_hosts_summary}
use assisted_events_stream.Enricher.{get_versions_from_metadata, get_release_tag_from_metadata}
use assisted_events_stream.Enricher.Embedding.{
  completed_hosts, HasTextId, get_hosts_with_embedded_infra_env-completed,
}
use assisted_events_stream.Enricher.Assembly.{
  Tools, Visits, namespace, values_of, set_hosts, with_cluster, decode_payload,
  get_base_enriched_event, get_enriched_event_from_json, add_hosts_summary_json,
}

module _ (json : Codec) (lib : PathLib) (tools : Tools) (visits : Visits) where
  -- If the cluster is not a nil map and the infra_env_id of every host that has one is a text, the base
  -- event exists, whatever the payload says: its cluster is the given one with the completed hosts for
  -- its hosts, its infra-envs are the given ones, its versions and its release tag are those of the
  -- metadata, and its identifier is the digest of its own message and time, which with its name are
  -- what the payload decodes to.
  pub get_base_enriched_event-completed :
      (event : Event) (cluster : Fields) (hosts infra_envs : List Map)
      → All HasTextId hosts
      → (e : EnrichedEvent) × (error : Option Error) × (get_base_enriched_event json lib tools
            visits event
            (some cluster)
            hosts
            infra_envs
          ≡ some (e, error))
        × ((k : String)
            → lookup k (entries e.cluster) ≡ (
                if "hosts" == k
                then some (slice (values_of (completed_hosts hosts infra_envs)))
                else lookup k cluster))
        × (e.infra_envs ≡ infra_envs)
        × (e.versions ≡ get_versions_from_metadata event.metadata)
        × (e.release_tag ≡ get_release_tag_from_metadata event.metadata)
        × (e.id ≡ tools.new_sha1 namespace (e.message <> e.event_time))
        × (e.message ≡ (decode_payload json lib tools visits event).0.message)
        × (e.event_time ≡ (decode_payload json lib tools visits event).0.event_time)
        × (e.name ≡ (decode_payload json lib tools visits event).0.name)
  unfolding get_base_enriched_event
  get_base_enriched_event-completed event cluster hosts infra_envs text = (
    _,
    _,
    ap
        (λ (embedded : Option (List Map)).
          with_cluster json lib tools visits event (set_hosts (some cluster) embedded) infra_envs
            (decode_payload json lib tools visits event))
        (get_hosts_with_embedded_infra_env-completed hosts infra_envs text),
    λ k. lookup-insert k "hosts" (slice (values_of (completed_hosts hosts infra_envs))) cluster,
    refl,
    refl,
    refl,
    refl,
    refl,
    refl,
    refl,
  )

  get_enriched_event_from_json-marshal :
      (v : Value)
      → get_enriched_event_from_json json lib tools visits (json.marshal v)
        ≡ (decode_enriched_event tools.decode_summary (some v) zero_enriched_event).0
  unfolding get_enriched_event_from_json
  get_enriched_event_from_json-marshal v =
      ap
        (λ (o : Option Value). (decode_enriched_event tools.decode_summary o zero_enriched_event).0)
        (json.unmarshal-marshal v)

  -- For every document: the event that is read after addHostsSummaryJson is the one read before, with
  -- the summary of its own hosts, as it is written and read again, in place of what the document said,
  -- and with a nil map for properties without entries; nothing else changes.
  pub get_enriched_event_from_json-add_hosts_summary_json :
      (doc : String)
      → get_enriched_event_from_json json lib tools visits
          (add_hosts_summary_json json lib tools visits doc)
        ≡ (let e = get_enriched_event_from_json json lib tools visits doc in
            record e {
              properties = omitted e.properties;
              hosts_summary =
                  (tools.decode_summary
                    (encode_hosts_summary tools.bits (some (summary_of visits.counter e)))
                    none).0;
            })
  unfolding add_hosts_summary_json add_hosts_summary
  get_enriched_event_from_json-add_hosts_summary_json doc =
      let e = get_enriched_event_from_json json lib tools visits doc in
      get_enriched_event_from_json-marshal
        (encode_enriched_event tools.bits (add_hosts_summary visits.counter e))
      ∙ ap (λ (d : Decoded EnrichedEvent). d.0)
          (decode_enriched_event-encode_enriched_event tools.decode_summary tools.bits
            (add_hosts_summary visits.counter e))
