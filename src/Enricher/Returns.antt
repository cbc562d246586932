-- ===== src/Enricher/Returns.antt =====
-- GetEnrichedEvent returns.
use assisted_events_stream.Prelude.{
  String, ◌≡◌, refl, none, some, List, [], All, IsOneOf, All-chosen,
}
use assisted_events_stream.Value.{Fields, Map, lookup, lookup-insert}
use assisted_events_stream.Types.{Codec, Event, EnrichedEvent}
use assisted_events_stream.JsonEdit.{PathLib}
use assisted_events_stream.JsonEdit.Paths.{IsLawful}
use assisted_events_stream.JsonEdit.Invariants.{IsItems, IfAny, Kept, transform-keeps}
use assisted_events_stream.JsonEdit.Rename.{Renamed}
use assisted_events_stream.JsonEdit.Rename.Invariants.{Ends, rename-keeps, KeptRename}
use assisted_events_stream.Process.{slice, anonymize_json, get_default_fields_to_anonymize}
use assisted_events_stream.Enricher.Embedding.{
  completed_hosts, HasTextId, get_hosts_with_embedded_infra_env-completed,
}
use assisted_events_stream.Enricher.Assembly.{
  Tools, Visits, values_of, get_base_enriched_event, after_anonymize, get_transformed_event,
  get_enriched_event,
}
use assisted_events_stream.Enricher.Documents.{IsFine}
use assisted_events_stream.Enricher.Defaults.{keys_of, sensitive_keys-Kept}
use assisted_events_stream.Enricher.Sensitive.{sensitive_paths-Kept}
use assisted_events_stream.Enricher.Transformed.{slice-IsItems, transform_json-IsFine}

-- The visits of `fieldsToAnonymize` meet its keys, and its pairs.
pub record AreDefaults (visits : Visits) : Type 0 where
  pub keys : All (IsOneOf (keys_of get_default_fields_to_anonymize)) visits.sensitive_keys
  pub paths : All (IsOneOf get_default_fields_to_anonymize) visits.sensitive_paths

module _ (json : Codec) (lib : PathLib) (lawful : IsLawful json lib)
    (empty_invalid : json.unmarshal "" ≡ none) (tools : Tools) (visits : Visits)
    (defaults : AreDefaults visits) where
  anonymize_json-Ends :
      (doc : String)
      → IsFine json [] doc
      → Ends
          (IsFine json [])
          (anonymize_json json lib tools.md5_hex doc visits.sensitive_keys visits.sensitive_paths)
  unfolding anonymize_json
  anonymize_json-Ends doc fine =
      rename-keeps json lib (IsFine json []) _ visits.sensitive_paths
        (All-chosen (KeptRename json lib (IsFine json [])) get_default_fields_to_anonymize
          visits.sensitive_paths (sensitive_paths-Kept json lib lawful empty_invalid [] tt tt)
          defaults.paths)
        (transform-keeps json lib (IsFine json []) doc visits.sensitive_keys _
          (All-chosen (Kept json lib (IsFine json [])) (keys_of get_default_fields_to_anonymize)
            visits.sensitive_keys (sensitive_keys-Kept json lib lawful empty_invalid) defaults.keys)
          fine)

  after_anonymize-returns :
      (r : Renamed)
      → Ends (IsFine json []) r
      → (e' : EnrichedEvent) × (after_anonymize json lib tools visits r ≡ some e')
  after_anonymize-returns none e = absurd e
  after_anonymize-returns (some (doc, error)) e = (_, refl)

  get_transformed_event-returns :
      (e : EnrichedEvent) (c : Fields)
      → e.cluster ≡ some c
      → IfAny IsItems (lookup "hosts" c)
      → (e' : EnrichedEvent) × (get_transformed_event json lib tools visits e ≡ some e')
  unfolding get_transformed_event
  get_transformed_event-returns e c eq hosts = after_anonymize-returns _ (
      anonymize_json-Ends _
        (transform_json-IsFine json lib lawful empty_invalid tools visits e c eq hosts))

  -- GetEnrichedEvent does not panic, for any event and any infra-envs, if the cluster is not a nil map
  -- and the infra_env_id of every host that has one is a text; with lawful gjson and sjson, an empty
  -- text that is no JSON, and any order of the visits of the maps.
  pub get_enriched_event-returns :
      (event : Event) (cluster : Fields) (hosts infra_envs : List Map)
      → All HasTextId hosts
      → (e : EnrichedEvent) × (get_enriched_event json lib tools visits event
            (some cluster)
            hosts
            infra_envs
          ≡ some e)
  unfolding get_enriched_event get_base_enriched_event
  get_enriched_event-returns event cluster hosts infra_envs text =
      let hosts' = values_of (completed_hosts hosts infra_envs) in
      rw (get_hosts_with_embedded_infra_env-completed hosts infra_envs text) (
        get_transformed_event-returns _ _ refl
          (rw (lookup-insert "hosts" "hosts" (slice hosts') cluster) (slice-IsItems hosts')))
