-- ===== src/Enricher/Privacy.antt =====
-- What GetEnrichedEvent leaves out of the events it returns.
use mathlib.Core.Path.{subst}
use mathlib.Core.Option.{some-injective}
use assisted_events_stream.Prelude.{
  String, ◌≡◌, refl, sym, ap, ◌∙◌, Option, none, some, List, [], ◌∷◌, All, IsOneOf, All-chosen,
}
use assisted_events_stream.Value.{Value, obj, Fields, Map, entries, lookup, lookup-insert}
use assisted_events_stream.Types.{Codec, Error, Event, EnrichedEvent}
use assisted_events_stream.Text
use assisted_events_stream.JsonEdit.{PathLib, delete, is_complex_path}
use assisted_events_stream.JsonEdit.Paths.{IsLawful, is_plain}
use assisted_events_stream.JsonEdit.Deleted.{
  delete-simple, delete-complex, without_children, without_children-keeps,
}
use assisted_events_stream.JsonEdit.Invariants.{IsItems, IfAny, Kept, transform-keeps}
use assisted_events_stream.JsonEdit.Rename.{Renamed}
use assisted_events_stream.JsonEdit.Rename.Invariants.{Ends}
use assisted_events_stream.Process.{
  slice, anonymize_json, get_default_fields_to_anonymize, get_default_fields_to_delete,
}
use assisted_events_stream.Types.Decode.Enriched.{decode_enriched_event, zero_enriched_event}
use assisted_events_stream.Types.Decode.Members.{
  cluster-decode_enriched_event, infra_envs-decode_enriched_event,
}
use assisted_events_stream.Enricher.{get_hosts_with_embedded_infra_env}
use assisted_events_stream.Enricher.Assembly.{
  Tools, Visits, values_of, transformed, with_cluster, decode_payload, get_base_enriched_event,
  after_anonymize, get_transformed_event, get_enriched_event, get_enriched_event_from_json,
  set_hosts,
}
use assisted_events_stream.Enricher.Documents.{IsFine, delete-cluster_path, hosts-KeptAt}
use assisted_events_stream.Enricher.Lists.{Lacks}
use assisted_events_stream.Enricher.Defaults.{keys_of, sensitive_keys-Kept}
use assisted_events_stream.Enricher.Envs.{EnvsLack, without_children-EnvsLack, infra_envs_in-lack}
use assisted_events_stream.Enricher.Removed.{rename-user_name}
use assisted_events_stream.Enricher.Embedding.{HasTextId}
use assisted_events_stream.Enricher.Returns.{AreDefaults, get_enriched_event-returns}
use assisted_events_stream.Enricher.Sources.{get_enriched_event_from_json-add_hosts_summary_json}
use assisted_events_stream.Enricher.Transformed.{slice-IsItems, transform_json-IsFine}

-- The members of a cluster that are never indexed.
abbrev pub secrets : List String
secrets = "ssh_public_key" ∷ "pull_secret" ∷ "user_name" ∷ []

-- The cluster has none of them, and no infra-env has a key of its owner.
pub record IsPrivate (e : EnrichedEvent) : Type 0 where
  pub cluster : Lacks secrets (entries e.cluster)
  pub infra_envs : All (λ m. lookup "ssh_authorized_key" (entries m) ≡ none) e.infra_envs

module _ (json : Codec) (lib : PathLib) (lawful : IsLawful json lib) where
  delete-secrets :
      (doc : String)
      → IsFine json ("user_name" ∷ []) doc
      → (fine : IsFine json secrets (delete json lib doc get_default_fields_to_delete).0) × EnvsLack
          "ssh_authorized_key" fine.lists.envs
  unfolding get_default_fields_to_delete is_complex_path is_plain delete Text.contains Text.split
      Text.trim_dots
  delete-secrets doc fine =
      let (doc1, d1, fine1) =
        delete-cluster_path json lib lawful ("user_name" ∷ []) "pull_secret" "cluster.pull_secret"
          doc (record { plain = refl; simple = refl; split_keys = refl; not_hosts = refl }) fine in
      let (doc2, d2, fine2) =
        delete-cluster_path json lib lawful ("pull_secret" ∷ "user_name" ∷ []) "ssh_public_key"
          "cluster.ssh_public_key" doc1
          (record { plain = refl; simple = refl; split_keys = refl; not_hosts = refl }) fine1 in
      let hosts : String = ".infra_env.ssh_authorized_key" in
      let fine3 =
        without_children-keeps json lib (IsFine json secrets) doc2 "cluster.hosts" hosts
          (hosts-KeptAt json lib lawful secrets (refl, (refl, (refl, tt)))) fine2 in
      let doc3 = without_children json lib doc2 "cluster.hosts" hosts in
      let (fine4, lack) =
        without_children-EnvsLack json lib lawful secrets "ssh_authorized_key" ".ssh_authorized_key"
          doc3 refl refl fine3 in
      let envs : String = "infra_envs[*].ssh_authorized_key" in
      let complex : String = "cluster.hosts[*].infra_env.ssh_authorized_key" in
      let deleted : delete json lib doc get_default_fields_to_delete
          ≡ (without_children json lib doc3 "infra_envs" ".ssh_authorized_key", none) =
        delete-simple json lib doc doc1 "cluster.pull_secret"
          ("cluster.ssh_public_key" ∷ complex ∷ envs ∷ []) refl d1
        ∙ delete-simple json lib doc1 doc2 "cluster.ssh_public_key" (complex ∷ envs ∷ []) refl d2
        ∙ delete-complex json lib doc2 complex "cluster.hosts" hosts (envs ∷ []) refl refl refl
        ∙ delete-complex json lib doc3 envs "infra_envs" ".ssh_authorized_key" [] refl refl refl in
      subst
        (λ (r : String × Option Error).
          (fine : IsFine json secrets r.0) × EnvsLack "ssh_authorized_key" fine.lists.envs)
        (sym deleted) (fine4, lack)

  module _ (tools : Tools) (visits : Visits) where
    get_enriched_event_from_json-IsPrivate :
        (doc : String) (fine : IsFine json secrets doc)
        → EnvsLack "ssh_authorized_key" fine.lists.envs
        → IsPrivate (get_enriched_event_from_json json lib tools visits doc)
    unfolding get_enriched_event_from_json
    get_enriched_event_from_json-IsPrivate doc fine lack =
        let h = fine.lists in
        let read : get_enriched_event_from_json json lib tools visits doc
            ≡ (decode_enriched_event tools.decode_summary (some (obj h.root))
                zero_enriched_event).0 =
          ap
            (λ (o : Option Value).
              (decode_enriched_event tools.decode_summary o zero_enriched_event).0)
            (fine.decodes ∙ ap some h.is_root) in
        let cluster =
          cluster-decode_enriched_event tools.decode_summary h.cluster h.root h.sole_cluster in
        let infra_envs =
          infra_envs-decode_enriched_event tools.decode_summary h.envs h.root h.sole_envs in
        record {
          cluster = rw (read, cluster) h.lacks;
          infra_envs = rw (read, infra_envs) (infra_envs_in-lack "ssh_authorized_key" h.envs lack);
        }

    after_anonymize-IsPrivate :
        (e : EnrichedEvent) (r : Renamed)
        → Ends (IsFine json ("user_name" ∷ [])) r
        → after_anonymize json lib tools visits r ≡ some e
        → IsPrivate e
    after_anonymize-IsPrivate e none i h = cc
    after_anonymize-IsPrivate e (some (doc, error)) fine h =
        let (fine', lack) = delete-secrets doc fine in
        let doc' : String = (delete json lib doc get_default_fields_to_delete).0 in
        let private = get_enriched_event_from_json-IsPrivate doc' fine' lack in
        let same = get_enriched_event_from_json-add_hosts_summary_json json lib tools visits doc' in
        subst IsPrivate (some-injective _ _ h) (
          subst IsPrivate (sym same)
            (record { cluster = private.cluster; infra_envs = private.infra_envs }))

    module _ (empty_invalid : json.unmarshal "" ≡ none) (defaults : AreDefaults visits)
        (visited : IsOneOf visits.sensitive_paths ("cluster.user_name", "cluster.user_id")) where
      anonymize_json-Ends :
          (doc : String)
          → IsFine json [] doc
          → Ends (IsFine json ("user_name" ∷ [])) (
              anonymize_json json lib tools.md5_hex doc visits.sensitive_keys
                visits.sensitive_paths)
      unfolding anonymize_json
      anonymize_json-Ends doc fine =
          rename-user_name json lib lawful empty_invalid _ visits.sensitive_paths defaults.paths
            visited
            (transform-keeps json lib (IsFine json []) doc visits.sensitive_keys _
              (All-chosen (Kept json lib (IsFine json [])) (keys_of get_default_fields_to_anonymize)
                visits.sensitive_keys (sensitive_keys-Kept json lib lawful empty_invalid)
                defaults.keys)
              fine)

      get_transformed_event-IsPrivate :
          (e e' : EnrichedEvent) (c : Fields)
          → e.cluster ≡ some c
          → IfAny IsItems (lookup "hosts" c)
          → get_transformed_event json lib tools visits e ≡ some e'
          → IsPrivate e'
      unfolding get_transformed_event
      get_transformed_event-IsPrivate e e' c eq hosts h =
          after_anonymize-IsPrivate e' _
            (anonymize_json-Ends _
              (transform_json-IsFine json lib lawful empty_invalid tools visits e c eq hosts))
            h

      pub get_enriched_event-IsPrivate :
          (event : Event) (cluster : Map) (hosts infra_envs : List Map) (e : EnrichedEvent)
          → get_enriched_event json lib tools visits event cluster hosts infra_envs ≡ some e
          → IsPrivate e
      unfolding get_enriched_event get_base_enriched_event
      get_enriched_event-IsPrivate event cluster hosts infra_envs e h =
          by_hosts cluster (get_hosts_with_embedded_infra_env hosts infra_envs) h
        where
          by_hosts :
              (cluster : Map) (embedded : Option (List Map))
              → transformed json lib tools visits (
                  with_cluster json lib tools visits event
                    (set_hosts cluster embedded)
                    infra_envs
                    (decode_payload json lib tools visits event))
                ≡ some e
              → IsPrivate e
          by_hosts none embedded h = cc
          by_hosts (some c) none h = cc
          by_hosts (some c) (some hosts) h =
              get_transformed_event-IsPrivate _ e _ refl
                (rw (lookup-insert "hosts" "hosts" (slice (values_of hosts)) c)
                  (slice-IsItems (values_of hosts)))
                h

      -- For every event and every snapshot, if the cluster is not a nil map and the infra_env_id of
      -- every host that has one is a text: GetEnrichedEvent returns an event, whose cluster has no
      -- user_name, no pull_secret and no ssh_public_key, and whose infra-envs have no
      -- ssh_authorized_key; with lawful gjson and sjson, an empty text that is no JSON, and visits of
      -- `fieldsToAnonymize` that meet its own keys and pairs, the pair of the user_name among them.
      pub get_enriched_event-returns_private :
          (event : Event) (cluster : Fields) (hosts infra_envs : List Map)
          → All HasTextId hosts
          → (e : EnrichedEvent) × (get_enriched_event json lib tools visits event
                (some cluster)
                hosts
                infra_envs
              ≡ some e)
            × Lacks ("ssh_public_key" ∷ "pull_secret" ∷ "user_name" ∷ []) (entries e.cluster)
            × All (λ m. lookup "ssh_authorized_key" (entries m) ≡ none) e.infra_envs
      get_enriched_event-returns_private event cluster hosts infra_envs text =
          let (e, returned) =
            get_enriched_event-returns json lib lawful empty_invalid tools visits defaults event
              cluster hosts infra_envs text in
          let private =
            get_enriched_event-IsPrivate event (some cluster) hosts infra_envs e returned in
          (e, returned, private.cluster, private.infra_envs)
