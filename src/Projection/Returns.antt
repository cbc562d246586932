-- ===== src/Projection/Returns.antt =====
-- The projection with the program's own enricher does not panic.
use assisted_events_stream.Prelude.{
  String, ◌≡◌, ◌≢◌, refl, Bool, true, false, Option, none, some, List, All, if◌then◌else◌, ◌==◌,
}
use assisted_events_stream.Value.{Fields}
use assisted_events_stream.Types.{
  Codec, malformed_event, failed, wrapped, Result, ok, err, Event, EnrichedEvent, Message, Outcome,
  returned, panicked,
}
use assisted_events_stream.Types.Decode.{get_event_from_message}
use assisted_events_stream.Snapshot.{SnapshotRepository}
use assisted_events_stream.JsonEdit.{PathLib}
use assisted_events_stream.JsonEdit.Paths
use assisted_events_stream.Enricher.Embedding.{HasTextId}
use assisted_events_stream.Enricher.Assembly.{Tools, Visits, get_enriched_event}
use assisted_events_stream.Enricher.Returns.{AreDefaults, get_enriched_event-returns}
use assisted_events_stream.Projection.{
  EventEnricher, EnrichedEventRepository, World, cluster_event, cluster_state, host_state,
  infra_env_state, get_value_from_payload, skip_event, store_enriched, enrich_and_store, or_return,
  process_cluster_event, process_cluster_state, process_host_state, process_infra_env_state,
  discard_malformed, after_switch, process_event, process_decoded, process_message,
}

-- No event that is stored makes the repository panic: its bulk indexer is not nil.
abbrev pub StoreReturns : EnrichedEventRepository → Type 0
StoreReturns R = (e : EnrichedEvent) (msg : Message) (s : R.State) → (R.store e msg s).1 ≢ panicked

module _ (json : Codec) (S : SnapshotRepository) (enricher : EventEnricher)
    (R : EnrichedEventRepository) (excluded : List String) where
  abbrev pub Returns : World S R × Outcome → Type 0
  Returns (w, returned e) = Unit
  Returns (w, panicked) = ⊥

  -- The enricher returns on the snapshots of every cluster.
  abbrev pub IsEnrichable : World S R → Type 0
  IsEnrichable w =
      (event : Event) (id : String)
      → (e : EnrichedEvent) × (enricher.get_enriched_event event (S.get_cluster id w.snapshots).0
            (S.get_hosts id w.snapshots).0 (S.get_infra_envs id w.snapshots).0
          ≡ some e)

  if-Returns :
      (b : Bool) (r r' : World S R × Outcome)
      → Returns r
      → Returns r'
      → Returns (if b then r else r')
  if-Returns true r r' h h' = h
  if-Returns false r r' h h' = h'

  outcome-Returns : (w : World S R) (o : Outcome) → o ≢ panicked → Returns (w, o)
  outcome-Returns w (returned e) h = tt
  outcome-Returns w panicked h = absurd (h refl)

  store_enriched-Returns :
      StoreReturns R
      → (o : Option EnrichedEvent) (msg : Message) (w : World S R)
      → (e : EnrichedEvent) × (o ≡ some e)
      → Returns (store_enriched json S enricher R excluded o msg w)
  unfolding store_enriched
  store_enriched-Returns stores none msg w (e, eq) = cc
  store_enriched-Returns stores (some enriched) msg w h =
      outcome-Returns (record w { enriched = (R.store enriched msg w.enriched).0 })
        (R.store enriched msg w.enriched).1 (stores enriched msg w.enriched)

  enrich_and_store-Returns :
      StoreReturns R
      → (id : String) (event : Event) (msg : Message) (w : World S R) → IsEnrichable w
      → Returns (enrich_and_store json S enricher R excluded id event msg w)
  unfolding enrich_and_store
  enrich_and_store-Returns stores id event msg w h =
      if-Returns (skip_event excluded (S.get_cluster id w.snapshots).0) _ _ tt
        (store_enriched-Returns stores _ msg w (h event id))

  or_return-Returns :
      (w : World S R) (r : Result String) (next : String → World S R × Outcome)
      → ((value : String) → Returns (next value))
      → Returns (or_return json S enricher R excluded w r next)
  or_return-Returns w (err e) next h = tt
  or_return-Returns w (ok value) next h = h value

  after_switch-Returns :
      (is_event : Bool) (msg : Message) (r : World S R × Outcome)
      → Returns r
      → Returns (after_switch json S enricher R excluded is_event msg r)
  unfolding after_switch discard_malformed
  after_switch-Returns b msg (w, panicked) h = absurd h
  after_switch-Returns true msg (w, returned none) h = tt
  after_switch-Returns true msg (w, returned (some (malformed_event key))) h = tt
  after_switch-Returns true msg (w, returned (some (failed s))) h = tt
  after_switch-Returns true msg (w, returned (some (wrapped s e))) h = tt
  after_switch-Returns false msg (w, returned none) h = tt
  after_switch-Returns false msg (w, returned (some (malformed_event key))) h = tt
  after_switch-Returns false msg (w, returned (some (failed s))) h = tt
  after_switch-Returns false msg (w, returned (some (wrapped s e))) h = tt

  process_event-Returns :
      StoreReturns R
      → (event : Event) (msg : Message) (w : World S R) → IsEnrichable w
      → Returns (process_event json S enricher R excluded event msg w)
  unfolding process_event process_cluster_event process_cluster_state process_host_state
      process_infra_env_state
  process_event-Returns stores event msg w h =
      if-Returns (event.name == cluster_event) _ _
        (after_switch-Returns true msg _ (
          or_return-Returns w (get_value_from_payload "cluster_id" event.payload) _
            (λ id. enrich_and_store-Returns stores id event msg w h)))
        (if-Returns (event.name == cluster_state) _ _
          (after_switch-Returns false msg _
            (or_return-Returns w (get_value_from_payload "id" event.payload) _ (λ id. tt)))
          (if-Returns (event.name == host_state) _ _
            (after_switch-Returns false msg _ (
              or_return-Returns w (get_value_from_payload "id" event.payload) _ (λ id.
                or_return-Returns w (get_value_from_payload "cluster_id" event.payload) _
                  (λ c. tt))))
            (if-Returns (event.name == infra_env_state) _ _
              (after_switch-Returns false msg _ (
                or_return-Returns w (get_value_from_payload "id" event.payload) _ (λ id.
                  or_return-Returns w (get_value_from_payload "cluster_id" event.payload) _
                    (λ c. tt))))
              tt)))

  process_decoded-Returns :
      StoreReturns R
      → (event : Option Event) (msg : Message) (w : World S R) → IsEnrichable w
      → Returns (process_decoded json S enricher R excluded event msg w)
  unfolding process_decoded
  process_decoded-Returns stores none msg w h = tt
  process_decoded-Returns stores (some event) msg w h = process_event-Returns stores event msg w h

  pub process_message-Returns :
      StoreReturns R
      → (msg : Message) (w : World S R) → IsEnrichable w
      → Returns (process_message json S enricher R excluded msg w)
  unfolding process_message
  process_message-Returns stores msg w h =
      process_decoded-Returns stores (get_event_from_message json msg.value) msg w h

-- The program's enricher, as the projection takes it.
abbrev pub new_event_enricher : Codec → PathLib → Tools → Visits → EventEnricher
new_event_enricher json lib tools visits = record {
  get_enriched_event = get_enriched_event json lib tools visits;
}

module _ (json : Codec) (lib : PathLib) (lawful : Paths.IsLawful json lib)
    (empty_invalid : json.unmarshal "" ≡ none) (tools : Tools) (visits : Visits)
    (defaults : AreDefaults visits) (S : SnapshotRepository) (R : EnrichedEventRepository)
    (excluded : List String) where
  -- With the program's own enricher, lawful gjson and sjson, an empty text that is no JSON, and any
  -- order of the visits of the maps: if Store does not panic, no cluster reads as a nil map from the snapshots, and the
  -- infra_env_id of every host there that has one is a text, no message makes the projection panic,
  -- whatever the message says.
  pub process_message-no_panic :
      StoreReturns R
      → (msg : Message) (w : World S R)
      → ((id : String) → (m : Fields) × ((S.get_cluster id w.snapshots).0 ≡ some m))
      → ((id : String) → All HasTextId (S.get_hosts id w.snapshots).0)
      → Returns json S
          (new_event_enricher json lib tools visits)
          R
          excluded
          (process_message json S (new_event_enricher json lib tools visits) R excluded msg w)
  process_message-no_panic stores msg w clusters text =
      process_message-Returns json S (new_event_enricher json lib tools visits) R excluded stores
        msg w
        (λ event id.
          let (m, cluster) = clusters id in
          rw cluster (
            get_enriched_event-returns json lib lawful empty_invalid tools visits defaults event m
              (S.get_hosts id w.snapshots).0 (S.get_infra_envs id w.snapshots).0 (text id)))
