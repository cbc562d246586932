-- ===== src/Projection/Queue/Items.antt =====
-- What holds of every event that the enricher returns holds of every event that waits in the queue.
use assisted_events_stream.Prelude.{
  String, ◌≡◌, refl, inl, inr, Bool-cases, true, Option, none, some, List, [], ◌∷◌, ◌==◌, All,
  All-append,
}
use assisted_events_stream.Value.{Map}
use assisted_events_stream.Types.{
  Codec, Outcome, panicked, returned, Result, ok, err, Event, EnrichedEvent, Message,
}
use assisted_events_stream.Types.Decode.{get_event_from_message}
use assisted_events_stream.Snapshot.{SnapshotRepository}
use assisted_events_stream.Projection.{
  EventEnricher, EnrichedEventRepository, World, cluster_event, get_value_from_payload, skip_event,
  store_enriched, enrich_and_store, or_return, process_cluster_event, process_event,
  process_decoded, process_message,
}
use assisted_events_stream.Projection.Queue.{
  EventQueue, enriched-after_switch, enriched-process_event,
}

-- What the enricher returns has the property.
abbrev pub AllReturned : EventEnricher → (EnrichedEvent → Type 0) → Type 0
AllReturned enricher P =
    (event : Event) (cluster : Map) (hosts infra_envs : List Map) (e : EnrichedEvent)
    → enricher.get_enriched_event event cluster hosts infra_envs ≡ some e
    → P e

-- The item of an event with the property.
abbrev pub IsItemOf :
    {R : EnrichedEventRepository} (Q : EventQueue R) → (EnrichedEvent → Type 0) → Q.Item → Type 0
IsItemOf Q P i = (e : EnrichedEvent) × (msg : Message) × (i ≡ Q.item e msg) × P e

module _ (json : Codec) (S : SnapshotRepository) (enricher : EventEnricher)
    (R : EnrichedEventRepository) (excluded : List String) (Q : EventQueue R)
    (P : EnrichedEvent → Type 0) (enriched : AllReturned enricher P) where
  abbrev AllStored : R.State → Type 0
  AllStored s = All (IsItemOf Q P) (Q.queued s)

  store-AllStored :
      (e : EnrichedEvent) (msg : Message) (s : R.State)
      → P e
      → AllStored s
      → AllStored (R.store e msg s).0
  store-AllStored e msg s p h = by_error (R.store e msg s).1 refl
    where
      by_error : (o : Outcome) → (R.store e msg s).1 ≡ o → AllStored (R.store e msg s).0
      by_error (returned none) done =
          rw (Q.store_queues e msg s done)
            (All-append (IsItemOf Q P) (Q.queued s) (Q.item e msg ∷ []) h ((e, msg, refl, p), tt))
      by_error (returned (some error)) failed = rw (Q.store_fails e msg s (λ k. cc)) h
      by_error panicked failed = rw (Q.store_fails e msg s (λ k. cc)) h

  store_enriched-AllStored :
      (o : Option EnrichedEvent) (msg : Message) (w : World S R)
      → ((e : EnrichedEvent) → o ≡ some e → P e)
      → AllStored w.enriched
      → AllStored (store_enriched json S enricher R excluded o msg w).0.enriched
  unfolding store_enriched
  store_enriched-AllStored none msg w p h = h
  store_enriched-AllStored (some e) msg w p h = store-AllStored e msg w.enriched (p e refl) h

  enrich_and_store-AllStored :
      (id : String) (event : Event) (msg : Message) (w : World S R)
      → AllStored w.enriched
      → AllStored (enrich_and_store json S enricher R excluded id event msg w).0.enriched
  unfolding enrich_and_store
  enrich_and_store-AllStored id event msg w h =
      let cluster = (S.get_cluster id w.snapshots).0 in
      elim (Bool-cases (skip_event excluded cluster)) [
        | inl skip ↦ rw skip h
        | inr go ↦
            rw go (store_enriched-AllStored _ msg w (λ e eq. enriched event cluster _ _ e eq) h)
      ]

  process_cluster_event-AllStored :
      (event : Event) (msg : Message) (w : World S R)
      → AllStored w.enriched
      → AllStored (process_cluster_event json S enricher R excluded event msg w).0.enriched
  unfolding process_cluster_event
  process_cluster_event-AllStored event msg w h =
      by_id (get_value_from_payload "cluster_id" event.payload)
    where
      by_id :
          (id : Result String)
          → AllStored
              (or_return json S enricher R excluded w id (λ cluster_id.
                enrich_and_store json S enricher R excluded cluster_id event msg w)).0.enriched
      by_id (err e) = h
      by_id (ok id) = enrich_and_store-AllStored id event msg w h

  cluster_event-process_event :
      (event : Event) (msg : Message) (w : World S R)
      → (event.name == cluster_event) ≡ true
      → (process_event json S enricher R excluded event msg w).0.enriched
        ≡ (process_cluster_event json S enricher R excluded event msg w).0.enriched
  unfolding process_event
  cluster_event-process_event event msg w e = rw e (
      enriched-after_switch json S enricher R excluded true msg
        (process_cluster_event json S enricher R excluded event msg w))

  process_event-AllStored :
      (event : Event) (msg : Message) (w : World S R)
      → AllStored w.enriched
      → AllStored (process_event json S enricher R excluded event msg w).0.enriched
  process_event-AllStored event msg w h = elim (Bool-cases (event.name == cluster_event)) [
    | inr n ↦ rw (enriched-process_event json S enricher R excluded event msg w n) h
    | inl e ↦
        rw (cluster_event-process_event event msg w e)
          (process_cluster_event-AllStored event msg w h)
  ]

  pub process_message-AllStored :
      (msg : Message) (w : World S R)
      → All (IsItemOf Q P) (Q.queued w.enriched)
      → All (IsItemOf Q P) (Q.queued (process_message json S enricher R excluded msg w).0.enriched)
  unfolding process_message process_decoded
  process_message-AllStored msg w h = by_event (get_event_from_message json msg.value)
    where
      by_event :
          (o : Option Event)
          → AllStored (process_decoded json S enricher R excluded o msg w).0.enriched
      by_event none = h
      by_event (some event) = process_event-AllStored event msg w h
