-- ===== src/Projection/Queue.antt =====
-- internal/projection: what one message adds to the queue of enriched events.
pub mod Items
use assisted_events_stream.Prelude.{
  ℕ, ◌+◌, String, ◌≡◌, ◌≢◌, refl, sym, ap, ◌∙◌, inl, inr, Bool, true, false, ◌&&◌, Option, none,
  some, List, [], ◌∷◌, ◌++◌, arith, ◌==◌, if◌then◌else◌, replicate, Bool-cases, count, itself,
  count-append,
}
use assisted_events_stream.Types.{
  Codec, Error, malformed_event, failed, wrapped, Result, ok, err, Event, EnrichedEvent, Message,
  Outcome, returned, panicked,
}
use assisted_events_stream.Types.Decode.{get_event_from_message}
use assisted_events_stream.Snapshot.{SnapshotRepository}
use assisted_events_stream.Projection.{
  EventEnricher, EnrichedEventRepository, World, cluster_event, cluster_state, host_state,
  infra_env_state, get_value_from_payload, skip_event, store_enriched, enrich_and_store,
  process_cluster_event, process_cluster_state, process_host_state, process_infra_env_state,
  after_switch, process_event, process_decoded, process_message,
}
use assisted_events_stream.Projection.Malformed.{
  malformed_count, malformed-process_cluster_event, has_text, text_cases, HasPlainErrors,
}

-- An Event with a cluster_id.
abbrev pub is_clustered_event : Option Event → Bool
is_clustered_event none = false
is_clustered_event (some event) = event.name == cluster_event && has_text "cluster_id" event.payload

-- A repository that queues what it stores, until its bulk indexer has tried to index it.
pub record EventQueue (R : EnrichedEventRepository) : Type 1 where
  pub Item : Type 0
  pub item : EnrichedEvent → Message → Item
  pub msg_of : Item → Message
  pub queued : R.State → List Item
  pub msg_of-item : (e : EnrichedEvent) (msg : Message) → msg_of (item e msg) ≡ msg
  pub store_queues :
      (e : EnrichedEvent) (msg : Message) (s : R.State)
      → (R.store e msg s).1 ≡ returned none
      → queued (R.store e msg s).0 ≡ queued s ++ item e msg ∷ []
  pub store_fails :
      (e : EnrichedEvent) (msg : Message) (s : R.State)
      → (R.store e msg s).1 ≢ returned none
      → queued (R.store e msg s).0 ≡ queued s

module _ (json : Codec) (S : SnapshotRepository) (enricher : EventEnricher)
    (R : EnrichedEventRepository) (excluded : List String) where
  -- The message of an Event that is left out, since its cluster is of an excluded user.
  abbrev skipped_event : World S R → Message → Result String → List Message
  skipped_event w msg (err e) = []
  skipped_event w msg (ok cluster_id) =
      if skip_event excluded (S.get_cluster cluster_id w.snapshots).0 then msg ∷ [] else []

  abbrev skipped_decoded : World S R → Message → Option Event → List Message
  skipped_decoded w msg none = []
  skipped_decoded w msg (some event) =
      if event.name == cluster_event
      then skipped_event w msg (get_value_from_payload "cluster_id" event.payload)
      else []

  unfoldable pub skipped_message : World S R → Message → List Message
  skipped_message w msg = skipped_decoded w msg (get_event_from_message json msg.value)

  enriched-after_switch :
      (b : Bool) (msg : Message) (r : World S R × Outcome)
      → (after_switch json S enricher R excluded b msg r).0.enriched ≡ r.0.enriched
  unfolding after_switch
  enriched-after_switch b msg r = ground arith

  enriched-process_cluster_state :
      (event : Event) (w : World S R)
      → (process_cluster_state json S enricher R excluded event w).0.enriched ≡ w.enriched
  unfolding process_cluster_state
  enriched-process_cluster_state event w = ground arith

  enriched-process_host_state :
      (event : Event) (w : World S R)
      → (process_host_state json S enricher R excluded event w).0.enriched ≡ w.enriched
  unfolding process_host_state
  enriched-process_host_state event w = ground arith

  enriched-process_infra_env_state :
      (event : Event) (w : World S R)
      → (process_infra_env_state json S enricher R excluded event w).0.enriched ≡ w.enriched
  unfolding process_infra_env_state
  enriched-process_infra_env_state event w = ground arith

  -- A message that is no Event leaves the repository of enriched events alone.
  enriched-process_event :
      (event : Event) (msg : Message) (w : World S R)
      → (event.name == cluster_event) ≡ false
      → (process_event json S enricher R excluded event msg w).0.enriched ≡ w.enriched
  unfolding process_event
  enriched-process_event event msg w n = elim (Bool-cases (event.name == cluster_state)) [
    | inl e ↦ rw (n, e, enriched-after_switch) (enriched-process_cluster_state event w)
    | inr n1 ↦ elim (Bool-cases (event.name == host_state)) [
      | inl e ↦ rw (n, n1, e, enriched-after_switch) (enriched-process_host_state event w)
      | inr n2 ↦ elim (Bool-cases (event.name == infra_env_state)) [
        | inl e ↦
            rw (n, n1, n2, e, enriched-after_switch) (enriched-process_infra_env_state event w)
        | inr n3 ↦ rw (n, n1, n2, n3)
      ]
    ]
  ]

  module _ (Q : EventQueue R) (p : Message → Bool) (plain : HasPlainErrors S R) where
    abbrev one : Message → ℕ
    one msg = if p msg then 1 else 0

    abbrev waiting_in : World S R → ℕ
    waiting_in w = count Q.msg_of p (Q.queued w.enriched)

    queue-store_enriched :
        (e : Option EnrichedEvent) (msg : Message) (w : World S R)
        → (store_enriched json S enricher R excluded e msg w).1 ≡ returned none
        → waiting_in (store_enriched json S enricher R excluded e msg w).0 ≡ waiting_in w + one msg
    unfolding store_enriched
    queue-store_enriched none msg w h = cc
    queue-store_enriched (some e) msg w h =
        rw
          (
            Q.store_queues e msg w.enriched h,
            count-append Q.msg_of p (Q.queued w.enriched) (Q.item e msg ∷ []),
            Q.msg_of-item e msg,
          )
          (omega arith)

    queue-enrich_and_store :
        (id : String) (event : Event) (msg : Message) (w : World S R)
        → (enrich_and_store json S enricher R excluded id event msg w).1 ≡ returned none
        → waiting_in (enrich_and_store json S enricher R excluded id event msg w).0
            + count itself p (skipped_event w msg (ok id))
          ≡ waiting_in w + one msg
    unfolding enrich_and_store
    queue-enrich_and_store id event msg w h =
        elim (Bool-cases (skip_event excluded (S.get_cluster id w.snapshots).0)) [
          | inl skip ↦ rw skip (omega arith)
          | inr go ↦
              let e =
                enricher.get_enriched_event event (S.get_cluster id w.snapshots).0
                  (S.get_hosts id w.snapshots).0 (S.get_infra_envs id w.snapshots).0 in
              let stored : (store_enriched json S enricher R excluded e msg w).1 ≡ returned none =
                rw go at h in
              rw go (omega (arith, queue-store_enriched e msg w stored))
        ]

    queue-process_cluster_event :
        (event : Event) (msg : Message) (w : World S R)
        → (has_text "cluster_id" event.payload ≡ true
            → (process_cluster_event json S enricher R excluded event msg w).1 ≡ returned none)
        → waiting_in (process_cluster_event json S enricher R excluded event msg w).0
            + count itself p
                (skipped_event w msg (get_value_from_payload "cluster_id" event.payload))
          ≡ waiting_in w + (if has_text "cluster_id" event.payload then one msg else 0)
    unfolding process_cluster_event
    queue-process_cluster_event event msg w h = elim (text_cases "cluster_id" event.payload) [
      | inl (id, got, text) ↦
          let done : (enrich_and_store json S enricher R excluded id event msg w).1
              ≡ returned none =
            rw got at (h text) in
          rw (got, text) (queue-enrich_and_store id event msg w done)
      | inr (got, text) ↦ rw (got, text) (omega arith)
    ]

    after_switch-none :
        (msg : Message) (r : World S R × Outcome)
        → malformed_count r.1 ≡ 0
        → (after_switch json S enricher R excluded true msg r).1 ≡ returned none
        → r.1 ≡ returned none
    unfolding after_switch
    after_switch-none msg (w, returned none) m h = refl
    after_switch-none msg (w, returned (some (malformed_event key))) m h = absurd (omega (arith, m))
    after_switch-none msg (w, returned (some (failed k))) m h = h
    after_switch-none msg (w, returned (some (wrapped k e))) m h = h
    after_switch-none msg (w, panicked) m h = h

    queue-other_event :
        (event : Event) (msg : Message) (w : World S R)
        → (event.name == cluster_event) ≡ false
        → waiting_in (process_event json S enricher R excluded event msg w).0
            + count itself p (skipped_decoded w msg (some event))
          ≡ waiting_in w + (if is_clustered_event (some event) then one msg else 0)
    queue-other_event event msg w n = rw (n, enriched-process_event event msg w n) (omega arith)

    -- A message that the loop goes on after: as it is skipped, queued, or no Event with a cluster_id.
    queue-process_event :
        (event : Event) (msg : Message) (w : World S R)
        → (process_event json S enricher R excluded event msg w).1 ≡ returned none
        → waiting_in (process_event json S enricher R excluded event msg w).0
            + count itself p (skipped_decoded w msg (some event))
          ≡ waiting_in w + (if is_clustered_event (some event) then one msg else 0)
    unfolding process_event
    queue-process_event event msg w h = elim (Bool-cases (event.name == cluster_event)) [
      | inr n ↦ queue-other_event event msg w n
      | inl e ↦
          let r = process_cluster_event json S enricher R excluded event msg w in
          let m = malformed-process_cluster_event json S enricher R excluded plain event msg w in
          let after : (after_switch json S enricher R excluded true msg r).1 ≡ returned none =
            rw e at h in
          rw (e, enriched-after_switch true msg r)
            (queue-process_cluster_event event msg w
              (λ text. after_switch-none msg r (rw text at m) after))
    ]

    pub queue-process_message :
        (msg : Message) (w : World S R)
        → (process_message json S enricher R excluded msg w).1 ≡ returned none
        → waiting_in (process_message json S enricher R excluded msg w).0
            + count itself p (skipped_message w msg)
          ≡ waiting_in w
            + (if is_clustered_event (get_event_from_message json msg.value) then one msg else 0)
    unfolding process_message process_decoded skipped_message
    queue-process_message msg w h = decoded (get_event_from_message json msg.value) h
      where
        decoded :
            (o : Option Event)
            → (process_decoded json S enricher R excluded o msg w).1 ≡ returned none
            → waiting_in (process_decoded json S enricher R excluded o msg w).0
                + count itself p (skipped_decoded w msg o)
              ≡ waiting_in w + (if is_clustered_event o then one msg else 0)
        decoded none h = omega arith
        decoded (some event) h = queue-process_event event msg w h
