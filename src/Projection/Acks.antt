-- ===== src/Projection/Acks.antt =====
-- Which messages are acknowledged, how often, and what is returned.
use mathlib.Core.List.{append_assoc, append-nil}
use assisted_events_stream.Prelude.{
  ℕ, suc, String, ◌≡◌, ◌≢◌, refl, inl, inr, Bool, true, false, ◌&&◌, ◌||◌, Option, none, some, List,
  ◌++◌, arith, ◌==◌, if◌then◌else◌, replicate, Bool-cases,
}
use assisted_events_stream.Types.{
  Codec, malformed_event, failed, wrapped, Event, Message, Outcome, returned, panicked,
}
use assisted_events_stream.Types.Decode.{get_event_from_message}
use assisted_events_stream.Snapshot.{SnapshotRepository}
use assisted_events_stream.Projection.Malformed.{
  has_text, malformed_count, Returns, HasPlainErrors, malformed-process_cluster_state,
  malformed-process_host_state, malformed-process_infra_env_state, malformed-process_cluster_event,
}
use assisted_events_stream.Projection.{
  EventEnricher, EnrichedEventRepository, World, cluster_event, cluster_state, host_state,
  infra_env_state, process_cluster_event, process_cluster_state, process_host_state,
  process_infra_env_state, after_switch, process_event, process_message,
}

-- How often a message is sent to the channel, by what it decodes to.
abbrev pub acks_due : Option Event → ℕ
acks_due none = 1
acks_due (some event) =
    if event.name == cluster_event
    then (if has_text "cluster_id" event.payload then 0 else 1)
    else if event.name == cluster_state
    then (if has_text "id" event.payload then 1 else 2)
    else if event.name == host_state || event.name == infra_env_state
    then (if has_text "id" event.payload && has_text "cluster_id" event.payload then 1 else 2)
    else 0

module _ (json : Codec) (S : SnapshotRepository) (enricher : EventEnricher)
    (R : EnrichedEventRepository) (excluded : List String) where
  acks-after_switch_event :
      (msg : Message) (r : World S R × Outcome)
      → (after_switch json S enricher R excluded true msg r).0.acks
        ≡ r.0.acks ++ replicate (malformed_count r.1) msg
  unfolding after_switch
  acks-after_switch_event msg (w, panicked) = rw append-nil
  acks-after_switch_event msg (w, returned none) = rw append-nil
  acks-after_switch_event msg (w, returned (some (malformed_event k))) = refl
  acks-after_switch_event msg (w, returned (some (failed k))) = rw append-nil
  acks-after_switch_event msg (w, returned (some (wrapped k e))) = rw append-nil

  acks-after_switch_state :
      (msg : Message) (r : World S R × Outcome)
      → Returns r.1
      → (after_switch json S enricher R excluded false msg r).0.acks
        ≡ r.0.acks ++ replicate (suc (malformed_count r.1)) msg
  unfolding after_switch
  acks-after_switch_state msg (w, panicked) h = absurd h
  acks-after_switch_state msg (w, returned none) h = refl
  acks-after_switch_state msg (w, returned (some (malformed_event k))) h = rw append_assoc
  acks-after_switch_state msg (w, returned (some (failed k))) h = refl
  acks-after_switch_state msg (w, returned (some (wrapped k e))) h = refl

  after_switch-not_malformed :
      (b : Bool) (msg : Message) (r : World S R × Outcome) (key : String)
      → (after_switch json S enricher R excluded b msg r).1 ≢ returned (some (malformed_event key))
  unfolding after_switch
  after_switch-not_malformed b msg r key h = ground arith

  -- Processing a message never returns a MalformedEventError, whatever the repositories return.
  pub process_message-not_malformed :
      (msg : Message) (w : World S R) (key : String)
      → (process_message json S enricher R excluded msg w).1 ≢ returned (some (malformed_event key))
  unfolding process_message process_event after_switch
  process_message-not_malformed msg w key h = ground arith

  acks-process_cluster_state :
      (event : Event) (w : World S R)
      → (process_cluster_state json S enricher R excluded event w).0.acks ≡ w.acks
  unfolding process_cluster_state
  acks-process_cluster_state event w = ground arith

  acks-process_cluster_event :
      (event : Event) (msg : Message) (w : World S R)
      → (process_cluster_event json S enricher R excluded event msg w).0.acks ≡ w.acks
  unfolding process_cluster_event
  acks-process_cluster_event event msg w = ground arith

  acks-process_host_state :
      (event : Event) (w : World S R)
      → (process_host_state json S enricher R excluded event w).0.acks ≡ w.acks
  unfolding process_host_state
  acks-process_host_state event w = ground arith

  acks-process_infra_env_state :
      (event : Event) (w : World S R)
      → (process_infra_env_state json S enricher R excluded event w).0.acks ≡ w.acks
  unfolding process_infra_env_state
  acks-process_infra_env_state event w = ground arith

module _ (json : Codec) (S : SnapshotRepository) (enricher : EventEnricher)
    (R : EnrichedEventRepository) (excluded : List String) (plain : HasPlainErrors S R) where
  acks_of_state :
      (msg : Message) (complete : Bool) (r : World S R × Outcome) (acks : List Message)
      → r.0.acks ≡ acks
      → Returns r.1 × (malformed_count r.1 ≡ (if complete then 0 else 1))
      → (after_switch json S enricher R excluded false msg r).0.acks
        ≡ acks ++ replicate (if complete then 1 else 2) msg
  acks_of_state msg true r acks kept h =
      rw (acks-after_switch_state json S enricher R excluded msg r h.0, kept, h.1)
  acks_of_state msg false r acks kept h =
      rw (acks-after_switch_state json S enricher R excluded msg r h.0, kept, h.1)

  acks-process_event :
      (event : Event) (msg : Message) (w : World S R)
      → (process_event json S enricher R excluded event msg w).0.acks
        ≡ w.acks ++ replicate (acks_due (some event)) msg
  unfolding process_event
  acks-process_event event msg w = elim (Bool-cases (event.name == cluster_event)) [
    | inl e ↦
        let r = process_cluster_event json S enricher R excluded event msg w in
        rw (
          e,
          acks-after_switch_event json S enricher R excluded msg r,
          acks-process_cluster_event json S enricher R excluded event msg w,
          malformed-process_cluster_event json S enricher R excluded plain event msg w,
        )
    | inr n ↦ elim (Bool-cases (event.name == cluster_state)) [
      | inl e ↦
          rw (n, e)
            (acks_of_state msg (has_text "id" event.payload)
              (process_cluster_state json S enricher R excluded event w) w.acks
              (acks-process_cluster_state json S enricher R excluded event w)
              (malformed-process_cluster_state json S enricher R excluded plain event w))
      | inr n' ↦ elim (Bool-cases (event.name == host_state)) [
        | inl e ↦
            rw (n, n', e)
              (acks_of_state msg
                (has_text "id" event.payload && has_text "cluster_id" event.payload)
                (process_host_state json S enricher R excluded event w) w.acks
                (acks-process_host_state json S enricher R excluded event w)
                (malformed-process_host_state json S enricher R excluded plain event w))
        | inr n2 ↦ elim (Bool-cases (event.name == infra_env_state)) [
          | inl e ↦
              rw (n, n', n2, e)
                (acks_of_state msg
                  (has_text "id" event.payload && has_text "cluster_id" event.payload)
                  (process_infra_env_state json S enricher R excluded event w) w.acks
                  (acks-process_infra_env_state json S enricher R excluded event w)
                  (malformed-process_infra_env_state json S enricher R excluded plain event w))
          | inr n3 ↦ rw (n, n', n2, n3, append-nil)
        ]
      ]
    ]
  ]

  -- If no repository returns a MalformedEventError of its own, then for every message, the messages
  -- acknowledged before it stay as they are, and the message itself is added as often as `acks_due`
  -- says: once if it does not decode; for an Event, once if it has
  -- no cluster_id, and otherwise not at all; for a state, once, but twice if an identifier of its
  -- payload is missing; and for an unknown name not at all.
  pub acks-process_message :
      (msg : Message) (w : World S R)
      → (process_message json S enricher R excluded msg w).0.acks
        ≡ w.acks ++ replicate (acks_due (get_event_from_message json msg.value)) msg
  unfolding process_message
  acks-process_message msg w = decoded (get_event_from_message json msg.value) refl
    where
      decoded :
          (o : Option Event)
          → get_event_from_message json msg.value ≡ o
          → (process_message json S enricher R excluded msg w).0.acks
            ≡ w.acks ++ replicate (acks_due o) msg
      decoded none h = rw h
      decoded (some event) h = rw h (acks-process_event event msg w)
