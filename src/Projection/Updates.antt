-- ===== src/Projection/Updates.antt =====
-- How each handler changes what is known of the clusters.
use assisted_events_stream.Prelude.{
  String, ◌≡◌, ◌≢◌, refl, inl, inr, Bool, true, false, Option, none, some, List, arith, ◌==◌,
  if◌then◌else◌, Bool-cases,
}
use assisted_events_stream.Value.{Value, Fields, Map, lookup, null, obj, str}
use assisted_events_stream.Types.{
  Codec, Error, malformed_event, failed, wrapped, ok, Event, Message, Outcome, returned,
}
use assisted_events_stream.Types.Decode.{get_event_from_message}
use assisted_events_stream.Snapshot.{SnapshotRepository, IsSnapshot}
use assisted_events_stream.Projection.Malformed.{HasPlainErrors, text_cases}
use assisted_events_stream.Projection.{
  EventEnricher, EnrichedEventRepository, World, cluster_event, cluster_state, host_state,
  infra_env_state, get_value_from_payload, set_snapshot, process_cluster_event,
  process_cluster_state, process_host_state, process_infra_env_state, after_switch, process_event,
  process_message,
}

-- How one message changes what is known of the cluster `c`: only a ClusterState whose payload has
-- `c` for its id does, and it replaces all.
abbrev of_id : Option Value → String → Fields → Map × Option Error → Map × Option Error
of_id (some (str id)) c m known = if id == c then (some m, none) else known
of_id _ c m known = known

abbrev of_payload : Value → String → Map × Option Error → Map × Option Error
of_payload (obj m) c known = of_id (lookup "id" m) c m known
of_payload _ c known = known

abbrev pub cluster_update : Option Event → String → Map × Option Error → Map × Option Error
cluster_update none c known = known
cluster_update (some event) c known =
    if event.name == cluster_event
    then known
    else if event.name == cluster_state
    then of_payload event.payload c known
    else known

module _ (json : Codec) (S : SnapshotRepository) (enricher : EventEnricher)
    (R : EnrichedEventRepository) (excluded : List String) where
  snapshots-after_switch :
      (b : Bool) (msg : Message) (r : World S R × Outcome)
      → (after_switch json S enricher R excluded b msg r).0.snapshots ≡ r.0.snapshots
  unfolding after_switch
  snapshots-after_switch b msg r = ground arith

  snapshots-process_cluster_event :
      (event : Event) (msg : Message) (w : World S R)
      → (process_cluster_event json S enricher R excluded event msg w).0.snapshots ≡ w.snapshots
  unfolding process_cluster_event
  snapshots-process_cluster_event event msg w = ground arith

module _ (json : Codec) (S : SnapshotRepository) (enricher : EventEnricher)
    (R : EnrichedEventRepository) (excluded : List String) (plain : HasPlainErrors S R)
    (snapshot : IsSnapshot S) where
  get_cluster-process_host_state :
      (event : Event) (w : World S R) (c : String)
      → S.get_cluster c (process_host_state json S enricher R excluded event w).0.snapshots
        ≡ S.get_cluster c w.snapshots
  unfolding process_host_state
  get_cluster-process_host_state event w c = elim (text_cases "id" event.payload) [
    | inr (p, q) ↦ rw p
    | inl (id, p, q) ↦ elim (text_cases "cluster_id" event.payload) [
      | inl (k, p', q') ↦ rw (p, p') (snapshot.get_cluster-set_host k id c (some event) w.snapshots)
      | inr (p', q') ↦ rw (p, p')
    ]
  ]

  get_cluster-process_infra_env_state :
      (event : Event) (w : World S R) (c : String)
      → S.get_cluster c (process_infra_env_state json S enricher R excluded event w).0.snapshots
        ≡ S.get_cluster c w.snapshots
  unfolding process_infra_env_state
  get_cluster-process_infra_env_state event w c = elim (text_cases "id" event.payload) [
    | inr (p, q) ↦ rw p
    | inl (id, p, q) ↦ elim (text_cases "cluster_id" event.payload) [
      | inl (k, p', q') ↦
          rw (p, p') (snapshot.get_cluster-set_infra_env k id c (some event) w.snapshots)
      | inr (p', q') ↦ rw (p, p')
    ]
  ]

  -- the handler's error is nil if a state that was well-formed gives no error
  after_switch_nil :
      (msg : Message) (w : World S R) (e : Option Error)
      → ((key : String) → e ≢ some (malformed_event key))
      → (after_switch json S enricher R excluded false msg (w, returned e)).1 ≡ returned none
      → e ≡ none
  unfolding after_switch
  after_switch_nil msg w none p h = refl
  after_switch_nil msg w (some (malformed_event key)) p h = absurd (p key refl)
  after_switch_nil msg w (some (failed k)) p h = cc
  after_switch_nil msg w (some (wrapped k e)) p h = cc

  get_cluster-process_cluster_state :
      (event : Event) (msg : Message) (w : World S R) (c : String)
      → (after_switch json S enricher R excluded false msg
          (process_cluster_state json S enricher R excluded event w)).1
        ≡ returned none
      → S.get_cluster c (process_cluster_state json S enricher R excluded event w).0.snapshots
        ≡ of_payload event.payload c (S.get_cluster c w.snapshots)
  unfolding process_cluster_state get_value_from_payload
  get_cluster-process_cluster_state event msg w c = of_value event.payload refl
    where
      of_lookup :
          (m : Fields) (o : Option Value)
          → event.payload ≡ obj m
          → lookup "id" m ≡ o
          → (after_switch json S enricher R excluded false msg
              (process_cluster_state json S enricher R excluded event w)).1
            ≡ returned none
          → S.get_cluster c (process_cluster_state json S enricher R excluded event w).0.snapshots
            ≡ of_id o c m (S.get_cluster c w.snapshots)
      of_lookup m none p q h = rw (p, q)
      of_lookup m (some (str id)) p q h =
          let read : get_value_from_payload "id" event.payload ≡ ok id = ground (arith, p, q) in
          let e : process_cluster_state json S enricher R excluded event w
              ≡ set_snapshot json S enricher R excluded w
                  (S.set_cluster id (some event) w.snapshots) =
            rw read in
          rw e (
            snapshot.get_cluster-set_cluster id c event m w.snapshots p (
              after_switch_nil msg _ _ (plain.set_cluster_plain id (some event) w.snapshots)
                (rw e at h)))
      of_lookup m (some null) p q h = rw (p, q)
      of_lookup m (some _) p q h = rw (p, q)

      of_value :
          (v : Value)
          → event.payload ≡ v
          → (after_switch json S enricher R excluded false msg
              (process_cluster_state json S enricher R excluded event w)).1
            ≡ returned none
          → S.get_cluster c (process_cluster_state json S enricher R excluded event w).0.snapshots
            ≡ of_payload v c (S.get_cluster c w.snapshots)
      of_value (obj m) p h = of_lookup m (lookup "id" m) p refl h
      of_value null p h = rw p
      of_value _ p h = rw p

  get_cluster-process_event :
      (event : Event) (msg : Message) (w : World S R) (c : String)
      → (process_event json S enricher R excluded event msg w).1 ≡ returned none
      → S.get_cluster c (process_event json S enricher R excluded event msg w).0.snapshots
        ≡ cluster_update (some event) c (S.get_cluster c w.snapshots)
  unfolding process_event
  get_cluster-process_event event msg w c h = elim (Bool-cases (event.name == cluster_event)) [
    | inl e ↦ rw (
      e,
      snapshots-after_switch json S enricher R excluded true msg _,
      snapshots-process_cluster_event json S enricher R excluded event msg w,
    )
    | inr n ↦ elim (Bool-cases (event.name == cluster_state)) [
      | inl e ↦
          rw (n, e, snapshots-after_switch json S enricher R excluded false msg _)
            (get_cluster-process_cluster_state event msg w c (rw (n, e) at h))
      | inr n' ↦ elim (Bool-cases (event.name == host_state)) [
        | inl e ↦
            rw (n, n', e, snapshots-after_switch json S enricher R excluded false msg _)
              (get_cluster-process_host_state event w c)
        | inr n2 ↦ elim (Bool-cases (event.name == infra_env_state)) [
          | inl e ↦
              rw (n, n', n2, e, snapshots-after_switch json S enricher R excluded false msg _)
                (get_cluster-process_infra_env_state event w c)
          | inr n3 ↦ rw (n, n', n2, n3)
        ]
      ]
    ]
  ]

  pub get_cluster-process_message :
      (msg : Message) (w : World S R) (c : String) (r : World S R × Outcome)
      → process_message json S enricher R excluded msg w ≡ r
      → r.1 ≡ returned none
      → S.get_cluster c r.0.snapshots
        ≡ cluster_update (get_event_from_message json msg.value) c (S.get_cluster c w.snapshots)
  unfolding process_message
  get_cluster-process_message msg w c r e h = decoded (get_event_from_message json msg.value) refl
    where
      decoded :
          (o : Option Event)
          → get_event_from_message json msg.value ≡ o
          → S.get_cluster c r.0.snapshots ≡ cluster_update o c (S.get_cluster c w.snapshots)
      decoded none d = rw (← e, d)
      decoded (some event) d =
          let handled : process_message json S enricher R excluded msg w
              ≡ process_event json S enricher R excluded event msg w =
            rw d in
          rw (← e, handled) (get_cluster-process_event event msg w c (rw (← e, handled) at h))
