-- ===== src/Projection.antt =====
-- internal/projection/enriched_event_projection.go: what happens to each message of the stream.
-- The two repositories and the enricher are the interfaces that the source names; the channel of
-- acknowledged messages is the list of what was sent to it.
pub mod Malformed
pub mod Acks
pub mod Updates
pub mod History
pub mod Pipeline
pub mod Returns
pub mod Queue
use assisted_events_stream.Prelude.{
  ℕ, String, Bool, true, false, Option, none, some, List, [], ◌∷◌, ◌++◌, ◌==◌, ◌||◌, if◌then◌else◌,
}
use assisted_events_stream.Value.{Value, Fields, Map, entries, lookup, obj, str}
use assisted_events_stream.Types.{
  Codec, Error, malformed_event, failed, Result, ok, err, Event, EnrichedEvent, Message, Outcome,
  returned, panicked,
}
use assisted_events_stream.Types.Decode.{get_event_from_message}
use assisted_events_stream.Snapshot.{SnapshotRepository}

-- `EventEnricherInterface`; `none` is a panic.
pub record EventEnricher : Type 0 where
  pub get_enriched_event : Event → Map → List Map → List Map → Option EnrichedEvent

-- `EnrichedEventRepositoryInterface`, over an unknown state; a Store may panic.
pub record EnrichedEventRepository : Type 1 where
  pub State : Type 0
  pub store : EnrichedEvent → Message → State → State × Outcome

pub record World (S : SnapshotRepository) (R : EnrichedEventRepository) : Type 0 where
  pub snapshots : S.State
  pub enriched : R.State
  pub acks : List Message

abbrev pub cluster_event : String
cluster_event = "Event"

abbrev pub cluster_state : String
cluster_state = "ClusterState"

abbrev pub host_state : String
host_state = "HostState"

abbrev pub infra_env_state : String
infra_env_state = "InfraEnv"

abbrev pub user_name : String
user_name = "user_name"

-- `GetValueFromPayload` of internal/projection/process/utils.go
string_at : String → Option Value → Result String
string_at key (some (str value)) = ok value
string_at key _ = err (malformed_event key)

unfoldable pub get_value_from_payload : String → Value → Result String
unfolding string_at
get_value_from_payload key (obj payload) = string_at key (lookup key payload)
get_value_from_payload key _ = err (malformed_event key)

-- `slices.Contains`
unfoldable pub contains : List String → String → Bool
contains [] name = false
contains (x ∷ xs) name = x == name || contains xs name

excluded_name : List String → Option Value → Bool
excluded_name excluded (some (str name)) = contains excluded name
excluded_name excluded _ = false

-- `skipEvent`
unfoldable pub skip_event : List String → Map → Bool
unfolding excluded_name
skip_event excluded cluster = excluded_name excluded (lookup user_name (entries cluster))

module _ (json : Codec) (S : SnapshotRepository) (enricher : EventEnricher)
    (R : EnrichedEventRepository) (excluded : List String) where
  -- `ackMsg`
  unfoldable pub ack_msg : Message → World S R → World S R
  ack_msg msg w = record w { acks = w.acks ++ msg ∷ [] }

  store_enriched : Option EnrichedEvent → Message → World S R → World S R × Outcome
  store_enriched none msg w = (w, panicked)
  store_enriched (some enriched) msg w =
      let (s, outcome) = R.store enriched msg w.enriched in (record w { enriched = s }, outcome)

  -- `ProcessClusterEvent` once the cluster's id is known. Errors of the reads are logged only, and
  -- what was read beside them is used.
  enrich_and_store : String → Event → Message → World S R → World S R × Outcome
  unfolding store_enriched
  enrich_and_store cluster_id event msg w =
      let cluster = (S.get_cluster cluster_id w.snapshots).0 in
      if skip_event excluded cluster
      then (w, returned none)
      else store_enriched
          (enricher.get_enriched_event event cluster (S.get_hosts cluster_id w.snapshots).0
            (S.get_infra_envs cluster_id w.snapshots).0)
          msg w

  -- `if err != nil { return err }` after a value is read from the payload
  abbrev or_return :
      World S R → Result String → (String → World S R × Outcome) → World S R × Outcome
  or_return w (err e) next = (w, returned (some e))
  or_return w (ok value) next = next value

  unfoldable pub process_cluster_event : Event → Message → World S R → World S R × Outcome
  unfolding enrich_and_store
  process_cluster_event event msg w =
      or_return w (get_value_from_payload "cluster_id" event.payload)
        λ cluster_id. enrich_and_store cluster_id event msg w

  -- the end of each state handler: the repository's error is the handler's
  abbrev set_snapshot : World S R → S.State × Option Error → World S R × Outcome
  set_snapshot w (s, e) = (record w { snapshots = s }, returned e)

  unfoldable pub process_cluster_state : Event → World S R → World S R × Outcome
  process_cluster_state event w =
      or_return w (get_value_from_payload "id" event.payload)
        λ cluster_id. set_snapshot w (S.set_cluster cluster_id (some event) w.snapshots)

  unfoldable pub process_host_state : Event → World S R → World S R × Outcome
  process_host_state event w = or_return w (get_value_from_payload "id" event.payload) λ host_id.
      or_return w (get_value_from_payload "cluster_id" event.payload)
        λ cluster_id. set_snapshot w (S.set_host cluster_id host_id (some event) w.snapshots)

  unfoldable pub process_infra_env_state : Event → World S R → World S R × Outcome
  process_infra_env_state event w =
      or_return w (get_value_from_payload "id" event.payload) λ infra_env_id.
        or_return w (get_value_from_payload "cluster_id" event.payload) λ cluster_id.
          set_snapshot w (S.set_infra_env cluster_id infra_env_id (some event) w.snapshots)

  -- A malformed event is acknowledged and dropped; any other error is returned.
  discard_malformed : Message → World S R → Option Error → World S R × Outcome
  unfolding ack_msg
  discard_malformed msg w (some (malformed_event key)) = (ack_msg msg w, returned none)
  discard_malformed msg w e = (w, returned e)

  -- `ProcessEvent` after the switch.
  after_switch : Bool → Message → World S R × Outcome → World S R × Outcome
  unfolding discard_malformed ack_msg
  after_switch is_event msg (w, panicked) = (w, panicked)
  after_switch true msg (w, returned e) = discard_malformed msg w e
  after_switch false msg (w, returned e) = discard_malformed msg (ack_msg msg w) e

  unfoldable pub process_event : Event → Message → World S R → World S R × Outcome
  unfolding after_switch
  process_event event msg w =
      if event.name == cluster_event
      then after_switch true msg (process_cluster_event event msg w)
      else if event.name == cluster_state
      then after_switch false msg (process_cluster_state event w)
      else if event.name == host_state
      then after_switch false msg (process_host_state event w)
      else if event.name == infra_env_state
      then after_switch false msg (process_infra_env_state event w)
      else (w, returned (some (failed "unknown event name")))

  process_decoded : Option Event → Message → World S R → World S R × Outcome
  unfolding ack_msg
  process_decoded none msg w = (ack_msg msg w, returned none)
  process_decoded (some event) msg w = process_event event msg w

  unfoldable pub process_message : Message → World S R → World S R × Outcome
  unfolding process_decoded
  process_message msg w = process_decoded (get_event_from_message json msg.value) msg w
