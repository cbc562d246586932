-- ===== src/Tests/Streams.antt =====
-- Runs of the projection's theorems.
use mathlib.Core.List.{Memᴰ}
use assisted_events_stream.Prelude.{
  String, ◌≡◌, ◌≢◌, refl, false, none, some, [], ◌∷◌, ◌++◌, replicate,
}
use assisted_events_stream.Value.{str, obj, Fields, end, field, lookup, entries}
use assisted_events_stream.Types.{Event, EnrichedEvent, Message, returned, malformed_event}
use assisted_events_stream.Types.Decode.{get_event_from_message}
use assisted_events_stream.Snapshot.{
  get_infra_envs_hkey, get_clusters_hkey, event_bytes, new_snapshot_repository, set_cluster, hset,
  get_cluster, get_hosts, get_infra_envs, read_all,
}
use assisted_events_stream.Stream.Reader.{waiting, consume, fetched_all}
use assisted_events_stream.Projection.{
  contains, World, process_event, process_cluster_state, get_value_from_payload, process_message,
  skip_event, user_name,
}
use assisted_events_stream.Projection.Acks.{
  acks_due, acks-process_message, process_message-not_malformed,
}
use assisted_events_stream.Projection.History.{cluster_after, consume-cluster_after}
use assisted_events_stream.Projection.Pipeline.{
  IsEventOf, process_message-stores_latest, process_message-skips_excluded,
}
use assisted_events_stream.Tests.Codec.{codec, marshal, unmarshal}
use assisted_events_stream.Tests.Parts.{
  enricher, enriched_events, snapshots, snapshots-IsSnapshot, parts-HasPlainErrors,
  get_enriched_event,
}
use assisted_events_stream.Tests.Server

abbrev to_message : String → Fields → Message
to_message name payload = record {
  key = "c";
  value = marshal (obj (field "name" (str name) (field "payload" (obj payload) end)));
  offset = 0;
  headers = [];
}

abbrev cluster : Fields
cluster = field "id" (str "c") (field "user_name" (str "u") end)

abbrev state_message : Message
state_message = to_message "ClusterState" cluster

abbrev nameless_host : Message
nameless_host = to_message "HostState" end

abbrev event_message : Message
event_message = to_message "Event" (field "cluster_id" (str "c") end)

abbrev first_world : World snapshots enriched_events
unfolding new_snapshot_repository
first_world = record { snapshots = []; enriched = []; acks = [] }

abbrev later_world : World snapshots enriched_events
unfolding new_snapshot_repository
later_world = record {
  snapshots = ("clusters", "c", marshal (obj cluster)) ∷ [];
  enriched = [];
  acks = state_message ∷ [];
}

abbrev the_event : Event
the_event = record {
  name = "Event";
  payload = obj (field "cluster_id" (str "c") end);
  metadata = end;
}

handled :
    consume
      (process_message codec snapshots enricher enriched_events ("x" ∷ []))
      (fetched_all (state_message ∷ []))
      first_world
    ≡ (later_world, waiting)
unfolding consume process_message get_event_from_message new_snapshot_repository set_cluster hset
    marshal unmarshal Server.hset later_world first_world process_event process_cluster_state
    get_value_from_payload lookup get_clusters_hkey event_bytes
handled = refl

handled_excluding :
    consume
      (process_message codec snapshots enricher enriched_events ("u" ∷ []))
      (fetched_all (state_message ∷ []))
      first_world
    ≡ (later_world, waiting)
unfolding consume process_message get_event_from_message new_snapshot_repository set_cluster hset
    marshal unmarshal Server.hset later_world first_world process_event process_cluster_state
    get_value_from_payload lookup get_clusters_hkey event_bytes
handled_excluding = refl

event_message-IsEventOf : IsEventOf codec "c" event_message the_event
unfolding get_event_from_message marshal unmarshal lookup
event_message-IsEventOf = record {
  decodes = refl;
  is_event = refl;
  payload_object = (field "cluster_id" (str "c") end, refl, refl);
}

kept :
    skip_event
      ("x" ∷ [])
      (cluster_after codec
        (state_message ∷ [])
        "c"
        (snapshots.get_cluster "c" first_world.snapshots)).0
    ≡ false
unfolding skip_event contains get_event_from_message marshal unmarshal lookup first_world
    new_snapshot_repository get_cluster Server.hget
kept = refl

excluded :
    lookup user_name (
      entries
        (cluster_after codec
          (state_message ∷ [])
          "c"
          (snapshots.get_cluster "c" first_world.snapshots)).0)
    ≡ some (str "u")
unfolding get_event_from_message marshal unmarshal lookup first_world new_snapshot_repository
    get_cluster Server.hget
excluded = refl

abbrev enriched : EnrichedEvent
enriched = record {
  id = "";
  message = "";
  category = "";
  cluster_id = "";
  event_time = "";
  hosts_summary = none;
  name = "Event";
  request_id = "";
  severity = "";
  properties = none;
  cluster = some cluster;
  infra_envs = [];
  versions = none;
  release_tag = none;
}

enriched_with :
    get_enriched_event the_event
      (cluster_after codec
        (state_message ∷ [])
        "c"
        (snapshots.get_cluster "c" first_world.snapshots)).0
      (snapshots.get_hosts "c" later_world.snapshots).0
      (snapshots.get_infra_envs "c" later_world.snapshots).0
    ≡ some enriched
unfolding get_enriched_event get_event_from_message marshal unmarshal lookup first_world
    new_snapshot_repository get_cluster Server.hget get_hosts get_infra_envs Server.hget_all
    later_world read_all get_infra_envs_hkey
enriched_with = refl

acks-process_message_example :
    (process_message codec snapshots enricher enriched_events
      ("x" ∷ [])
      nameless_host
      later_world).0.acks
    ≡ later_world.acks
      ++ replicate (acks_due (get_event_from_message codec nameless_host.value)) nameless_host
acks-process_message_example =
    acks-process_message codec snapshots enricher enriched_events ("x" ∷ []) parts-HasPlainErrors
      nameless_host later_world

process_message-not_malformed_example :
    (process_message codec snapshots enricher enriched_events
      ("x" ∷ [])
      nameless_host
      later_world).1
    ≢ returned (some (malformed_event "id"))
process_message-not_malformed_example =
    process_message-not_malformed codec snapshots enricher enriched_events ("x" ∷ []) nameless_host
      later_world "id"

consume-cluster_after_example :
    snapshots.get_cluster "c" later_world.snapshots
    ≡ cluster_after codec (state_message ∷ []) "c" (snapshots.get_cluster "c" first_world.snapshots)
consume-cluster_after_example =
    consume-cluster_after codec snapshots enricher enriched_events ("x" ∷ []) parts-HasPlainErrors
      snapshots-IsSnapshot (state_message ∷ []) first_world later_world "c" handled

process_message-stores_latest_example :
    process_message codec snapshots enricher enriched_events ("x" ∷ []) event_message later_world
    ≡ (record later_world { enriched = enriched ∷ [] }, returned none)
unfolding later_world
process_message-stores_latest_example =
    process_message-stores_latest codec snapshots enricher enriched_events ("x" ∷ [])
      parts-HasPlainErrors snapshots-IsSnapshot (state_message ∷ []) first_world later_world "c"
      event_message the_event enriched (enriched ∷ []) handled event_message-IsEventOf kept
      enriched_with refl

process_message-skips_excluded_example :
    process_message codec snapshots enricher enriched_events ("u" ∷ []) event_message later_world
    ≡ (later_world, returned none)
process_message-skips_excluded_example =
    process_message-skips_excluded codec snapshots enricher enriched_events ("u" ∷ [])
      parts-HasPlainErrors snapshots-IsSnapshot (state_message ∷ []) first_world later_world "c"
      event_message the_event "u" handled_excluding event_message-IsEventOf excluded
      (Memᴰ.head refl)
