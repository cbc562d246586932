-- ===== src/Tests/Parts.antt =====
-- The parameters of the model, for the examples: gjson and sjson over the codec, an enricher, a
-- repository of enriched events that keeps a list, and the snapshots over the server.
use assisted_events_stream.Prelude.{
  arith, String, ◌≡◌, ◌≢◌, refl, true, false, Option, none, some, List, ◌∷◌,
}
use assisted_events_stream.Value.{Value, null, bool, num, str, arr, obj, Map}
use assisted_events_stream.Types.{Error, Event, EnrichedEvent, Outcome, returned}
use assisted_events_stream.JsonEdit.{PathLib, Found}
use assisted_events_stream.JsonEdit.Paths.{at, put_at, remove_at, keys, IsLawful, and_then}
use assisted_events_stream.Snapshot.{
  SnapshotRepository, IsSnapshot, new_snapshot_repository, hset, set_cluster, set_host,
  set_infra_env,
}
use assisted_events_stream.Snapshot.Laws.{new_snapshot_repository-IsSnapshot}
use assisted_events_stream.Projection.{EventEnricher, EnrichedEventRepository}
use assisted_events_stream.Projection.Malformed.{HasPlainErrors}
use assisted_events_stream.Tests.Codec.{codec, marshal, unmarshal, unmarshal-marshal}
use assisted_events_stream.Tests.Server.{server, server-IsLawful}

to_found : Value → Found
to_found null = record { is_null = true; text = "" }
to_found (str s) = record { is_null = false; text = s }
to_found v = record { is_null = false; text = marshal v }

found_at : Option Value → Option Found
unfolding to_found
found_at none = none
found_at (some v) = some (to_found v)

written : Option Value → Option String
written none = none
written (some v) = some (marshal v)

abbrev removed : List String → Option Value → Option Value
removed ks none = none
removed ks (some v) = some (remove_at ks v)

unfoldable pub get : String → String → Option Found
unfolding found_at at
get doc path = found_at (and_then (unmarshal doc) (at (keys path)))

unfoldable pub set : String → String → Value → Option String
unfolding written put_at
set doc path x = written (and_then (unmarshal doc) (put_at (keys path) x))

unfoldable pub delete : String → String → Option String
unfolding written remove_at
delete doc path = written (removed (keys path) (unmarshal doc))

abbrev pub paths : PathLib
paths = record { get = get; set = set; delete = delete }

pub paths-IsLawful : IsLawful codec paths
unfolding get set delete
paths-IsLawful = record {
  get_missing = λ doc path v plain d a. rw (d, a);
  get_null = λ doc path v plain d a. rw (d, a);
  get_text = λ doc path v s plain d a. rw (d, a);
  get_raw = λ doc path v w plain d a not_null not_text. rw (d, a) (raw w not_null not_text);
  set_present = λ doc path x v v' plain d p. (marshal v', rw (d, p), unmarshal-marshal v');
  delete_lem = λ doc path v plain d.
      (marshal (remove_at (keys path) v), rw d, unmarshal-marshal (remove_at (keys path) v));
}
  where
    raw :
        (w : Value)
        → w ≢ null
        → ((s : String) → w ≢ str s)
        → (text : String) × (some (to_found w) ≡ some (record { is_null = false; text = text }))
          × (unmarshal text ≡ some w)
    raw null n t = absurd (n refl)
    raw (str s) n t = absurd (t s refl)
    raw (bool b) n t = (marshal (bool b), refl, unmarshal-marshal (bool b))
    raw (num k) n t = (marshal (num k), refl, unmarshal-marshal (num k))
    raw (arr vs) n t = (marshal (arr vs), refl, unmarshal-marshal (arr vs))
    raw (obj m) n t = (marshal (obj m), refl, unmarshal-marshal (obj m))

-- The event's name, with what is known of the cluster.
unfoldable pub get_enriched_event : Event → Map → List Map → List Map → Option EnrichedEvent
get_enriched_event event cluster hosts infra_envs = some (record {
  id = "";
  message = "";
  category = "";
  cluster_id = "";
  event_time = "";
  hosts_summary = none;
  name = event.name;
  request_id = "";
  severity = "";
  properties = none;
  cluster = cluster;
  infra_envs = infra_envs;
  versions = none;
  release_tag = none;
})

abbrev pub enricher : EventEnricher
enricher = record { get_enriched_event = get_enriched_event }

abbrev pub enriched_events : EnrichedEventRepository
enriched_events = record { State = List EnrichedEvent; store = λ e msg s. (e ∷ s, returned none) }

abbrev pub snapshots : SnapshotRepository
snapshots = new_snapshot_repository codec server 1

pub snapshots-IsSnapshot : IsSnapshot snapshots
snapshots-IsSnapshot =
    new_snapshot_repository-IsSnapshot codec server 1 server-IsLawful (omega arith)

none-ne-failed : {x : Error} → (let o : Outcome = returned none in o ≢ returned (some x))
none-ne-failed h = cc

pub parts-HasPlainErrors : HasPlainErrors snapshots enriched_events
unfolding new_snapshot_repository set_cluster set_host set_infra_env hset
    assisted_events_stream.Tests.Server.hset
parts-HasPlainErrors = record {
  set_cluster_plain = λ id e s key h. absurd (none-ne-some h);
  set_host_plain = λ id host e s key h. absurd (none-ne-some h);
  set_infra_env_plain = λ id infra_env e s key h. absurd (none-ne-some h);
  store_plain = λ e msg s key h. absurd (none-ne-failed h);
}
  where
    none-ne-some : {x : Error} → (let o : Option Error = none in o ≢ some x)
    none-ne-some h = cc
