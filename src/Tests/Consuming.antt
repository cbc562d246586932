-- ===== src/Tests/Consuming.antt =====
-- Runs of the consumer.
use assisted_events_stream.Prelude.{
  ◌+◌, ℕ, ◌+◌, String, ◌≡◌, ◌≢◌, refl, Bool, Option, none, some, List, [], ◌∷◌, ◌++◌, ◌==◌, All,
  count, itself,
}
use assisted_events_stream.Value.{Value, str, obj, end, field, lookup}
use assisted_events_stream.Types.{Error, Float, EnrichedEvent, Message, Outcome, returned}
use assisted_events_stream.Types.Decode.{get_event_from_message}
use assisted_events_stream.Types.Decode.Enriched.{zero_enriched_event}
use assisted_events_stream.Snapshot.{SnapshotRepository}
use assisted_events_stream.Stream.Reader.{fetched, waiting, consume}
use assisted_events_stream.Projection.{
  EnrichedEventRepository, World, process_message, process_event, process_cluster_event, ack_msg,
  get_value_from_payload, skip_event, contains,
}
use assisted_events_stream.Projection.Queue.{EventQueue, skipped_message}
use assisted_events_stream.Projection.Malformed.{HasPlainErrors}
use assisted_events_stream.Projection.Returns.{new_event_enricher}
use assisted_events_stream.Opensearch.{
  BulkIndexerItem, BulkIndexer, new_enriched_event_repository, store,
}
use assisted_events_stream.Opensearch.Queue.{IsQueueing, bulk_queue, item_of}
use assisted_events_stream.Consumer.{Run, start, next, indexed, round, on_success}
use assisted_events_stream.Consumer.Draining.{CanFlush, every_event-acknowledged}
use assisted_events_stream.Consumer.Conservation.{
  acks_of, events_of, acknowledged_conserved, events_conserved,
}
use assisted_events_stream.Consumer.Privacy.{IsPrivateDocument, documents-IsPrivateDocument}
use assisted_events_stream.Tests.Codec.{codec, marshal, unmarshal}
use assisted_events_stream.Tests.Parts.{paths, paths-IsLawful, enricher, get_enriched_event}
use assisted_events_stream.Tests.Assembling.{
  tools, visits, visits-AreDefaults, empty_invalid, visits_user_name,
}

abbrev bulk : BulkIndexer
bulk = record { State = List BulkIndexerItem; add = λ item s. (s ++ item ∷ [], returned none) }

none-ne-error : {x : Error} → (let o : Option Error = none in o ≢ some x)
none-ne-error h = cc

abbrev bulk-IsQueueing : IsQueueing bulk
bulk-IsQueueing = record {
  queued = λ s. s;
  add_queues = λ item s h. refl;
  add_fails = λ item s h. absurd (h refl);
}

abbrev may : String → ℕ × ℕ
may time = (2024, 5)

abbrev numerators : Float → ℕ
numerators x = x.numerator

-- snapshots that know one cluster
abbrev snapshots : SnapshotRepository
snapshots = record {
  State = Unit;
  set_cluster = λ id e s. (s, none);
  set_host = λ id host_id e s. (s, none);
  set_infra_env = λ id infra_env_id e s. (s, none);
  get_cluster = λ id s. (some (field "user_name" (str "bob") end), none);
  get_hosts = λ id s. ([], none);
  get_infra_envs = λ id s. ([], none);
}

abbrev repository : EnrichedEventRepository
repository = new_enriched_event_repository codec numerators may "events-" bulk

abbrev queue : EventQueue repository
queue = bulk_queue codec numerators may "events-" bulk bulk-IsQueueing

abbrev payload : Value
payload = obj (field "cluster_id" (str "c") end)

abbrev message : Message
message = record {
  key = "c";
  value = marshal (obj (field "name" (str "Event") (field "payload" payload end)));
  offset = 0;
  headers = [];
}

abbrev world : World snapshots repository
world = record { snapshots = tt; enriched = []; acks = [] }

abbrev fetched_world : World snapshots repository
fetched_world = (round codec snapshots enricher repository [] (fetched message) world).0

fetched_run :
    Run codec snapshots enricher repository [] queue
      (message ∷ [])
      []
      []
      []
      (round codec snapshots enricher repository [] (fetched message) world).1
      fetched_world
unfolding skipped_message get_event_from_message unmarshal marshal get_value_from_payload lookup
    skip_event contains
fetched_run = next (fetched message) (start tt [] refl)

abbrev enriched : EnrichedEvent
enriched = record zero_enriched_event {
  name = "Event";
  cluster = some (field "user_name" (str "bob") end);
}

abbrev item : BulkIndexerItem
item = item_of codec numerators may "events-" bulk bulk-IsQueueing enriched message

abbrev indexed_world : World snapshots repository
indexed_world = record { snapshots = tt; enriched = []; acks = message ∷ [] }

indexed_run :
    Run codec snapshots enricher repository [] queue
      (message ∷ [])
      []
      (item ∷ [])
      []
      waiting
      indexed_world
unfolding process_message process_event process_cluster_event get_event_from_message unmarshal
    marshal get_value_from_payload lookup skip_event contains get_enriched_event store consume
    on_success ack_msg
indexed_run = indexed [] [] item [] refl refl fetched_run

none-ne-failed : {x : Error} → (let o : Outcome = returned none in o ≢ returned (some x))
none-ne-failed h = cc

repositories_plain : HasPlainErrors snapshots repository
unfolding store
repositories_plain = record {
  set_cluster_plain = λ id e s key h. absurd (none-ne-error h);
  set_host_plain = λ id host e s key h. absurd (none-ne-error h);
  set_infra_env_plain = λ id infra_env e s key h. absurd (none-ne-error h);
  store_plain = λ e msg s key h. absurd (none-ne-failed h);
}

abbrev of_cluster : Message → Bool
of_cluster msg = msg.key == "c"

acknowledged_conserved_example :
    count itself of_cluster (message ∷ [])
    ≡ acks_of codec of_cluster (message ∷ [])
      + count (λ (i : BulkIndexerItem). i.msg) of_cluster (item ∷ [])
acknowledged_conserved_example =
    acknowledged_conserved codec snapshots enricher repository [] queue repositories_plain
      of_cluster indexed_run

events_conserved_example :
    events_of codec of_cluster (message ∷ [])
    ≡ 0 + count (λ (i : BulkIndexerItem). i.msg) of_cluster (item ∷ []) + 0 + 0
events_conserved_example =
    events_conserved codec snapshots enricher repository [] queue repositories_plain of_cluster
      indexed_run refl

waiting_run :
    Run codec snapshots enricher repository [] queue (message ∷ []) [] [] [] waiting fetched_world
unfolding process_message process_event process_cluster_event get_event_from_message unmarshal
    marshal get_value_from_payload lookup skip_event contains get_enriched_event store consume
waiting_run = fetched_run

queue-CanFlush : CanFlush queue
queue-CanFlush s i rest h = (rest, refl)

every_event-acknowledged_example :
    (is : List BulkIndexerItem) × (w : World snapshots repository) × Run codec snapshots enricher
      repository [] queue
      (message ∷ [])
      []
      is
      []
      waiting
      w
    × (w.enriched ≡ [])
    × ((p : Message → Bool)
        → count itself p w.acks + 0 + 0
          ≡ acks_of codec p (message ∷ []) + events_of codec p (message ∷ []))
every_event-acknowledged_example =
    every_event-acknowledged codec snapshots enricher repository [] queue queue-CanFlush
      repositories_plain waiting_run

abbrev own_world : World snapshots repository
own_world =
    (round codec snapshots (new_event_enricher codec paths tools visits) repository []
      (fetched message) world).0

own_run :
    Run codec snapshots
      (new_event_enricher codec paths tools visits)
      repository
      []
      queue
      (message ∷ [])
      []
      []
      []
      (round codec snapshots
        (new_event_enricher codec paths tools visits)
        repository
        []
        (fetched message)
        world).1
      own_world
unfolding skipped_message get_event_from_message unmarshal marshal get_value_from_payload lookup
    skip_event contains
own_run = next (fetched message) (start tt [] refl)

documents-IsPrivateDocument_example :
    All (IsPrivateDocument codec numerators may "events-" bulk) own_world.enriched
    × All (IsPrivateDocument codec numerators may "events-" bulk) []
    × All (IsPrivateDocument codec numerators may "events-" bulk) []
documents-IsPrivateDocument_example =
    documents-IsPrivateDocument codec numerators may "events-" bulk paths paths-IsLawful
      empty_invalid tools visits visits-AreDefaults visits_user_name snapshots [] bulk-IsQueueing
      own_run
