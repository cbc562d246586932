-- ===== src/Lib.antt =====
-- Assisted events stream: the consumer that joins a stream of events of clusters with the last known
-- state of each cluster, its hosts and its infra-envs, and indexes the enriched events.
--
-- A reader (pkg/stream/reader.go) hands each message to the projection
-- (internal/projection/enriched_event_projection.go). A message with a state is written to the
-- snapshots (internal/repository/redis); a message with an event is enriched with the snapshots of
-- its cluster (internal/projection/process) and given to the repository of enriched events
-- (internal/repository/opensearch), which acknowledges it when it is indexed. Acknowledged messages
-- are sent to a channel, from which the reader commits them. A second program hydrates the stream
-- with the events of on-premise clusters: it downloads the archives that messages announce, extracts
-- their events and writes them (internal/onprem).
--
-- Files:
--   Value              documents of encoding/json: `interface{}` as a data type; a map is its list
--                      of members, read by the first match
--   Text               strings.Split, strings.Trim with "." and strings.Contains
--   Types              internal/types and the errors of internal/projection/process/errors.go;
--                      Types.Decode is json.Unmarshal into a map and into an Event,
--                      Types.Decode.Enriched into an EnrichedEvent, and Types.Encode json.Marshal
--                      of an EnrichedEvent
--   Snapshot           internal/repository/redis/snapshot_repository.go; a record SnapshotRepository
--                      is its interface and IsSnapshot what the projection relies on
--   Stream             pkg/stream: the loop of Consume over a list of rounds (Reader), the commits
--                      (Commits), writing and notifying (Writer), the configuration (Login)
--   Projection         internal/projection/enriched_event_projection.go and
--                      internal/projection/process/utils.go; a World holds the two repositories'
--                      states and what was sent to the channel
--   JsonEdit           pkg/jsonedit: Transform and Delete; JsonEdit.Rename: Rename
--   Process            internal/projection/process/transform.go, anonymize.go, default_fields.go
--   Summary            internal/projection/process/hosts_summary.go
--   Enricher           internal/projection/process/event_enricher.go: the embedding of infra-envs into
--                      hosts, and what is read from the metadata and the payload;
--                      Enricher.Assembly: the base event and the order of its transformations;
--                      Enricher.Documents and its neighbours: the texts that decode to the document
--                      of such an event, which every step keeps; Enricher.Privacy: what is left out
--   Extractor          internal/onprem/event_extractor.go, with filepath.Join and filepath.Dir
--   Downloader         internal/onprem/downloader.go
--   Consumer           cmd/consumer/main.go: the loop of the reader over the projection, and beside it
--                      the callbacks of the bulk indexer, as the steps of one relation (Run);
--                      Projection.Queue and Opensearch.Queue are the queue between them
--   Opensearch         internal/repository/opensearch: the documents of the index, the names of the
--                      indices, and the projection's configuration
--   Hydrator           internal/onprem/hydrate.go; Hydrator.Runs has the interleavings of its consumer,
--                      of Listen and of the goroutines
--   Setup              what the programs do before they consume: cmd/*/main.go, internal/projection/utils.go,
--                      internal/repository/*/utils.go and the constructors of internal/onprem
--   Prelude            shared names and lemmas
--   Tests              instances of the parameters and runs of the theorems
--
-- Parameters. Code outside the repository is an argument: encoding/json (Codec), go-redis
-- (RedisClient, with IsLawful in Snapshot.Laws), gjson and sjson (PathLib, with IsLawful in
-- JsonEdit.Paths), kafka-go (Committer, Producer), the bulk indexer of
-- opensearch-go (BulkIndexer, with IsQueueing in Opensearch.Queue), the operating system (Os), the
-- HTTP client (Web), the digests, the float64 nearest to a quotient and json.Unmarshal of a summary
-- (Tools), and the time in RFC 3339; and for the set-up the calls of opensearch-go (OpensearchLib),
-- of go-redis and time (RedisLib), scram.Mechanism, the validation of kafka.NewReader, and what channels
-- fit into the memory.
-- The projection takes the enricher and the two repositories by their interfaces.
--
-- Bounds. Transform and Rename call themselves on the parent and the children of a path with `[*]`;
-- their depth is the fuel of transform_depth and rename_depth, and 2 is enough. Other loops are
-- recursions on lists; the digits of a number are printed on fuel above the number. The channel of
-- the extractor is a list with its capacity. A float64 of the summary is an exact quotient of two
-- counts: counts stay far below 2 ^ 53, and shares of one total compare as their counts do.
--
-- Interleavings. The hydrator's consumer, Listen and the goroutines it starts are the steps of one
-- relation (Run), which keeps the messages received, those given up and the events extracted. A call of
-- ExtractEvents starts in one step and returns in another, or never.
--
-- The order in which Go visits a map is a parameter of the definition that visits it (`order`), or
-- the order of the list of paths. A panic is a value: `panicked` of an Outcome, `none` of a
-- Renamed.
--
-- The consumer's Run keeps the messages fetched, those skipped, and the items that were indexed and
-- that were not; the indexer takes an item from anywhere in its queue.
--
-- The set-up takes what envconfig.Process leaves in each struct, with its error, as its Environment.
--
-- Not modelled: how the environment is read, signals, and logging.
pub mod Prelude
pub mod Value
pub mod Text
pub mod Types
pub mod Snapshot
pub mod Stream
pub mod JsonEdit
pub mod Process
pub mod Projection
pub mod Summary
pub mod Hydrator
pub mod Enricher
pub mod Extractor
pub mod Opensearch
pub mod Downloader
pub mod Consumer
pub mod Setup
pub mod Tests
