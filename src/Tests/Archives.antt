-- ===== src/Tests/Archives.antt =====
-- Runs of the theorems on archives and indices.
use assisted_events_stream.Prelude.{
  ℕ, String, ◌≡◌, ◌≢◌, refl, true, false, none, some, List, [], ◌∷◌, arith, ◌==◌, All,
  if◌then◌else◌, inl,
}
use assisted_events_stream.Value.{
  bool, num, str, arr, obj, nil, cons, Fields, end, field, lookup, insert, erase,
}
use assisted_events_stream.Types.{
  Error, failed, Result, ok, err, EventEnvelope, Message, EnrichedEvent, Float, Outcome, returned,
}
use assisted_events_stream.Projection.{
  World, process_message, process_event, process_cluster_state, get_value_from_payload,
}
use assisted_events_stream.Types.Decode.{get_event_from_message}
use assisted_events_stream.Projection.Malformed.{HasPlainErrors}
use assisted_events_stream.Snapshot.{
  new_snapshot_repository, set_cluster, hset, get_clusters_hkey, event_bytes,
}
use assisted_events_stream.Stream.Writer.{encode_event, to_message}
use assisted_events_stream.Extractor.{Os, get_metadata, decode_resources, payload_of}
use assisted_events_stream.Extractor.Archive.{
  TarRound, eof, next, untar_file, untar_rounds, unpack, rounds_of, extract, untar_rounds-unpack,
}
use assisted_events_stream.Extractor.Events.{IsExtracted}
use assisted_events_stream.Extractor.Capacity.{
  extracted, extract-archived_events, extract-IsExtracted,
}
use assisted_events_stream.Extractor.Delivery.{get_cluster-extracted}
use assisted_events_stream.Opensearch.{
  BulkIndexerItem, BulkIndexer, has_member, get_index_name, new_enriched_event_repository,
}
use assisted_events_stream.Opensearch.Names.{get_index_name_injective}
use assisted_events_stream.Opensearch.Errors.{IsPlainBulk, repositories-HasPlainErrors}
use assisted_events_stream.Tests.Codec.{codec, marshal, unmarshal}
use assisted_events_stream.Tests.Parts.{
  enricher, enriched_events, snapshots, snapshots-IsSnapshot, parts-HasPlainErrors,
}
use assisted_events_stream.Tests.Server
use assisted_events_stream.Tests.Server.{server}
use assisted_events_stream.Tests.Streaming.{producer}

abbrev cluster : Fields
cluster = field "id" (str "c") (field "hosts" (arr (cons (num 1) nil)) end)

abbrev files : List TarRound
files =
    next (record { name = "../a"; is_dir = false; content = "b" })
    ∷ next
        (record { name = "a/events/cluster.json"; is_dir = false; content = marshal (obj cluster) })
    ∷ eof
    ∷ []

-- The newest file first; the pattern of the clusters finds the one file that the archive has.
find : String → List (String × String) → Result String
find path [] = err (failed "no such file")
find path ((p, content) ∷ s) = if p == path then ok content else find path s

glob : String → Result (List String)
glob pattern =
    if pattern == "/d/*/events/cluster.json" then ok ("/d/a/events/cluster.json" ∷ []) else ok []

abbrev os : Os (List TarRound)
os = record {
  State = List (String × String);
  mkdir_temp = λ s. (s, ok "/d");
  remove_all = λ dir s. [];
  open_tar = λ name s. ok files;
  mkdir_all = λ path s. (s, none);
  open_file = λ path s. (s, none);
  copy = λ path content s. ((path, content) ∷ s, none);
  glob = λ pattern s. glob pattern;
  read = λ path s. find path s;
}

extract-archived_events_example :
    extract codec os 1 "archive" []
    ≡ extracted codec os 1 "/d" (untar_file codec os 1 "archive" "/d" [])
extract-archived_events_example = extract-archived_events codec os 1 "archive" "/d" [] [] refl

abbrev cluster_envelope : EventEnvelope
cluster_envelope = record {
  key = "c";
  event = record {
    name = "ClusterState";
    payload = obj (field "id" (str "c") (field "onprem" (bool true) end));
    metadata = field "versions" (obj (field "versions" (obj end) end)) end;
  };
}

run : extract codec os 1 "archive" [] ≡ ([], ok (some (cluster_envelope ∷ [])))
unfolding extract find glob marshal unmarshal decode_resources lookup payload_of get_metadata erase
    insert
run = refl

-- with no room for the event, the extraction blocks
blocked : (extract codec os 0 "archive" []).1 ≡ ok none
unfolding extract find glob marshal unmarshal decode_resources lookup
blocked = refl

extract-IsExtracted_example : All IsExtracted (cluster_envelope ∷ [])
extract-IsExtracted_example =
    extract-IsExtracted codec os 1 "archive" [] [] (cluster_envelope ∷ []) run

untar_rounds-unpack_example :
    untar_rounds codec os 1
      (rounds_of codec os 1 (record { name = "a"; is_dir = true; content = "" } ∷ []) eof files)
      "/d"
      []
    ≡ unpack codec os 1 (record { name = "a"; is_dir = true; content = "" } ∷ []) "/d" []
untar_rounds-unpack_example =
    untar_rounds-unpack codec os 1 (record { name = "a"; is_dir = true; content = "" } ∷ []) eof
      files "/d" [] tt

abbrev cluster_message : Message
cluster_message = to_message codec producer "c" (encode_event cluster_envelope.event)

abbrev before : World snapshots enriched_events
unfolding new_snapshot_repository
before = record { snapshots = []; enriched = []; acks = [] }

abbrev after : World snapshots enriched_events
unfolding new_snapshot_repository
after = record {
  snapshots =
      ("clusters", "c", marshal (obj (field "id" (str "c") (field "onprem" (bool true) end)))) ∷ [];
  enriched = [];
  acks = cluster_message ∷ [];
}

delivered :
    process_message codec snapshots enricher enriched_events [] cluster_message before
    ≡ (after, returned none)
unfolding process_message get_event_from_message new_snapshot_repository set_cluster hset marshal
    unmarshal Server.hset before after process_event process_cluster_state get_value_from_payload
    lookup get_clusters_hkey event_bytes
delivered = refl

get_cluster-extracted_example :
    (m : Fields) × (snapshots.get_cluster "c" after.snapshots ≡ (some m, none))
    × (lookup "onprem" m ≡ some (bool true))
    × (lookup "hosts" m ≡ none)
get_cluster-extracted_example =
    get_cluster-extracted codec os 1 "archive" [] [] (cluster_envelope ∷ []) run cluster_envelope
      (inl refl) refl producer snapshots enricher enriched_events [] parts-HasPlainErrors
      snapshots-IsSnapshot before after delivered

abbrev bulk : BulkIndexer
bulk = record { State = List BulkIndexerItem; add = λ item s. (item ∷ s, returned none) }

abbrev numerators : Float → ℕ
numerators x = x.numerator

abbrev always_may : String → ℕ × ℕ
always_may s = (2023, 5)

abbrev to_event : String → EnrichedEvent
to_event id = record {
  id = id;
  message = "";
  category = "";
  cluster_id = "";
  event_time = "2023-05-01T00:00:00Z";
  hosts_summary = none;
  name = "";
  request_id = "";
  severity = "";
  properties = none;
  cluster = some (field "onprem" (bool true) end);
  infra_envs = [];
  versions = none;
  release_tag = none;
}

get_index_name_injective_example :
    (always_may (to_event "1").event_time ≡ always_may (to_event "2").event_time)
    × (has_member (lookup "onprem" (field "onprem" (bool true) end))
        ≡ has_member (lookup "onprem" (field "onprem" (bool true) end)))
unfolding get_index_name
get_index_name_injective_example =
    get_index_name_injective codec numerators always_may "events-" bulk (to_event "1")
      (to_event "2") (omega arith) (omega arith) refl

bulk-IsPlain : IsPlainBulk bulk
bulk-IsPlain item s key h = absurd (never h)
  where
    never : {x : Error} → (let o : Outcome = returned none in o ≢ returned (some x))
    never h = cc

repositories-HasPlainErrors_example :
    HasPlainErrors
      (new_snapshot_repository codec server 60)
      (new_enriched_event_repository codec numerators always_may "events-" bulk)
repositories-HasPlainErrors_example =
    repositories-HasPlainErrors codec server 60 numerators always_may "events-" bulk bulk-IsPlain
