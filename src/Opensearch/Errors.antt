-- ===== src/Opensearch/Errors.antt =====
-- The errors of the two repositories, as the projection meets them.
use assisted_events_stream.Prelude.{ℕ, String, ◌≢◌, some}
use assisted_events_stream.Types.{Codec, malformed_event, Float, returned}
use assisted_events_stream.Snapshot.{
  RedisClient, set_cluster, set_host, set_infra_env, new_snapshot_repository,
}
use assisted_events_stream.Snapshot.Errors.{hset-plain}
use assisted_events_stream.Projection.Malformed.{HasPlainErrors}
use assisted_events_stream.Opensearch.{
  BulkIndexerItem, BulkIndexer, store, new_enriched_event_repository,
}

-- The bulk indexer knows nothing of MalformedEventErrors.
abbrev pub IsPlainBulk : BulkIndexer → Type 0
IsPlainBulk bulk =
    (item : BulkIndexerItem) (s : bulk.State) (key : String)
    → (bulk.add item s).1 ≢ returned (some (malformed_event key))

-- Over any server, and a bulk indexer that returns no MalformedEventError of its own, neither
-- repository does: the snapshot repository wraps every error of the server.
pub repositories-HasPlainErrors :
    (json : Codec) (redis : RedisClient) (expiration : ℕ) (bits : Float → ℕ)
    (parse_time : String → ℕ × ℕ) (index_prefix : String) (bulk : BulkIndexer)
    → IsPlainBulk bulk
    → HasPlainErrors
        (new_snapshot_repository json redis expiration)
        (new_enriched_event_repository json bits parse_time index_prefix bulk)
unfolding new_snapshot_repository set_cluster set_host set_infra_env store
repositories-HasPlainErrors json redis expiration bits parse_time index_prefix bulk plain = record {
  set_cluster_plain = λ id e s key h. hset-plain json redis expiration _ id e s key h;
  set_host_plain = λ id host e s key h. hset-plain json redis expiration _ host e s key h;
  set_infra_env_plain =
      λ id infra_env e s key h. hset-plain json redis expiration _ infra_env e s key h;
  store_plain = λ e msg s key h. plain _ s key h;
}
