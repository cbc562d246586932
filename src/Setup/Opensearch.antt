-- ===== src/Setup/Opensearch.antt =====
-- internal/repository/opensearch/utils.go and the constructor of the repository of enriched events.
use assisted_events_stream.Prelude.{ℕ, String, Bool, Option, none, some, List, [], ◌∷◌}
use assisted_events_stream.Types.{Error, Result, ok, err}
use assisted_events_stream.Setup.{
  ℤ, Started, started, and_then, exit_on, OpensearchEnvConfig, Environment,
}

-- What the program sets of an `opensearch.Config`, and of its transport.
pub record ClientConfig : Type 0 where
  pub addresses : List String
  pub username : String
  pub password : String
  pub max_idle_conns_per_host : ℕ
  pub response_header_timeout : ℤ
  pub dial_timeout : ℤ
  pub insecure_skip_verify : Bool

-- What it sets of a `BulkIndexerConfig`, the callbacks apart, which log only.
pub record BulkIndexerConfig : Type 0 where
  pub num_workers : ℤ
  pub client : ClientConfig
  pub flush_bytes : ℤ
  pub flush_interval : ℤ
  pub refresh : String
  pub timeout : ℤ

-- opensearch-go: the error of `NewClient`, that of `Info`, and `NewBulkIndexer`.
pub record OpensearchLib : Type 1 where
  pub Bulk : Type 0
  pub new_client : ClientConfig → Option Error
  pub info : ClientConfig → Option Error
  pub new_bulk_indexer : BulkIndexerConfig → Result Bulk

-- `getConfigFromEnv`: the error is logged only
unfoldable pub get_config_from_env : Environment → OpensearchEnvConfig
get_config_from_env env = env.opensearch.0

-- the bulk indexer, or nil, if its error is logged
unfoldable pub or_nil : {A : Type 0} → Result A → Option A
or_nil (ok a) = some a
or_nil (err e) = none

module _ (lib : OpensearchLib) where
  pub record Repository : Type 0 where
    pub index_prefix : String
    pub opensearch : ClientConfig
    pub bulk : Option lib.Bulk

  unfoldable pub client_config : OpensearchEnvConfig → ClientConfig
  client_config env_config = record {
    addresses = env_config.address ∷ [];
    username = env_config.username;
    password = env_config.password;
    max_idle_conns_per_host = 10;
    response_header_timeout = env_config.response_timeout;
    dial_timeout = env_config.dial_timeout;
    insecure_skip_verify = env_config.ssl_insecure_skip_verify;
  }

  -- `NewOpensearchClientFromEnv`
  unfoldable pub new_opensearch_client_from_env : Environment → Started ClientConfig
  unfolding get_config_from_env client_config and_then exit_on
  new_opensearch_client_from_env env =
      let cfg = client_config (get_config_from_env env) in
      and_then (exit_on cfg (lib.new_client cfg)) λ client. exit_on client (lib.info client)

  -- `NewBulkIndexerFromEnv`
  unfoldable pub new_bulk_indexer_from_env : Environment → ClientConfig → Result lib.Bulk
  unfolding get_config_from_env
  new_bulk_indexer_from_env env opensearch =
      let env_config = get_config_from_env env in
      lib.new_bulk_indexer (record {
        num_workers = env_config.num_workers;
        client = opensearch;
        flush_bytes = env_config.flush_bytes;
        flush_interval = env_config.flush_interval;
        refresh = "false";
        timeout = env_config.bulk_timeout;
      })

  -- `NewEnrichedEventRepository`
  unfoldable pub new_repository : Environment → ClientConfig → String → Repository
  unfolding new_bulk_indexer_from_env or_nil
  new_repository env opensearch index_prefix = record {
    index_prefix = index_prefix;
    opensearch = opensearch;
    bulk = or_nil (new_bulk_indexer_from_env env opensearch);
  }

  -- `NewEnrichedEventRepositoryFromEnv`
  unfoldable pub new_enriched_event_repository_from_env : Environment → Started Repository
  unfolding new_opensearch_client_from_env new_repository get_config_from_env and_then
  new_enriched_event_repository_from_env env =
      and_then (new_opensearch_client_from_env env)
        λ opensearch. started (new_repository env opensearch (get_config_from_env env).index_prefix)
