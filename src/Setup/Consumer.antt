-- ===== src/Setup/Consumer.antt =====
-- cmd/consumer/main.go up to `Consume`, internal/projection/utils.go and internal/repository/redis/utils.go.
use assisted_events_stream.Prelude.{◌≡◌, none, some, String, ◌==◌, Option, List, if◌then◌else◌}
use assisted_events_stream.Types.{Error, wrapped, Result, ok}
use assisted_events_stream.Stream.Login.{ReaderConfig, new_kafka_reader}
use assisted_events_stream.Setup.{
  ℤ, Started, started, refused, exited, crashed, and_then, or_refuse, or_crash, or_exit, exit_on,
  value_of, Environment, and_then-started, or_refuse-started, or_crash-started, value_of-ok,
}
use assisted_events_stream.Setup.Opensearch.{
  OpensearchLib, Repository, new_enriched_event_repository_from_env,
}

abbrev pub default_expiration_str : String
default_expiration_str = "720h"

-- What the program sets of `redis.Options`; the database is 0.
pub record RedisOptions : Type 0 where
  pub addr : String
  pub password : String

-- What is read of time and go-redis: time.ParseDuration, and the error of `Ping`.
pub record RedisLib : Type 0 where
  pub parse_duration : String → Result ℤ
  pub ping : RedisOptions → Option Error

pub record Snapshots : Type 0 where
  pub redis : RedisOptions
  pub expiration : ℤ

unfoldable pub expiration_str : String → String
expiration_str text = if text == "" then default_expiration_str else text

unfoldable pub wrap {ℓ} : {A : Type ℓ} → String → Started A → Started A
wrap text (refused e) = refused (wrapped text e)
wrap text (started a) = started a
wrap text exited = exited
wrap text crashed = crashed

module _ (redis : RedisLib) where
  -- `NewRedisClientFromEnv`
  unfoldable pub new_redis_client_from_env : Environment → Started RedisOptions
  unfolding exit_on
  new_redis_client_from_env env =
      let options : RedisOptions = record {
        addr = env.getenv "VALKEY_ADDRESS";
        password = env.getenv "VALKEY_PASSWORD";
      } in
      exit_on options (redis.ping options)

  -- `NewSnapshotRepositoryFromEnv`
  unfoldable pub new_snapshot_repository_from_env : Environment → Started Snapshots
  unfolding new_redis_client_from_env expiration_str wrap and_then or_refuse
  new_snapshot_repository_from_env env = and_then (new_redis_client_from_env env) λ client.
      and_then
        (wrap "failed to parse expiration duration"
          (or_refuse (redis.parse_duration (expiration_str (env.getenv "VALKEY_EXPIRATION")))))
        λ expiration. started (record { redis = client; expiration = expiration })

-- `scram` is `scram.Mechanism` for SHA-512, by the error that it returns, and `validate` is `Validate` of
-- a `kafka.ReaderConfig`.
module _ (scram : String → String → Option Error) (validate : ReaderConfig → Option Error) where
  -- `NewKafkaReader`
  unfoldable pub kafka_reader_from_env : Environment → Started ReaderConfig
  unfolding new_kafka_reader value_of or_refuse or_crash and_then
  kafka_reader_from_env env =
      and_then (or_refuse (value_of env.kafka))
        λ config. or_crash (new_kafka_reader scram validate config)

  pub kafka_reader_from_env-started :
      (env : Environment) (r : ReaderConfig)
      → kafka_reader_from_env env ≡ started r
      → (env.kafka.1 ≡ none) × (new_kafka_reader scram validate env.kafka.0 ≡ some (ok r))
  unfolding kafka_reader_from_env
  kafka_reader_from_env-started env r h =
      let (config, read, made) = and_then-started _ _ r h in
      let (no_error, same) = value_of-ok env.kafka config (or_refuse-started _ config read) in
      (no_error, rw same (or_crash-started _ r made))

module _ (lib : OpensearchLib) (redis : RedisLib) (scram : String → String → Option Error)
    (validate : ReaderConfig → Option Error) where
  pub record Projection : Type 0 where
    pub snapshot_repository : Snapshots
    pub enriched_event_repository : Repository lib
    pub excluded_user_names : List String

  -- `NewEnrichedEventsProjection`
  unfoldable pub new_enriched_events_projection :
      Environment → Snapshots → Repository lib → Started Projection
  unfolding wrap and_then or_refuse value_of
  new_enriched_events_projection env snapshots enriched_events =
      and_then (wrap "failed to parse env" (or_refuse (value_of env.excluded_user_names)))
        λ excluded. started (record {
          snapshot_repository = snapshots;
          enriched_event_repository = enriched_events;
          excluded_user_names = excluded;
        })

  -- `NewEnrichedEventsProjectionFromEnv`
  unfoldable pub new_enriched_events_projection_from_env : Environment → Started Projection
  unfolding new_enriched_event_repository_from_env new_snapshot_repository_from_env
      new_enriched_events_projection wrap and_then
  new_enriched_events_projection_from_env env =
      and_then (new_enriched_event_repository_from_env lib env) λ enriched_events.
        and_then
          (wrap "failed to create snapshot repository" (new_snapshot_repository_from_env redis env))
          λ snapshots. new_enriched_events_projection env snapshots enriched_events

  -- `main` of cmd/consumer up to `Consume`
  unfoldable pub start_consumer : Environment → Started (ReaderConfig × Projection)
  unfolding kafka_reader_from_env new_enriched_events_projection_from_env or_exit and_then
  start_consumer env = and_then (or_exit (kafka_reader_from_env scram validate env)) λ reader.
      and_then (or_exit (new_enriched_events_projection_from_env env))
        λ projection. started (reader, projection)
