-- ===== src/Setup/Conditions.antt =====
-- When the programs go on to consume.
use assisted_events_stream.Prelude.{String, ◌≡◌, Option, none, some}
use assisted_events_stream.Types.{Error, ok}
use assisted_events_stream.Stream.Login.{ReaderConfig, new_kafka_reader}
use assisted_events_stream.Setup.{ℤ, Environment}
use assisted_events_stream.Setup.Opensearch.{
  OpensearchLib, ClientConfig, client_config, new_repository,
}
use assisted_events_stream.Setup.Consumer.{RedisLib, RedisOptions, Projection, expiration_str}

module _ (lib : OpensearchLib) (redis : RedisLib) (scram : String → String → Option Error)
    (validate : ReaderConfig → Option Error) (env : Environment) where
  abbrev server : ClientConfig
  server = client_config lib env.opensearch.0

  abbrev options : RedisOptions
  options = record { addr = env.getenv "VALKEY_ADDRESS"; password = env.getenv "VALKEY_PASSWORD" }

  -- What has to go well.
  pub record CanStart : Type 0 where
    pub kafka : env.kafka.1 ≡ none
    pub reader : ReaderConfig
    pub login : new_kafka_reader scram validate env.kafka.0 ≡ some (ok reader)
    pub client : lib.new_client server ≡ none
    pub info : lib.info server ≡ none
    pub ping : redis.ping options ≡ none
    pub expiration : ℤ
    pub parsed :
        redis.parse_duration (expiration_str (env.getenv "VALKEY_EXPIRATION")) ≡ ok expiration
    pub excluded : env.excluded_user_names.1 ≡ none

  -- The reader and the projection then.
  abbrev pub parts : CanStart → ReaderConfig × Projection lib redis scram validate
  parts c = (
    c.reader,
    record {
      snapshot_repository = record { redis = options; expiration = c.expiration };
      enriched_event_repository = new_repository lib env server env.opensearch.0.index_prefix;
      excluded_user_names = env.excluded_user_names.0;
    },
  )
