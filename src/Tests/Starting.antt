-- ===== src/Tests/Starting.antt =====
-- Runs of the theorems on the set-up of the programs.
use assisted_events_stream.Prelude.{
  ℕ, String, ◌≡◌, refl, Bool, false, Option, none, some, [], ◌∷◌, ◌==◌, ltb, if◌then◌else◌,
}
use assisted_events_stream.Types.{Error, failed, ok, err}
use assisted_events_stream.Text
use assisted_events_stream.Stream.Login.{
  ReaderConfig, ProducerConfig, plain, get_mechanism, new_kafka_reader, new_producer,
}
use assisted_events_stream.Setup.{
  pos, negsuc, started, crashed, and_then, or_refuse, or_crash, or_exit, value_of, Environment,
}
use assisted_events_stream.Setup.Opensearch.{OpensearchLib}
use assisted_events_stream.Setup.Consumer.{RedisLib, kafka_reader_from_env, start_consumer}
use assisted_events_stream.Setup.Conditions.{CanStart}
use assisted_events_stream.Setup.Hydrator.{
  make_channel, with_channels, if_channels, new_on_prem_events_hydrator, start_hydrator,
}
use assisted_events_stream.Setup.Listening.{CanListen, hydrator, start_hydrator_iff}

-- an environment that lacks the prefix of the index, and a bulk indexer that cannot be made
abbrev env : Environment
env = record {
  kafka = (
    record {
      bootstrap_server = "a:9092";
      client_id = "u";
      client_secret = "s";
      sasl_mechanism = "PLAIN";
      topic = "in";
      group_id = "g";
      destination_topic = "out";
    },
    none,
  );
  opensearch = (
    record {
      num_workers = pos 1;
      flush_bytes = pos 10000000;
      flush_interval = pos 120;
      bulk_timeout = pos 90;
      username = "u";
      password = "p";
      address = "http://o:9200";
      response_timeout = pos 90;
      dial_timeout = pos 1;
      ssl_insecure_skip_verify = false;
      index_prefix = "";
      config_index = "";
      doc_id = "projection_config";
    },
    some (failed "required key OPENSEARCH_INDEX_PREFIX missing value"),
  );
  excluded_user_names = ("bob" ∷ [], none);
  channels = (
    record {
      download_channel_buffer_size = pos 1000;
      untar_channel_buffer_size = pos 1000;
      event_channel_buffer_size = pos 1000;
    },
    none,
  );
  download_dir = ("/d", none);
  work_dir = ("/w", none);
  getenv = λ name. "";
}

abbrev opensearch : OpensearchLib
opensearch = record {
  Bulk = Unit;
  new_client = λ config. none;
  info = λ config. none;
  new_bulk_indexer = λ config. err (failed "no client");
}

abbrev redis : RedisLib
redis = record { parse_duration = λ text. ok (pos 2592000); ping = λ options. none }

abbrev scram : String → String → Option Error
scram user password = none

abbrev validate : ReaderConfig → Option Error
validate config = if config.topic == "" then some (failed "empty topic") else none

abbrev fits : ℕ → Bool
fits n = ltb n 4096

abbrev reader : ReaderConfig
reader = record {
  brokers = "a:9092" ∷ [];
  topic = "in";
  group_id = "g";
  mechanism = some (plain "u" "s");
}

abbrev writer : ProducerConfig
writer = record { brokers = "a:9092" ∷ []; topic = "out"; mechanism = some (plain "u" "s") }

login : new_kafka_reader scram validate env.kafka.0 ≡ some (ok reader)
unfolding new_kafka_reader get_mechanism Text.split Text.has_prefix
login = refl

writer_login : new_producer scram env.kafka.0 ≡ ok writer
unfolding new_producer get_mechanism Text.split Text.has_prefix
writer_login = refl

-- A topic that is set, and empty, is one that envconfig reads and NewReader panics on.
abbrev no_topic : Environment
no_topic = record env { kafka = (record env.kafka.0 { topic = "" }, none) }

no_topic-crashed : start_consumer opensearch redis scram validate no_topic ≡ crashed
unfolding start_consumer kafka_reader_from_env new_kafka_reader get_mechanism Text.split
    Text.has_prefix and_then or_refuse or_crash or_exit value_of
no_topic-crashed = refl

abbrev can_start : CanStart opensearch redis scram validate env
can_start = record {
  kafka = refl;
  reader = reader;
  login = login;
  client = refl;
  info = refl;
  ping = refl;
  expiration = pos 2592000;
  parsed = refl;
  excluded = refl;
}

abbrev can_listen : CanListen scram validate fits env
can_listen = record {
  kafka = refl;
  reader = reader;
  login = login;
  channels = refl;
  downloads = 1000;
  downloads_size = refl;
  downloads_fit = refl;
  untars = 1000;
  untars_size = refl;
  untars_fit = refl;
  download_dir = refl;
  work_dir = refl;
  writer = writer;
  writer_login = writer_login;
}

start_hydrator_iff_example :
    start_hydrator scram validate fits env ≡ started (hydrator scram validate fits env can_listen)
start_hydrator_iff_example = (start_hydrator_iff scram validate fits env).1 can_listen

-- with a size below 0, and with one that cannot be read
abbrev negative : Environment
negative = record env {
  channels = (record env.channels.0 { untar_channel_buffer_size = negsuc 0 }, none);
}

negative-crashed : start_hydrator scram validate fits negative ≡ crashed
unfolding start_hydrator kafka_reader_from_env new_kafka_reader get_mechanism Text.split
    Text.has_prefix and_then or_refuse or_crash or_exit value_of new_on_prem_events_hydrator
    with_channels if_channels make_channel
negative-crashed = refl
