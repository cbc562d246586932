-- ===== src/Stream/Login.antt =====
-- pkg/stream/reader.go and writer.go: how the clients of kafka are set up.
use assisted_events_stream.Prelude.{
  String, ◌≡◌, ◌≢◌, refl, true, ◌||◌, Option, none, some, List, arith, ◌==◌, if◌then◌else◌,
}
use assisted_events_stream.Types.{Error, failed, Result, ok, err}
use assisted_events_stream.Text

pub record KafkaConfig : Type 0 where
  pub bootstrap_server : String
  pub client_id : String
  pub client_secret : String
  pub sasl_mechanism : String
  pub topic : String
  pub group_id : String
  pub destination_topic : String

-- A `sasl.Mechanism` that the program makes.
pub data Mechanism : Type 0 where
  plain : String → String → Mechanism
  scram_sha512 : String → String → Mechanism

-- What the program sets of a `kafka.ReaderConfig` and of a `kafka.Writer`, the times, the sizes and
-- the compression apart. With a mechanism comes TLS.
pub record ReaderConfig : Type 0 where
  pub brokers : List String
  pub topic : String
  pub group_id : String
  pub mechanism : Option Mechanism

pub record ProducerConfig : Type 0 where
  pub brokers : List String
  pub topic : String
  pub mechanism : Option Mechanism

-- `kafka.NewReader`, by the error of the configuration's `Validate`; none is its panic.
new_reader : ReaderConfig → Option Error → Option (Result ReaderConfig)
new_reader config none = some (ok config)
new_reader config (some e) = none

unlogged :
    (c r : ReaderConfig) (o : Option Error)
    → new_reader c o ≡ some (ok r)
    → c.mechanism ≡ none
    → r.mechanism ≡ none
unfolding new_reader
unlogged c r none e n = let same : c ≡ r = cc in rw (← same) n
unlogged c r (some x) e n = cc

-- `scram` is `scram.Mechanism` for SHA-512, by the error that it returns.
module _ (scram : String → String → Option Error) where
  abbrev scram_of : KafkaConfig → Option Error → Result (Option Mechanism)
  scram_of config none = ok (some (scram_sha512 config.client_id config.client_secret))
  scram_of config (some e) = err e

  -- `getMechanism`
  unfoldable pub get_mechanism : KafkaConfig → Result (Option Mechanism)
  get_mechanism config =
      if config.sasl_mechanism == "PLAIN"
      then ok (some (plain config.client_id config.client_secret))
      else if config.sasl_mechanism == "SCRAM"
      then scram_of config (scram config.client_id config.client_secret)
      else err (failed "SASL Mechanism not implemented")

  abbrev producer_with : KafkaConfig → Result (Option Mechanism) → Result ProducerConfig
  producer_with config (err e) = err e
  producer_with config (ok mechanism) = ok (record {
    brokers = Text.split config.bootstrap_server ",";
    topic = config.destination_topic;
    mechanism = mechanism;
  })

  -- `newProducer`
  unfoldable pub new_producer : KafkaConfig → Result ProducerConfig
  unfolding get_mechanism
  new_producer config = producer_with config (get_mechanism config)

  -- `validate` is `Validate` of a `kafka.ReaderConfig`.
  module _ (validate : ReaderConfig → Option Error) where
    abbrev reader_with : KafkaConfig → Result (Option Mechanism) → Option (Result ReaderConfig)
    reader_with config (err e) = some (err e)
    reader_with config (ok mechanism) =
        let reader : ReaderConfig = record {
          brokers = Text.split config.bootstrap_server ",";
          topic = config.topic;
          group_id = config.group_id;
          mechanism = mechanism;
        } in
        new_reader reader (validate reader)

    -- `NewKafkaReader` for a configuration that was read
    unfoldable pub new_kafka_reader : KafkaConfig → Option (Result ReaderConfig)
    unfolding get_mechanism new_reader
    new_kafka_reader config = reader_with config (
        if config.client_id == "" || config.client_secret == ""
        then ok none
        else get_mechanism config)

  get_mechanism-cases : (config : KafkaConfig) → get_mechanism config ≢ ok none
  unfolding get_mechanism
  get_mechanism-cases config h = ground arith

  module _ (validate : ReaderConfig → Option Error) where
    -- A configuration that lacks the client's identifier or its secret: the reader connects without a
    -- login, but the writer never does. If it can be set up at all, it logs in.
    pub new_producer-logs_in :
        (config : KafkaConfig)
        → (config.client_id == "" || config.client_secret == "") ≡ true
        → ((r : ReaderConfig) → new_kafka_reader validate config ≡ some (ok r) → r.mechanism ≡ none)
          × ((p : ProducerConfig) → new_producer config ≡ ok p → p.mechanism ≢ none)
    unfolding new_kafka_reader new_producer
    new_producer-logs_in config h =
        (reads, writes (get_mechanism config) (get_mechanism-cases config))
      where
        reads :
            (r : ReaderConfig) → new_kafka_reader validate config ≡ some (ok r) → r.mechanism ≡ none
        reads r e = unlogged _ r _ (rw h at e) refl

        writes :
            (m : Result (Option Mechanism))
            → m ≢ ok none
            → (p : ProducerConfig) → producer_with config m ≡ ok p
            → p.mechanism ≢ none
        writes (err e) n p q k = cc
        writes (ok none) n p q k = n refl
        writes (ok (some m)) n p q k = ground arith
