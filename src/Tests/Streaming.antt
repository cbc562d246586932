-- ===== src/Tests/Streaming.antt =====
-- Runs of the theorems on the clients of kafka.
use assisted_events_stream.Prelude.{
  ℕ, String, ◌≡◌, ◌≢◌, refl, Option, none, some, List, [], ◌∷◌, if◌then◌else◌, ◌==◌,
}
use assisted_events_stream.Value.{str, obj, end, field}
use assisted_events_stream.Types.{Error, failed, Message, Event, ok}
use assisted_events_stream.Types.Decode.{get_event_from_message}
use assisted_events_stream.Stream.Writer.{Producer, Notifiable, encode_event, to_message, notify}
use assisted_events_stream.Stream.Writer.Decoding.{
  get_event_from_message-to_message, notify-decodes,
}
use assisted_events_stream.Stream.Commits.{Committer, listen_for_commit}
use assisted_events_stream.Stream.Login.{
  KafkaConfig, ReaderConfig, ProducerConfig, new_kafka_reader, new_producer, new_producer-logs_in,
}
use assisted_events_stream.Tests.Codec.{codec}

abbrev pub producer : Producer
producer = record { State = List Message; write_messages = λ msg s. (msg ∷ s, none) }

abbrev event : Event
event = record {
  name = "Event";
  payload = obj (field "cluster_id" (str "c") end);
  metadata = field "versions" (obj end) end;
}

get_event_from_message-to_message_example :
    get_event_from_message codec (to_message codec producer "c" (encode_event event)).value
    ≡ some event
get_event_from_message-to_message_example =
    get_event_from_message-to_message codec producer "c" event

abbrev notifiable : Notifiable
notifiable = record {
  cluster_id = some "c";
  notification_type = "HostState";
  payload = obj (field "id" (str "h") end);
}

notify-decodes_example :
    (msg : Message) × (notify codec producer (some (obj end)) (some notifiable) []
      ≡ producer.write_messages msg [])
    × (msg.key ≡ "c")
    × (get_event_from_message codec msg.value
        ≡ some (record {
          name = "HostState";
          payload = obj (field "id" (str "h") end);
          metadata = end;
        }))
notify-decodes_example = notify-decodes codec producer end notifiable []

-- the commits asked for, the last one first, all of which fail
abbrev committer : Committer
committer = record {
  State = List Message;
  commit_messages = λ msg s. (msg ∷ s, some (failed "closed"));
}

abbrev at_offset : ℕ → Message
at_offset n = record { key = ""; value = ""; offset = n; headers = [] }

listen_for_commit_run :
    listen_for_commit committer (at_offset 7 ∷ at_offset 6 ∷ []) [] ≡ at_offset 6 ∷ at_offset 7 ∷ []
unfolding listen_for_commit
listen_for_commit_run = refl

abbrev no_login : KafkaConfig
no_login = record {
  bootstrap_server = "a:9092,b:9092";
  client_id = "";
  client_secret = "";
  sasl_mechanism = "PLAIN";
  topic = "in";
  group_id = "g";
  destination_topic = "out";
}

abbrev scram : String → String → Option Error
scram user password = none

abbrev validate : ReaderConfig → Option Error
validate config = if config.topic == "" then some (failed "empty topic") else none

new_producer-logs_in_example :
    ((r : ReaderConfig)
      → new_kafka_reader scram validate no_login ≡ some (ok r)
      → r.mechanism ≡ none)
    × ((p : ProducerConfig) → new_producer scram no_login ≡ ok p → p.mechanism ≢ none)
new_producer-logs_in_example = new_producer-logs_in scram validate no_login refl
