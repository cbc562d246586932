-- ===== src/Stream/Writer.antt =====
-- pkg/stream/writer.go and notification.go: what is sent to the stream.
pub mod Decoding
use assisted_events_stream.Prelude.{String, Option, none, some, List, []}
use assisted_events_stream.Value.{Value, str, obj, Fields, end, field}
use assisted_events_stream.Types.{Codec, Error, failed, Event, Message}

-- `Producer`, the kafka client, over its state
pub record Producer : Type 1 where
  pub State : Type 0
  pub write_messages : Message → State → State × Option Error

-- An Event as json.Marshal sees it: the fields under their tags.
abbrev pub encode_event : Event → Value
encode_event event = obj (
    field "name" (str event.name)
      (field "payload" event.payload (field "metadata" (obj event.metadata) end)))

-- `Notifiable`; the identifiers of the infra-env and of the host are only logged
pub record Notifiable : Type 0 where
  pub cluster_id : Option String
  pub notification_type : String
  pub payload : Value

-- `Envelope` has no tags: its fields stand under their Go names.
pub record Envelope : Type 0 where
  pub name : String
  pub payload : Value
  pub metadata : Value

abbrev pub encode_envelope : Envelope → Value
encode_envelope e =
    obj (field "Name" (str e.name) (field "Payload" e.payload (field "Metadata" e.metadata end)))

abbrev pub or_empty : Option String → String
or_empty none = ""
or_empty (some s) = s

module _ (json : Codec) (producer : Producer) where
  open producer use {State}

  abbrev pub to_message : String → Value → Message
  to_message key value = record { key = key; value = json.marshal value; offset = 0; headers = [] }

  -- `KafkaWriter.Write`
  unfoldable pub write : String → Value → State → State × Option Error
  write key value s = producer.write_messages (to_message key value) s

  abbrev pub to_envelope : Value → Notifiable → Envelope
  to_envelope metadata notifiable = record {
    name = notifiable.notification_type;
    payload = notifiable.payload;
    metadata = metadata;
  }

  -- `NotificationStream.Notify` for a stream that has a writer
  unfoldable pub notify_by_writer : Value → Option Notifiable → State → State × Option Error
  unfolding write
  notify_by_writer metadata none s = (s, some (failed "trying to notify on nil notifiable"))
  notify_by_writer metadata (some notifiable) s =
      write (or_empty notifiable.cluster_id) (encode_envelope (to_envelope metadata notifiable)) s

  -- `NotificationStream.Notify`; the first argument is the metadata of a stream with a writer
  unfoldable pub notify : Option Value → Option Notifiable → State → State × Option Error
  unfolding notify_by_writer
  notify none notifiable s = (s, none)
  notify (some metadata) notifiable s = notify_by_writer metadata notifiable s
