-- ===== src/Stream/Writer/Decoding.antt =====
-- What is written is what the projection reads.
use assisted_events_stream.Prelude.{String, ◌≡◌, refl, some}
use assisted_events_stream.Value.{obj, Fields}
use assisted_events_stream.Types.{Codec, Event, Message}
use assisted_events_stream.Types.Decode.{get_event_from_message}
use assisted_events_stream.Stream.Writer.{
  Producer, Notifiable, encode_event, or_empty, to_message, notify,
}

-- An Event that Write sends is decoded to the same Event by the projection.
pub get_event_from_message-to_message :
    (json : Codec) (producer : Producer) (key : String) (event : Event)
    → get_event_from_message json (to_message json producer key (encode_event event)).value
      ≡ some event
unfolding get_event_from_message
get_event_from_message-to_message json producer key event =
    rw (json.unmarshal-marshal (encode_event event)) refl

-- A stream with a writer and with metadata that is an object sends one message for a notifiable: its
-- key is the cluster's identifier, or empty, and the projection decodes it to an Event with the
-- notification's type for its name, its payload, and the metadata, though the names of the members
-- are written in capitals. The writer's error is returned.
pub notify-decodes :
    (json : Codec) (producer : Producer) (metadata : Fields) (n : Notifiable) (s : producer.State)
    → (msg : Message) × (notify json producer (some (obj metadata)) (some n) s
        ≡ producer.write_messages msg s)
      × (msg.key ≡ or_empty n.cluster_id)
      × (get_event_from_message json msg.value
          ≡ some (record { name = n.notification_type; payload = n.payload; metadata = metadata }))
unfolding notify get_event_from_message
notify-decodes json producer metadata n s = (_, refl, refl, rw (json.unmarshal-marshal _) refl)
