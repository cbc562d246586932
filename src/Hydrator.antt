-- ===== src/Hydrator.antt =====
-- internal/onprem/hydrate.go: from the announcement of an archive to the events that are written.
-- A channel is the list of what was sent to it and not yet received; a goroutine that runs is an
-- entry of a list. What the downloader and the extractor return is a parameter of each step.
pub mod Runs
pub mod Conservation
pub mod Draining
pub mod Failures
use assisted_events_stream.Prelude.{
  String, Bool, true, false, ◌&&◌, ◌||◌, Option, none, some, List, [], ◌∷◌, ◌++◌, ◌==◌,
  if◌then◌else◌,
}
use assisted_events_stream.Value.{Value, null, str, obj, Fields, end, field}
use assisted_events_stream.Types.{Codec, EventEnvelope, Message, Result, ok, err}
use assisted_events_stream.Types.Decode.{equal_fold}

pub record DownloadUrlMessage : Type 0 where
  pub url : String
  pub msg : Message

pub record FilenameMessage : Type 0 where
  pub filename : String
  pub msg : Message

pub record OnPremPayload : Type 0 where
  pub url : String
  pub request_id : String

-- A goroutine of `extractEvents` in its loop: what its channel of events still gives.
pub record Extraction : Type 0 where
  pub events : List EventEnvelope
  pub msg : Message

-- `OnPremEventsHydrator` with its goroutines: whether Listen still receives, the two channels, the
-- downloads that run, the goroutines inside of ExtractEvents, those in their loop, what was given to
-- the writer, and the acknowledgements.
pub record Hydrator : Type 0 where
  pub listening : Bool
  pub download_channel : List DownloadUrlMessage
  pub untar_channel : List FilenameMessage
  pub downloading : List DownloadUrlMessage
  pub unpacking : List FilenameMessage
  pub extracting : List Extraction
  pub written : List EventEnvelope
  pub ack_channel : List Message

-- `shouldProcess` on the headers
unfoldable pub should_process : List (String × String) → Bool
should_process [] = false
should_process ((key, value) ∷ headers) =
    key == "service" && value == "assisted-installer" || should_process headers

abbrev set_url : Value → OnPremPayload → Option OnPremPayload
set_url (str s) p = some (record p { url = s })
set_url null p = some p
set_url _ p = none

abbrev set_request_id : Value → OnPremPayload → Option OnPremPayload
set_request_id (str s) p = some (record p { request_id = s })
set_request_id null p = some p
set_request_id _ p = none

abbrev next_field :
    Option OnPremPayload → (OnPremPayload → Option OnPremPayload) → Option OnPremPayload
next_field none next = none
next_field (some p) next = next p

-- json.Unmarshal into an OnPremPayload; `none` is an error.
decode_payload_fields : Fields → OnPremPayload → Option OnPremPayload
unfolding equal_fold
decode_payload_fields end p = some p
decode_payload_fields (field k v m) p =
    next_field
      (if equal_fold k "url"
        then set_url v p
        else if equal_fold k "request_id"
        then set_request_id v p
        else some p)
      (decode_payload_fields m)

unfoldable pub decode_payload : Option Value → Option OnPremPayload
unfolding decode_payload_fields
decode_payload (some (obj m)) = decode_payload_fields m (record { url = ""; request_id = "" })
decode_payload (some null) = some (record { url = ""; request_id = "" })
decode_payload _ = none

-- `enqueueDownload`
unfoldable pub enqueue_download : String → Message → Hydrator → Hydrator
enqueue_download url msg h = record h {
  download_channel = h.download_channel ++ (record { url = url; msg = msg }) ∷ [];
}

-- a value that does not decode is left: it is neither enqueued nor acknowledged
unfoldable pub process_payload : Option OnPremPayload → Message → Hydrator → Hydrator
unfolding enqueue_download
process_payload none msg h = h
process_payload (some payload) msg h = enqueue_download payload.url msg h

-- `ProcessMessage`, which never returns an error
unfoldable pub process_message : Codec → Message → Hydrator → Hydrator
unfolding should_process process_payload decode_payload
process_message json msg h =
    if should_process msg.headers
    then process_payload (decode_payload (json.unmarshal msg.value)) msg h
    else record h { ack_channel = h.ack_channel ++ msg ∷ [] }

-- The end of `downloadURL`, by what DownloadFile returns.
unfoldable pub download_url : DownloadUrlMessage → Result String → Hydrator → Hydrator
download_url d (err e) h = h
download_url d (ok filename) h = record h {
  untar_channel = h.untar_channel ++ (record { filename = filename; msg = d.msg }) ∷ [];
}

-- `extractEvents` up to its loop, by what ExtractEvents returns.
unfoldable pub extract_events : FilenameMessage → Result (List EventEnvelope) → Hydrator → Hydrator
extract_events f (err e) h = h
extract_events f (ok events) h = record h {
  extracting = (record { events = events; msg = f.msg }) ∷ h.extracting;
}

-- `notifyEvent`: the error of Write is only logged
unfoldable pub notify_event : EventEnvelope → Hydrator → Hydrator
notify_event envelope h = record h { written = h.written ++ envelope ∷ [] }
