-- ===== src/Hydrator/Runs.antt =====
-- The runs of the hydrator: every interleaving of its consumer, of Listen and of the goroutines that
-- Listen starts. The channels are not bounded here, so every run with bounded ones is among these.
use assisted_events_stream.Prelude.{
  String, ◌≡◌, true, false, Option, none, some, List, [], ◌∷◌, ◌++◌, if◌then◌else◌,
}
use assisted_events_stream.Types.{Codec, EventEnvelope, Message, Result, ok, err}
use assisted_events_stream.Hydrator.{
  Hydrator, DownloadUrlMessage, FilenameMessage, Extraction, OnPremPayload, should_process,
  decode_payload, process_message, download_url, extract_events, notify_event,
}

abbrev pub initial : Hydrator
initial = record {
  listening = true;
  download_channel = [];
  untar_channel = [];
  downloading = [];
  unpacking = [];
  extracting = [];
  written = [];
  ack_channel = [];
}

-- The message if the step gives it up: it will never be acknowledged.
abbrev pub given_up : {A : Type 0} → Result A → Message → List Message
given_up (ok a) msg = []
given_up (err e) msg = msg ∷ []

abbrev pub undecoded : Option OnPremPayload → Message → List Message
undecoded none msg = msg ∷ []
undecoded (some p) msg = []

abbrev pub lost : Codec → Message → List Message
lost json msg =
    if should_process msg.headers
    then undecoded (decode_payload (json.unmarshal msg.value)) msg
    else []

abbrev pub returned_events : Result (List EventEnvelope) → List EventEnvelope
returned_events (ok events) = events
returned_events (err e) = []

-- `Run json received lost extracted h`: after the messages `received` came in, of which `lost` were
-- given up, and the extractor returned the events `extracted`, the hydrator may be in the state `h`.
pub data Run (json : Codec)
    : List Message → List Message → List EventEnvelope → Hydrator → Type 0 where
  start : Run json [] [] [] initial
  -- the consumer hands a message to ProcessMessage
  receive :
      {ms ls : List Message} {es : List EventEnvelope} {h : Hydrator} (msg : Message)
      → Run json ms ls es h
      → Run json (msg ∷ ms) (lost json msg ++ ls) es (process_message json msg h)
  -- Listen receives from the download channel and starts `downloadURL`
  start_download :
      {ms ls : List Message} {es : List EventEnvelope} {h : Hydrator} (d : DownloadUrlMessage)
      (rest : List DownloadUrlMessage)
      → h.listening ≡ true
      → h.download_channel ≡ d ∷ rest
      → Run json ms ls es h
      → Run json ms ls es (record h { download_channel = rest; downloading = d ∷ h.downloading })
  -- a download ends
  finish_download :
      {ms ls : List Message} {es : List EventEnvelope} {h : Hydrator} (d : DownloadUrlMessage)
      (before after : List DownloadUrlMessage) (result : Result String)
      → h.downloading ≡ before ++ d ∷ after
      → Run json ms ls es h
      → Run json ms
          (given_up result d.msg ++ ls)
          es
          (download_url d result (record h { downloading = before ++ after }))
  -- Listen receives from the untar channel and starts `extractEvents`
  start_extraction :
      {ms ls : List Message} {es : List EventEnvelope} {h : Hydrator} (f : FilenameMessage)
      (rest : List FilenameMessage)
      → h.listening ≡ true
      → h.untar_channel ≡ f ∷ rest
      → Run json ms ls es h
      → Run json ms ls es (record h { untar_channel = rest; unpacking = f ∷ h.unpacking })
  -- ExtractEvents returns to its goroutine; one that blocks never does
  unpacked :
      {ms ls : List Message} {es : List EventEnvelope} {h : Hydrator} (f : FilenameMessage)
      (before after : List FilenameMessage) (result : Result (List EventEnvelope))
      → h.unpacking ≡ before ++ f ∷ after
      → Run json ms ls es h
      → Run json ms
          (given_up result f.msg ++ ls)
          (returned_events result ++ es)
          (extract_events f result (record h { unpacking = before ++ after }))
  -- an extraction notifies its next event
  notify :
      {ms ls : List Message} {es : List EventEnvelope} {h : Hydrator} (e : EventEnvelope)
      (events : List EventEnvelope) (msg : Message) (before after : List Extraction)
      → h.extracting ≡ before ++ (record { events = e ∷ events; msg = msg }) ∷ after
      → Run json ms ls es h
      → Run json ms ls es (
          notify_event e
            (record h { extracting = before ++ (record { events = events; msg = msg }) ∷ after }))
  -- an extraction with no event left acknowledges its message
  finish_extraction :
      {ms ls : List Message} {es : List EventEnvelope} {h : Hydrator} (msg : Message)
      (before after : List Extraction)
      → h.extracting ≡ before ++ (record { events = []; msg = msg }) ∷ after
      → Run json ms ls es h
      → Run json ms ls es
          (record h { extracting = before ++ after; ack_channel = h.ack_channel ++ msg ∷ [] })
  -- Close sends to the done channel, and Listen receives it
  close :
      {ms ls : List Message} {es : List EventEnvelope} {h : Hydrator}
      → Run json ms ls es h
      → Run json ms ls es (record h { listening = false })
