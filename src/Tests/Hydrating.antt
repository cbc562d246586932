-- ===== src/Tests/Hydrating.antt =====
-- Runs of the theorems on the hydrator.
use assisted_events_stream.Prelude.{
  count, itself, ◌+◌, ◌≡◌, refl, Bool, String, List, [], ◌∷◌, ◌==◌,
}
use assisted_events_stream.Value.{null, str, obj, end, field}
use assisted_events_stream.Types.{Message, EventEnvelope, failed, Result, ok, err}
use assisted_events_stream.Hydrator.{
  Hydrator, DownloadUrlMessage, FilenameMessage, process_message, download_url, extract_events,
  notify_event,
}
use assisted_events_stream.Hydrator.Runs.{
  initial, Run, start, receive, start_download, finish_download, start_extraction, unpacked, notify,
}
use assisted_events_stream.Hydrator.Conservation.{
  in_flight, pending, count_conserved, written_conserved,
}
use assisted_events_stream.Tests.Codec.{codec, marshal, unmarshal}

abbrev announcement : Message
announcement = record {
  key = "";
  value = marshal (obj (field "url" (str "http://archive") end));
  offset = 1;
  headers = ("service", "assisted-installer") ∷ [];
}

abbrev foreign : Message
foreign = record { key = ""; value = ""; offset = 2; headers = ("service", "other") ∷ [] }

abbrev enqueued : Hydrator
enqueued = record initial {
  download_channel = (record { url = "http://archive"; msg = announcement }) ∷ [];
  ack_channel = foreign ∷ [];
}

received : Run codec (announcement ∷ foreign ∷ []) [] [] enqueued
unfolding process_message marshal unmarshal
received = receive announcement (receive foreign start)

abbrev is_foreign : Message → Bool
is_foreign msg = msg.value == ""

count_conserved_example :
    count itself is_foreign (announcement ∷ foreign ∷ [])
    ≡ count itself is_foreign enqueued.ack_channel
      + count itself is_foreign []
      + in_flight is_foreign enqueued
count_conserved_example = count_conserved codec is_foreign received

-- the archive at hand is downloaded, and the extraction of every file fails
abbrev downloaded : DownloadUrlMessage → Result String
downloaded d = ok "archive"

abbrev extracted : FilenameMessage → Result (List EventEnvelope)
extracted f = err (failed "no archive")

abbrev envelope : EventEnvelope
envelope = record { event = record { name = "Event"; payload = null; metadata = end }; key = "c" }

abbrev notified : Hydrator
notified = record initial {
  extracting = (record { events = envelope ∷ []; msg = announcement }) ∷ [];
  written = envelope ∷ [];
  ack_channel = foreign ∷ [];
}

notifying : Run codec (announcement ∷ foreign ∷ []) [] (envelope ∷ envelope ∷ []) notified
unfolding download_url extract_events notify_event
notifying =
    let d : DownloadUrlMessage = record { url = "http://archive"; msg = announcement } in
    let f : FilenameMessage = record { filename = "archive"; msg = announcement } in
    notify envelope (envelope ∷ []) announcement [] [] refl (
      unpacked f [] [] (ok (envelope ∷ envelope ∷ [])) refl (
        start_extraction f [] refl refl
          (finish_download d [] [] (ok "archive") refl (start_download d [] refl refl received))))

written_conserved_example :
    count itself (λ e. e.key == "c") (envelope ∷ envelope ∷ [])
    ≡ count itself (λ e. e.key == "c") notified.written
      + pending (λ e. e.key == "c") notified.extracting
written_conserved_example = written_conserved codec (λ e. e.key == "c") notifying
