-- ===== src/Hydrator/Draining.antt =====
-- A hydrator that listens can finish what it has taken on, if its downloads and extractions return.
use assisted_events_stream.Prelude.{Bool, List}
use assisted_events_stream.Types.{EventEnvelope, Message}
use assisted_events_stream.Hydrator.{Hydrator, DownloadUrlMessage, FilenameMessage, Extraction}

abbrev pub to_state :
    Bool
    → List DownloadUrlMessage
    → List FilenameMessage
    → List DownloadUrlMessage
    → List FilenameMessage
    → List Extraction
    → List EventEnvelope
    → List Message
    → Hydrator
to_state listening downloads untars downloading unpacking extracting written acks = record {
  listening = listening;
  download_channel = downloads;
  untar_channel = untars;
  downloading = downloading;
  unpacking = unpacking;
  extracting = extracting;
  written = written;
  ack_channel = acks;
}
