-- ===== src/Hydrator/Conservation.antt =====
-- Where the messages and the events of the hydrator are.
use assisted_events_stream.Prelude.{
  count, itself, count-append, inl, inr, Bool-cases, ℕ, ◌+◌, String, ◌≡◌, refl, ap, Bool, Option,
  none, some, List, [], ◌∷◌, ◌++◌, arith, if◌then◌else◌,
}
use assisted_events_stream.Types.{Codec, EventEnvelope, Message, Result, ok, err}
use assisted_events_stream.Hydrator.{
  Hydrator, DownloadUrlMessage, FilenameMessage, Extraction, OnPremPayload, should_process,
  decode_payload, enqueue_download, process_payload, process_message, download_url, extract_events,
  notify_event,
}
use assisted_events_stream.Hydrator.Runs.{
  given_up, undecoded, lost, Run, start, receive, start_download, finish_download, start_extraction,
  unpacked, notify, finish_extraction, close,
}

abbrev pub of_download : DownloadUrlMessage → Message
of_download d = d.msg

abbrev pub of_file : FilenameMessage → Message
of_file f = f.msg

abbrev pub of_extraction : Extraction → Message
of_extraction x = x.msg

-- the messages that wait in a channel or that a goroutine works on
abbrev pub in_flight : (Message → Bool) → Hydrator → ℕ
in_flight p h =
    count of_download p h.download_channel
    + count of_download p h.downloading
    + count of_file p h.untar_channel
    + count of_file p h.unpacking
    + count of_extraction p h.extracting

total : (Message → Bool) → List Message → Hydrator → ℕ
total p ls h = count itself p h.ack_channel + count itself p ls + in_flight p h

total-process_payload :
    (p : Message → Bool) (o : Option OnPremPayload) (msg : Message) (ls : List Message)
    (h : Hydrator)
    → total p (undecoded o msg ++ ls) (process_payload o msg h)
      ≡ (if p msg then 1 else 0) + total p ls h
unfolding total process_payload enqueue_download
total-process_payload p none msg ls h = omega arith
total-process_payload p (some payload) msg ls h = omega (
  arith,
  count-append of_download p h.download_channel ((record { url = payload.url; msg = msg }) ∷ []),
)

total-receive :
    (json : Codec) (p : Message → Bool) (msg : Message) (ls : List Message) (h : Hydrator)
    → total p (lost json msg ++ ls) (process_message json msg h)
      ≡ (if p msg then 1 else 0) + total p ls h
unfolding process_message total
total-receive json p msg ls h = elim (Bool-cases (should_process msg.headers)) [
  | inl e ↦ rw e (total-process_payload p (decode_payload (json.unmarshal msg.value)) msg ls h)
  | inr e ↦ rw e (acknowledged p msg ls h)
]
  where
    acknowledged :
        (p : Message → Bool) (msg : Message) (ls : List Message) (h : Hydrator)
        → total p ls (record h { ack_channel = h.ack_channel ++ msg ∷ [] })
          ≡ (if p msg then 1 else 0) + total p ls h
    acknowledged p msg ls h = omega (arith, count-append itself p h.ack_channel (msg ∷ []))

total-download_url :
    (p : Message → Bool) (d : DownloadUrlMessage) (result : Result String) (ls : List Message)
    (h : Hydrator)
    → total p (given_up result d.msg ++ ls) (download_url d result h)
      ≡ (if p d.msg then 1 else 0) + total p ls h
unfolding total download_url
total-download_url p d (err e) ls h = omega arith
total-download_url p d (ok filename) ls h = omega (
  arith,
  count-append of_file p h.untar_channel ((record { filename = filename; msg = d.msg }) ∷ []),
)

total-extract_events :
    (p : Message → Bool) (f : FilenameMessage) (result : Result (List EventEnvelope))
    (ls : List Message) (h : Hydrator)
    → total p (given_up result f.msg ++ ls) (extract_events f result h)
      ≡ (if p f.msg then 1 else 0) + total p ls h
unfolding total extract_events
total-extract_events p f (err e) ls h = omega arith
total-extract_events p f (ok events) ls h = omega arith

-- In every run, and for every property of messages: as many of the messages received have the
-- property as of those acknowledged, given up, waiting in a channel or worked on by a goroutine
-- together. So none is lost unseen, and none is acknowledged more often than received.
pub count_conserved :
    (json : Codec) {ms ls : List Message} {es : List EventEnvelope} {h : Hydrator}
    (p : Message → Bool)
    → Run json ms ls es h
    → count itself p ms ≡ count itself p h.ack_channel + count itself p ls + in_flight p h
unfolding total notify_event
count_conserved json p start = refl
count_conserved json p (receive {ms} {ls} {es} {h} msg run) =
    omega (arith, count_conserved json p run, total-receive json p msg ls h)
count_conserved json p (start_download {ms} {ls} {es} {h} d rest on e run) =
    omega (arith, count_conserved json p run, ap (count of_download p) e)
count_conserved json p (finish_download {ms} {ls} {es} {h} d before after result e run) = omega (
  arith,
  count_conserved json p run,
  ap (count of_download p) e,
  count-append of_download p before (d ∷ after),
  count-append of_download p before after,
  total-download_url p d result ls (record h { downloading = before ++ after }),
)
count_conserved json p (start_extraction {ms} {ls} {es} {h} f rest on e run) =
    omega (arith, count_conserved json p run, ap (count of_file p) e)
count_conserved json p (unpacked {ms} {ls} {es} {h} f before after result e run) = omega (
  arith,
  count_conserved json p run,
  ap (count of_file p) e,
  count-append of_file p before (f ∷ after),
  count-append of_file p before after,
  total-extract_events p f result ls (record h { unpacking = before ++ after }),
)
count_conserved json p (notify {ms} {ls} {es} {h} e events msg before after at run) = omega (
  arith,
  count_conserved json p run,
  ap (count of_extraction p) at,
  count-append of_extraction p before ((record { events = e ∷ events; msg = msg }) ∷ after),
  count-append of_extraction p before ((record { events = events; msg = msg }) ∷ after),
)
count_conserved json p (finish_extraction {ms} {ls} {es} {h} msg before after e run) = omega (
  arith,
  count_conserved json p run,
  ap (count of_extraction p) e,
  count-append itself p h.ack_channel (msg ∷ []),
  count-append of_extraction p before ((record { events = []; msg = msg }) ∷ after),
  count-append of_extraction p before after,
)
count_conserved json p (close run) = count_conserved json p run

-- the events that the running extractions have still to notify
abbrev pub pending : (EventEnvelope → Bool) → List Extraction → ℕ
pending q [] = 0
pending q (x ∷ xs) = count itself q x.events + pending q xs

pending-append :
    (q : EventEnvelope → Bool) (xs ys : List Extraction)
    → pending q (xs ++ ys) ≡ pending q xs + pending q ys
pending-append q [] ys = omega arith
pending-append q (x ∷ xs) ys = omega (arith, pending-append q xs ys)

written-process_message :
    (json : Codec) (msg : Message) (h : Hydrator) → (process_message json msg h).written ≡ h.written
unfolding process_message process_payload enqueue_download
written-process_message json msg h = ground arith

extracting-process_message :
    (json : Codec) (msg : Message) (h : Hydrator)
    → (process_message json msg h).extracting ≡ h.extracting
unfolding process_message process_payload enqueue_download
extracting-process_message json msg h = ground arith

-- In every run, and for every property of events: as many of the events that the extractor returned
-- have the property as of those given to the writer and of those still to notify together. So each
-- event is given to the writer at most once, and exactly once when no extraction runs any more.
pub written_conserved :
    (json : Codec) {ms ls : List Message} {es : List EventEnvelope} {h : Hydrator}
    (q : EventEnvelope → Bool)
    → Run json ms ls es h
    → count itself q es ≡ count itself q h.written + pending q h.extracting
unfolding notify_event download_url extract_events
written_conserved json q start = refl
written_conserved json q (receive {ms} {ls} {es} {h} msg run) =
    rw (written-process_message json msg h, extracting-process_message json msg h)
      (written_conserved json q run)
written_conserved json q (start_download d rest on e run) = written_conserved json q run
written_conserved json q (finish_download d before after (ok f) e run) =
    written_conserved json q run
written_conserved json q (finish_download d before after (err x) e run) =
    written_conserved json q run
written_conserved json q (start_extraction f rest on e run) = written_conserved json q run
written_conserved json q (unpacked f before after (ok events) e run) =
    omega (arith, written_conserved json q run, count-append itself q events _)
written_conserved json q (unpacked f before after (err x) e run) = written_conserved json q run
written_conserved json q (notify {ms} {ls} {es} {h} e events msg before after at run) = omega (
  arith,
  written_conserved json q run,
  ap (pending q) at,
  count-append itself q h.written (e ∷ []),
  pending-append q before ((record { events = e ∷ events; msg = msg }) ∷ after),
  pending-append q before ((record { events = events; msg = msg }) ∷ after),
)
written_conserved json q (finish_extraction msg before after e run) = omega (
  arith,
  written_conserved json q run,
  ap (pending q) e,
  pending-append q before ((record { events = []; msg = msg }) ∷ after),
  pending-append q before after,
)
written_conserved json q (close run) = written_conserved json q run
