-- ===== src/Consumer.antt =====
-- cmd/consumer/main.go: the program that consumes. The loop of the reader hands each message to the
-- projection, and beside it the bulk indexer calls back for each event of its queue.
pub mod Conservation
pub mod Draining
pub mod Privacy
use assisted_events_stream.Prelude.{
  String, ◌≡◌, Bool, true, false, Option, none, some, List, [], ◌∷◌, ◌++◌, ◌==◌, if◌then◌else◌,
}
use assisted_events_stream.Types.{
  Codec, Error, Result, ok, err, Event, EnrichedEvent, Message, Outcome, returned, panicked,
}
use assisted_events_stream.Types.Decode.{get_event_from_message}
use assisted_events_stream.Projection.Queue.{EventQueue, skipped_message}
use assisted_events_stream.Snapshot.{SnapshotRepository}
use assisted_events_stream.Stream.Reader.{
  Round, quit, fetch_failed, fetched, Progress, waiting, consume,
}
use assisted_events_stream.Projection.{
  EventEnricher, EnrichedEventRepository, World, cluster_event, get_value_from_payload, skip_event,
  ack_msg, process_message,
}

module _ (json : Codec) (S : SnapshotRepository) (enricher : EventEnricher)
    (R : EnrichedEventRepository) (excluded : List String) where
  -- What `Store` of internal/repository/opensearch/enriched_event_repository.go gives the bulk indexer
  -- for an item that is indexed,
  unfoldable pub on_success : Message → World S R → World S R
  unfolding ack_msg
  on_success msg w = ack_msg json S enricher R excluded msg w

  -- and for one that is not, which is logged only.
  unfoldable pub on_failure : Message → World S R → World S R
  on_failure msg w = w

  -- the messages that a round leaves out
  abbrev pub skipped : World S R → Round → List Message
  skipped w (fetched msg) = skipped_message json S enricher R excluded w msg
  skipped w _ = []

  abbrev pub received : Round → List Message
  received (fetched msg) = msg ∷ []
  received _ = []

  -- One round of `Consume` with `ProcessMessage`.
  abbrev pub round : Round → World S R → World S R × Progress
  round r w = consume (process_message json S enricher R excluded) (r ∷ []) w

  -- `Run ms ls is rs progress w`: after the messages `ms` were fetched, of which `ls` were skipped, and
  -- the items `is` were indexed and `rs` were not, the loop may have come to `progress`, with `w`. The
  -- indexer may still call back when the loop has ended.
  pub data Run (Q : EventQueue R)
      : List Message
        → List Message
        → List Q.Item
        → List Q.Item
        → Progress
        → World S R
        → Type 0 where
    start :
        (snapshots : S.State) (enriched : R.State)
        → Q.queued enriched ≡ []
        → Run Q [] [] [] [] waiting
            (record { snapshots = snapshots; enriched = enriched; acks = [] })
    next :
        {ms ls : List Message} {is rs : List Q.Item} {w : World S R} (r : Round)
        → Run Q ms ls is rs waiting w
        → Run Q (received r ++ ms) (skipped w r ++ ls) is rs (round r w).1 (round r w).0
    indexed :
        {ms ls : List Message} {is rs : List Q.Item} {progress : Progress} {w : World S R}
        (before after : List Q.Item) (i : Q.Item) (s : R.State)
        → Q.queued w.enriched ≡ before ++ i ∷ after
        → Q.queued s ≡ before ++ after
        → Run Q ms ls is rs progress w
        → Run Q ms ls (i ∷ is) rs progress (on_success (Q.msg_of i) (record w { enriched = s }))
    rejected :
        {ms ls : List Message} {is rs : List Q.Item} {progress : Progress} {w : World S R}
        (before after : List Q.Item) (i : Q.Item) (s : R.State)
        → Q.queued w.enriched ≡ before ++ i ∷ after
        → Q.queued s ≡ before ++ after
        → Run Q ms ls is rs progress w
        → Run Q ms ls is (i ∷ rs) progress (on_failure (Q.msg_of i) (record w { enriched = s }))
