-- ===== src/Consumer/Draining.antt =====
-- The consumer can always catch up with its queue.
use assisted_events_stream.Prelude.{
  ◌+◌, String, ◌≡◌, refl, ap, Bool, List, [], ◌∷◌, arith, count, itself,
}
use assisted_events_stream.Types.{Codec, Message}
use assisted_events_stream.Snapshot.{SnapshotRepository}
use assisted_events_stream.Stream.Reader.{Progress, waiting}
use assisted_events_stream.Projection.{EventEnricher, EnrichedEventRepository, World}
use assisted_events_stream.Projection.Malformed.{HasPlainErrors}
use assisted_events_stream.Projection.Queue.{EventQueue}
use assisted_events_stream.Consumer.{Run, indexed, on_success}
use assisted_events_stream.Consumer.Conservation.{
  acks_of, events_of, acknowledged_conserved, events_conserved,
}

-- The indexer can take the first item out of the queue.
abbrev pub CanFlush : {R : EnrichedEventRepository} → EventQueue R → Type 0
CanFlush {R = R} Q =
    (s : R.State) (i : Q.Item) (rest : List Q.Item)
    → Q.queued s ≡ i ∷ rest
    → (s' : R.State) × (Q.queued s' ≡ rest)

module _ (json : Codec) (S : SnapshotRepository) (enricher : EventEnricher)
    (R : EnrichedEventRepository) (excluded : List String) (Q : EventQueue R)
    (flushes : CanFlush Q) where
  drain :
      (queue : List Q.Item) {ms ls : List Message} {is rs : List Q.Item} {progress : Progress}
      {w : World S R}
      → Run json S enricher R excluded Q ms ls is rs progress w
      → Q.queued w.enriched ≡ queue
      → (is' : List Q.Item) × (w' : World S R) × Run json S enricher R excluded Q ms ls is' rs
          progress w'
        × (Q.queued w'.enriched ≡ [])
  unfolding on_success
  drain [] {is = is} {w = w} run empty = (is, w, run, empty)
  drain (i ∷ rest) {w = w} run q =
      let (s, left) = flushes w.enriched i rest q in
      drain rest (indexed [] rest i s q left run) left

  -- If the indexer can take the first item out of every queue: from every state of a run whose loop
  -- waits for its next round, the run can go on, with no message more and nothing refused by the server
  -- any more, until the queue is empty; and then, for every property of messages, if no repository
  -- returns a MalformedEventError of its own: every fetched Event with a cluster_id that has it is
  -- acknowledged, or was skipped or refused before, and the acknowledged messages that have it are
  -- otherwise those that the projection acknowledges itself.
  pub every_event-acknowledged :
      {ms ls : List Message} {is rs : List Q.Item} {w : World S R} (plain : HasPlainErrors S R)
      → Run json S enricher R excluded Q ms ls is rs waiting w
      → (is' : List Q.Item) × (w' : World S R) × Run json S enricher R excluded Q ms ls is' rs
          waiting w'
        × (Q.queued w'.enriched ≡ [])
        × ((p : Message → Bool)
            → count itself p w'.acks + count Q.msg_of p rs + count itself p ls
              ≡ acks_of json p ms + events_of json p ms)
  every_event-acknowledged {ms = ms} {ls = ls} {rs = rs} {w = w} plain run =
      let (is', w', run', empty) = drain (Q.queued w.enriched) run refl in
      (
        is',
        w',
        run',
        empty,
        λ p. omega (
          arith,
          acknowledged_conserved json S enricher R excluded Q plain p run',
          events_conserved json S enricher R excluded Q plain p run' refl,
          ap (count Q.msg_of p) empty,
        ),
      )
