-- ===== src/Consumer/Conservation.antt =====
-- Where the messages of the consumer are.
use assisted_events_stream.Prelude.{
  ℕ, zero, suc, ◌+◌, inl, inr, true, false, Bool-cases, String, ◌≡◌, refl, ap, Bool, none, some,
  List, [], ◌∷◌, ◌++◌, arith, if◌then◌else◌, replicate, count, itself, count-append, count-middle,
}
use assisted_events_stream.Types.{Codec, Message, Outcome, returned, panicked}
use assisted_events_stream.Types.Decode.{get_event_from_message}
use assisted_events_stream.Snapshot.{SnapshotRepository}
use assisted_events_stream.Stream.Reader.{
  Round, quit, fetch_failed, fetched, Progress, waiting, after_message, consume,
}
use assisted_events_stream.Projection.{
  EventEnricher, EnrichedEventRepository, World, ack_msg, process_message,
}
use assisted_events_stream.Projection.Acks.{acks_due, acks-process_message}
use assisted_events_stream.Projection.Malformed.{HasPlainErrors}
use assisted_events_stream.Projection.Queue.{
  EventQueue, is_clustered_event, skipped_message, queue-process_message,
}
use assisted_events_stream.Consumer.{
  on_success, on_failure, skipped, received, round, Run, start, next, indexed, rejected,
}

abbrev goes_on : {W : Type 0} → W → W × Progress
goes_on w = (w, waiting)

after_message-world : {W : Type 0} (r : W × Outcome) → (after_message r goes_on).0 ≡ r.0
after_message-world (w, returned none) = refl
after_message-world (w, returned (some e)) = refl
after_message-world (w, panicked) = refl

after_message-waiting :
    {W : Type 0} (r : W × Outcome) → (after_message r goes_on).1 ≡ waiting → r.1 ≡ returned none
after_message-waiting (w, returned none) h = refl
after_message-waiting (w, returned (some e)) h = cc
after_message-waiting (w, panicked) h = cc

-- How often the projection itself acknowledges the messages with the property.
abbrev pub acks_of : Codec → (Message → Bool) → List Message → ℕ
acks_of json p [] = 0
acks_of json p (msg ∷ ms) =
    (if p msg then acks_due (get_event_from_message json msg.value) else 0) + acks_of json p ms

-- How many of the messages with the property are Events with a cluster_id.
abbrev pub events_of : Codec → (Message → Bool) → List Message → ℕ
events_of json p [] = 0
events_of json p (msg ∷ ms) =
    (if is_clustered_event (get_event_from_message json msg.value)
      then (if p msg then 1 else 0)
      else 0)
    + events_of json p ms

count-replicate :
    (p : Message → Bool) (n : ℕ) (msg : Message)
    → count itself p (replicate n msg) ≡ (if p msg then n else 0)
count-replicate p n msg = elim (Bool-cases (p msg)) [
  | inl e ↦ rw e (all n e)
  | inr e ↦ rw e (no n e)
]
  where
    all : (n : ℕ) → p msg ≡ true → count itself p (replicate n msg) ≡ n
    all zero e = refl
    all (suc n) e = rw e (omega (arith, all n e))

    no : (n : ℕ) → p msg ≡ false → count itself p (replicate n msg) ≡ 0
    no zero e = refl
    no (suc n) e = rw e (omega (arith, no n e))

acks_of-append :
    (json : Codec) (p : Message → Bool) (ms ms' : List Message)
    → acks_of json p (ms ++ ms') ≡ acks_of json p ms + acks_of json p ms'
acks_of-append json p [] ms' = omega arith
acks_of-append json p (m ∷ ms) ms' = omega (arith, acks_of-append json p ms ms')

events_of-append :
    (json : Codec) (p : Message → Bool) (ms ms' : List Message)
    → events_of json p (ms ++ ms') ≡ events_of json p ms + events_of json p ms'
events_of-append json p [] ms' = omega arith
events_of-append json p (m ∷ ms) ms' = omega (arith, events_of-append json p ms ms')

module _ (json : Codec) (S : SnapshotRepository) (enricher : EventEnricher)
    (R : EnrichedEventRepository) (excluded : List String) where
  pub round-world :
      (msg : Message) (w : World S R)
      → (round json S enricher R excluded (fetched msg) w).0
        ≡ (process_message json S enricher R excluded msg w).0
  unfolding consume
  round-world msg w = after_message-world (process_message json S enricher R excluded msg w)

  round-waiting :
      (msg : Message) (w : World S R)
      → (round json S enricher R excluded (fetched msg) w).1 ≡ waiting
      → (process_message json S enricher R excluded msg w).1 ≡ returned none
  unfolding consume
  round-waiting msg w h = after_message-waiting (process_message json S enricher R excluded msg w) h

module _ (json : Codec) (S : SnapshotRepository) (enricher : EventEnricher)
    (R : EnrichedEventRepository) (excluded : List String) (Q : EventQueue R)
    (plain : HasPlainErrors S R) (p : Message → Bool) where
  acks-fetched :
      (msg : Message) (w : World S R)
      → count itself p (round json S enricher R excluded (fetched msg) w).0.acks
        ≡ count itself p w.acks + acks_of json p (msg ∷ [])
  acks-fetched msg w =
      let n = acks_due (get_event_from_message json msg.value) in
      rw
        (
          round-world json S enricher R excluded msg w,
          acks-process_message json S enricher R excluded plain msg w,
        )
        (omega (arith, count-append itself p w.acks (replicate n msg), count-replicate p n msg))

  acks-round :
      (r : Round) (w : World S R)
      → count itself p (round json S enricher R excluded r w).0.acks
        ≡ count itself p w.acks + acks_of json p (received json S enricher R excluded r)
  unfolding consume
  acks-round quit w = omega arith
  acks-round (fetch_failed e) w = omega arith
  acks-round (fetched msg) w = acks-fetched msg w

  -- In every run, for every property of messages, if no repository returns a MalformedEventError of its
  -- own: the acknowledged messages that have it are those that the projection acknowledges itself, as
  -- often as `acks_due` says, and those whose event was indexed.
  pub acknowledged_conserved :
      {ms ls : List Message} {is rs : List Q.Item} {progress : Progress} {w : World S R}
      → Run json S enricher R excluded Q ms ls is rs progress w
      → count itself p w.acks ≡ acks_of json p ms + count Q.msg_of p is
  unfolding on_success on_failure ack_msg
  acknowledged_conserved (start snapshots enriched empty) = refl
  acknowledged_conserved (next {ms = ms} {w = w} r run) =
      let app = acks_of-append json p (received json S enricher R excluded r) ms in
      omega (arith, acks-round r w, app, acknowledged_conserved run)
  acknowledged_conserved (indexed {w = w} before after i s took left run) =
      omega (arith, count-append itself p w.acks (Q.msg_of i ∷ []), acknowledged_conserved run)
  acknowledged_conserved (rejected before after i s took left run) = acknowledged_conserved run

  queue-fetched :
      (msg : Message) (w : World S R)
      → (round json S enricher R excluded (fetched msg) w).1 ≡ waiting
      → count Q.msg_of p (Q.queued (round json S enricher R excluded (fetched msg) w).0.enriched)
          + count itself p (skipped_message json S enricher R excluded w msg)
        ≡ count Q.msg_of p (Q.queued w.enriched) + events_of json p (msg ∷ [])
  queue-fetched msg w h = rw (round-world json S enricher R excluded msg w) (
      omega (
        arith,
        queue-process_message json S enricher R excluded Q p plain msg w
            (round-waiting json S enricher R excluded msg w h),
      ))

  queue-round :
      (r : Round) (w : World S R)
      → (round json S enricher R excluded r w).1 ≡ waiting
      → count Q.msg_of p (Q.queued (round json S enricher R excluded r w).0.enriched)
          + count itself p (skipped json S enricher R excluded w r)
        ≡ count Q.msg_of p (Q.queued w.enriched)
          + events_of json p (received json S enricher R excluded r)
  unfolding consume
  queue-round quit w h = cc
  queue-round (fetch_failed e) w h = cc
  queue-round (fetched msg) w h = queue-fetched msg w h

  -- In every run whose loop still waits for its next round, for every property of messages, if no
  -- repository returns a MalformedEventError of its own: as many Events with a cluster_id that have the
  -- property were fetched as wait in the queue, were indexed, were not indexed by the server, and were
  -- skipped for their cluster's user, together.
  pub events_conserved :
      {ms ls : List Message} {is rs : List Q.Item} {progress : Progress} {w : World S R}
      → Run json S enricher R excluded Q ms ls is rs progress w
      → progress ≡ waiting
      → events_of json p ms
        ≡ count Q.msg_of p (Q.queued w.enriched)
          + count Q.msg_of p is
          + count Q.msg_of p rs
          + count itself p ls
  unfolding on_success on_failure ack_msg
  events_conserved (start snapshots enriched empty) h = rw empty refl
  events_conserved (next {ms = ms} {ls = ls} {w = w} r run) h = omega (
    arith,
    events_of-append json p (received json S enricher R excluded r) ms,
    count-append itself p (skipped json S enricher R excluded w r) ls,
    queue-round r w h,
    events_conserved run refl,
  )
  events_conserved (indexed before after i s took left run) h = rw left (
      omega (
        arith,
        count-middle Q.msg_of p before i after,
        ap (count Q.msg_of p) took,
        events_conserved run h,
      ))
  events_conserved (rejected before after i s took left run) h = rw left (
      omega (
        arith,
        count-middle Q.msg_of p before i after,
        ap (count Q.msg_of p) took,
        events_conserved run h,
      ))
