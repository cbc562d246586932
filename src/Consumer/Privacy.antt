-- ===== src/Consumer/Privacy.antt =====
-- What reaches the index.
use assisted_events_stream.Prelude.{
  String, ◌≡◌, ap, ℕ, none, List, [], ◌∷◌, All, All-middle, IsOneOf,
}
use assisted_events_stream.Types.{Codec, Float, EnrichedEvent, Message}
use assisted_events_stream.Types.Encode.{encode_enriched_event}
use assisted_events_stream.Value.{lookup, entries}
use assisted_events_stream.Opensearch.{
  BulkIndexerItem, BulkIndexer, get_index_name, new_enriched_event_repository,
}
use assisted_events_stream.Opensearch.Queue.{IsQueueing, bulk_queue}
use assisted_events_stream.Snapshot.{SnapshotRepository}
use assisted_events_stream.JsonEdit.{PathLib}
use assisted_events_stream.JsonEdit.Paths.{IsLawful}
use assisted_events_stream.Stream.Reader.{Round, quit, fetch_failed, fetched, Progress, consume}
use assisted_events_stream.Projection.{EventEnricher, EnrichedEventRepository, World, ack_msg}
use assisted_events_stream.Projection.Queue.{EventQueue}
use assisted_events_stream.Projection.Queue.Items.{AllReturned, IsItemOf, process_message-AllStored}
use assisted_events_stream.Projection.Returns.{new_event_enricher}
use assisted_events_stream.Enricher.Assembly.{Tools, Visits}
use assisted_events_stream.Enricher.Returns.{AreDefaults}
use assisted_events_stream.Enricher.Privacy.{IsPrivate, get_enriched_event-IsPrivate}
use assisted_events_stream.Consumer.{
  on_success, on_failure, round, Run, start, next, indexed, rejected,
}
use assisted_events_stream.Consumer.Conservation.{round-world}

module _ (json : Codec) (S : SnapshotRepository) (enricher : EventEnricher)
    (R : EnrichedEventRepository) (excluded : List String) (Q : EventQueue R)
    (P : EnrichedEvent → Type 0) (returned : AllReturned enricher P) where
  fetched-stored :
      (msg : Message) (w : World S R)
      → All (IsItemOf Q P) (Q.queued w.enriched)
      → All (IsItemOf Q P) (Q.queued (round json S enricher R excluded (fetched msg) w).0.enriched)
  fetched-stored msg w h =
      rw (round-world json S enricher R excluded msg w)
        (process_message-AllStored json S enricher R excluded Q P returned msg w h)

  round-stored :
      (r : Round) (w : World S R)
      → All (IsItemOf Q P) (Q.queued w.enriched)
      → All (IsItemOf Q P) (Q.queued (round json S enricher R excluded r w).0.enriched)
  unfolding consume
  round-stored quit w h = h
  round-stored (fetch_failed e) w h = h
  round-stored (fetched msg) w h = fetched-stored msg w h

  items-Run :
      {ms ls : List Message} {is rs : List Q.Item} {progress : Progress} {w : World S R}
      → Run json S enricher R excluded Q ms ls is rs progress w
      → All (IsItemOf Q P) (Q.queued w.enriched) × All (IsItemOf Q P) is × All (IsItemOf Q P) rs
  unfolding on_success on_failure ack_msg
  items-Run (start snapshots enriched empty) = (rw empty tt, tt, tt)
  items-Run (next {w = w} r run) = let (q, i, f) = items-Run run in (round-stored r w q, i, f)
  items-Run (indexed before after i s took left run) =
      let (q, k, f) = items-Run run in
      let (this, rest) = All-middle (IsItemOf Q P) before i after (rw took at q) in
      (rw left rest, (this, k), f)
  items-Run (rejected before after i s took left run) =
      let (q, k, f) = items-Run run in
      let (this, rest) = All-middle (IsItemOf Q P) before i after (rw took at q) in
      (rw left rest, k, (this, f))

items-IsPrivate :
    (json : Codec) (lib : PathLib) (lawful : IsLawful json lib)
    (empty_invalid : json.unmarshal "" ≡ none) (tools : Tools) (visits : Visits)
    (defaults : AreDefaults visits)
    (visited : IsOneOf visits.sensitive_paths ("cluster.user_name", "cluster.user_id"))
    (S : SnapshotRepository) (R : EnrichedEventRepository) (excluded : List String)
    (Q : EventQueue R) {ms ls : List Message} {is rs : List Q.Item} {progress : Progress}
    {w : World S R}
    → Run json S (new_event_enricher json lib tools visits) R excluded Q ms ls is rs progress w
    → All (IsItemOf Q IsPrivate) (Q.queued w.enriched)
      × All (IsItemOf Q IsPrivate) is
      × All (IsItemOf Q IsPrivate) rs
items-IsPrivate json lib lawful empty_invalid tools visits defaults visited S R excluded Q run =
    items-Run json S (new_event_enricher json lib tools visits) R excluded Q IsPrivate
      (λ event cluster hosts infra_envs e h.
        get_enriched_event-IsPrivate json lib lawful tools visits empty_invalid defaults visited
          event cluster hosts infra_envs e h)
      run

All-map :
    {A : Type 0} (P P' : A → Type 0) → ((a : A) → P a → P' a) → (xs : List A) → All P xs → All P' xs
All-map P P' f [] h = tt
All-map P P' f (x ∷ xs) (h, hs) = (f x h, All-map P P' f xs hs)

module _ (json : Codec) (bits : Float → ℕ) (parse_time : String → ℕ × ℕ) (index_prefix : String)
    (bulk : BulkIndexer) where
  -- A document of an event without the secrets, under the event's identifier and in its index.
  pub record IsPrivateDocument (i : BulkIndexerItem) : Type 0 where
    pub event : EnrichedEvent
    pub document_id : i.document_id ≡ event.id
    pub body : i.body ≡ json.marshal (encode_enriched_event bits event)
    pub index : i.index ≡ get_index_name json bits parse_time index_prefix bulk event
    pub cluster :
        All
          (λ k. lookup k (entries event.cluster) ≡ none)
          ("ssh_public_key" ∷ "pull_secret" ∷ "user_name" ∷ [])
    pub infra_envs : All (λ m. lookup "ssh_authorized_key" (entries m) ≡ none) event.infra_envs

  document-IsPrivateDocument :
      (queueing : IsQueueing bulk) (i : BulkIndexerItem)
      → IsItemOf (bulk_queue json bits parse_time index_prefix bulk queueing) IsPrivate i
      → IsPrivateDocument i
  document-IsPrivateDocument queueing i (e, msg, same, private) = record {
    event = e;
    document_id = ap (λ (i : BulkIndexerItem). i.document_id) same;
    body = ap (λ (i : BulkIndexerItem). i.body) same;
    index = ap (λ (i : BulkIndexerItem). i.index) same;
    cluster = private.cluster;
    infra_envs = private.infra_envs;
  }

  -- In every run of the program with its own enricher and its own repository of enriched events,
  -- whatever the messages and the snapshots are: every document that waits, that was indexed, or that
  -- the server did not index is the JSON of an event, under its identifier and in its index, whose
  -- cluster has no user_name, no pull_secret and no ssh_public_key and whose infra-envs have no
  -- ssh_authorized_key; with lawful gjson and sjson, an empty text that is no JSON, a bulk indexer that
  -- queues what is added, and visits of `fieldsToAnonymize` that meet its own keys and pairs, the pair
  -- of the user_name among them.
  pub documents-IsPrivateDocument :
      (lib : PathLib) (lawful : IsLawful json lib) (empty_invalid : json.unmarshal "" ≡ none)
      (tools : Tools) (visits : Visits) (defaults : AreDefaults visits)
      (visited : IsOneOf visits.sensitive_paths ("cluster.user_name", "cluster.user_id"))
      (S : SnapshotRepository) (excluded : List String) (queueing : IsQueueing bulk)
      {ms ls : List Message} {is rs : List BulkIndexerItem} {progress : Progress}
      {w : World S (new_enriched_event_repository json bits parse_time index_prefix bulk)}
      → Run json S
          (new_event_enricher json lib tools visits)
          (new_enriched_event_repository json bits parse_time index_prefix bulk)
          excluded
          (bulk_queue json bits parse_time index_prefix bulk queueing)
          ms
          ls
          is
          rs
          progress
          w
      → All IsPrivateDocument (queueing.queued w.enriched)
        × All IsPrivateDocument is
        × All IsPrivateDocument rs
  documents-IsPrivateDocument lib lawful empty_invalid tools visits defaults visited S excluded
        queueing {is = is} {rs = rs} {w = w} run =
      let Q = bulk_queue json bits parse_time index_prefix bulk queueing in
      let (q, k, f) =
        items-IsPrivate json lib lawful empty_invalid tools visits defaults visited S _ excluded Q
          run in
      let private = λ (xs : List BulkIndexerItem).
        All-map (IsItemOf Q IsPrivate) IsPrivateDocument (document-IsPrivateDocument queueing) xs in
      (private (queueing.queued w.enriched) q, private is k, private rs f)
