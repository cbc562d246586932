-- ===== src/Opensearch/Queue.antt =====
-- The queue of the bulk indexer, as the consumer meets it.
use assisted_events_stream.Prelude.{ℕ, String, ◌≡◌, ◌≢◌, refl, none, List, [], ◌∷◌, ◌++◌}
use assisted_events_stream.Types.{Codec, Float, EnrichedEvent, Message, returned}
use assisted_events_stream.Types.Encode.{encode_enriched_event}
use assisted_events_stream.Projection.Queue.{EventQueue}
use assisted_events_stream.Opensearch.{
  BulkIndexerItem, BulkIndexer, get_index_name, store, new_enriched_event_repository,
}

-- The documented behaviour of `Add`: an item is put at the end of the queue, unless there is an error or a panic.
pub record IsQueueing (bulk : BulkIndexer) : Type 0 where
  pub queued : bulk.State → List BulkIndexerItem
  pub add_queues :
      (item : BulkIndexerItem) (s : bulk.State)
      → (bulk.add item s).1 ≡ returned none
      → queued (bulk.add item s).0 ≡ queued s ++ item ∷ []
  pub add_fails :
      (item : BulkIndexerItem) (s : bulk.State)
      → (bulk.add item s).1 ≢ returned none
      → queued (bulk.add item s).0 ≡ queued s

module _ (json : Codec) (bits : Float → ℕ) (parse_time : String → ℕ × ℕ) (index_prefix : String)
    (bulk : BulkIndexer) (queueing : IsQueueing bulk) where
  abbrev pub item_of : EnrichedEvent → Message → BulkIndexerItem
  item_of event msg = record {
    index = get_index_name json bits parse_time index_prefix bulk event;
    document_id = event.id;
    body = json.marshal (encode_enriched_event bits event);
    msg = msg;
  }

  pub store-queues :
      (event : EnrichedEvent) (msg : Message) (s : bulk.State)
      → (store json bits parse_time index_prefix bulk event msg s).1 ≡ returned none
      → queueing.queued (store json bits parse_time index_prefix bulk event msg s).0
        ≡ queueing.queued s ++ item_of event msg ∷ []
  unfolding store
  store-queues event msg s h = queueing.add_queues (item_of event msg) s h

  pub store-fails :
      (event : EnrichedEvent) (msg : Message) (s : bulk.State)
      → (store json bits parse_time index_prefix bulk event msg s).1 ≢ returned none
      → queueing.queued (store json bits parse_time index_prefix bulk event msg s).0
        ≡ queueing.queued s
  unfolding store
  store-fails event msg s h = queueing.add_fails (item_of event msg) s h

  -- The queue of the repository.
  abbrev pub bulk_queue :
      EventQueue (new_enriched_event_repository json bits parse_time index_prefix bulk)
  bulk_queue = record {
    Item = BulkIndexerItem;
    item = item_of;
    msg_of = λ i. i.msg;
    queued = queueing.queued;
    msg_of-item = λ e msg. refl;
    store_queues = store-queues;
    store_fails = store-fails;
  }
