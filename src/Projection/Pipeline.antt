-- ===== src/Projection/Pipeline.antt =====
-- What becomes of an Event message that follows other messages.
use mathlib.Core.List.{Memᴰ}
use assisted_events_stream.Prelude.{
  String, ◌≡◌, true, false, none, some, List, [], ◌∷◌, arith, ◌==◌, eq_refl,
}
use assisted_events_stream.Value.{Fields, entries, lookup, obj, str}
use assisted_events_stream.Types.{Codec, ok, Event, EnrichedEvent, Message, returned}
use assisted_events_stream.Types.Decode.{get_event_from_message}
use assisted_events_stream.Snapshot.{SnapshotRepository, IsSnapshot}
use assisted_events_stream.Stream.Reader.{waiting, consume, fetched_all}
use assisted_events_stream.Projection.Malformed.{HasPlainErrors}
use assisted_events_stream.Projection.History.{cluster_after, consume-cluster_after}
use assisted_events_stream.Projection.{
  EventEnricher, EnrichedEventRepository, World, cluster_event, user_name, get_value_from_payload,
  contains, skip_event, enrich_and_store, after_switch, process_cluster_event, process_event,
  process_message,
}

contains-mem : (name : String) (xs : List String) → Memᴰ name xs → contains xs name ≡ true
unfolding contains
contains-mem name [] m = elim m [ ]
contains-mem name (x ∷ xs) (Memᴰ.head e) = rw (e, eq_refl)
contains-mem name (x ∷ xs) (Memᴰ.tail m) = ground (arith, contains-mem name xs m)

-- The message decodes to an Event whose payload names the cluster `c`.
pub record IsEventOf (json : Codec) (c : String) (msg : Message) (event : Event) : Type 0 where
  pub decodes : get_event_from_message json msg.value ≡ some event
  pub is_event : event.name ≡ cluster_event
  pub payload_object :
      (m : Fields) × (event.payload ≡ obj m) × (lookup "cluster_id" m ≡ some (str c))

module _ (json : Codec) (S : SnapshotRepository) (enricher : EventEnricher)
    (R : EnrichedEventRepository) (excluded : List String) where
  process_message-event :
      (c : String) (msg : Message) (event : Event) (w : World S R)
      → IsEventOf json c msg event
      → process_message json S enricher R excluded msg w
        ≡ after_switch json S enricher R excluded true msg
            (enrich_and_store json S enricher R excluded c event msg w)
  unfolding process_message process_event process_cluster_event get_value_from_payload
  process_message-event c msg event w h =
      let (m, p, q) = h.payload_object in
      let read : get_value_from_payload "cluster_id" event.payload ≡ ok c = ground (arith, p, q) in
      let named : (event.name == cluster_event) ≡ true = rw (h.is_event, eq_refl) in
      rw (h.decodes, named, read)

module _ (json : Codec) (S : SnapshotRepository) (enricher : EventEnricher)
    (R : EnrichedEventRepository) (excluded : List String) (plain : HasPlainErrors S R)
    (snapshot : IsSnapshot S) where
  -- Let the snapshot repository keep its interface and no repository return a MalformedEventError of
  -- its own. After messages that were all handled without an error, an Event of the cluster `c` whose
  -- user is not excluded is enriched with the last ClusterState of `c` among them and stored, if the
  -- enricher does not panic and the store reports no error; nothing is acknowledged yet, and the
  -- snapshots stay.
  pub process_message-stores_latest :
      (msgs : List Message) (w w' : World S R) (c : String) (msg : Message) (event : Event)
      (enriched : EnrichedEvent) (s : R.State)
      → consume (process_message json S enricher R excluded) (fetched_all msgs) w ≡ (w', waiting)
      → IsEventOf json c msg event
      → skip_event excluded (cluster_after json msgs c (S.get_cluster c w.snapshots)).0 ≡ false
      → enricher.get_enriched_event event
          (cluster_after json msgs c (S.get_cluster c w.snapshots)).0
          (S.get_hosts c w'.snapshots).0
          (S.get_infra_envs c w'.snapshots).0
        ≡ some enriched
      → R.store enriched msg w'.enriched ≡ (s, returned none)
      → process_message json S enricher R excluded msg w'
        ≡ (record w' { enriched = s }, returned none)
  unfolding enrich_and_store after_switch
  process_message-stores_latest msgs w w' c msg event enriched s run h keep enrich stored =
      let known = consume-cluster_after json S enricher R excluded plain snapshot msgs w w' c run in
      rw (
        process_message-event json S enricher R excluded c msg event w' h,
        known,
        keep,
        enrich,
        stored,
      )

  -- Let the snapshot repository keep its interface and no repository return a MalformedEventError of
  -- its own. After messages that were all handled without an error, an Event of a cluster whose last
  -- known user_name is excluded changes nothing: it is neither stored nor acknowledged, and no error
  -- is returned.
  pub process_message-skips_excluded :
      (msgs : List Message) (w w' : World S R) (c : String) (msg : Message) (event : Event)
      (name : String)
      → consume (process_message json S enricher R excluded) (fetched_all msgs) w ≡ (w', waiting)
      → IsEventOf json c msg event
      → lookup user_name (entries (cluster_after json msgs c (S.get_cluster c w.snapshots)).0)
        ≡ some (str name)
      → Memᴰ name excluded
      → process_message json S enricher R excluded msg w' ≡ (w', returned none)
  unfolding enrich_and_store after_switch skip_event
  process_message-skips_excluded msgs w w' c msg event name run h user member =
      let known = consume-cluster_after json S enricher R excluded plain snapshot msgs w w' c run in
      rw (
        process_message-event json S enricher R excluded c msg event w' h,
        known,
        user,
        contains-mem name excluded member,
      )
