-- ===== src/Extractor/Delivery.antt =====
-- What the projection makes of an archive's events, once they are written to the stream.
use mathlib.Core.List.{Memᴰ}
use assisted_events_stream.Prelude.{
  ℕ, String, ◌≡◌, refl, ap, ◌∙◌, true, false, Option, none, some, List, ◌==◌, eq_iff, eq_refl,
  IsOneOf, All-IsOneOf,
}
use assisted_events_stream.Value.{bool, str, Fields, Map, lookup}
use assisted_events_stream.Types.{Codec, Error, EventEnvelope, ok, returned}
use assisted_events_stream.Types.Decode.{get_event_from_message}
use assisted_events_stream.Snapshot.{SnapshotRepository, IsSnapshot}
use assisted_events_stream.Stream.Writer.{Producer, encode_event, to_message}
use assisted_events_stream.Stream.Writer.Decoding.{get_event_from_message-to_message}
use assisted_events_stream.Projection.{
  cluster_event, EventEnricher, EnrichedEventRepository, World, process_message,
}
use assisted_events_stream.Projection.Malformed.{HasPlainErrors}
use assisted_events_stream.Projection.Updates.{cluster_update, get_cluster-process_message}
use assisted_events_stream.Enricher.{get_versions_from_metadata, get_release_tag_from_metadata}
use assisted_events_stream.Extractor.{Os, EventTypeMatch, event_types_matches, get_metadata}
use assisted_events_stream.Extractor.Archive.{TarRound, extract}
use assisted_events_stream.Extractor.Capacity.{extract-IsExtracted}
use assisted_events_stream.Extractor.Events.{IsExtracted}

other_name :
    {name other id : String}
    → name ≡ other
    → (other == "ClusterState") ≡ false
    → (name == "ClusterState") ≡ true
    → id ≡ "id"
other_name e n h = let h' = rw e at h in cc

abbrev name_of : EventTypeMatch → String
name_of match = match.event_name

id_of_cluster :
    (match : EventTypeMatch)
    → Memᴰ match event_types_matches
    → (match.event_name == "ClusterState") ≡ true
    → match.cluster_id_key ≡ "id"
unfolding event_types_matches
id_of_cluster match (Memᴰ.head e) h = other_name (ap name_of e) refl h
id_of_cluster match (Memᴰ.tail (Memᴰ.head e)) h = ap (λ (m : EventTypeMatch). m.cluster_id_key) e
id_of_cluster match (Memᴰ.tail (Memᴰ.tail (Memᴰ.head e))) h = other_name (ap name_of e) refl h
id_of_cluster match (Memᴰ.tail (Memᴰ.tail (Memᴰ.tail (Memᴰ.head e)))) h =
    other_name (ap name_of e) refl h
id_of_cluster match (Memᴰ.tail (Memᴰ.tail (Memᴰ.tail (Memᴰ.tail m)))) h = elim m [ ]

-- What the message of an extracted ClusterState changes of what is known of its cluster.
cluster_update-extracted :
    (json : Codec) (producer : Producer) (e : EventEnvelope) (known : Map × Option Error)
    → IsExtracted e
    → (e.event.name == "ClusterState") ≡ true
    → (m : Fields) × (cluster_update
          (get_event_from_message json
            (to_message json producer e.key (encode_event e.event)).value)
          e.key
          known
        ≡ (some m, none))
      × (lookup "onprem" m ≡ some (bool true))
      × (lookup "hosts" m ≡ none)
cluster_update-extracted json producer e known x h =
    let id : x.match.cluster_id_key ≡ "id" = id_of_cluster x.match x.known (rw x.named at h) in
    let found : lookup "id" x.members ≡ some (str e.key) = rw id at x.keyed in
    let not_event : (e.event.name == cluster_event) ≡ false =
      rw ((eq_iff e.event.name "ClusterState").0 h) refl in
    (
      x.members,
      rw
          (
            get_event_from_message-to_message json producer e.key e.event,
            h,
            not_event,
            x.is_object,
            found,
            eq_refl e.key,
          )
          refl,
      x.marked h,
      x.without_hosts h,
    )

-- Let the snapshot repository keep its interface and no repository return a MalformedEventError of
-- its own. If ExtractEvents returns a channel, the writer's message for a ClusterState in it is handed
-- to the projection, and the projection handles it without an error, then the snapshots hold, under
-- the key of the event, a cluster that is marked as on-premise and has no hosts.
pub get_cluster-extracted :
    (json : Codec) (os : Os (List TarRound)) (capacity : ℕ) (filename : String) (s s' : os.State)
    (sent : List EventEnvelope)
    → extract json os capacity filename s ≡ (s', ok (some sent))
    → (e : EventEnvelope) → IsOneOf sent e
    → (e.event.name == "ClusterState") ≡ true
    → (producer : Producer) (S : SnapshotRepository) (enricher : EventEnricher)
      (R : EnrichedEventRepository) (excluded : List String)
    → HasPlainErrors S R
    → IsSnapshot S
    → (w w' : World S R)
    → process_message json S enricher R excluded
        (to_message json producer e.key (encode_event e.event))
        w
      ≡ (w', returned none)
    → (m : Fields) × (S.get_cluster e.key w'.snapshots ≡ (some m, none))
      × (lookup "onprem" m ≡ some (bool true))
      × (lookup "hosts" m ≡ none)
get_cluster-extracted json os capacity filename s s' sent extracted e among named producer S
      enricher R excluded plain snapshot w w' handled =
    let x : IsExtracted e =
      All-IsOneOf IsExtracted sent e
        (extract-IsExtracted json os capacity filename s s' sent extracted) among in
    let (m, known, marked, without_hosts) =
      cluster_update-extracted json producer e (S.get_cluster e.key w.snapshots) x named in
    (
      m,
      get_cluster-process_message json S enricher R excluded plain snapshot
            (to_message json producer e.key (encode_event e.event)) w e.key (w', returned none)
            handled refl
          ∙ known,
      marked,
      without_hosts,
    )

-- The versions that the extractor puts into the metadata are those that the enricher finds there; and
-- it finds no release tag.
get_versions_from_metadata-get_metadata :
    (event_name : String) (versions : Fields)
    → (get_versions_from_metadata (get_metadata event_name (some versions)) ≡ some versions)
      × (get_release_tag_from_metadata (get_metadata event_name (some versions)) ≡ none)
unfolding get_versions_from_metadata get_release_tag_from_metadata get_metadata lookup
get_versions_from_metadata-get_metadata event_name versions = (refl, refl)
