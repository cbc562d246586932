-- ===== src/Projection/History.antt =====
-- What a sequence of messages leaves in the snapshots.
use assisted_events_stream.Prelude.{String, ◌≡◌, refl, ◌∙◌, ap, Option, none, some, List, [], ◌∷◌}
use assisted_events_stream.Value.{Map}
use assisted_events_stream.Types.{Codec, Error, Message, Outcome, returned, panicked}
use assisted_events_stream.Types.Decode.{get_event_from_message}
use assisted_events_stream.Snapshot.{SnapshotRepository, IsSnapshot}
use assisted_events_stream.Stream.Reader.{waiting, after_message, consume, fetched_all}
use assisted_events_stream.Projection.Malformed.{HasPlainErrors}
use assisted_events_stream.Projection.{
  EventEnricher, EnrichedEventRepository, World, process_message,
}
use assisted_events_stream.Projection.Updates.{cluster_update, get_cluster-process_message}

-- What is known of the cluster `c` after the messages.
abbrev pub cluster_after : Codec → List Message → String → Map × Option Error → Map × Option Error
cluster_after json [] c known = known
cluster_after json (msg ∷ msgs) c known =
    cluster_after json msgs c (cluster_update (get_event_from_message json msg.value) c known)

module _ (json : Codec) (S : SnapshotRepository) (enricher : EventEnricher)
    (R : EnrichedEventRepository) (excluded : List String) (plain : HasPlainErrors S R)
    (snapshot : IsSnapshot S) where
  -- Let the snapshot repository keep its interface and no repository return a MalformedEventError of
  -- its own. After any messages that were all handled without an error, each cluster reads as the
  -- payload of the last ClusterState message that had it for its id, or as before if there was none.
  pub consume-cluster_after :
      (msgs : List Message) (w w' : World S R) (c : String)
      → consume (process_message json S enricher R excluded) (fetched_all msgs) w ≡ (w', waiting)
      → S.get_cluster c w'.snapshots ≡ cluster_after json msgs c (S.get_cluster c w.snapshots)
  unfolding consume
  consume-cluster_after [] w w' c h = cc
  consume-cluster_after (msg ∷ msgs) w w' c h =
      step (process_message json S enricher R excluded msg w) refl h
        (λ v. consume-cluster_after msgs v w' c)
    where
      step :
          (r : World S R × Outcome)
          → process_message json S enricher R excluded msg w ≡ r
          → after_message r
              (consume (process_message json S enricher R excluded) (fetched_all msgs))
            ≡ (w', waiting)
          → ((v : World S R)
              → consume (process_message json S enricher R excluded) (fetched_all msgs) v
                ≡ (w', waiting)
              → S.get_cluster c w'.snapshots
                ≡ cluster_after json msgs c (S.get_cluster c v.snapshots))
          → S.get_cluster c w'.snapshots
            ≡ cluster_after json msgs c (
                cluster_update
                  (get_event_from_message json msg.value)
                  c
                  (S.get_cluster c w.snapshots))
      step (v, returned none) e h' rest =
          rest v h'
          ∙ ap (cluster_after json msgs c) (
              get_cluster-process_message json S enricher R excluded plain snapshot msg w c
                (v, returned none) e refl)
      step (v, returned (some x)) e h' rest = cc
      step (v, panicked) e h' rest = cc
