-- ===== src/Projection/Malformed.antt =====
-- The errors that the handlers return: which are MalformedEventErrors.
use assisted_events_stream.Prelude.{
  ℕ, String, ◌≡◌, ◌≢◌, refl, ◌⊎◌, inl, inr, Bool, true, false, ◌&&◌, Option, none, some, List,
  if◌then◌else◌, Bool-cases,
}
use assisted_events_stream.Value.{Value, lookup, null, obj, str}
use assisted_events_stream.Types.{
  Codec, Error, malformed_event, failed, wrapped, ok, err, Event, EnrichedEvent, Message, Outcome,
  returned, panicked,
}
use assisted_events_stream.Snapshot.{SnapshotRepository}
use assisted_events_stream.Projection.{
  EventEnricher, EnrichedEventRepository, World, string_at, get_value_from_payload, skip_event,
  store_enriched, enrich_and_store, process_cluster_event, process_cluster_state,
  process_host_state, process_infra_env_state,
}

-- The payload is an object with a text under the key.
abbrev is_text : Option Value → Bool
is_text (some (str s)) = true
is_text _ = false

abbrev pub has_text : String → Value → Bool
has_text key (obj m) = is_text (lookup key m)
has_text key _ = false

-- 1 for a MalformedEventError
abbrev pub malformed_count : Outcome → ℕ
malformed_count (returned (some (malformed_event key))) = 1
malformed_count _ = 0

abbrev pub Returns : Outcome → Type 0
Returns (returned e) = Unit
Returns panicked = ⊥

-- No repository returns a MalformedEventError of its own.
pub record HasPlainErrors (S : SnapshotRepository) (R : EnrichedEventRepository) : Type 0 where
  pub set_cluster_plain :
      (id : String) (e : Option Event) (s : S.State) (key : String)
      → (S.set_cluster id e s).1 ≢ some (malformed_event key)
  pub set_host_plain :
      (id host : String) (e : Option Event) (s : S.State) (key : String)
      → (S.set_host id host e s).1 ≢ some (malformed_event key)
  pub set_infra_env_plain :
      (id infra_env : String) (e : Option Event) (s : S.State) (key : String)
      → (S.set_infra_env id infra_env e s).1 ≢ some (malformed_event key)
  pub store_plain :
      (e : EnrichedEvent) (msg : Message) (s : R.State) (key : String)
      → (R.store e msg s).1 ≢ returned (some (malformed_event key))

pub plain_count :
    (e : Option Error)
    → ((key : String) → e ≢ some (malformed_event key))
    → malformed_count (returned e) ≡ 0
plain_count none h = refl
plain_count (some (malformed_event key)) h = absurd (h key refl)
plain_count (some (failed k)) h = refl
plain_count (some (wrapped k e)) h = refl

plain_outcome :
    (o : Outcome)
    → ((key : String) → o ≢ returned (some (malformed_event key)))
    → malformed_count o ≡ 0
plain_outcome panicked h = refl
plain_outcome (returned none) h = refl
plain_outcome (returned (some (malformed_event key))) h = absurd (h key refl)
plain_outcome (returned (some (failed k))) h = refl
plain_outcome (returned (some (wrapped k e))) h = refl

pub text_cases :
    (key : String) (v : Value)
    → ((s : String) × (get_value_from_payload key v ≡ ok s) × (has_text key v ≡ true))
      ⊎ ((get_value_from_payload key v ≡ err (malformed_event key)) × (has_text key v ≡ false))
unfolding get_value_from_payload
text_cases key (obj m) = found (lookup key m)
  where
    found :
        (v : Option Value)
        → ((s : String) × (string_at key v ≡ ok s) × (is_text v ≡ true))
          ⊎ ((string_at key v ≡ err (malformed_event key)) × (is_text v ≡ false))
    found (some (str s)) = inl (s, refl, refl)
    found none = inr (refl, refl)
    found (some null) = inr (refl, refl)
    found (some _) = inr (refl, refl)
text_cases key null = inr (refl, refl)
text_cases key _ = inr (refl, refl)

module _ (json : Codec) (S : SnapshotRepository) (enricher : EventEnricher)
    (R : EnrichedEventRepository) (excluded : List String) (plain : HasPlainErrors S R) where
  pub malformed-process_cluster_state :
      (event : Event) (w : World S R)
      → Returns (process_cluster_state json S enricher R excluded event w).1
        × (malformed_count (process_cluster_state json S enricher R excluded event w).1
            ≡ (if has_text "id" event.payload then 0 else 1))
  unfolding process_cluster_state
  malformed-process_cluster_state event w = elim (text_cases "id" event.payload) [
    | inl (id, p, q) ↦
        rw (p, q) (tt, plain_count _ (plain.set_cluster_plain id (some event) w.snapshots))
    | inr (p, q) ↦ rw (p, q) (tt, refl)
  ]

  pub malformed-process_host_state :
      (event : Event) (w : World S R)
      → Returns (process_host_state json S enricher R excluded event w).1
        × (malformed_count (process_host_state json S enricher R excluded event w).1
            ≡ (if has_text "id" event.payload && has_text "cluster_id" event.payload then 0 else 1))
  unfolding process_host_state
  malformed-process_host_state event w = elim (text_cases "id" event.payload) [
    | inr (p, q) ↦ rw (p, q) (tt, refl)
    | inl (id, p, q) ↦ elim (text_cases "cluster_id" event.payload) [
      | inl (c, p', q') ↦
          rw (p, q, p', q') (tt, plain_count _ (plain.set_host_plain c id (some event) w.snapshots))
      | inr (p', q') ↦ rw (p, q, p', q') (tt, refl)
    ]
  ]

  pub malformed-process_infra_env_state :
      (event : Event) (w : World S R)
      → Returns (process_infra_env_state json S enricher R excluded event w).1
        × (malformed_count (process_infra_env_state json S enricher R excluded event w).1
            ≡ (if has_text "id" event.payload && has_text "cluster_id" event.payload then 0 else 1))
  unfolding process_infra_env_state
  malformed-process_infra_env_state event w = elim (text_cases "id" event.payload) [
    | inr (p, q) ↦ rw (p, q) (tt, refl)
    | inl (id, p, q) ↦ elim (text_cases "cluster_id" event.payload) [
      | inl (c, p', q') ↦
          rw (p, q, p', q')
            (tt, plain_count _ (plain.set_infra_env_plain c id (some event) w.snapshots))
      | inr (p', q') ↦ rw (p, q, p', q') (tt, refl)
    ]
  ]

  malformed-store_enriched :
      (e : Option EnrichedEvent) (msg : Message) (w : World S R)
      → malformed_count (store_enriched json S enricher R excluded e msg w).1 ≡ 0
  unfolding store_enriched
  malformed-store_enriched none msg w = refl
  malformed-store_enriched (some e) msg w =
      plain_outcome (R.store e msg w.enriched).1 (plain.store_plain e msg w.enriched)

  malformed-enrich_and_store :
      (id : String) (event : Event) (msg : Message) (w : World S R)
      → malformed_count (enrich_and_store json S enricher R excluded id event msg w).1 ≡ 0
  unfolding enrich_and_store
  malformed-enrich_and_store id event msg w =
      let cluster = (S.get_cluster id w.snapshots).0 in
      elim (Bool-cases (skip_event excluded cluster)) [
        | inl skip ↦ rw skip
        | inr go ↦ rw go (malformed-store_enriched _ msg w)
      ]

  pub malformed-process_cluster_event :
      (event : Event) (msg : Message) (w : World S R)
      → malformed_count (process_cluster_event json S enricher R excluded event msg w).1
        ≡ (if has_text "cluster_id" event.payload then 0 else 1)
  unfolding process_cluster_event
  malformed-process_cluster_event event msg w = elim (text_cases "cluster_id" event.payload) [
    | inl (id, p, q) ↦ rw (p, q) (malformed-enrich_and_store id event msg w)
    | inr (p, q) ↦ rw (p, q)
  ]
