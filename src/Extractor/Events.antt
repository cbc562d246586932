-- ===== src/Extractor/Events.antt =====
-- Which events an archive holds, said without the channel, and what each of them is.
use mathlib.Core.List.{Memᴰ}
use mathlib.Core.Path.{subst}
use assisted_events_stream.Prelude.{
  ℕ, String, ◌≡◌, refl, ◌∙◌, inl, inr, true, false, Option, none, some, List, [], ◌∷◌, ◌++◌, ◌==◌,
  ◌<>◌, Bool-cases, All,
}
use assisted_events_stream.Value.{
  Value, null, bool, str, obj, Fields, Map, entries, lookup, insert, lookup-insert, lookup-erase,
}
use assisted_events_stream.Types.{Codec, EventEnvelope}
use assisted_events_stream.Extractor.{
  EventTypeMatch, Os, event_types_matches, get_metadata, payload_of, envelope_by, envelope_of,
  get_resources_from_file, or_no_resources, or_no_files, get_versions_from_file,
}

-- The events of the resources before the first one without a text for its cluster.
abbrev pub and_more : Option EventEnvelope → List EventEnvelope → List EventEnvelope
and_more none more = []
and_more (some e) more = e ∷ more

abbrev pub events_of : EventTypeMatch → Map → List Map → List EventEnvelope
events_of match versions [] = []
events_of match versions (resource ∷ resources) =
    and_more (envelope_of match versions resource) (events_of match versions resources)

module _ (json : Codec) {Tar : Type 0} (os : Os Tar) (capacity : ℕ) where
  open os use {State}

  abbrev pub events_of_files : EventTypeMatch → Map → List String → State → List EventEnvelope
  events_of_files match versions [] s = []
  events_of_files match versions (file ∷ files) s =
      events_of match versions
        (or_no_resources json os capacity (get_resources_from_file json os capacity file s))
      ++ events_of_files match versions files s

  abbrev pub events_of_matches : String → Map → State → List EventTypeMatch → List EventEnvelope
  events_of_matches tmpdir versions s [] = []
  events_of_matches tmpdir versions s (match ∷ matches) =
      events_of_files match versions
        (or_no_files json os capacity (os.glob (tmpdir <> match.glob) s)) s
      ++ events_of_matches tmpdir versions s matches

  -- All events of the directory: hosts, then clusters, then infra-envs, then events.
  abbrev pub archived_events : String → State → List EventEnvelope
  archived_events tmpdir s =
      events_of_matches tmpdir
        (get_versions_from_file json os capacity tmpdir "/*/versions.json" s).0 s
        event_types_matches

-- An event is of one of the four types; its payload holds its key as the text under the type's
-- identifier; and the state of a cluster is marked as coming from on-premise, without its hosts.
pub record IsExtracted (e : EventEnvelope) : Type 0 where
  pub match : EventTypeMatch
  pub known : Memᴰ match event_types_matches
  pub named : e.event.name ≡ match.event_name
  pub members : Fields
  pub is_object : e.event.payload ≡ obj members
  pub keyed : lookup match.cluster_id_key members ≡ some (str e.key)
  pub marked : (e.event.name == "ClusterState") ≡ true → lookup "onprem" members ≡ some (bool true)
  pub without_hosts : (e.event.name == "ClusterState") ≡ true → lookup "hosts" members ≡ none

lookup-payload_of :
    (name k : String) (m : Fields)
    → ("hosts" == k) ≡ false
    → ("onprem" == k) ≡ false
    → lookup k (payload_of name m) ≡ lookup k m
unfolding payload_of
lookup-payload_of name k m h o = elim (Bool-cases (name == "ClusterState")) [
  | inl e ↦ rw (
    e,
    lookup-erase k "hosts" (insert "onprem" (bool true) m),
    h,
    lookup-insert k "onprem" (bool true) m,
    o,
  )
  | inr e ↦ rw e
]

onprem-payload_of :
    (name : String) (m : Fields)
    → (name == "ClusterState") ≡ true
    → lookup "onprem" (payload_of name m) ≡ some (bool true)
unfolding payload_of
onprem-payload_of name m e =
    rw
      (
        e,
        lookup-erase "onprem" "hosts" (insert "onprem" (bool true) m),
        lookup-insert "onprem" "onprem" (bool true) m,
      )
      refl

hosts-payload_of :
    (name : String) (m : Fields)
    → (name == "ClusterState") ≡ true
    → lookup "hosts" (payload_of name m) ≡ none
unfolding payload_of
hosts-payload_of name m e =
    rw (e, lookup-erase "hosts" "hosts" (insert "onprem" (bool true) m)) refl

-- no identifier is a member that `payload_of` changes
abbrev HasPlainKey : EventTypeMatch → Type 0
HasPlainKey match =
    (("hosts" == match.cluster_id_key) ≡ false) × (("onprem" == match.cluster_id_key) ≡ false)

envelope_of-IsExtracted :
    (match : EventTypeMatch) (versions : Map) (resource : Map) (e : EventEnvelope)
    → Memᴰ match event_types_matches
    → HasPlainKey match
    → envelope_of match versions resource ≡ some e
    → IsExtracted e
unfolding envelope_of
envelope_of-IsExtracted match versions resource e known plain h =
    by_id (lookup match.cluster_id_key (entries resource)) refl h
  where
    by_id :
        (o : Option Value)
        → lookup match.cluster_id_key (entries resource) ≡ o
        → envelope_by match versions (entries resource) o ≡ some e
        → IsExtracted e
    by_id none p q = cc
    by_id (some (str id)) p q =
        let made : EventEnvelope = record {
          key = id;
          event = record {
            name = match.event_name;
            payload = obj (payload_of match.event_name (entries resource));
            metadata = get_metadata match.event_name versions;
          };
        } in
        let same : made ≡ e = cc in
        subst IsExtracted same (record {
          match = match;
          known = known;
          named = refl;
          members = payload_of match.event_name (entries resource);
          is_object = refl;
          keyed =
              lookup-payload_of match.event_name match.cluster_id_key (entries resource) plain.0
                plain.1
              ∙ p;
          marked = onprem-payload_of match.event_name (entries resource);
          without_hosts = hosts-payload_of match.event_name (entries resource);
        })
    by_id (some null) p q = cc
    by_id (some _) p q = cc

All-append :
    (P : EventEnvelope → Type 0) (xs ys : List EventEnvelope)
    → All P xs
    → All P ys
    → All P (xs ++ ys)
All-append P [] ys h k = k
All-append P (x ∷ xs) ys h k = (h.0, All-append P xs ys h.1 k)

events_of-IsExtracted :
    (match : EventTypeMatch) (versions : Map) (resources : List Map)
    → Memᴰ match event_types_matches
    → HasPlainKey match
    → All IsExtracted (events_of match versions resources)
events_of-IsExtracted match versions [] known plain = tt
events_of-IsExtracted match versions (resource ∷ resources) known plain =
    by_event (envelope_of match versions resource) refl
      (events_of-IsExtracted match versions resources known plain)
  where
    by_event :
        (o : Option EventEnvelope)
        → envelope_of match versions resource ≡ o
        → All IsExtracted (events_of match versions resources)
        → All IsExtracted (and_more o (events_of match versions resources))
    by_event none p rest = tt
    by_event (some e) p rest =
        (envelope_of-IsExtracted match versions resource e known plain p, rest)

module _ (json : Codec) {Tar : Type 0} (os : Os Tar) (capacity : ℕ) where
  open os use {State}

  events_of_files-IsExtracted :
      (match : EventTypeMatch) (versions : Map) (files : List String) (s : State)
      → Memᴰ match event_types_matches
      → HasPlainKey match
      → All IsExtracted (events_of_files json os capacity match versions files s)
  events_of_files-IsExtracted match versions [] s known plain = tt
  events_of_files-IsExtracted match versions (file ∷ files) s known plain =
      All-append IsExtracted _ _ (events_of-IsExtracted match versions _ known plain)
        (events_of_files-IsExtracted match versions files s known plain)

  events_of_matches-IsExtracted :
      (tmpdir : String) (versions : Map) (s : State) (matches : List EventTypeMatch)
      → All (λ match. Memᴰ match event_types_matches × HasPlainKey match) matches
      → All IsExtracted (events_of_matches json os capacity tmpdir versions s matches)
  events_of_matches-IsExtracted tmpdir versions s [] h = tt
  events_of_matches-IsExtracted tmpdir versions s (match ∷ matches) h =
      All-append IsExtracted _ _ (events_of_files-IsExtracted match versions _ s h.0.0 h.0.1)
        (events_of_matches-IsExtracted tmpdir versions s matches h.1)

  -- Whatever the files hold: every event of an archive is of one of the four types; its key is the
  -- text that its payload holds under the type's identifier; and the payload of a ClusterState is
  -- marked as on-premise and holds no hosts.
  pub archived_events-IsExtracted :
      (tmpdir : String) (s : State) → All IsExtracted (archived_events json os capacity tmpdir s)
  unfolding event_types_matches
  archived_events-IsExtracted tmpdir s =
      events_of_matches-IsExtracted tmpdir _ s event_types_matches (
        (Memᴰ.head refl, (refl, refl)),
        (
          (Memᴰ.tail (Memᴰ.head refl), (refl, refl)),
          (
            (Memᴰ.tail (Memᴰ.tail (Memᴰ.head refl)), (refl, refl)),
            ((Memᴰ.tail (Memᴰ.tail (Memᴰ.tail (Memᴰ.head refl))), (refl, refl)), tt),
          ),
        ),
      )
