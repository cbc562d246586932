-- ===== src/Extractor/Capacity.antt =====
-- When the extraction ends: the buffer of its channel has to hold every event.
use mathlib.Core.List.{append_assoc, append-nil}
use mathlib.Core.Path.{subst}
use assisted_events_stream.Prelude.{
  ℕ, ◌+◌, ◌≤◌, String, ◌≡◌, refl, sym, ◌∙◌, ap, Bool, true, false, Option, none, some, List, [],
  ◌∷◌, ◌++◌, ◌<>◌, arith, if◌then◌else◌, Bool-cases, inl, inr, leb, ltb, length, length-append, All,
}
use assisted_events_stream.Value.{Map}
use assisted_events_stream.Types.{Codec, Error, Result, ok, err, EventEnvelope}
use assisted_events_stream.Extractor.{
  EventTypeMatch, Os, Channel, send, send_or_return, event_types_matches, envelope_of,
  transform_resources_to_events, get_resources_from_file, or_no_resources, extract_from_files,
  or_no_files, extract_events_for_event_type, extract_for_matches, extract_events,
}
use assisted_events_stream.Extractor.Archive.{TarRound, untar_file, returned, extract}
use assisted_events_stream.Extractor.Events.{
  IsExtracted, archived_events-IsExtracted, and_more, events_of, events_of_files, events_of_matches,
  archived_events,
}

-- The sends of a list of events, one after the other.
abbrev offer : ℕ → List EventEnvelope → Channel → Channel
offer capacity [] ch = ch
offer capacity (e ∷ es) ch = offer capacity es (send capacity e ch)

offer-append :
    (capacity : ℕ) (xs ys : List EventEnvelope) (ch : Channel)
    → offer capacity (xs ++ ys) ch ≡ offer capacity ys (offer capacity xs ch)
offer-append capacity [] ys ch = refl
offer-append capacity (x ∷ xs) ys ch = offer-append capacity xs ys (send capacity x ch)

offer-none : (capacity : ℕ) (es : List EventEnvelope) → offer capacity es none ≡ none
unfolding send
offer-none capacity [] = refl
offer-none capacity (e ∷ es) = offer-none capacity es

offer-some :
    (capacity : ℕ) (es sent : List EventEnvelope)
    → length sent ≤ capacity
    → offer capacity es (some sent)
      ≡ (if leb (length sent + length es) capacity then some (sent ++ es) else none)
unfolding send
offer-some capacity [] sent h =
    let fits : leb (length sent + 0) capacity ≡ true = ground arith in rw (fits, append-nil)
offer-some capacity (e ∷ es) sent h = elim (Bool-cases (ltb (length sent) capacity)) [
  | inl room ↦
      let longer : length (sent ++ e ∷ []) + length es ≡ length sent + length (e ∷ es) =
        omega (arith, length-append sent (e ∷ [])) in
      rw room (
        offer-some capacity es (sent ++ e ∷ []) (ground (arith, length-append sent (e ∷ [])))
        ∙ rw (longer, append_assoc))
  | inr full ↦
      let over : leb (length sent + length (e ∷ es)) capacity ≡ false = ground arith in
      rw (full, over, offer-none capacity es)
]

offer-empty :
    (capacity : ℕ) (es : List EventEnvelope)
    → offer capacity es (some []) ≡ (if leb (length es) capacity then some es else none)
offer-empty capacity es =
    let n : 0 + length es ≡ length es = omega arith in
    offer-some capacity es [] (omega arith) ∙ rw n

transform_resources_to_events-offer :
    (capacity : ℕ) (match : EventTypeMatch) (versions : Map) (resources : List Map) (ch : Channel)
    → transform_resources_to_events capacity match versions resources ch
      ≡ offer capacity (events_of match versions resources) ch
unfolding transform_resources_to_events
transform_resources_to_events-offer capacity match versions [] ch = refl
transform_resources_to_events-offer capacity match versions (resource ∷ resources) ch =
    by_event (envelope_of match versions resource)
      (transform_resources_to_events-offer capacity match versions resources)
  where
    by_event :
        (o : Option EventEnvelope)
        → ((ch : Channel)
            → transform_resources_to_events capacity match versions resources ch
              ≡ offer capacity (events_of match versions resources) ch)
        → send_or_return capacity o ch
            (transform_resources_to_events capacity match versions resources)
          ≡ offer capacity (and_more o (events_of match versions resources)) ch
    by_event none ih = refl
    by_event (some e) ih = ih (send capacity e ch)

module _ (json : Codec) {Tar : Type 0} (os : Os Tar) (capacity : ℕ) where
  open os use {State}

  extract_from_files-offer :
      (match : EventTypeMatch) (versions : Map) (files : List String) (s : State) (ch : Channel)
      → extract_from_files json os capacity match versions files s ch
        ≡ offer capacity (events_of_files json os capacity match versions files s) ch
  unfolding extract_from_files
  extract_from_files-offer match versions [] s ch = refl
  extract_from_files-offer match versions (file ∷ files) s ch =
      let resources =
        or_no_resources json os capacity (get_resources_from_file json os capacity file s) in
      extract_from_files-offer match versions files s
        (transform_resources_to_events capacity match versions resources ch)
      ∙ ap (offer capacity (events_of_files json os capacity match versions files s))
          (transform_resources_to_events-offer capacity match versions resources ch)
      ∙ sym (
          offer-append capacity (events_of match versions resources)
            (events_of_files json os capacity match versions files s) ch)

  extract_for_matches-offer :
      (tmpdir : String) (versions : Map) (s : State) (matches : List EventTypeMatch) (ch : Channel)
      → extract_for_matches json os capacity tmpdir versions s matches ch
        ≡ offer capacity (events_of_matches json os capacity tmpdir versions s matches) ch
  unfolding extract_for_matches extract_events_for_event_type
  extract_for_matches-offer tmpdir versions s [] ch = refl
  extract_for_matches-offer tmpdir versions s (match ∷ matches) ch =
      let files = or_no_files json os capacity (os.glob (tmpdir <> match.glob) s) in
      extract_for_matches-offer tmpdir versions s matches
        (extract_from_files json os capacity match versions files s ch)
      ∙ ap (offer capacity (events_of_matches json os capacity tmpdir versions s matches))
          (extract_from_files-offer match versions files s ch)
      ∙ sym (
          offer-append capacity (events_of_files json os capacity match versions files s)
            (events_of_matches json os capacity tmpdir versions s matches) ch)

  extract_events-archived_events :
      (tmpdir : String) (s : State)
      → extract_events json os capacity tmpdir s (some []) ≡ (
          if leb (length (archived_events json os capacity tmpdir s)) capacity
          then some (archived_events json os capacity tmpdir s)
          else none)
  unfolding extract_events
  extract_events-archived_events tmpdir s =
      extract_for_matches-offer tmpdir _ s event_types_matches (some [])
      ∙ offer-empty capacity (archived_events json os capacity tmpdir s)

module _ (json : Codec) (os : Os (List TarRound)) (capacity : ℕ) where
  -- What ExtractEvents ends with once it has its directory.
  abbrev pub extracted_if : Bool → String → os.State → os.State × Result Channel
  extracted_if true tmpdir s =
      (os.remove_all tmpdir s, ok (some (archived_events json os capacity tmpdir s)))
  extracted_if false tmpdir s = (s, ok none)

  abbrev pub extracted : String → os.State → os.State × Result Channel
  extracted tmpdir s =
      extracted_if (leb (length (archived_events json os capacity tmpdir s)) capacity) tmpdir s

  -- ExtractEvents, if it gets a directory: it unpacks the file, and it returns exactly if the buffer
  -- of its channel has room for every event of the archive. Then the directory is removed, and the
  -- channel holds all events in order: hosts, clusters, infra-envs, events. Otherwise it blocks for
  -- ever and leaves the directory.
  pub extract-archived_events :
      (filename tmpdir : String) (s s1 : os.State)
      → os.mkdir_temp s ≡ (s1, ok tmpdir)
      → extract json os capacity filename s
        ≡ extracted tmpdir (untar_file json os capacity filename tmpdir s1)
  unfolding extract
  extract-archived_events filename tmpdir s s1 made =
      let s2 = untar_file json os capacity filename tmpdir s1 in
      rw (made, extract_events-archived_events json os capacity tmpdir s2)
        (by_room (leb (length (archived_events json os capacity tmpdir s2)) capacity) s2)
    where
      by_room :
          (b : Bool) (s2 : os.State)
          → returned json os capacity tmpdir
              (if b then some (archived_events json os capacity tmpdir s2) else none)
              s2
            ≡ extracted_if b tmpdir s2
      by_room true s2 = refl
      by_room false s2 = refl

  extract-no_dir :
      (filename : String) (s s1 : os.State) (e : Error)
      → os.mkdir_temp s ≡ (s1, err e)
      → extract json os capacity filename s ≡ (s1, err e)
  unfolding extract
  extract-no_dir filename s s1 e made = rw made

  -- Whatever the files hold, if ExtractEvents returns a filled channel then every event in it is of
  -- one of the four types; its key is the text that its payload holds under the type's identifier;
  -- and the payload of a ClusterState is marked as on-premise and holds no hosts.
  pub extract-IsExtracted :
      (filename : String) (s s' : os.State) (sent : List EventEnvelope)
      → extract json os capacity filename s ≡ (s', ok (some sent))
      → All IsExtracted sent
  extract-IsExtracted filename s s' sent h = by_dir (os.mkdir_temp s) refl
    where
      unwrapped : os.State × Result Channel → Channel
      unwrapped (s, ok sent) = sent
      unwrapped (s, err e) = none

      by_room :
          (b : Bool) (tmpdir : String) (s2 : os.State)
          → extracted_if b tmpdir s2 ≡ (s', ok (some sent))
          → All IsExtracted sent
      by_room true tmpdir s2 e =
          let same : archived_events json os capacity tmpdir s2 ≡ sent = cc in
          subst (All IsExtracted) same (archived_events-IsExtracted json os capacity tmpdir s2)
      by_room false tmpdir s2 e = let bad : none ≡ some sent = ap unwrapped e in cc

      by_dir : (r : os.State × Result String) → os.mkdir_temp s ≡ r → All IsExtracted sent
      by_dir (s1, err e) made =
          let bad : none ≡ some sent =
            ap unwrapped (sym (extract-no_dir filename s s1 e made) ∙ h) in
          cc
      by_dir (s1, ok tmpdir) made =
          let s2 = untar_file json os capacity filename tmpdir s1 in
          by_room (leb (length (archived_events json os capacity tmpdir s2)) capacity) tmpdir s2
            (sym (extract-archived_events filename tmpdir s s1 made) ∙ h)
