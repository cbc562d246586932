-- ===== src/Types/Decode/ReadBack.antt =====
-- An EnrichedEvent that is written is read back.
use assisted_events_stream.Prelude.{
  ℕ, String, ◌≡◌, refl, sym, ◌∙◌, ap, Option, none, some, List, [], ◌∷◌,
}
use assisted_events_stream.Value.{Value, Fields, end, field, Map, to_value}
use assisted_events_stream.Types.{Error, Float, HostsSummary, EnrichedEvent}
use assisted_events_stream.Types.Encode.{
  encode_enriched_event, encode_hosts_summary, map_unless_empty, list_unless_empty, text_unless_nil,
  to_items,
}
use assisted_events_stream.Types.Decode.{merge}
use assisted_events_stream.Types.Decode.Enriched.{
  Decoded, first_error, decode_props, decode_into_map, decode_elements, decode_members,
  decode_enriched_event, zero_enriched_event,
}

-- `omitempty` turns a map without entries into a nil one.
abbrev pub omitted : Map → Map
omitted (some end) = none
omitted m = m

decode_into_map-to_value : (m : Map) → decode_into_map (to_value m) none ≡ (m, none)
unfolding merge
decode_into_map-to_value none = refl
decode_into_map-to_value (some end) = refl
decode_into_map-to_value (some (field k v m)) = refl

decode_elements-to_items : (ms : List Map) → decode_elements [] (to_items ms) ≡ (ms, none)
unfolding decode_elements
decode_elements-to_items [] = refl
decode_elements-to_items (m ∷ ms) = rw (decode_into_map-to_value m, decode_elements-to_items ms)

decode_props-map_unless_empty :
    (m : Map) → decode_props (map_unless_empty "props" m end) none none ≡ (omitted m, none)
unfolding decode_props
decode_props-map_unless_empty none = refl
decode_props-map_unless_empty (some end) = refl
decode_props-map_unless_empty (some (field k v m)) = refl

first_error-none : (e : Option Error) → first_error e none ≡ e
first_error-none none = refl
first_error-none (some e) = refl

-- What the fields hold that Marshal wrote; the summary is as Unmarshal reads it.
abbrev pub read_back : Decoded (Option HostsSummary) → EnrichedEvent → Decoded EnrichedEvent
read_back (summary, e) event =
    (record event { hosts_summary = summary; properties = omitted event.properties }, e)

module _ (decode_summary : Value → Option HostsSummary → Decoded (Option HostsSummary)) where
  decode_members-release_tag :
      (tag : Option String) (t : EnrichedEvent) (e : Option Error)
      → t.release_tag ≡ none
      → decode_members decode_summary (text_unless_nil "release_tag" tag end) t e
        ≡ (record t { release_tag = tag }, e)
  unfolding decode_members
  decode_members-release_tag none t e untagged = rw (sym untagged) refl
  decode_members-release_tag (some s) t none untagged = refl
  decode_members-release_tag (some s) t (some e) untagged = refl

  decode_members-infra_envs :
      (ms : List Map) (rest : Fields) (t : EnrichedEvent) (e : Option Error)
      → t.infra_envs ≡ []
      → decode_members decode_summary (list_unless_empty "infra_envs" ms rest) t e
        ≡ decode_members decode_summary rest (record t { infra_envs = ms }) e
  unfolding decode_members
  decode_members-infra_envs [] rest t e empty = rw (sym empty) refl
  decode_members-infra_envs (m ∷ ms) rest t e empty =
      let read : decode_elements t.infra_envs (to_items (m ∷ ms)) ≡ (m ∷ ms, none) =
        rw empty (decode_elements-to_items (m ∷ ms)) in
      ap
        (λ (d : Decoded (List Map)).
          decode_members decode_summary rest (record t { infra_envs = d.0 }) (first_error e d.1))
        read
      ∙ rw (first_error-none e)

  -- An EnrichedEvent that is marshaled and unmarshaled into a new one has its fields again: properties
  -- without entries become a nil map, and the summary and the error are what Unmarshal makes of the
  -- summary that was written.
  pub decode_enriched_event-encode_enriched_event :
      (bits : Float → ℕ) (event : EnrichedEvent)
      → decode_enriched_event decode_summary
          (some (encode_enriched_event bits event))
          zero_enriched_event
        ≡ read_back (decode_summary (encode_hosts_summary bits event.hosts_summary) none) event
  unfolding decode_enriched_event encode_enriched_event
  decode_enriched_event-encode_enriched_event bits event =
      decode_members-infra_envs event.infra_envs _ _ _ refl
      ∙ decode_members-release_tag event.release_tag _ _ refl
      ∙ rw
          (
            decode_props-map_unless_empty event.properties,
            decode_into_map-to_value event.cluster,
            decode_into_map-to_value event.versions,
          )
          (simp first_error-none)
