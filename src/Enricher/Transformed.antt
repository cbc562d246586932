-- ===== src/Enricher/Transformed.antt =====
-- The document of the base event is fine, and so it is after the transformations.
use assisted_events_stream.Prelude.{String, ◌≡◌, refl, Option, none, some, List, [], ◌∷◌, inl, inr}
use assisted_events_stream.Value.{Value, arr, Fields, end, field, Map, lookup, to_value}
use assisted_events_stream.Types.{Codec, EnrichedEvent}
use assisted_events_stream.Types.Encode.{
  encode_enriched_event, list_unless_empty, text_unless_nil, to_items,
}
use assisted_events_stream.Types.Decode.{equal_fold}
use assisted_events_stream.Types.Decode.Only.{Only, NoMember, cons-Only}
use assisted_events_stream.JsonEdit.{PathLib}
use assisted_events_stream.JsonEdit.Paths.{IsLawful}
use assisted_events_stream.JsonEdit.Invariants.{IsItems, IfAny, transform-keeps}
use assisted_events_stream.Process.{unpack_json, map_to_list_json_drop_key, map_to_list_json, slice}
use assisted_events_stream.Enricher.Assembly.{Tools, Visits, transform_json}
use assisted_events_stream.Enricher.Documents.{IsFine}
use assisted_events_stream.Enricher.Defaults.{
  fields_to_unpack-Kept, fields_map_to_list_drop_key-Kept, fields_map_to_list-Kept,
}

pub slice-IsItems : (vs : List Value) → IsItems (slice vs)
slice-IsItems [] = tt
slice-IsItems (v ∷ vs) = tt

-- The member of the infra-envs, if it is written.
abbrev written_envs : List Map → Option Value
written_envs [] = none
written_envs (m ∷ ms) = some (arr (to_items (m ∷ ms)))

written_envs-IsItems : (ms : List Map) → IfAny IsItems (written_envs ms)
written_envs-IsItems [] = tt
written_envs-IsItems (m ∷ ms) = tt

written_envs-Only :
    (ms : List Map) (versions : Value) (tag : Option String)
    → Only "infra_envs" (written_envs ms) (
        list_unless_empty "infra_envs" ms
          (field "versions" versions (text_unless_nil "release_tag" tag end)))
unfolding equal_fold
written_envs-Only [] versions none = (refl, tt)
written_envs-Only [] versions (some s) = (refl, (refl, tt))
written_envs-Only (m ∷ ms) versions none = inl (refl, refl, (refl, tt))
written_envs-Only (m ∷ ms) versions (some s) = inl (refl, refl, (refl, (refl, tt)))

no_cluster_after :
    (ms : List Map) (versions : Value) (tag : Option String)
    → NoMember "cluster" (
        list_unless_empty "infra_envs" ms
          (field "versions" versions (text_unless_nil "release_tag" tag end)))
unfolding equal_fold
no_cluster_after [] versions none = (refl, tt)
no_cluster_after [] versions (some s) = (refl, (refl, tt))
no_cluster_after (m ∷ ms) versions none = (refl, (refl, tt))
no_cluster_after (m ∷ ms) versions (some s) = (refl, (refl, (refl, tt)))

module _ (json : Codec) (lib : PathLib) (lawful : IsLawful json lib)
    (empty_invalid : json.unmarshal "" ≡ none) (tools : Tools) (visits : Visits) where
  marshal-IsFine :
      (e : EnrichedEvent) (c : Fields)
      → e.cluster ≡ some c
      → IfAny IsItems (lookup "hosts" c)
      → IsFine json [] (json.marshal (encode_enriched_event tools.bits e))
  unfolding encode_enriched_event equal_fold
  marshal-IsFine e c eq hosts =
      let skip = λ (k : String) (v : Value) (m : Fields).
        cons-Only "infra_envs" k v (written_envs e.infra_envs) m in
      let envs = written_envs-Only e.infra_envs (to_value e.versions) e.release_tag in
      record {
        value = encode_enriched_event tools.bits e;
        decodes = json.unmarshal-marshal (encode_enriched_event tools.bits e);
        lists = record {
          root = _;
          cluster = c;
          envs = written_envs e.infra_envs;
          is_root = refl;
          sole_cluster = inr (
            refl,
            inr (
              refl,
              inr (
                refl,
                inr (
                  refl,
                  inr (
                    refl,
                    inr (
                      refl,
                      inr (
                        refl,
                        inr (
                          refl,
                          inr (
                            refl,
                            inr (
                              refl,
                              inl (
                                refl,
                                rw eq refl,
                                no_cluster_after e.infra_envs (to_value e.versions) e.release_tag,
                              ),
                            ),
                          ),
                        ),
                      ),
                    ),
                  ),
                ),
              ),
            ),
          );
          sole_envs = skip _ _ _ refl (
              skip _ _ _ refl (
                skip _ _ _ refl (
                  skip _ _ _ refl (
                    skip _ _ _ refl (
                      skip _ _ _ refl (
                        skip _ _ _ refl (
                          skip _ _ _ refl
                            (skip _ _ _ refl (skip _ _ _ refl (skip _ _ _ refl envs))))))))));
          hosts = hosts;
          infra_envs = written_envs-IsItems e.infra_envs;
          lacks = tt;
        };
      }

  pub transform_json-IsFine :
      (e : EnrichedEvent) (c : Fields)
      → e.cluster ≡ some c
      → IfAny IsItems (lookup "hosts" c)
      → IsFine json [] (transform_json json lib tools visits e)
  unfolding transform_json unpack_json map_to_list_json_drop_key map_to_list_json
  transform_json-IsFine e c eq hosts =
      transform-keeps json lib (IsFine json []) _ _ _
        (fields_map_to_list-Kept json lib lawful empty_invalid)
        (transform-keeps json lib (IsFine json []) _ _ _
          (fields_map_to_list_drop_key-Kept json lib lawful empty_invalid)
          (transform-keeps json lib (IsFine json []) _ _ _
            (fields_to_unpack-Kept json lib lawful empty_invalid) (marshal-IsFine e c eq hosts)))
