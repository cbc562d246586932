-- ===== src/Enricher/Removed.antt =====
-- What the anonymization and the deletions take out of the cluster.
use assisted_events_stream.Prelude.{
  String, ◌≡◌, refl, sym, ap, ◌∙◌, ◌≢◌, inl, inr, Option, none, some, List, [], ◌∷◌, All, IsOneOf,
  All-chosen,
}
use assisted_events_stream.Value.{Value, null, bool, num, str, obj, arr, lookup}
use assisted_events_stream.Types.{Codec}
use assisted_events_stream.Text
use assisted_events_stream.JsonEdit.{Found, PathLib, is_complex_path}
use assisted_events_stream.JsonEdit.Paths.{IsLawful, and_then, at, keys}
use assisted_events_stream.JsonEdit.Rename.{rename}
use assisted_events_stream.JsonEdit.Rename.Invariants.{Ends, KeptRename}
use assisted_events_stream.JsonEdit.Rename.Moved.{Moves, IsQuiet, rename-moved}
use assisted_events_stream.Process.{get_default_fields_to_anonymize}
use assisted_events_stream.Enricher.Lists.{HoldsLists, has_cluster}
use assisted_events_stream.Enricher.Documents.{
  IsFine, IsClusterPath, forget, set-cluster_path, delete-cluster_path,
}
use assisted_events_stream.Enricher.Sensitive.{user_name_path, user_id_path, sensitive_paths-Kept}

none-ne-found : (f : Found) → none ≢ some f
none-ne-found f h = cc

-- A path whose value is read as missing has none.
get-missing :
    (json : Codec) (lib : PathLib) (lawful : IsLawful json lib) (doc path : String) (v : Value)
    (p : IsClusterPath "user_name" path)
    → json.unmarshal doc ≡ some v
    → lib.get doc path ≡ none
    → at (keys path) v ≡ none
get-missing json lib lawful doc path v p d g = by_value (at (keys path) v) refl
  where
    other :
        (w : Value)
        → at (keys path) v ≡ some w
        → w ≢ null
        → ((s : String) → w ≢ str s)
        → some w ≡ none
    other w e n t =
        let (text, got, u) = lawful.get_raw doc path v w p.plain d e n t in
        absurd (none-ne-found _ (sym g ∙ got))

    by_value : (o : Option Value) → at (keys path) v ≡ o → o ≡ none
    by_value none e = refl
    by_value (some null) e =
        absurd (none-ne-found _ (sym g ∙ lawful.get_null doc path v p.plain d e))
    by_value (some (str s)) e =
        absurd (none-ne-found _ (sym g ∙ lawful.get_text doc path v s p.plain d e))
    by_value (some (bool b)) e = other (bool b) e (λ h. cc) (λ s h. cc)
    by_value (some (num n)) e = other (num n) e (λ h. cc) (λ s h. cc)
    by_value (some (arr vs)) e = other (arr vs) e (λ h. cc) (λ s h. cc)
    by_value (some (obj m)) e = other (obj m) e (λ h. cc) (λ s h. cc)

at-member :
    (k : String) (v : Value) (h : HoldsLists [] v)
    → at ("cluster" ∷ k ∷ []) v ≡ none
    → lookup k h.cluster ≡ none
unfolding at
at-member k v h e = whole (lookup k h.cluster) (rw (h.is_root, has_cluster [] h) at e)
  where
    whole : (o : Option Value) → and_then o some ≡ none → o ≡ none
    whole none e = refl
    whole (some w) e = cc

module _ (json : Codec) (lib : PathLib) (lawful : IsLawful json lib) where
  lacking :
      (k doc : String) (fine : IsFine json [] doc)
      → lookup k fine.lists.cluster ≡ none
      → IsFine json (k ∷ []) doc
  lacking k doc fine e =
      let h = fine.lists in
      record {
        value = fine.value;
        decodes = fine.decodes;
        lists = record {
          root = h.root;
          cluster = h.cluster;
          envs = h.envs;
          is_root = h.is_root;
          sole_cluster = h.sole_cluster;
          sole_envs = h.sole_envs;
          hosts = h.hosts;
          infra_envs = h.infra_envs;
          lacks = (e, tt);
        };
      }

  not_there :
      (doc : String)
      → IsFine json [] doc
      → lib.get doc "cluster.user_name" ≡ none
      → IsFine json ("user_name" ∷ []) doc
  not_there doc fine g =
      let e =
        get-missing json lib lawful doc "cluster.user_name" fine.value user_name_path fine.decodes
          g in
      lacking "user_name" doc fine (
        at-member "user_name" fine.value fine.lists
          (ap (λ (ks : List String). at ks fine.value) (sym user_name_path.split_keys) ∙ e))

  set_and_delete :
      (doc : String) (x : Value)
      → IsFine json [] doc
      → (doc' : String) × (doc2 : String) × (lib.set doc "cluster.user_id" x ≡ some doc')
        × (lib.delete doc' "cluster.user_name" ≡ some doc2)
        × IsFine json ("user_name" ∷ []) doc2
  set_and_delete doc x fine =
      let (doc', set, fine') =
        set-cluster_path json lib lawful [] "user_id" "cluster.user_id" doc x user_id_path tt
          fine in
      let (doc2, deleted, fine2) =
        delete-cluster_path json lib lawful [] "user_name" "cluster.user_name" doc' user_name_path
          fine' in
      (doc', doc2, set, deleted, fine2)

  user_name-Moves :
      Moves json lib
        (IsFine json [])
        (IsFine json ("user_name" ∷ []))
        "cluster.user_name"
        "cluster.user_id"
  user_name-Moves = record {
    simple = user_name_path.simple;
    missing = λ doc fine g. not_there doc fine g;
    moved = λ doc x fine. set_and_delete doc x fine;
  }

  sensitive_paths-IsQuiet : All (IsQuiet json lib (IsFine json [])) get_default_fields_to_anonymize
  unfolding get_default_fields_to_anonymize is_complex_path Text.contains Text.has_prefix
  sensitive_paths-IsQuiet = (
    inr (record {
      simple = user_name_path.simple;
      missing = λ doc fine g. fine;
      moved = λ doc x fine.
          let (doc', doc2, set, deleted, fine2) = set_and_delete doc x fine in
          (doc', doc2, set, deleted, forget "user_name" [] fine2);
    }),
    (inl refl, (inl refl, (inl refl, tt))),
  )

  -- After the anonymization, in whatever order, the cluster has no user_name.
  pub rename-user_name :
      (empty_invalid : json.unmarshal "" ≡ none) (doc : String) (paths : List (String × String))
      → All (IsOneOf get_default_fields_to_anonymize) paths
      → IsOneOf paths ("cluster.user_name", "cluster.user_id")
      → IsFine json [] doc
      → Ends (IsFine json ("user_name" ∷ [])) (rename json lib doc paths)
  rename-user_name empty_invalid doc paths defaults visited fine =
      let default = get_default_fields_to_anonymize in
      rename-moved json lib (IsFine json []) (IsFine json ("user_name" ∷ [])) "cluster.user_name"
        "cluster.user_id" doc paths user_name-Moves visited
        (All-chosen (KeptRename json lib (IsFine json [])) default paths
          (sensitive_paths-Kept json lib lawful empty_invalid [] tt tt) defaults)
        (All-chosen (IsQuiet json lib (IsFine json [])) default paths sensitive_paths-IsQuiet
          defaults)
        (All-chosen (KeptRename json lib (IsFine json ("user_name" ∷ []))) default paths
          (sensitive_paths-Kept json lib lawful empty_invalid ("user_name" ∷ []) (refl, tt)
            (refl, tt))
          defaults)
        fine
