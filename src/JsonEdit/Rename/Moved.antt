-- ===== src/JsonEdit/Rename/Moved.antt =====
-- pkg/jsonedit/rename.go: what one of the paths brings about holds in the end, whatever the order of
-- the paths, since none of them ends Rename with an error.
use mathlib.Core.Path.{subst}
use assisted_events_stream.Prelude.{
  String, ◌≡◌, refl, ◌⊎◌, inl, inr, true, false, Option, none, some, List, [], ◌∷◌, All, IsOneOf,
  ◌==◌, Bool-cases,
}
use assisted_events_stream.Value.{Value, as_list}
use assisted_events_stream.Types.{Codec}
use assisted_events_stream.Text
use assisted_events_stream.JsonEdit.{Found, PathLib, is_complex_path, or_text}
use assisted_events_stream.JsonEdit.Rename.{
  Renamed, set_items, rename_elements, rename_unpacked, rename_parent, rename_from_parts,
  delete_source, after_set, rename_found, rename_path, rename_next, rename_paths, rename_depth,
  rename,
}
use assisted_events_stream.JsonEdit.Rename.Invariants.{
  Ends, KeptRename, rename_path-keeps, rename_paths-keeps,
}

-- It panics, or ends without an error.
abbrev NoError : Renamed → Type 0
NoError none = Unit
NoError (some (doc, none)) = Unit
NoError (some (doc, some e)) = ⊥

module _ (json : Codec) (lib : PathLib) where
  set_items-NoError :
      (doc parent : String) (o : Option (List Value)) → NoError (set_items json lib doc parent o)
  unfolding set_items
  set_items-NoError doc parent none = tt
  set_items-NoError doc parent (some items) = tt

  rename_elements-NoError :
      (doc parent raw src dst : String) (o : Option (List Value))
      → NoError (rename_elements json lib (rename_depth json lib 1) doc parent raw src dst o)
  unfolding rename_elements
  rename_elements-NoError doc parent raw src dst none = tt
  rename_elements-NoError doc parent raw src dst (some vs) = set_items-NoError doc parent _

  rename_unpacked-NoError :
      (doc parent raw src dst : String) (o : Option Value)
      → NoError (rename_unpacked json lib (rename_depth json lib 1) doc parent raw src dst o)
  unfolding rename_unpacked
  rename_unpacked-NoError doc parent raw src dst none = tt
  rename_unpacked-NoError doc parent raw src dst (some v) =
      rename_elements-NoError doc parent raw src dst (as_list v)

  rename_parent-NoError :
      (doc parent src dst : String) (o : Option Found)
      → NoError (rename_parent json lib (rename_depth json lib 1) doc parent src dst o)
  unfolding rename_parent
  rename_parent-NoError doc parent src dst none = tt
  rename_parent-NoError doc parent src dst (some found) =
      rename_unpacked-NoError doc parent found.text src dst (json.unmarshal found.text)

module _ (json : Codec) (lib : PathLib) (I J : String → Type 0) where
  -- A simple path: if nothing stands there, `J` holds; otherwise it is set and deleted, and then `J`
  -- holds.
  pub record Moves (src dst : String) : Type 0 where
    pub simple : is_complex_path src ≡ false
    pub missing : (doc : String) → I doc → lib.get doc src ≡ none → J doc
    pub moved :
        (doc : String) (x : Value)
        → I doc
        → (doc' : String) × (doc2 : String) × (lib.set doc dst x ≡ some doc')
          × (lib.delete doc' src ≡ some doc2)
          × J doc2

  rename_found-moved :
      (doc src dst : String) (o : Option Found)
      → Moves src dst
      → lib.get doc src ≡ o
      → I doc
      → Ends J (rename_found json lib doc src dst o) × NoError (rename_found json lib doc src dst o)
  unfolding rename_found after_set delete_source
  rename_found-moved doc src dst none m e i = (m.missing doc i e, tt)
  rename_found-moved doc src dst (some found) m e i =
      let (doc', doc2, set, deleted, j) =
        m.moved doc (or_text found.text (json.unmarshal found.text)) i in
      rw (set, deleted) (j, tt)

  rename_path-moved :
      (doc src dst : String)
      → Moves src dst
      → I doc
      → Ends J (rename_path json lib (rename_depth json lib 1) doc src dst)
        × NoError (rename_path json lib (rename_depth json lib 1) doc src dst)
  unfolding rename_path
  rename_path-moved doc src dst m i =
      rw m.simple (rename_found-moved doc src dst (lib.get doc src) m refl i)

module _ (json : Codec) (lib : PathLib) (I : String → Type 0) where
  -- A path that does not end Rename with an error.
  abbrev pub IsQuiet : String × String → Type 0
  IsQuiet (src, dst) = (is_complex_path src ≡ true) ⊎ Moves json lib I I src dst

  rename_path-NoError :
      (doc src dst : String)
      → IsQuiet (src, dst)
      → I doc
      → NoError (rename_path json lib (rename_depth json lib 1) doc src dst)
  unfolding rename_path rename_from_parts
  rename_path-NoError doc src dst (inr m) i = (rename_path-moved json lib I I doc src dst m i).1
  rename_path-NoError doc src dst (inl c) i =
      rw c (by_parts (Text.split src "[*]") (Text.split dst "[*]"))
    where
      by_parts :
          (xs ys : List String)
          → NoError (rename_from_parts json lib (rename_depth json lib 1) doc xs ys)
      by_parts (parent ∷ a ∷ []) (dst_parent ∷ b ∷ []) = elim (Bool-cases (parent == dst_parent)) [
        | inl e ↦ rw e (
            rename_parent-NoError json lib doc parent (Text.trim_dots a) (Text.trim_dots b)
              (lib.get doc parent))
        | inr e ↦ rw e tt
      ]
      by_parts _ _ = tt

module _ (json : Codec) (lib : PathLib) (I J : String → Type 0) where
  rename_next-moved :
      (r : Renamed) (next : String → Renamed)
      → Ends I r
      → NoError r
      → ((doc : String) → I doc → Ends J (next doc))
      → Ends J (rename_next json lib r next)
  unfolding rename_next
  rename_next-moved none next e q k = absurd e
  rename_next-moved (some (doc, none)) next e q k = k doc e
  rename_next-moved (some (doc, some x)) next e q k = absurd q

  rename_next-kept :
      (r : Renamed) (next : String → Renamed)
      → Ends J r
      → ((doc : String) → J doc → Ends J (next doc))
      → Ends J (rename_next json lib r next)
  unfolding rename_next
  rename_next-kept none next e k = absurd e
  rename_next-kept (some (doc, none)) next e k = k doc e
  rename_next-kept (some (doc, some x)) next e k = e

  rename_paths-moved :
      (src dst : String) (paths : List (String × String)) (doc : String)
      → Moves json lib I J src dst
      → IsOneOf paths (src, dst)
      → All (KeptRename json lib I) paths
      → All (IsQuiet json lib I) paths
      → All (KeptRename json lib J) paths
      → I doc
      → Ends J (rename_paths json lib (rename_depth json lib 1) doc paths)
  unfolding rename_paths
  rename_paths-moved src dst [] doc m at is qs js i = absurd at.lower
  rename_paths-moved src dst ((s, d) ∷ paths) doc m (inr at) (k, ks) (q, qs) (j, js) i =
      rename_next-moved _ _ (rename_path-keeps json lib I doc s d k i)
        (rename_path-NoError json lib I doc s d q i)
        (λ doc' i'. rename_paths-moved src dst paths doc' m at ks qs js i')
  rename_paths-moved src dst ((s, d) ∷ paths) doc m (inl e) (k, ks) (q, qs) (j, js) i =
      rename_next-kept _ _
        (subst
          (λ (p : String × String).
            Ends J (rename_path json lib (rename_depth json lib 1) doc p.0 p.1))
          e (rename_path-moved json lib I J doc src dst m i).0)
        (λ doc' j'. rename_paths-keeps json lib J paths doc' js j')

  -- If one of the paths, in whatever place, brings `J` about, and every path keeps `I`, ends without an
  -- error and keeps `J`, then Rename ends with a text for which `J` holds.
  pub rename-moved :
      (src dst doc : String) (paths : List (String × String))
      → Moves json lib I J src dst
      → IsOneOf paths (src, dst)
      → All (KeptRename json lib I) paths
      → All (IsQuiet json lib I) paths
      → All (KeptRename json lib J) paths
      → I doc
      → Ends J (rename json lib doc paths)
  unfolding rename rename_depth
  rename-moved src dst doc paths m at ks qs js i =
      rename_paths-moved src dst paths doc m at ks qs js i
