-- ===== src/JsonEdit/Rename/Invariants.antt =====
-- pkg/jsonedit/rename.go: what holds of a document, and is kept by what is set and deleted under the
-- paths, holds of the document that Rename ends with; and it does end where the parents are lists.
use assisted_events_stream.Prelude.{
  String, ◌≡◌, refl, ◌⊎◌, inl, inr, true, false, Option, none, some, List, [], ◌∷◌, All, eq_refl,
}
use assisted_events_stream.Value.{Value, arr, as_list, from_list}
use assisted_events_stream.Types.{Codec}
use assisted_events_stream.Text
use assisted_events_stream.JsonEdit.{Found, PathLib, is_complex_path, or_text, or_same}
use assisted_events_stream.JsonEdit.Invariants.{IsItems, KeptAt}
use assisted_events_stream.JsonEdit.Rename.{
  Renamed, add_renamed, rename_children, set_items, rename_elements, rename_unpacked, rename_parent,
  rename_from_parts, delete_source, after_set, rename_found, rename_path, rename_next, rename_paths,
  rename_depth, rename,
}

-- It ends without a panic, with a document for which `I` holds.
abbrev pub Ends : (String → Type 0) → Renamed → Type 0
Ends I none = ⊥
Ends I (some (doc, e)) = I doc

abbrev pub IsSome : {A : Type 0} → Option A → Type 0
IsSome none = ⊥
IsSome (some a) = Unit

module _ (json : Codec) (lib : PathLib) (I : String → Type 0) where
  delete_source-keeps :
      (doc doc' : String) (o : Option String)
      → I doc
      → I (or_same doc' o)
      → Ends I (delete_source json lib doc o)
  unfolding delete_source or_same
  delete_source-keeps doc doc' none i i' = i
  delete_source-keeps doc doc' (some doc2) i i' = i'

  after_set-keeps :
      (doc src : String) (o : Option String)
      → ((doc : String) → I doc → I (or_same doc (lib.delete doc src)))
      → I doc
      → I (or_same doc o)
      → Ends I (after_set json lib doc src o)
  unfolding after_set or_same
  after_set-keeps doc src none d i i' = i
  after_set-keeps doc src (some doc') d i i' =
      delete_source-keeps doc doc' (lib.delete doc' src) i (d doc' i')

  rename_next-keeps :
      (r : Renamed) (next : String → Renamed)
      → Ends I r
      → ((doc : String) → I doc → Ends I (next doc))
      → Ends I (rename_next json lib r next)
  unfolding rename_next
  rename_next-keeps none next e k = absurd e
  rename_next-keeps (some (doc, none)) next e k = k doc e
  rename_next-keeps (some (doc, some x)) next e k = e

  pub record KeptPair (src dst : String) : Type 0 where
    pub simple : is_complex_path src ≡ false
    pub set_keeps : (doc : String) (x : Value) → I doc → I (or_same doc (lib.set doc dst x))
    pub delete_keeps : (doc : String) → I doc → I (or_same doc (lib.delete doc src))

  rename_found-keeps :
      (doc src dst : String) (o : Option Found)
      → KeptPair src dst
      → I doc
      → Ends I (rename_found json lib doc src dst o)
  unfolding rename_found
  rename_found-keeps doc src dst none k i = i
  rename_found-keeps doc src dst (some found) k i =
      after_set-keeps doc src _ k.delete_keeps i
        (k.set_keeps doc (or_text found.text (json.unmarshal found.text)) i)

  -- The parent is one, and it reads as a list.
  pub record KeptItemsPair (src dst : String) : Type 0 where
    pub complex : is_complex_path src ≡ true
    pub parent : String
    pub src_child : String
    pub dst_child : String
    pub src_parts : Text.split src "[*]" ≡ parent ∷ src_child ∷ []
    pub dst_parts : Text.split dst "[*]" ≡ parent ∷ dst_child ∷ []
    pub simple : is_complex_path (Text.trim_dots src_child) ≡ false
    pub kept : KeptAt json lib I IsItems parent
    pub readable :
        (doc : String) (found : Found) (v : Value)
        → I doc
        → lib.get doc parent ≡ some found
        → json.unmarshal found.text ≡ some v
        → IsSome (as_list v)

  abbrev pub KeptRename : String × String → Type 0
  KeptRename (src, dst) = KeptPair src dst ⊎ KeptItemsPair src dst

  set_items-keeps :
      (doc parent : String) (o : Option (List Value))
      → KeptAt json lib I IsItems parent
      → IsSome o
      → I doc
      → Ends I (set_items json lib doc parent o)
  unfolding set_items
  set_items-keeps doc parent none k s i = absurd s
  set_items-keeps doc parent (some items) k s i = k.set_keeps doc (arr (from_list items)) tt i

module _ (json : Codec) (lib : PathLib) where
  -- The Rename of one child: its path is simple.
  rename_child-Ends :
      (doc src dst : String)
      → is_complex_path src ≡ false
      → Ends (λ d. Unit) (rename_depth json lib 1 doc ((src, dst) ∷ []))
  unfolding rename_depth rename_paths rename_path rename_next
  rename_child-Ends doc src dst h = rw h (
      rename_next-keeps json lib (λ d. Unit) (rename_found json lib doc src dst (lib.get doc src))
        (λ d. some (d, none))
        (rename_found-keeps json lib (λ d. Unit) doc src dst (lib.get doc src)
          (record { simple = h; set_keeps = λ d x i. tt; delete_keeps = λ d i. tt }) tt)
        (λ d i. tt))

  rename_children-IsSome :
      (raw src dst : String) (vs : List Value)
      → is_complex_path src ≡ false
      → IsSome (rename_children json lib (rename_depth json lib 1) raw src dst vs)
  unfolding rename_children add_renamed
  rename_children-IsSome raw src dst [] h = tt
  rename_children-IsSome raw src dst (v ∷ vs) h =
      added (rename_depth json lib 1 (json.marshal v) ((src, dst) ∷ []))
        (rename_children json lib (rename_depth json lib 1) raw src dst vs)
        (rename_child-Ends (json.marshal v) src dst h) (rename_children-IsSome raw src dst vs h)
    where
      added :
          (r : Renamed) (rest : Option (List Value))
          → Ends (λ d. Unit) r
          → IsSome rest
          → IsSome (add_renamed json lib raw r rest)
      added none rest e s = absurd e
      added (some (doc, some x)) rest e s = s
      added (some (doc, none)) none e s = absurd s
      added (some (doc, none)) (some items) e s = tt

module _ (json : Codec) (lib : PathLib) (I : String → Type 0) where
  rename_elements-keeps :
      (doc parent raw src dst : String) (o : Option (List Value))
      → KeptAt json lib I IsItems parent
      → is_complex_path src ≡ false
      → IsSome o
      → I doc
      → Ends I (rename_elements json lib (rename_depth json lib 1) doc parent raw src dst o)
  unfolding rename_elements
  rename_elements-keeps doc parent raw src dst none k h s i = absurd s
  rename_elements-keeps doc parent raw src dst (some vs) k h s i =
      set_items-keeps json lib I doc parent
        (rename_children json lib (rename_depth json lib 1) raw src dst vs) k
        (rename_children-IsSome json lib raw src dst vs h) i

  rename_unpacked-keeps :
      (doc parent raw src dst : String) (o : Option Value)
      → KeptAt json lib I IsItems parent
      → is_complex_path src ≡ false
      → ((v : Value) → o ≡ some v → IsSome (as_list v))
      → I doc
      → Ends I (rename_unpacked json lib (rename_depth json lib 1) doc parent raw src dst o)
  unfolding rename_unpacked
  rename_unpacked-keeps doc parent raw src dst none k h s i = i
  rename_unpacked-keeps doc parent raw src dst (some v) k h s i =
      rename_elements-keeps doc parent raw src dst (as_list v) k h (s v refl) i

  rename_parent-keeps :
      (doc src dst : String) (k : KeptItemsPair json lib I src dst) (o : Option Found)
      → lib.get doc k.parent ≡ o
      → I doc
      → Ends I (
          rename_parent json lib
            (rename_depth json lib 1)
            doc
            k.parent
            (Text.trim_dots k.src_child)
            (Text.trim_dots k.dst_child)
            o)
  unfolding rename_parent
  rename_parent-keeps doc src dst k none e i = i
  rename_parent-keeps doc src dst k (some found) e i =
      rename_unpacked-keeps doc k.parent found.text (Text.trim_dots k.src_child)
        (Text.trim_dots k.dst_child) (json.unmarshal found.text) k.kept k.simple
        (λ v u. k.readable doc found v i e u) i

  pub rename_path-keeps :
      (doc src dst : String)
      → KeptRename json lib I (src, dst)
      → I doc
      → Ends I (rename_path json lib (rename_depth json lib 1) doc src dst)
  unfolding rename_path rename_from_parts
  rename_path-keeps doc src dst (inl k) i =
      rw k.simple (rename_found-keeps json lib I doc src dst (lib.get doc src) k i)
  rename_path-keeps doc src dst (inr k) i =
      rw (k.complex, k.src_parts, k.dst_parts, eq_refl k.parent)
        (rename_parent-keeps doc src dst k (lib.get doc k.parent) refl i)

  pub rename_paths-keeps :
      (paths : List (String × String)) (doc : String)
      → All (KeptRename json lib I) paths
      → I doc
      → Ends I (rename_paths json lib (rename_depth json lib 1) doc paths)
  unfolding rename_paths rename_next
  rename_paths-keeps [] doc ks i = i
  rename_paths-keeps ((src, dst) ∷ paths) doc (k, ks) i =
      rename_next-keeps json lib I (rename_path json lib (rename_depth json lib 1) doc src dst)
        (λ d. rename_paths json lib (rename_depth json lib 1) d paths)
        (rename_path-keeps doc src dst k i) (λ d i'. rename_paths-keeps paths d ks i')

  pub rename-keeps :
      (doc : String) (paths : List (String × String))
      → All (KeptRename json lib I) paths
      → I doc
      → Ends I (rename json lib doc paths)
  unfolding rename rename_depth
  rename-keeps doc paths ks i = rename_paths-keeps paths doc ks i
