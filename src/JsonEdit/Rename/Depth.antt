-- ===== src/JsonEdit/Rename/Depth.antt =====
-- pkg/jsonedit/rename.go: how deep the nested calls of Rename go.
use assisted_events_stream.Prelude.{
  ℕ, suc, String, ◌≡◌, refl, ap, false, Option, none, some, List, [], ◌∷◌,
}
use assisted_events_stream.Value.{Value, as_list}
use assisted_events_stream.Types.{Codec}
use assisted_events_stream.Text
use assisted_events_stream.Text.Parts.{NoneContains, split-NoneContains, contains-trim_dots}
use assisted_events_stream.JsonEdit.{PathLib, Found, is_complex_path}
use assisted_events_stream.JsonEdit.Rename.{
  Renamed, rename_children, set_items, rename_elements, rename_unpacked, rename_parent,
  rename_from_parts, rename_path, rename_next, rename_paths, rename_depth, rename,
}

module _ (json : Codec) (lib : PathLib) where
  -- For a source that is not complex nothing is called.
  rename_depth-plain :
      (n : ℕ) (doc src dst : String)
      → is_complex_path src ≡ false
      → rename_depth json lib (suc n) doc ((src, dst) ∷ [])
        ≡ rename_depth json lib 1 doc ((src, dst) ∷ [])
  unfolding rename_depth rename_paths rename_path
  rename_depth-plain n doc src dst h = rw h refl

  rename_children-depth :
      (n : ℕ) (raw src dst : String) (vs : List Value)
      → is_complex_path src ≡ false
      → rename_children json lib (rename_depth json lib (suc n)) raw src dst vs
        ≡ rename_children json lib (rename_depth json lib 1) raw src dst vs
  unfolding rename_children
  rename_children-depth n raw src dst [] h = refl
  rename_children-depth n raw src dst (v ∷ vs) h =
      rw (rename_depth-plain n (json.marshal v) src dst h, rename_children-depth n raw src dst vs h)

  rename_unpacked-depth :
      (n : ℕ) (doc parent raw src dst : String) (o : Option Value)
      → is_complex_path src ≡ false
      → rename_unpacked json lib (rename_depth json lib (suc n)) doc parent raw src dst o
        ≡ rename_unpacked json lib (rename_depth json lib 1) doc parent raw src dst o
  unfolding rename_unpacked
  rename_unpacked-depth n doc parent raw src dst none h = refl
  rename_unpacked-depth n doc parent raw src dst (some v) h = elements (as_list v)
    where
      elements :
          (o : Option (List Value))
          → rename_elements json lib (rename_depth json lib (suc n)) doc parent raw src dst o
            ≡ rename_elements json lib (rename_depth json lib 1) doc parent raw src dst o
      elements none = refl
      elements (some vs) =
          ap (set_items json lib doc parent) (rename_children-depth n raw src dst vs h)

  rename_parent-depth :
      (n : ℕ) (doc parent src dst : String) (o : Option Found)
      → is_complex_path src ≡ false
      → rename_parent json lib (rename_depth json lib (suc n)) doc parent src dst o
        ≡ rename_parent json lib (rename_depth json lib 1) doc parent src dst o
  unfolding rename_parent
  rename_parent-depth n doc parent src dst none h = refl
  rename_parent-depth n doc parent src dst (some found) h =
      rename_unpacked-depth n doc parent found.text src dst (json.unmarshal found.text) h

  rename_from_parts-depth :
      (n : ℕ) (doc : String) (srcs dsts : List String)
      → NoneContains "[*]" srcs
      → rename_from_parts json lib (rename_depth json lib (suc n)) doc srcs dsts
        ≡ rename_from_parts json lib (rename_depth json lib 1) doc srcs dsts
  unfolding rename_from_parts is_complex_path Text.has_prefix
  rename_from_parts-depth n doc (parent ∷ src ∷ []) (dst_parent ∷ dst ∷ []) h = rw (
      rename_parent-depth n doc parent (Text.trim_dots src) (Text.trim_dots dst)
        (lib.get doc parent) (contains-trim_dots "[*]" src refl h.1.0))
  rename_from_parts-depth n doc (p ∷ q ∷ []) [] h = refl
  rename_from_parts-depth n doc (p ∷ q ∷ []) (r ∷ []) h = refl
  rename_from_parts-depth n doc (p ∷ q ∷ []) (r ∷ s ∷ t ∷ parts) h = refl
  rename_from_parts-depth n doc [] dsts h = refl
  rename_from_parts-depth n doc (p ∷ []) dsts h = refl
  rename_from_parts-depth n doc (p ∷ q ∷ r ∷ parts) dsts h = refl

  rename_path-depth :
      (n : ℕ) (doc src dst : String)
      → rename_path json lib (rename_depth json lib (suc n)) doc src dst
        ≡ rename_path json lib (rename_depth json lib 1) doc src dst
  unfolding rename_path Text.has_prefix
  rename_path-depth n doc src dst = rw (
      rename_from_parts-depth n doc (Text.split src "[*]") (Text.split dst "[*]")
        (split-NoneContains src "[*]" refl))

  rename_paths-depth :
      (n : ℕ) (doc : String) (paths : List (String × String))
      → rename_paths json lib (rename_depth json lib (suc n)) doc paths
        ≡ rename_paths json lib (rename_depth json lib 1) doc paths
  unfolding rename_paths
  rename_paths-depth n doc [] = refl
  rename_paths-depth n doc ((src, dst) ∷ paths) = rw (rename_path-depth n doc src dst) (
      next (rename_path json lib (rename_depth json lib 1) doc src dst)
        λ doc'. rename_paths-depth n doc' paths)
    where
      next :
          (r : Renamed)
          → ((doc' : String)
              → rename_paths json lib (rename_depth json lib (suc n)) doc' paths
                ≡ rename_paths json lib (rename_depth json lib 1) doc' paths)
          → rename_next json lib r
              (λ doc'. rename_paths json lib (rename_depth json lib (suc n)) doc' paths)
            ≡ rename_next json lib r
                (λ doc'. rename_paths json lib (rename_depth json lib 1) doc' paths)
      next none ih = refl
      next (some (doc', some e)) ih = refl
      next (some (doc', none)) ih = ih doc'

  -- Any deeper bound on the nested calls of Rename gives what the depth 2 gives, panics included:
  -- the calls never go deeper.
  pub rename_depth-enough :
      (n : ℕ) (doc : String) (paths : List (String × String))
      → rename_depth json lib (suc (suc n)) doc paths ≡ rename json lib doc paths
  unfolding rename rename_depth
  rename_depth-enough n doc paths = rename_paths-depth n doc paths
