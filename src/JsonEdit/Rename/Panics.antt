-- ===== src/JsonEdit/Rename/Panics.antt =====
-- pkg/jsonedit/rename.go: when the type assertion that is not checked panics.
use assisted_events_stream.Prelude.{
  String, ◌≡◌, refl, true, false, Option, none, some, List, [], ◌∷◌, ◌==◌, eq_iff, eq_refl,
  Bool-cases, inl, inr, ◌⊎◌,
}
use assisted_events_stream.Value.{Value, as_list}
use assisted_events_stream.Types.{Codec}
use assisted_events_stream.Text
use assisted_events_stream.Text.Parts.{NoneContains, split-NoneContains, contains-trim_dots}
use assisted_events_stream.JsonEdit.{PathLib, Found, is_complex_path}
use assisted_events_stream.JsonEdit.Rename.{
  Renamed, rename_elements, rename_unpacked, rename_parent, rename_from_parts, rename_path,
  rename_next, rename_paths, rename_depth, rename,
}
use assisted_events_stream.JsonEdit.Rename.Returns.{
  rename_found-returns, children-return, items-returned,
}

module _ (json : Codec) (lib : PathLib) where
  -- The parts of the two paths have one parent, and what is found there decodes to no list.
  pub record IsUnlisted (doc : String) (srcs dsts : List String) : Type 0 where
    pub parent : String
    pub src : String
    pub dst : String
    pub src_parts : srcs ≡ parent ∷ src ∷ []
    pub dst_parts : dsts ≡ parent ∷ dst ∷ []
    pub found : Found
    pub there : lib.get doc parent ≡ some found
    pub value : Value
    pub decodes : json.unmarshal found.text ≡ some value
    pub no_list : as_list value ≡ none

  -- Of the paths, some are renamed without an error, and the next one is complex and unlisted in what
  -- they leave.
  abbrev pub MeetsUnlisted : String → List (String × String) → Type 0
  MeetsUnlisted doc [] = ⊥
  MeetsUnlisted doc ((src, dst) ∷ paths) =
      ((is_complex_path src ≡ true) × IsUnlisted doc (Text.split src "[*]") (Text.split dst "[*]"))
      ⊎ ((doc' : String) × (rename json lib doc ((src, dst) ∷ []) ≡ some (doc', none))
          × MeetsUnlisted doc' paths)

  parts-IsUnlisted :
      (doc : String) (srcs dsts : List String)
      → NoneContains "[*]" srcs
      → rename_from_parts json lib (rename_depth json lib 1) doc srcs dsts ≡ none
      → IsUnlisted doc srcs dsts
  unfolding rename_from_parts rename_parent rename_unpacked rename_elements is_complex_path
      Text.has_prefix
  parts-IsUnlisted doc (parent ∷ src ∷ []) (dst_parent ∷ dst ∷ []) pieces h =
      elim (Bool-cases (parent == dst_parent)) [
        | inl e ↦ by_found ((eq_iff parent dst_parent).0 e) (lib.get doc parent) refl (rw e at h)
        | inr e ↦ let h' = rw e at h in cc
      ]
    where
      plain : is_complex_path (Text.trim_dots src) ≡ false
      plain = contains-trim_dots "[*]" src refl pieces.1.0

      by_list :
          parent ≡ dst_parent
          → (found : Found) → lib.get doc parent ≡ some found
          → (v : Value) → json.unmarshal found.text ≡ some v
          → (o : Option (List Value)) → as_list v ≡ o
          → rename_elements json lib
              (rename_depth json lib 1)
              doc
              parent
              found.text
              (Text.trim_dots src)
              (Text.trim_dots dst)
              o
            ≡ none
          → IsUnlisted doc (parent ∷ src ∷ []) (dst_parent ∷ dst ∷ [])
      by_list same found there v decodes none l h' = record {
        parent = parent;
        src = src;
        dst = dst;
        src_parts = refl;
        dst_parts = rw (← same);
        found = found;
        there = there;
        value = v;
        decodes = decodes;
        no_list = l;
      }
      by_list same found there v decodes (some vs) l h' = absurd (
          items-returned json lib doc parent _
            (children-return json lib found.text (Text.trim_dots src) (Text.trim_dots dst) vs plain)
            h')

      by_value :
          parent ≡ dst_parent
          → (found : Found) → lib.get doc parent ≡ some found
          → (o : Option Value) → json.unmarshal found.text ≡ o
          → rename_unpacked json lib
              (rename_depth json lib 1)
              doc
              parent
              found.text
              (Text.trim_dots src)
              (Text.trim_dots dst)
              o
            ≡ none
          → IsUnlisted doc (parent ∷ src ∷ []) (dst_parent ∷ dst ∷ [])
      by_value same found there none d h' = cc
      by_value same found there (some v) d h' = by_list same found there v d (as_list v) refl h'

      by_found :
          parent ≡ dst_parent
          → (o : Option Found) → lib.get doc parent ≡ o
          → rename_parent json lib
              (rename_depth json lib 1)
              doc
              parent
              (Text.trim_dots src)
              (Text.trim_dots dst)
              o
            ≡ none
          → IsUnlisted doc (parent ∷ src ∷ []) (dst_parent ∷ dst ∷ [])
      by_found same none g h' = cc
      by_found same (some found) g h' = by_value same found g (json.unmarshal found.text) refl h'
  parts-IsUnlisted doc (p ∷ q ∷ []) [] n h = cc
  parts-IsUnlisted doc (p ∷ q ∷ []) (r ∷ []) n h = cc
  parts-IsUnlisted doc (p ∷ q ∷ []) (r ∷ s ∷ t ∷ parts) n h = cc
  parts-IsUnlisted doc [] dsts n h = cc
  parts-IsUnlisted doc (p ∷ []) dsts n h = cc
  parts-IsUnlisted doc (p ∷ q ∷ r ∷ parts) dsts n h = cc

  IsUnlisted-parts :
      (doc : String) (srcs dsts : List String)
      → IsUnlisted doc srcs dsts
      → rename_from_parts json lib (rename_depth json lib 1) doc srcs dsts ≡ none
  unfolding rename_from_parts rename_parent rename_unpacked rename_elements
  IsUnlisted-parts doc srcs dsts x =
      rw (x.src_parts, x.dst_parts, eq_refl x.parent, x.there, x.decodes, x.no_list) refl

  path-cases :
      (doc src dst : String)
      → rename_path json lib (rename_depth json lib 1) doc src dst ≡ none
      → (is_complex_path src ≡ true) × IsUnlisted doc (Text.split src "[*]") (Text.split dst "[*]")
  unfolding rename_path Text.has_prefix
  path-cases doc src dst h = elim (Bool-cases (is_complex_path src)) [
    | inl c ↦ (
      c,
      parts-IsUnlisted doc (Text.split src "[*]") (Text.split dst "[*]")
          (split-NoneContains src "[*]" refl) (rw c at h),
    )
    | inr c ↦ absurd (rename_found-returns json lib doc src dst (lib.get doc src) (rw c at h))
  ]

  path-IsUnlisted :
      (doc src dst : String)
      → is_complex_path src ≡ true
      → IsUnlisted doc (Text.split src "[*]") (Text.split dst "[*]")
      → rename_path json lib (rename_depth json lib 1) doc src dst ≡ none
  unfolding rename_path
  path-IsUnlisted doc src dst c x =
      rw c (IsUnlisted-parts doc (Text.split src "[*]") (Text.split dst "[*]") x)

  -- Rename panics exactly if, of its paths in the order of the visit, some are renamed without an
  -- error, and then one is complex whose source and destination split at `[*]` into two parts each
  -- with one parent, where gjson finds what decodes to something else than a list. So it never panics
  -- in a nested call, nor on a path that is not complex.
  pub rename-panics_iff :
      (doc : String) (paths : List (String × String))
      → (rename json lib doc paths ≡ none → MeetsUnlisted doc paths)
        × (MeetsUnlisted doc paths → rename json lib doc paths ≡ none)
  unfolding rename rename_depth rename_paths
  rename-panics_iff doc [] = (λ h. cc, λ h. absurd h)
  rename-panics_iff doc ((src, dst) ∷ paths) = (
    to (rename_path json lib (rename_depth json lib 1) doc src dst)
        (λ d. (rename-panics_iff d paths).0) refl,
    from (λ d. (rename-panics_iff d paths).1),
  )
    where
      to :
          (r : Renamed)
          → ((d : String) → rename json lib d paths ≡ none → MeetsUnlisted d paths)
          → rename_path json lib (rename_depth json lib 1) doc src dst ≡ r
          → rename_next json lib r (λ d. rename_paths json lib (rename_depth json lib 1) d paths)
            ≡ none
          → MeetsUnlisted doc ((src, dst) ∷ paths)
      to none ih e h = inl (path-cases doc src dst e)
      to (some (d, some x)) ih e h = cc
      to (some (d, none)) ih e h = inr (d, rw e refl, ih d h)

      one :
          (r : Renamed) (d : String)
          → rename_next json lib r (λ t. some (t, none)) ≡ some (d, none)
          → r ≡ some (d, none)
      one none d h = cc
      one (some (t, some x)) d h = cc
      one (some (t, none)) d h = h

      from :
          ((d : String) → MeetsUnlisted d paths → rename json lib d paths ≡ none)
          → MeetsUnlisted doc ((src, dst) ∷ paths)
          → rename json lib doc ((src, dst) ∷ paths) ≡ none
      from ih (inl (c, x)) = rw (path-IsUnlisted doc src dst c x) refl
      from ih (inr (d, e, more)) =
          rw (one (rename_path json lib (rename_depth json lib 1) doc src dst) d e) (ih d more)
