-- ===== src/Enricher/Safety.antt =====
-- The enricher does not panic: the parents of the paths that are renamed are lists, or null, or missing.
use mathlib.Core.Path.{subst}
use assisted_events_stream.Prelude.{
  String, ◌≡◌, refl, sym, ap, ◌∙◌, true, Option, none, some, List, [], ◌∷◌,
}
use assisted_events_stream.Value.{Value, null, arr, lookup, as_list}
use assisted_events_stream.Types.{Codec}
use assisted_events_stream.Text
use assisted_events_stream.JsonEdit.{Found, PathLib}
use assisted_events_stream.JsonEdit.Paths.{IsLawful, and_then, at, is_plain, keys}
use assisted_events_stream.JsonEdit.Invariants.{IsItems, IfAny, KeptAt}
use assisted_events_stream.JsonEdit.Rename.Invariants.{IsSome}
use assisted_events_stream.Enricher.Lists.{HoldsLists, IsNoneOf, has_cluster, has_envs}
use assisted_events_stream.Enricher.Documents.{IsFine, hosts-KeptAt, infra_envs-KeptAt}

abbrev text_of : String → Option Found → String
text_of s none = s
text_of s (some found) = found.text

abbrev value_of : Value → Option Value → Value
value_of v none = v
value_of v (some w) = w

at-hosts :
    (lacked : List String) (v : Value)
    → HoldsLists lacked v
    → IfAny IsItems (at ("cluster" ∷ "hosts" ∷ []) v)
unfolding at
at-hosts lacked v h =
    rw (h.is_root, has_cluster lacked h) (whole (lookup "hosts" h.cluster) h.hosts)
  where
    whole : (o : Option Value) → IfAny IsItems o → IfAny IsItems (and_then o some)
    whole none i = tt
    whole (some v) i = i

at-infra_envs :
    (lacked : List String) (v : Value)
    → HoldsLists lacked v
    → IfAny IsItems (at ("infra_envs" ∷ []) v)
unfolding at
at-infra_envs lacked v h = rw (h.is_root, has_envs lacked h) (whole h.envs h.infra_envs)
  where
    whole : (o : Option Value) → IfAny IsItems o → IfAny IsItems (and_then o some)
    whole none i = tt
    whole (some v) i = i

module _ (json : Codec) (lib : PathLib) (lawful : IsLawful json lib)
    (empty_invalid : json.unmarshal "" ≡ none) (lacked : List String) where
  -- The parent of a path with `[*]`.
  pub record IsListPath (parent : String) : Type 0 where
    pub plain : is_plain parent ≡ true
    pub kept : KeptAt json lib (IsFine json lacked) IsItems parent
    pub items : (v : Value) → HoldsLists lacked v → IfAny IsItems (at (keys parent) v)

  pub readable :
      (parent doc : String) (found : Found) (v : Value)
      → IsListPath parent
      → IsFine json lacked doc
      → lib.get doc parent ≡ some found
      → json.unmarshal found.text ≡ some v
      → IsSome (as_list v)
  readable parent doc found v p fine got text =
      by_value (at (keys parent) fine.value) refl (p.items fine.value fine.lists)
    where
      by_value :
          (o : Option Value)
          → at (keys parent) fine.value ≡ o
          → IfAny IsItems o
          → IsSome (as_list v)
      by_value none e i =
          let missing : lib.get doc parent ≡ none =
            lawful.get_missing doc parent fine.value p.plain fine.decodes e in
          cc
      by_value (some null) e i =
          let got_null = lawful.get_null doc parent fine.value p.plain fine.decodes e in
          let same : found.text ≡ "" = ap (text_of "") (sym got ∙ got_null) in
          let bad : none ≡ some v = sym empty_invalid ∙ ap json.unmarshal (sym same) ∙ text in cc
      by_value (some (arr vs)) e i =
          let (t, got_raw, u) =
            lawful.get_raw doc parent fine.value (arr vs) p.plain fine.decodes e (λ h. cc)
              (λ s h. cc) in
          let same : found.text ≡ t = ap (text_of "") (sym got ∙ got_raw) in
          let list : v ≡ arr vs = ap (value_of null) (sym text ∙ ap json.unmarshal same ∙ u) in
          subst (λ (w : Value). IsSome (as_list w)) (sym list) tt
      by_value (some _) e i = absurd i

  pub hosts-IsListPath : IsNoneOf lacked "hosts" → IsListPath "cluster.hosts"
  unfolding is_plain Text.split Text.has_prefix
  hosts-IsListPath other = record {
    plain = refl;
    kept = hosts-KeptAt json lib lawful lacked other;
    items = at-hosts lacked;
  }

  pub infra_envs-IsListPath : IsListPath "infra_envs"
  unfolding is_plain Text.split Text.has_prefix
  infra_envs-IsListPath = record {
    plain = refl;
    kept = infra_envs-KeptAt json lib lawful lacked;
    items = at-infra_envs lacked;
  }
