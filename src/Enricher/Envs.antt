-- ===== src/Enricher/Envs.antt =====
-- What deleting a member of every infra-env leaves.
use mathlib.Core.Path.{subst}
use assisted_events_stream.Prelude.{
  String, ◌≡◌, refl, sym, true, Option, none, some, List, [], ◌∷◌, All,
}
use assisted_events_stream.Value.{
  Value, null, bool, num, str, obj, arr, Items, nil, cons, Map, entries, lookup,
}
use assisted_events_stream.Types.{Codec}
use assisted_events_stream.Types.Decode.{merge}
use assisted_events_stream.Types.Decode.Enriched.{decode_elements, decode_into_map}
use assisted_events_stream.Types.Decode.Members.{infra_envs_in}
use assisted_events_stream.Text
use assisted_events_stream.JsonEdit.{PathLib, or_same}
use assisted_events_stream.JsonEdit.Paths.{IsLawful, member, and_then, at, put_at, is_plain, keys}
use assisted_events_stream.JsonEdit.Invariants.{IsItems, IfAny}
use assisted_events_stream.JsonEdit.Deleted.{without_children}
use assisted_events_stream.JsonEdit.Deleted.Items.{
  ItemsLack, without_children-missing, without_children-null, without_children-list,
}
use assisted_events_stream.Enricher.Lists.{has_envs, with_envs}
use assisted_events_stream.Enricher.Documents.{IsFine}

-- No infra-env of the list has the member.
abbrev pub EnvsLack : String → Option Value → Type 0
EnvsLack key (some (arr vs)) = ItemsLack key vs
EnvsLack key _ = Unit

module _ (json : Codec) (lib : PathLib) (lawful : IsLawful json lib) (lacked : List String) where
  abbrev Result : String → String → Type 0
  Result key doc = (fine : IsFine json lacked doc) × EnvsLack key fine.lists.envs

  set_envs :
      (key doc : String) (x : Value)
      → IsFine json lacked doc
      → IsItems x
      → EnvsLack key (some x)
      → Result key (or_same doc (lib.set doc "infra_envs" x))
  unfolding or_same put_at is_plain Text.split Text.has_prefix
  set_envs key doc x fine items lack =
      let h = fine.lists in
      let (h', e) = with_envs lacked h x items in
      let (doc', set, d) =
        lawful.set_present doc "infra_envs" x fine.value _ refl fine.decodes (rw h.is_root refl) in
      rw set (record { value = _; decodes = d; lists = h' }, rw e lack)

  pub without_children-EnvsLack :
      (key child doc : String)
      → is_plain (Text.trim_dots child) ≡ true
      → keys (Text.trim_dots child) ≡ key ∷ []
      → IsFine json lacked doc
      → Result key (without_children json lib doc "infra_envs" child)
  unfolding at is_plain Text.split Text.has_prefix
  without_children-EnvsLack key child doc plain split_keys fine =
      by_value fine.lists.envs refl fine.lists.infra_envs
    where
      at_envs :
          {o : Option Value}
          → fine.lists.envs ≡ o
          → at ("infra_envs" ∷ []) fine.value ≡ and_then o some
      at_envs e = rw (fine.lists.is_root, has_envs lacked fine.lists, e) refl

      by_value :
          (o : Option Value)
          → fine.lists.envs ≡ o
          → IfAny IsItems o
          → Result key (without_children json lib doc "infra_envs" child)
      by_value none e i =
          let get = lawful.get_missing doc "infra_envs" fine.value refl fine.decodes (at_envs e) in
          subst (Result key) (sym (without_children-missing json lib doc "infra_envs" child get))
            (fine, rw e tt)
      by_value (some null) e i =
          let get = lawful.get_null doc "infra_envs" fine.value refl fine.decodes (at_envs e) in
          subst (Result key) (sym (without_children-null json lib doc "infra_envs" child "" get))
            (set_envs key doc null fine tt tt)
      by_value (some (arr vs)) e i =
          let (text, get, u) =
            lawful.get_raw doc "infra_envs" fine.value (arr vs) refl fine.decodes (at_envs e)
              (λ h. cc) (λ s h. cc) in
          let (items, r, lack) =
            without_children-list json lib doc "infra_envs" child lawful key text vs plain
              split_keys get u in
          subst (Result key) (sym r) (set_envs key doc (arr items) fine tt lack)
      by_value (some _) e i = absurd i

module _ (key : String) where
  abbrev LacksKey : Map → Type 0
  LacksKey m = lookup key (entries m) ≡ none

  element-LacksKey : (v : Value) → member key v ≡ none → LacksKey (decode_into_map v none).0
  unfolding merge lookup
  element-LacksKey (obj m) h = h
  element-LacksKey null h = refl
  element-LacksKey (bool b) h = refl
  element-LacksKey (num n) h = refl
  element-LacksKey (str s) h = refl
  element-LacksKey (arr vs) h = refl

  elements-LacksKey : (vs : Items) → ItemsLack key vs → All LacksKey (decode_elements [] vs).0
  unfolding decode_elements
  elements-LacksKey nil h = tt
  elements-LacksKey (cons v vs) (h, hs) = (element-LacksKey v h, elements-LacksKey vs hs)

  -- What json.Unmarshal reads of such a list.
  pub infra_envs_in-lack :
      (o : Option Value)
      → EnvsLack key o
      → All (λ m. lookup key (entries m) ≡ none) (infra_envs_in o)
  infra_envs_in-lack none h = tt
  infra_envs_in-lack (some (arr vs)) h = elements-LacksKey vs h
  infra_envs_in-lack (some null) h = tt
  infra_envs_in-lack (some (bool b)) h = tt
  infra_envs_in-lack (some (num n)) h = tt
  infra_envs_in-lack (some (str s)) h = tt
  infra_envs_in-lack (some (obj m)) h = tt
