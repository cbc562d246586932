-- ===== src/JsonEdit/Invariants.antt =====
-- pkg/jsonedit: what holds of a document, and is kept by what is set under the paths, holds of the
-- document that Transform returns.
use assisted_events_stream.Prelude.{
  String, ◌≡◌, ◌⊎◌, inl, inr, Bool, true, false, Option, none, some, List, [], ◌∷◌, All,
  if◌then◌else◌,
}
use assisted_events_stream.Value.{Value, null, arr, as_list}
use assisted_events_stream.Types.{Codec}
use assisted_events_stream.Text
use assisted_events_stream.JsonEdit.{
  PathLib, Found, TransformFn, Transformer, is_complex_path, or_same, set_item, transform_found,
  transform_list, transform_from_parts, transform_path, transform_paths, transform_depth, transform,
  unpack,
}
use assisted_events_stream.JsonEdit.Depth.{transform_depth-plain}

-- What may stand under the parent of a path with `[*]`, and under another path.
abbrev pub IsItems : Value → Type 0
IsItems null = Unit
IsItems (arr vs) = Unit
IsItems _ = ⊥

abbrev pub IsAny : Value → Type 0
IsAny v = Unit

abbrev pub IfAny : (Value → Type 0) → Option Value → Type 0
IfAny P none = Unit
IfAny P (some v) = P v

transform_list-IsItems :
    (json : Codec) (lib : PathLib) (rec : Transformer) (child : String) (fn : TransformFn)
    (o : Option (List Value))
    → IfAny IsItems (transform_list json lib rec child fn o)
unfolding transform_list
transform_list-IsItems json lib rec child fn none = tt
transform_list-IsItems json lib rec child fn (some vs) = tt

module _ (json : Codec) (lib : PathLib) (I : String → Type 0) where
  -- Setting what `P` allows under a simple path keeps the invariant.
  pub record KeptAt (P : Value → Type 0) (path : String) : Type 0 where
    pub simple : is_complex_path path ≡ false
    pub set_keeps : (doc : String) (x : Value) → P x → I doc → I (or_same doc (lib.set doc path x))

  pub record KeptAtItems (path : String) : Type 0 where
    pub complex : is_complex_path path ≡ true
    pub parent : String
    pub child : String
    pub parts : Text.split path "[*]" ≡ parent ∷ child ∷ []
    pub kept : KeptAt IsItems parent

  abbrev pub Kept : String → Type 0
  Kept path = KeptAt IsAny path ⊎ KeptAtItems path

  set_item-keeps :
      (P : Value → Type 0) (path doc : String) (o : Option Value)
      → KeptAt P path
      → IfAny P o
      → I doc
      → I (set_item json lib doc path o).0
  unfolding set_item
  set_item-keeps P path doc none k p i = i
  set_item-keeps P path doc (some x) k p i = k.set_keeps doc x p i

  pub transform_found-keeps :
      (P : Value → Type 0) (path doc : String) (stale : Bool) (fn : TransformFn) (o : Option Found)
      → KeptAt P path
      → P null
      → ((v : Value) → IfAny P (fn v))
      → I doc
      → I (transform_found json lib doc stale path fn o).0
  unfolding transform_found
  transform_found-keeps P path doc stale fn none k n f i = i
  transform_found-keeps P path doc stale fn (some found) k n f i =
      set_item-keeps P path doc _ k (allowed found.is_null stale) i
    where
      allowed :
          (b stale : Bool)
          → IfAny P
              (if b then (if stale then none else some null) else fn (unpack json lib found.text))
      allowed true true = tt
      allowed true false = n
      allowed false stale = f (unpack json lib found.text)

  transform_path-keeps :
      (path doc : String) (stale : Bool) (fn : TransformFn)
      → Kept path
      → I doc
      → I (transform_path json lib (transform_depth json lib 1) doc stale path fn).0
  unfolding transform_path transform_from_parts
  transform_path-keeps path doc stale fn (inl k) i =
      rw k.simple
        (transform_found-keeps IsAny path doc stale fn (lib.get doc path) k tt (λ v. any (fn v)) i)
    where
      any : (o : Option Value) → IfAny IsAny o
      any none = tt
      any (some v) = tt
  transform_path-keeps path doc stale fn (inr k) i =
      let items = λ (v : Value).
        transform_list json lib (transform_depth json lib 1) (Text.trim_dots k.child) fn
          (as_list v) in
      rw (k.complex, k.parts, transform_depth-plain json lib 0 doc k.parent items k.kept.simple)
        (transform_found-keeps IsItems k.parent doc false items (lib.get doc k.parent) k.kept tt
          (λ v.
            transform_list-IsItems json lib (transform_depth json lib 1) (Text.trim_dots k.child) fn
              (as_list v))
          i)

  transform_paths-keeps :
      (paths : List String) (doc : String) (stale : Bool) (fn : TransformFn)
      → All Kept paths
      → I doc
      → I (transform_paths json lib (transform_depth json lib 1) doc stale paths fn)
  unfolding transform_paths
  transform_paths-keeps [] doc stale fn k i = i
  transform_paths-keeps (path ∷ paths) doc stale fn (k, ks) i =
      transform_paths-keeps paths _ _ fn ks (transform_path-keeps path doc stale fn k i)

  pub transform-keeps :
      (doc : String) (paths : List String) (fn : TransformFn)
      → All Kept paths
      → I doc
      → I (transform json lib doc paths fn)
  unfolding transform transform_depth
  transform-keeps doc paths fn k i = transform_paths-keeps paths doc false fn k i
