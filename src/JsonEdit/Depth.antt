-- ===== src/JsonEdit/Depth.antt =====
-- Two levels of nested calls are all that Transform and Rename make.
use assisted_events_stream.Prelude.{
  ℕ, suc, String, ◌≡◌, refl, ap, Bool, false, Option, none, some, List, [], ◌∷◌,
}
use mathlib.Core.Path.{fun_ext}
use assisted_events_stream.Value.{Value, as_list}
use assisted_events_stream.Types.{Codec}
use assisted_events_stream.Text
use assisted_events_stream.Text.Parts.{NoneContains, split-NoneContains, contains-trim_dots}
use assisted_events_stream.JsonEdit.{
  PathLib, TransformFn, Transformer, is_complex_path, transform_children, transform_list,
  transform_found, transform_from_parts, transform_path, transform_paths, transform_depth,
  transform,
}

module _ (json : Codec) (lib : PathLib) where
  transform_path-plain :
      (rec : Transformer) (doc : String) (stale : Bool) (path : String) (fn : TransformFn)
      → is_complex_path path ≡ false
      → transform_path json lib rec doc stale path fn
        ≡ transform_found json lib doc stale path fn (lib.get doc path)
  unfolding transform_path
  transform_path-plain rec doc stale path fn h = rw h

  -- For a path that is not complex nothing is called.
  pub transform_depth-plain :
      (n : ℕ) (doc path : String) (fn : TransformFn)
      → is_complex_path path ≡ false
      → transform_depth json lib (suc n) doc (path ∷ []) fn
        ≡ (transform_found json lib doc false path fn (lib.get doc path)).0
  unfolding transform_depth transform_paths
  transform_depth-plain n doc path fn h =
      ap (λ (r : String × Bool). r.0)
        (transform_path-plain (transform_depth json lib n) doc false path fn h)

  transform_children-depth :
      (n : ℕ) (child : String) (fn : TransformFn) (vs : List Value)
      → is_complex_path child ≡ false
      → transform_children json lib (transform_depth json lib (suc n)) child fn vs
        ≡ transform_children json lib (transform_depth json lib 1) child fn vs
  unfolding transform_children
  transform_children-depth n child fn [] h = refl
  transform_children-depth n child fn (v ∷ vs) h = rw (
    transform_depth-plain n (json.marshal v) child fn h,
    transform_depth-plain 0 (json.marshal v) child fn h,
    transform_children-depth n child fn vs h,
  )

  transform_list-depth :
      (n : ℕ) (child : String) (fn : TransformFn) (o : Option (List Value))
      → is_complex_path child ≡ false
      → transform_list json lib (transform_depth json lib (suc n)) child fn o
        ≡ transform_list json lib (transform_depth json lib 1) child fn o
  unfolding transform_list
  transform_list-depth n child fn none h = refl
  transform_list-depth n child fn (some vs) h = rw (transform_children-depth n child fn vs h)

  transform_from_parts-depth :
      (n : ℕ) (doc : String) (fn : TransformFn) (parts : List String)
      → NoneContains "[*]" parts
      → transform_from_parts json lib (transform_depth json lib (suc n)) doc fn parts
        ≡ transform_from_parts json lib (transform_depth json lib 1) doc fn parts
  unfolding transform_from_parts is_complex_path Text.has_prefix
  transform_from_parts-depth n doc fn (parent ∷ child ∷ []) h =
      let same =
        fun_ext
          {f = λ v.
            transform_list json lib (transform_depth json lib (suc n)) (Text.trim_dots child) fn
              (as_list v)}
          λ v.
            transform_list-depth n (Text.trim_dots child) fn (as_list v)
              (contains-trim_dots "[*]" child refl h.1.0) in
      rw (transform_depth-plain n doc parent _ h.0, transform_depth-plain 0 doc parent _ h.0)
        (ap
          (λ (g : TransformFn).
            (transform_found json lib doc false parent g (lib.get doc parent)).0)
          same)
  transform_from_parts-depth n doc fn [] h = refl
  transform_from_parts-depth n doc fn (p ∷ []) h = refl
  transform_from_parts-depth n doc fn (p ∷ q ∷ r ∷ parts) h = refl

  transform_path-depth :
      (n : ℕ) (doc : String) (stale : Bool) (path : String) (fn : TransformFn)
      → transform_path json lib (transform_depth json lib (suc n)) doc stale path fn
        ≡ transform_path json lib (transform_depth json lib 1) doc stale path fn
  unfolding transform_path Text.has_prefix
  transform_path-depth n doc stale path fn = rw (
      transform_from_parts-depth n doc fn (Text.split path "[*]")
        (split-NoneContains path "[*]" refl))

  transform_paths-depth :
      (n : ℕ) (doc : String) (stale : Bool) (paths : List String) (fn : TransformFn)
      → transform_paths json lib (transform_depth json lib (suc n)) doc stale paths fn
        ≡ transform_paths json lib (transform_depth json lib 1) doc stale paths fn
  unfolding transform_paths
  transform_paths-depth n doc stale [] fn = refl
  transform_paths-depth n doc stale (path ∷ paths) fn =
      rw (transform_path-depth n doc stale path fn) (
        transform_paths-depth n
          (transform_path json lib (transform_depth json lib 1) doc stale path fn).0
          (transform_path json lib (transform_depth json lib 1) doc stale path fn).1 paths fn)

  -- Any deeper bound on the nested calls of Transform gives what the depth 2 gives: the calls never
  -- go deeper.
  pub transform_depth-enough :
      (n : ℕ) (doc : String) (paths : List String) (fn : TransformFn)
      → transform_depth json lib (suc (suc n)) doc paths fn ≡ transform json lib doc paths fn
  unfolding transform transform_depth
  transform_depth-enough n doc paths fn = transform_paths-depth n doc false paths fn
