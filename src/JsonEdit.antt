-- ===== src/JsonEdit.antt =====
-- pkg/jsonedit: changing what stands under paths of a JSON text. gjson and sjson, which read and
-- write one path, are the parameter `PathLib`.
pub mod Rename
pub mod Paths
pub mod Members
pub mod Depth
pub mod Steps
pub mod Invariants
pub mod Deleted
use assisted_events_stream.Prelude.{
  ℕ, zero, suc, String, Bool, true, false, Option, none, some, List, [], ◌∷◌, ◌==◌, if◌then◌else◌,
}
use assisted_events_stream.Value.{Value, null, str, arr, as_list, from_list}
use assisted_events_stream.Types.{Codec, Error, failed}
use assisted_events_stream.Text

-- A `gjson.Result` that exists: whether `Value()` is nil, and `String()`.
pub record Found : Type 0 where
  pub is_null : Bool
  pub text : String

-- gjson.Get, sjson.Set and sjson.Delete; `none` is a result that does not exist, or an error.
pub record PathLib : Type 0 where
  pub get : String → String → Option Found
  pub set : String → String → Value → Option String
  pub delete : String → String → Option String

unfoldable pub is_complex_path : String → Bool
is_complex_path path = Text.contains "[*]" path

-- The function that Transform applies to an unpacked value; `none` is an error.
abbrev pub TransformFn : Type 0
TransformFn = Value → Option Value

-- What Transform calls for the parent and for each child of a complex path.
abbrev pub Transformer : Type 0
Transformer = String → List String → TransformFn → String

unfoldable pub or_text : String → Option Value → Value
or_text text none = str text
or_text text (some v) = v

abbrev pub add_item : Option Value → List Value → List Value
add_item none rest = rest
add_item (some item) rest = item ∷ rest

unfoldable pub or_same : String → Option String → String
or_same doc none = doc
or_same doc (some doc') = doc'

module _ (json : Codec) (lib : PathLib) where
  -- `json.Unmarshal([]byte(text), &unpacked)`, or the text itself if that fails
  unfoldable pub unpack : String → Value
  unfolding or_text
  unpack text = or_text text (json.unmarshal text)

  -- One round of Transform for a path that is not complex: the text and whether `err` is set, which
  -- a null under a later path finds as it was left.
  set_item : String → String → Option Value → String × Bool
  unfolding or_same
  set_item doc path none = (doc, true)
  set_item doc path (some item) = (or_same doc (lib.set doc path item), false)

  unfoldable pub transform_found :
      String → Bool → String → TransformFn → Option Found → String × Bool
  unfolding set_item unpack
  transform_found doc stale path fn none = (doc, stale)
  transform_found doc stale path fn (some found) =
      set_item doc path
        (if found.is_null then (if stale then none else some null) else fn (unpack found.text))

  -- `transformChildrenFn` on the elements: one that does not decode again is left out.
  transform_children : Transformer → String → TransformFn → List Value → List Value
  transform_children rec child fn [] = []
  transform_children rec child fn (v ∷ vs) =
      add_item (json.unmarshal (rec (json.marshal v) (child ∷ []) fn))
        (transform_children rec child fn vs)

  transform_list : Transformer → String → TransformFn → Option (List Value) → Option Value
  unfolding transform_children
  transform_list rec child fn none = none
  transform_list rec child fn (some vs) =
      some (arr (from_list (transform_children rec child fn vs)))

  -- `transformFromComplexPath`; the error for a path with another number of parts is dropped by its
  -- caller
  transform_from_parts : Transformer → String → TransformFn → List String → String
  unfolding transform_list
  transform_from_parts rec doc fn (parent ∷ child ∷ []) =
      rec doc (parent ∷ []) (λ v. transform_list rec (Text.trim_dots child) fn (as_list v))
  transform_from_parts rec doc fn _ = doc

  transform_path : Transformer → String → Bool → String → TransformFn → String × Bool
  unfolding transform_found transform_from_parts
  transform_path rec doc stale path fn =
      if is_complex_path path
      then (transform_from_parts rec doc fn (Text.split path "[*]"), stale)
      else transform_found doc stale path fn (lib.get doc path)

  transform_paths : Transformer → String → Bool → List String → TransformFn → String
  unfolding transform_path
  transform_paths rec doc stale [] fn = doc
  transform_paths rec doc stale (path ∷ paths) fn =
      let (doc', stale') = transform_path rec doc stale path fn in
      transform_paths rec doc' stale' paths fn

  -- `Transform`, to a depth of nested calls; its error is always nil.
  pub transform_depth : ℕ → Transformer
  unfolding transform_paths
  transform_depth zero doc paths fn = doc
  transform_depth (suc n) doc paths fn = transform_paths (transform_depth n) doc false paths fn

  unfoldable pub transform : Transformer
  unfolding transform_depth
  transform = transform_depth 2

  -- `deleteChild` on the elements: the first failure ends it.
  deleted_item : Option String → Option Value
  deleted_item none = none
  deleted_item (some doc) = json.unmarshal doc

  add_deleted : Option Value → Option (List Value) → Option (List Value)
  add_deleted (some item) (some items) = some (item ∷ items)
  add_deleted _ _ = none

  delete_children : String → List Value → Option (List Value)
  unfolding deleted_item add_deleted
  delete_children child [] = some []
  delete_children child (v ∷ vs) =
      add_deleted (deleted_item (lib.delete (json.marshal v) child)) (delete_children child vs)

  to_array : Option (List Value) → Option Value
  to_array none = none
  to_array (some items) = some (arr (from_list items))

  pub delete_list : String → Option (List Value) → Option Value
  unfolding delete_children to_array
  delete_list child none = none
  delete_list child (some vs) = to_array (delete_children child vs)

  -- `deleteFromComplexPath`
  delete_from_parts : String → List String → String × Option Error
  unfolding delete_list transform
  delete_from_parts doc (parent ∷ child ∷ []) =
      (transform doc (parent ∷ []) (λ v. delete_list (Text.trim_dots child) (as_list v)), none)
  delete_from_parts doc _ = (doc, some (failed "complexPath is not supported"))

  deleted : String → Option String → String × Option Error
  deleted doc none = (doc, some (failed "sjson"))
  deleted doc (some doc') = (doc', none)

  delete_path : String → String → String × Option Error
  unfolding delete_from_parts deleted
  delete_path doc path =
      if is_complex_path path
      then delete_from_parts doc (Text.split path "[*]")
      else deleted doc (lib.delete doc path)

  go_on : String × Option Error → (String → String × Option Error) → String × Option Error
  go_on (doc, none) next = next doc
  go_on (doc, some e) next = (doc, some e)

  -- `Delete`
  unfoldable pub delete : String → List String → String × Option Error
  unfolding delete_path go_on
  delete doc [] = (doc, none)
  delete doc (path ∷ paths) = go_on (delete_path doc path) λ doc'. delete doc' paths
