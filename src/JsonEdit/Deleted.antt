-- ===== src/JsonEdit/Deleted.antt =====
-- pkg/jsonedit/delete.go: the paths one by one.
pub mod Items
use assisted_events_stream.Prelude.{
  String, ◌≡◌, refl, true, false, Option, none, some, List, [], ◌∷◌,
}
use assisted_events_stream.Value.{Value, as_list}
use assisted_events_stream.Types.{Codec}
use assisted_events_stream.Text
use assisted_events_stream.JsonEdit.{
  PathLib, is_complex_path, transform, transform_found, to_array, delete_children, delete_list,
  delete_from_parts, deleted, delete_path, go_on, delete,
}
use assisted_events_stream.JsonEdit.Depth.{transform_depth-plain}
use assisted_events_stream.JsonEdit.Invariants.{
  IsItems, IfAny, KeptAt, KeptAtItems, transform_found-keeps,
}

module _ (json : Codec) (lib : PathLib) where
  -- A path that is deleted hands its text to the rest.
  pub delete-simple :
      (doc doc' path : String) (paths : List String)
      → is_complex_path path ≡ false
      → lib.delete doc path ≡ some doc'
      → delete json lib doc (path ∷ paths) ≡ delete json lib doc' paths
  unfolding delete delete_path deleted go_on
  delete-simple doc doc' path paths simple e = rw (simple, e)

  delete_list-IsItems :
      (child : String) (o : Option (List Value)) → IfAny IsItems (delete_list json lib child o)
  unfolding delete_list to_array
  delete_list-IsItems child none = tt
  delete_list-IsItems child (some vs) = array (delete_children json lib child vs)
    where
      array : (o : Option (List Value)) → IfAny IsItems (to_array json lib o)
      array none = tt
      array (some items) = tt

  -- What deleting under a path with `[*]` makes of the text.
  pub without_children : String → String → String → String
  unfolding delete_list
  without_children doc parent child =
      (transform_found json lib doc false parent
        (λ v. delete_list json lib (Text.trim_dots child) (as_list v)) (lib.get doc parent)).0

  pub delete-complex :
      (doc path parent child : String) (paths : List String)
      → is_complex_path path ≡ true
      → Text.split path "[*]" ≡ parent ∷ child ∷ []
      → is_complex_path parent ≡ false
      → delete json lib doc (path ∷ paths)
        ≡ delete json lib (without_children doc parent child) paths
  unfolding delete delete_path delete_from_parts go_on without_children transform
  delete-complex doc path parent child paths complex parts simple = rw (
    complex,
    parts,
    transform_depth-plain json lib 1 doc parent
        (λ (v : Value). delete_list json lib (Text.trim_dots child) (as_list v)) simple,
  )

  pub without_children-keeps :
      (I : String → Type 0) (doc parent child : String)
      → KeptAt json lib I IsItems parent
      → I doc
      → I (without_children doc parent child)
  unfolding without_children
  without_children-keeps I doc parent child k i =
      transform_found-keeps json lib I IsItems parent doc false _ (lib.get doc parent) k tt
        (λ v. delete_list-IsItems (Text.trim_dots child) (as_list v)) i
