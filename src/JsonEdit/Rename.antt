-- ===== src/JsonEdit/Rename.antt =====
-- pkg/jsonedit/rename.go. The paths are listed in the order in which the map is visited.
pub mod Depth
pub mod Invariants
pub mod Moved
pub mod Panics
pub mod Returns
use assisted_events_stream.Prelude.{
  ℕ, zero, suc, String, Bool, true, false, Option, none, some, List, [], ◌∷◌, ◌==◌, if◌then◌else◌,
}
use assisted_events_stream.Value.{Value, null, str, arr, as_list, from_list}
use assisted_events_stream.Types.{Codec, Error, failed}
use assisted_events_stream.Text
use assisted_events_stream.JsonEdit.{Found, PathLib, is_complex_path, or_text, or_same}

-- How Rename ends: with a text and an error that may be nil, or by the panic of a failed type
-- assertion (`none`).
abbrev pub Renamed : Type 0
Renamed = Option (String × Option Error)

abbrev pub Renamer : Type 0
Renamer = String → List (String × String) → Renamed

module _ (json : Codec) (lib : PathLib) where
  -- A child whose Rename fails is left out.
  add_renamed : String → Renamed → Option (List Value) → Option (List Value)
  add_renamed raw none rest = none
  add_renamed raw (some (doc, some e)) rest = rest
  add_renamed raw (some (doc, none)) none = none
  add_renamed raw (some (doc, none)) (some items) = some (or_text raw (json.unmarshal doc) ∷ items)

  pub rename_children : Renamer → String → String → String → List Value → Option (List Value)
  unfolding add_renamed
  rename_children rec raw src dst [] = some []
  rename_children rec raw src dst (v ∷ vs) =
      add_renamed raw (rec (json.marshal v) ((src, dst) ∷ [])) (rename_children rec raw src dst vs)

  pub set_items : String → String → Option (List Value) → Renamed
  set_items doc parent none = none
  set_items doc parent (some items) =
      some (or_same doc (lib.set doc parent (arr (from_list items))), none)

  -- `unpacked.([]interface{})` is not checked
  rename_elements :
      Renamer → String → String → String → String → String → Option (List Value) → Renamed
  unfolding rename_children set_items
  rename_elements rec doc parent raw src dst none = none
  rename_elements rec doc parent raw src dst (some vs) =
      set_items doc parent (rename_children rec raw src dst vs)

  rename_unpacked : Renamer → String → String → String → String → String → Option Value → Renamed
  unfolding rename_elements
  rename_unpacked rec doc parent raw src dst none = some (doc, none)
  rename_unpacked rec doc parent raw src dst (some v) =
      rename_elements rec doc parent raw src dst (as_list v)

  rename_parent : Renamer → String → String → String → String → Option Found → Renamed
  unfolding rename_unpacked
  rename_parent rec doc parent src dst none = some (doc, none)
  rename_parent rec doc parent src dst (some found) =
      rename_unpacked rec doc parent found.text src dst (json.unmarshal found.text)

  -- A complex path, by the parts of its source and destination.
  rename_from_parts : Renamer → String → List String → List String → Renamed
  unfolding rename_parent
  rename_from_parts rec doc (parent ∷ src ∷ []) (dst_parent ∷ dst ∷ []) =
      if parent == dst_parent
      then rename_parent rec doc parent (Text.trim_dots src) (Text.trim_dots dst)
          (lib.get doc parent)
      else some (doc, none)
  rename_from_parts rec doc _ _ = some (doc, none)

  -- the source is deleted from what Set returned; if that fails, the text before Set is returned
  delete_source : String → Option String → Renamed
  delete_source doc none = some (doc, some (failed "sjson"))
  delete_source doc (some doc') = some (doc', none)

  after_set : String → String → Option String → Renamed
  unfolding delete_source
  after_set doc src none = some (doc, none)
  after_set doc src (some doc') = delete_source doc (lib.delete doc' src)

  pub rename_found : String → String → String → Option Found → Renamed
  unfolding after_set or_text
  rename_found doc src dst none = some (doc, none)
  rename_found doc src dst (some found) =
      after_set doc src (lib.set doc dst (or_text found.text (json.unmarshal found.text)))

  pub rename_path : Renamer → String → String → String → Renamed
  unfolding rename_from_parts rename_found
  rename_path rec doc src dst =
      if is_complex_path src
      then rename_from_parts rec doc (Text.split src "[*]") (Text.split dst "[*]")
      else rename_found doc src dst (lib.get doc src)

  rename_next : Renamed → (String → Renamed) → Renamed
  rename_next none next = none
  rename_next (some (doc, some e)) next = some (doc, some e)
  rename_next (some (doc, none)) next = next doc

  pub rename_paths : Renamer → String → List (String × String) → Renamed
  unfolding rename_path rename_next
  rename_paths rec doc [] = some (doc, none)
  rename_paths rec doc ((src, dst) ∷ paths) =
      rename_next (rename_path rec doc src dst) λ doc'. rename_paths rec doc' paths

  -- `Rename`, to a depth of nested calls.
  pub rename_depth : ℕ → Renamer
  unfolding rename_paths
  rename_depth zero doc paths = some (doc, none)
  rename_depth (suc n) doc paths = rename_paths (rename_depth n) doc paths

  unfoldable pub rename : Renamer
  unfolding rename_depth
  rename = rename_depth 2
