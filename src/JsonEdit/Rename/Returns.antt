-- ===== src/JsonEdit/Rename/Returns.antt =====
-- pkg/jsonedit/rename.go: the parts of Rename that never panic.
use assisted_events_stream.Prelude.{
  String, ◌≡◌, ◌≢◌, refl, false, Option, none, some, List, [], ◌∷◌,
}
use assisted_events_stream.Value.{Value}
use assisted_events_stream.Types.{Codec}
use assisted_events_stream.JsonEdit.{PathLib, Found, is_complex_path}
use assisted_events_stream.JsonEdit.Rename.{
  Renamed, add_renamed, rename_children, set_items, delete_source, after_set, rename_found,
  rename_path, rename_next, rename_paths, rename_depth,
}

module _ (json : Codec) (lib : PathLib) where
  after_set-returns : (doc src : String) (o : Option String) → after_set json lib doc src o ≢ none
  unfolding after_set
  after_set-returns doc src none h = cc
  after_set-returns doc src (some doc') h = deleted (lib.delete doc' src) h
    where
      deleted : (o : Option String) → delete_source json lib doc o ≢ none
      deleted none h' = cc
      deleted (some d) h' = cc

  pub rename_found-returns :
      (doc src dst : String) (o : Option Found) → rename_found json lib doc src dst o ≢ none
  unfolding rename_found
  rename_found-returns doc src dst none h = cc
  rename_found-returns doc src dst (some found) h = after_set-returns doc src _ h

  next-returns : (r : Renamed) → r ≢ none → rename_next json lib r (λ d. some (d, none)) ≢ none
  unfolding rename_next
  next-returns none n h = n refl
  next-returns (some (d, none)) n h = cc
  next-returns (some (d, some e)) n h = cc

  child-returns :
      (doc src dst : String)
      → is_complex_path src ≡ false
      → rename_depth json lib 1 doc ((src, dst) ∷ []) ≢ none
  unfolding rename_depth rename_paths rename_path
  child-returns doc src dst plain h =
      next-returns _ (rename_found-returns doc src dst (lib.get doc src)) (rw plain at h)

  pub children-return :
      (raw src dst : String) (vs : List Value)
      → is_complex_path src ≡ false
      → rename_children json lib (rename_depth json lib 1) raw src dst vs ≢ none
  unfolding rename_children
  children-return raw src dst [] plain h = cc
  children-return raw src dst (v ∷ vs) plain h =
      added (rename_depth json lib 1 (json.marshal v) ((src, dst) ∷ [])) _
        (child-returns (json.marshal v) src dst plain) (children-return raw src dst vs plain) h
    where
      added :
          (r : Renamed) (rest : Option (List Value))
          → r ≢ none
          → rest ≢ none
          → add_renamed json lib raw r rest ≢ none
      added none rest n k h' = n refl
      added (some (d, some e)) rest n k h' = k h'
      added (some (d, none)) none n k h' = k refl
      added (some (d, none)) (some items) n k h' = cc

  pub items-returned :
      (doc parent : String) (o : Option (List Value))
      → o ≢ none
      → set_items json lib doc parent o ≢ none
  unfolding set_items
  items-returned doc parent none n h = n refl
  items-returned doc parent (some items) n h = cc
