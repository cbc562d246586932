-- ===== src/JsonEdit/Deleted/Items.antt =====
-- The children of a list after one of their members is deleted.
use assisted_events_stream.Prelude.{
  String, ◌≡◌, refl, true, false, none, some, List, [], ◌∷◌, eq_refl,
}
use assisted_events_stream.Value.{
  Value, null, bool, num, str, obj, arr, Items, nil, cons, lookup-erase, as_list, to_list,
  from_list,
}
use assisted_events_stream.Types.{Codec}
use assisted_events_stream.Text
use assisted_events_stream.JsonEdit.{
  PathLib, to_array, deleted_item, add_deleted, delete_children, delete_list, transform_found,
  set_item, unpack, or_text, or_same,
}
use assisted_events_stream.JsonEdit.Deleted.{without_children}
use assisted_events_stream.JsonEdit.Paths.{
  IsLawful, member, without_member, remove_at, is_plain, keys,
}

-- No element is an object with the member.
abbrev pub ItemsLack : String → Items → Type 0
ItemsLack key nil = Unit
ItemsLack key (cons v vs) = (member key v ≡ none) × ItemsLack key vs

member-without : (key : String) (v : Value) → member key (without_member key v) ≡ none
member-without key (obj m) = rw (lookup-erase key key m, eq_refl key)
member-without key null = refl
member-without key (bool b) = refl
member-without key (num n) = refl
member-without key (str s) = refl
member-without key (arr vs) = refl

module _ (json : Codec) (lib : PathLib) (lawful : IsLawful json lib) (key child : String)
    (plain : is_plain child ≡ true) (split_keys : keys child ≡ key ∷ []) where
  delete_children-lack :
      (vs : List Value)
      → (items : List Value) × (delete_children json lib child vs ≡ some items)
        × ItemsLack key (from_list items)
  unfolding delete_children deleted_item add_deleted remove_at
  delete_children-lack [] = ([], refl, tt)
  delete_children-lack (v ∷ vs) =
      let (items, e, lack) = delete_children-lack vs in
      let (doc, d, u) =
        lawful.delete_lem (json.marshal v) child v plain (json.unmarshal-marshal v) in
      let gone : json.unmarshal doc ≡ some (without_member key v) = rw split_keys at u in
      (without_member key v ∷ items, rw (e, d, gone), (member-without key v, lack))

  pub delete_list-lack :
      (vs : Items)
      → (items : Items) × (delete_list json lib child (as_list (arr vs)) ≡ some (arr items))
        × ItemsLack key items
  unfolding delete_list to_array
  delete_list-lack vs =
      let (items, e, lack) = delete_children-lack (to_list vs) in (from_list items, rw e, lack)

module _ (json : Codec) (lib : PathLib) (doc parent child : String) where
  pub without_children-missing :
      lib.get doc parent ≡ none → without_children json lib doc parent child ≡ doc
  unfolding without_children transform_found
  without_children-missing e = rw (without_children, e) refl

  pub without_children-null :
      (text : String)
      → lib.get doc parent ≡ some (record { is_null = true; text = text })
      → without_children json lib doc parent child ≡ or_same doc (lib.set doc parent null)
  unfolding without_children transform_found set_item
  without_children-null text e = rw (without_children, e) refl

  -- The elements of a list lose the member.
  pub without_children-list :
      (lawful : IsLawful json lib) (key text : String) (vs : Items)
      → is_plain (Text.trim_dots child) ≡ true
      → keys (Text.trim_dots child) ≡ key ∷ []
      → lib.get doc parent ≡ some (record { is_null = false; text = text })
      → json.unmarshal text ≡ some (arr vs)
      → (items : Items) × (without_children json lib doc parent child
          ≡ or_same doc (lib.set doc parent (arr items)))
        × ItemsLack key items
  unfolding without_children transform_found set_item unpack or_text
  without_children-list lawful key text vs plain split_keys e u =
      let (items, d, lack) =
        delete_list-lack json lib lawful key (Text.trim_dots child) plain split_keys vs in
      (items, rw (without_children, e, u, d) refl, lack)
