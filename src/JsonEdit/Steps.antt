-- ===== src/JsonEdit/Steps.antt =====
-- One plain path through Transform and through Rename.
use assisted_events_stream.Prelude.{
  String, ◌≡◌, ◌≢◌, ◌∙◌, true, false, none, some, List, [], ◌∷◌, ◌++◌, ◌==◌, if◌then◌else◌,
}
use assisted_events_stream.Value.{
  Value, null, str, obj, Fields, lookup, insert, erase, lookup-erase,
}
use assisted_events_stream.Types.{Codec}
use assisted_events_stream.JsonEdit.{
  PathLib, TransformFn, is_complex_path, or_text, unpack, transform_found, transform, delete,
}
use assisted_events_stream.JsonEdit.Paths.{at, remove_at, is_plain, keys, IsLawful}
use assisted_events_stream.JsonEdit.Members.{at-append, at-put_at, at-remove_at}
use assisted_events_stream.JsonEdit.Depth.{transform_depth-plain}
use assisted_events_stream.JsonEdit.Rename.{rename}

-- A text that decodes, in which the keys `ks` lead to the object `m`.
abbrev pub Holds : Codec → List String → Fields → String → Type 0
Holds json ks m doc = (v : Value) × (json.unmarshal doc ≡ some v) × (at ks v ≡ some (obj m))

-- A path that is not complex and has plain keys, the last of which is `k`.
pub record IsMemberPath (ks : List String) (k path : String) : Type 0 where
  pub plain : is_plain path ≡ true
  pub simple : is_complex_path path ≡ false
  pub split_keys : keys path ≡ ks ++ k ∷ []

module _ (json : Codec) (lib : PathLib) (lawful : IsLawful json lib) where
  -- With a lawful gjson and sjson, Transform of one plain path replaces a member that is a text by
  -- what the function makes of the unpacked text, if it makes something, and keeps the rest of the
  -- member's object.
  pub transform-text :
      (ks : List String) (k path doc s : String) (m : Fields) (fn : TransformFn) (x : Value)
      → IsMemberPath ks k path
      → Holds json ks m doc
      → lookup k m ≡ some (str s)
      → fn (unpack json lib s) ≡ some x
      → Holds json ks (insert k x m) (transform json lib doc (path ∷ []) fn)
  unfolding transform transform_found
  transform-text ks k path doc s m fn x p (v, d, a) l f =
      let there : at (keys path) v ≡ some (str s) = rw p.split_keys (at-append ks k v m a ∙ l) in
      let got = lawful.get_text doc path v s p.plain d there in
      let (v', put, here) = at-put_at ks k x v m a in
      let (doc', set, d') = lawful.set_present doc path x v v' p.plain d (rw p.split_keys put) in
      rw (transform_depth-plain json lib 1 doc path fn p.simple, got, f, set) (v', d', here)

  -- With a lawful gjson and sjson, Rename of one plain path to another in the same object moves a
  -- member that is a text to its new key, unpacked if it decodes, and returns no error.
  pub rename-text :
      (ks : List String) (k k' src dst doc s : String) (m : Fields)
      → IsMemberPath ks k src
      → IsMemberPath ks k' dst
      → Holds json ks m doc
      → lookup k m ≡ some (str s)
      → (doc' : String) × (rename json lib doc ((src, dst) ∷ []) ≡ some (doc', none))
        × Holds json ks (erase k (insert k' (unpack json lib s) m)) doc'
  unfolding rename unpack
  rename-text ks k k' src dst doc s m p q (v, d, a) l =
      let there : at (keys src) v ≡ some (str s) = rw p.split_keys (at-append ks k v m a ∙ l) in
      let got = lawful.get_text doc src v s p.plain d there in
      let (v', put, here) = at-put_at ks k' (unpack json lib s) v m a in
      let (doc', set, d') =
        lawful.set_present doc dst (unpack json lib s) v v' q.plain d (rw q.split_keys put) in
      let (doc2, del, d2) = lawful.delete_lem doc' src v' p.plain d' in
      (
        doc2,
        rw (p.simple, got, set, del),
        (
          remove_at (keys src) v',
          d2,
          rw p.split_keys (at-remove_at ks k v' (insert k' (unpack json lib s) m) here),
        ),
      )

  -- So does a member of another kind, null apart, as it is.
  pub rename-raw :
      (ks : List String) (k k' src dst doc : String) (w : Value) (m : Fields)
      → IsMemberPath ks k src
      → IsMemberPath ks k' dst
      → Holds json ks m doc
      → lookup k m ≡ some w
      → w ≢ null
      → ((t : String) → w ≢ str t)
      → (doc' : String) × (rename json lib doc ((src, dst) ∷ []) ≡ some (doc', none))
        × Holds json ks (erase k (insert k' w m)) doc'
  unfolding rename or_text
  rename-raw ks k k' src dst doc w m p q (v, d, a) l not_null not_text =
      let there : at (keys src) v ≡ some w = rw p.split_keys (at-append ks k v m a ∙ l) in
      let (text, got, raw) = lawful.get_raw doc src v w p.plain d there not_null not_text in
      let (v', put, here) = at-put_at ks k' w v m a in
      let (doc', set, d') = lawful.set_present doc dst w v v' q.plain d (rw q.split_keys put) in
      let (doc2, del, d2) = lawful.delete_lem doc' src v' p.plain d' in
      (
        doc2,
        rw (p.simple, got, raw, set, del),
        (remove_at (keys src) v', d2, rw p.split_keys (at-remove_at ks k v' (insert k' w m) here)),
      )

  -- With a lawful gjson and sjson, Delete of one plain path takes the member out of its object, keeps
  -- every other member of that object, and returns no error, whether the member was there or not.
  delete-member :
      (ks : List String) (k path doc : String) (m : Fields)
      → IsMemberPath ks k path
      → Holds json ks m doc
      → (doc' : String) × (m' : Fields) × (delete json lib doc (path ∷ []) ≡ (doc', none))
        × Holds json ks m' doc'
        × ((j : String) → lookup j m' ≡ (if k == j then none else lookup j m))
  unfolding delete
  delete-member ks k path doc m p (v, d, a) =
      let (doc', del, d') = lawful.delete_lem doc path v p.plain d in
      (
        doc',
        erase k m,
        rw (p.simple, del),
        (remove_at (keys path) v, d', rw p.split_keys (at-remove_at ks k v m a)),
        λ j. lookup-erase j k m,
      )
