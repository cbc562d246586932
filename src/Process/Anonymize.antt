-- ===== src/Process/Anonymize.antt =====
-- What becomes of a sensitive text under a plain path.
use assisted_events_stream.Prelude.{
  String, ◌≡◌, ◌≢◌, refl, false, none, some, List, [], ◌∷◌, arith, ◌==◌, eq_refl, if◌then◌else◌,
}
use assisted_events_stream.Value.{
  Value, null, bool, num, str, arr, obj, Fields, lookup, insert, erase, lookup-insert, lookup-erase,
}
use assisted_events_stream.Types.{Codec}
use assisted_events_stream.JsonEdit.{PathLib, unpack, or_text, transform}
use assisted_events_stream.JsonEdit.Paths.{IsLawful}
use assisted_events_stream.JsonEdit.Steps.{
  Holds, IsMemberPath, transform-text, rename-text, rename-raw,
}
use assisted_events_stream.Process.{hash, anonymize_json}

lookup-moved :
    (j k k' : String) (x : Value) (m : Fields)
    → (k == k') ≡ false
    → lookup j (erase k (insert k' x (insert k x m)))
      ≡ (if k == j then none else if k' == j then some x else lookup j m)
lookup-moved j k k' x m ne =
    rw
      (
        lookup-erase j k (insert k' x (insert k x m)),
        lookup-insert j k' x (insert k x m),
        lookup-insert j k x m,
      )
      (ground arith)

hash-other :
    (md5_hex : String → String) (w : Value) → ((t : String) → w ≢ str t) → hash md5_hex w ≡ some w
unfolding hash
hash-other md5_hex null h = refl
hash-other md5_hex (bool b) h = refl
hash-other md5_hex (num n) h = refl
hash-other md5_hex (str t) h = absurd (h t refl)
hash-other md5_hex (arr vs) h = refl
hash-other md5_hex (obj m) h = refl

module _ (json : Codec) (lib : PathLib) (lawful : IsLawful json lib)
    (md5_hex : String → String) where
  -- With a lawful gjson and sjson, for two plain paths in one object: if the member `k` holds the text
  -- `s`, and neither `s` nor its digest is itself a JSON text, then `k` is gone, `k'` holds the
  -- digest, and every other member of the object stays.
  pub anonymize_json-hashes :
      (ks : List String) (k k' src dst doc s : String) (m : Fields)
      → IsMemberPath ks k src
      → IsMemberPath ks k' dst
      → (k == k') ≡ false
      → Holds json ks m doc
      → lookup k m ≡ some (str s)
      → json.unmarshal s ≡ none
      → json.unmarshal (md5_hex s) ≡ none
      → (doc' : String) × (m' : Fields) × (anonymize_json json lib md5_hex doc
            (src ∷ [])
            ((src, dst) ∷ [])
          ≡ some (doc', none))
        × Holds json ks m' doc'
        × ((j : String)
            → lookup j m'
              ≡ (if k == j then none else if k' == j then some (str (md5_hex s)) else lookup j m))
  unfolding anonymize_json hash unpack or_text
  anonymize_json-hashes ks k k' src dst doc s m p q ne h l plain digest =
      let h1 =
        transform-text json lib lawful ks k src doc s m (hash md5_hex) (str (md5_hex s)) p h l
          (rw plain) in
      let l1 : lookup k (insert k (str (md5_hex s)) m) ≡ some (str (md5_hex s)) =
        rw (lookup-insert k k (str (md5_hex s)) m, eq_refl k) in
      let (doc', renamed, held) =
        rename-text json lib lawful ks k k' src dst
          (transform json lib doc (src ∷ []) (hash md5_hex)) (md5_hex s)
          (insert k (str (md5_hex s)) m) p q h1 l1 in
      let e : unpack json lib (md5_hex s) ≡ str (md5_hex s) = rw digest in
      (
        doc',
        erase k (insert k' (str (md5_hex s)) (insert k (str (md5_hex s)) m)),
        renamed,
        rw e at held,
        λ j. lookup-moved j k k' (str (md5_hex s)) m ne,
      )

  -- With a lawful gjson and sjson, for two plain paths in one object: if the member `k` holds a text
  -- that is itself the JSON text of a value `w` that is neither null nor a text, a number for
  -- instance, then `k` is gone and `k'` holds `w`, not a digest.
  pub anonymize_json-leaves :
      (ks : List String) (k k' src dst doc s : String) (m : Fields) (w : Value)
      → IsMemberPath ks k src
      → IsMemberPath ks k' dst
      → (k == k') ≡ false
      → Holds json ks m doc
      → lookup k m ≡ some (str s)
      → json.unmarshal s ≡ some w
      → w ≢ null
      → ((t : String) → w ≢ str t)
      → (doc' : String) × (m' : Fields) × (anonymize_json json lib md5_hex doc
            (src ∷ [])
            ((src, dst) ∷ [])
          ≡ some (doc', none))
        × Holds json ks m' doc'
        × ((j : String)
            → lookup j m' ≡ (if k == j then none else if k' == j then some w else lookup j m))
  unfolding anonymize_json unpack or_text
  anonymize_json-leaves ks k k' src dst doc s m w p q ne h l decodes not_null not_text =
      let h1 =
        transform-text json lib lawful ks k src doc s m (hash md5_hex) w p h l
          (rw decodes (hash-other md5_hex w not_text)) in
      let l1 : lookup k (insert k w m) ≡ some w = rw (lookup-insert k k w m, eq_refl k) in
      let (doc', renamed, held) =
        rename-raw json lib lawful ks k k' src dst
          (transform json lib doc (src ∷ []) (hash md5_hex)) w (insert k w m) p q h1 l1 not_null
          not_text in
      (doc', erase k (insert k' w (insert k w m)), renamed, held, λ j. lookup-moved j k k' w m ne)
