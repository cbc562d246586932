-- ===== src/Tests/Paths.antt =====
-- Runs of the theorems on the paths of a JSON text.
use assisted_events_stream.Prelude.{
  String, ◌≡◌, true, false, inl, ◌≢◌, refl, none, some, [], ◌∷◌, if◌then◌else◌, ◌==◌, ◌<>◌,
}
use assisted_events_stream.Value.{null, num, str, obj, Fields, end, field, lookup}
use assisted_events_stream.Text
use assisted_events_stream.JsonEdit.{transform, transform_depth, is_complex_path}
use assisted_events_stream.JsonEdit.Paths.{at, is_plain}
use assisted_events_stream.JsonEdit.Depth.{transform_depth-enough}
use assisted_events_stream.JsonEdit.Steps.{Holds, IsMemberPath}
use assisted_events_stream.JsonEdit.Rename.{rename, rename_depth}
use assisted_events_stream.JsonEdit.Rename.Depth.{rename_depth-enough}
use assisted_events_stream.JsonEdit.Rename.Panics.{IsUnlisted, rename-panics_iff}
use assisted_events_stream.Process.{anonymize_json}
use assisted_events_stream.Process.Anonymize.{anonymize_json-hashes, anonymize_json-leaves}
use assisted_events_stream.Tests.Codec.{codec, marshal, unmarshal, unmarshal-marshal}
use assisted_events_stream.Tests.Parts.{paths, paths-IsLawful}

abbrev to_cluster : String → Fields
to_cluster name = field "user_name" (str name) (field "id" (str "c") end)

abbrev to_doc : String → String
to_doc name = marshal (obj (field "cluster" (obj (to_cluster name)) end))

held : (name : String) → Holds codec ("cluster" ∷ []) (to_cluster name) (to_doc name)
unfolding at lookup
held name = (obj (field "cluster" (obj (to_cluster name)) end), unmarshal-marshal _, refl)

user_name-IsMemberPath : IsMemberPath ("cluster" ∷ []) "user_name" "cluster.user_name"
unfolding is_plain is_complex_path Text.contains Text.split Text.has_prefix
user_name-IsMemberPath = record { plain = refl; simple = refl; split_keys = refl }

user_id-IsMemberPath : IsMemberPath ("cluster" ∷ []) "user_id" "cluster.user_id"
unfolding is_plain is_complex_path Text.contains Text.split Text.has_prefix
user_id-IsMemberPath = record { plain = refl; simple = refl; split_keys = refl }

name_at : (name : String) → lookup "user_name" (to_cluster name) ≡ some (str name)
unfolding lookup
name_at name = refl

not_decoded : unmarshal "bob" ≡ none
unfolding unmarshal
not_decoded = refl

digest_not_decoded : unmarshal "d_bob" ≡ none
unfolding unmarshal
digest_not_decoded = refl

transform_depth-enough_example :
    transform_depth codec paths 5 (to_doc "bob") ("cluster.hosts[*].inventory" ∷ []) some
    ≡ transform codec paths (to_doc "bob") ("cluster.hosts[*].inventory" ∷ []) some
transform_depth-enough_example =
    transform_depth-enough codec paths 3 (to_doc "bob") ("cluster.hosts[*].inventory" ∷ []) some

rename_depth-enough_example :
    rename_depth codec paths 5 (to_doc "bob") (("cluster.user_name", "cluster.user_id") ∷ [])
    ≡ rename codec paths (to_doc "bob") (("cluster.user_name", "cluster.user_id") ∷ [])
rename_depth-enough_example =
    rename_depth-enough codec paths 3 (to_doc "bob") (("cluster.user_name", "cluster.user_id") ∷ [])

anonymize_json-hashes_example :
    (doc' : String) × (m' : Fields) × (anonymize_json codec paths
        (λ s. "d_" <> s)
        (to_doc "bob")
        ("cluster.user_name" ∷ [])
        (("cluster.user_name", "cluster.user_id") ∷ [])
      ≡ some (doc', none))
    × Holds codec ("cluster" ∷ []) m' doc'
    × ((j : String)
        → lookup j m' ≡ (
            if "user_name" == j
            then none
            else if "user_id" == j
            then some (str ("d_" <> "bob"))
            else lookup j (to_cluster "bob")))
anonymize_json-hashes_example =
    anonymize_json-hashes codec paths paths-IsLawful (λ s. "d_" <> s) ("cluster" ∷ []) "user_name"
      "user_id" "cluster.user_name" "cluster.user_id" (to_doc "bob") "bob" (to_cluster "bob")
      user_name-IsMemberPath user_id-IsMemberPath refl (held "bob") (name_at "bob") not_decoded
      digest_not_decoded

abbrev number : String
number = marshal (num 7)

anonymize_json-leaves_example :
    (doc' : String) × (m' : Fields) × (anonymize_json codec paths
        (λ s. "d_" <> s)
        (to_doc number)
        ("cluster.user_name" ∷ [])
        (("cluster.user_name", "cluster.user_id") ∷ [])
      ≡ some (doc', none))
    × Holds codec ("cluster" ∷ []) m' doc'
    × ((j : String)
        → lookup j m' ≡ (
            if "user_name" == j
            then none
            else if "user_id" == j
            then some (num 7)
            else lookup j (to_cluster number)))
anonymize_json-leaves_example =
    anonymize_json-leaves codec paths paths-IsLawful (λ s. "d_" <> s) ("cluster" ∷ []) "user_name"
      "user_id" "cluster.user_name" "cluster.user_id" (to_doc number) number (to_cluster number)
      (num 7) user_name-IsMemberPath user_id-IsMemberPath refl (held number) (name_at number)
      (unmarshal-marshal (num 7)) num-ne-null num-ne-str
  where
    num-ne-null : num 7 ≢ null
    num-ne-null h = cc

    num-ne-str : (t : String) → num 7 ≢ str t
    num-ne-str t h = cc

-- a list of hosts that is a text, and that text is a number
abbrev odd_doc : String
odd_doc = marshal (obj (field "hosts" (str number) end))

hosts-plain : is_plain "hosts" ≡ true
unfolding is_plain Text.split Text.has_prefix
hosts-plain = refl

hosts_at : at (Text.split "hosts" ".") (obj (field "hosts" (str number) end)) ≡ some (str number)
unfolding at Text.split Text.has_prefix lookup
hosts_at = refl

hosts-IsComplex : is_complex_path "hosts[*].a" ≡ true
unfolding is_complex_path Text.contains Text.has_prefix
hosts-IsComplex = refl

hosts-IsUnlisted :
    IsUnlisted codec paths odd_doc (Text.split "hosts[*].a" "[*]") (Text.split "hosts[*].b" "[*]")
unfolding Text.split Text.has_prefix
hosts-IsUnlisted = record {
  parent = "hosts";
  src = ".a";
  dst = ".b";
  src_parts = refl;
  dst_parts = refl;
  found = record { is_null = false; text = number };
  there =
      paths-IsLawful.get_text odd_doc "hosts" (obj (field "hosts" (str number) end)) number
        hosts-plain (unmarshal-marshal _) hosts_at;
  value = num 7;
  decodes = unmarshal-marshal (num 7);
  no_list = refl;
}

rename-panics_iff_example : rename codec paths odd_doc (("hosts[*].a", "hosts[*].b") ∷ []) ≡ none
rename-panics_iff_example =
    (rename-panics_iff codec paths odd_doc (("hosts[*].a", "hosts[*].b") ∷ [])).1
      (inl (hosts-IsComplex, hosts-IsUnlisted))
