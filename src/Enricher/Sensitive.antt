-- ===== src/Enricher/Sensitive.antt =====
-- internal/projection/process/default_fields.go: the paths that are renamed, and what is kept by it.
use assisted_events_stream.Prelude.{
  String, ◌≡◌, refl, inl, inr, true, false, none, List, [], ◌∷◌, All,
}
use assisted_events_stream.Types.{Codec}
use assisted_events_stream.Text
use assisted_events_stream.JsonEdit.{PathLib, is_complex_path}
use assisted_events_stream.JsonEdit.Paths.{IsLawful, is_plain}
use assisted_events_stream.JsonEdit.Rename.Invariants.{KeptRename}
use assisted_events_stream.Process.{get_default_fields_to_anonymize}
use assisted_events_stream.Enricher.Lists.{IsNoneOf}
use assisted_events_stream.Enricher.Documents.{
  IsFine, IsClusterPath, cluster_path-KeptAt, delete-cluster_path_kept,
}
use assisted_events_stream.Enricher.Safety.{
  IsListPath, readable, hosts-IsListPath, infra_envs-IsListPath,
}

pub user_name_path : IsClusterPath "user_name" "cluster.user_name"
unfolding is_complex_path is_plain Text.contains Text.split Text.has_prefix
user_name_path = record { plain = refl; simple = refl; split_keys = refl; not_hosts = refl }

pub user_id_path : IsClusterPath "user_id" "cluster.user_id"
unfolding is_complex_path is_plain Text.contains Text.split Text.has_prefix
user_id_path = record { plain = refl; simple = refl; split_keys = refl; not_hosts = refl }

module _ (json : Codec) (lib : PathLib) (lawful : IsLawful json lib)
    (empty_invalid : json.unmarshal "" ≡ none) (lacked : List String)
    (no_hosts : IsNoneOf lacked "hosts") (no_user_id : IsNoneOf lacked "user_id") where
  abbrev IsKeptPair : String × String → Type 0
  IsKeptPair p = KeptRename json lib (IsFine json lacked) p

  items-IsKeptPair :
      (src dst parent src_child dst_child : String)
      → is_complex_path src ≡ true
      → Text.split src "[*]" ≡ parent ∷ src_child ∷ []
      → Text.split dst "[*]" ≡ parent ∷ dst_child ∷ []
      → is_complex_path (Text.trim_dots src_child) ≡ false
      → IsListPath json lib lawful empty_invalid lacked parent
      → IsKeptPair (src, dst)
  items-IsKeptPair src dst parent src_child dst_child c s t simple p = inr (record {
    complex = c;
    parent = parent;
    src_child = src_child;
    dst_child = dst_child;
    src_parts = s;
    dst_parts = t;
    simple = simple;
    kept = p.kept;
    readable = λ doc found v. readable json lib lawful empty_invalid lacked parent doc found v p;
  })

  user_name-IsKeptPair : IsKeptPair ("cluster.user_name", "cluster.user_id")
  user_name-IsKeptPair = inl (record {
    simple = user_name_path.simple;
    set_keeps = λ doc x.
        (cluster_path-KeptAt json lib lawful lacked "user_id" "cluster.user_id" user_id_path
            no_user_id).set_keeps
          doc x tt;
    delete_keeps = λ doc.
        delete-cluster_path_kept json lib lawful lacked "user_name" "cluster.user_name" doc
          user_name_path;
  })

  abbrev hosts : IsListPath json lib lawful empty_invalid lacked "cluster.hosts"
  hosts = hosts-IsListPath json lib lawful empty_invalid lacked no_hosts

  abbrev infra_envs : IsListPath json lib lawful empty_invalid lacked "infra_envs"
  infra_envs = infra_envs-IsListPath json lib lawful empty_invalid lacked

  pub sensitive_paths-Kept :
      All (KeptRename json lib (IsFine json lacked)) get_default_fields_to_anonymize
  unfolding get_default_fields_to_anonymize is_complex_path is_plain Text.contains Text.split
      Text.has_prefix Text.trim_dots
  sensitive_paths-Kept = (
    user_name-IsKeptPair,
    (
      items-IsKeptPair _ _ "cluster.hosts" ".user_name" ".user_id" refl refl refl refl hosts,
      (
        items-IsKeptPair _ _ "cluster.hosts" ".infra_env.user_name" ".infra_env.user_id" refl refl
            refl refl hosts,
        (
          items-IsKeptPair _ _ "infra_envs" ".user_name" ".user_id" refl refl refl refl infra_envs,
          tt,
        ),
      ),
    ),
  )
