-- ===== src/Enricher/Defaults.antt =====
-- internal/projection/process/default_fields.go: the paths of the enricher, and what is set under them.
use assisted_events_stream.Prelude.{
  String, ◌≡◌, refl, inl, inr, true, false, none, List, [], ◌∷◌, ◌==◌, All,
}
use assisted_events_stream.Types.{Codec}
use assisted_events_stream.Text
use assisted_events_stream.JsonEdit.{PathLib, is_complex_path}
use assisted_events_stream.JsonEdit.Paths.{IsLawful, is_plain, keys}
use assisted_events_stream.JsonEdit.Invariants.{Kept}
use assisted_events_stream.Process.{
  get_default_fields_to_unpack, get_default_fields_map_to_list_drop_key,
  get_default_fields_map_to_list, get_default_fields_to_anonymize,
}
use assisted_events_stream.Enricher.Documents.{IsFine, cluster_path-KeptAt}
use assisted_events_stream.Enricher.Safety.{IsListPath, hosts-IsListPath, infra_envs-IsListPath}

-- the keys of a map of paths
abbrev pub keys_of : List (String × String) → List String
keys_of [] = []
keys_of ((src, dst) ∷ paths) = src ∷ keys_of paths

module _ (json : Codec) (lib : PathLib) (lawful : IsLawful json lib)
    (empty_invalid : json.unmarshal "" ≡ none) where
  abbrev IsKept : String → Type 0
  IsKept path = Kept json lib (IsFine json []) path

  cluster-IsKept :
      (path key : String)
      → is_plain path ≡ true
      → is_complex_path path ≡ false
      → keys path ≡ "cluster" ∷ key ∷ []
      → (key == "hosts") ≡ false
      → IsKept path
  cluster-IsKept path key plain simple split_keys not_hosts = inl (
      cluster_path-KeptAt json lib lawful [] key path
        (record { plain = plain; simple = simple; split_keys = split_keys; not_hosts = not_hosts })
        tt)

  items-IsKept :
      (path parent child : String)
      → is_complex_path path ≡ true
      → Text.split path "[*]" ≡ parent ∷ child ∷ []
      → IsListPath json lib lawful empty_invalid [] parent
      → IsKept path
  items-IsKept path parent child c s p =
      inr (record { complex = c; parent = parent; child = child; parts = s; kept = p.kept })

  abbrev hosts : IsListPath json lib lawful empty_invalid [] "cluster.hosts"
  hosts = hosts-IsListPath json lib lawful empty_invalid [] tt

  abbrev infra_envs : IsListPath json lib lawful empty_invalid [] "infra_envs"
  infra_envs = infra_envs-IsListPath json lib lawful empty_invalid []

  pub fields_to_unpack-Kept : All (Kept json lib (IsFine json [])) get_default_fields_to_unpack
  unfolding get_default_fields_to_unpack is_complex_path is_plain Text.contains Text.split
      Text.has_prefix
  fields_to_unpack-Kept = (
    cluster-IsKept "cluster.feature_usage" "feature_usage" refl refl refl refl,
    (
      cluster-IsKept "cluster.validations_info" "validations_info" refl refl refl refl,
      (
        cluster-IsKept "cluster.connectivity_majority_groups" "connectivity_majority_groups" refl
            refl refl refl,
        (
          items-IsKept _ "cluster.hosts" ".inventory" refl refl hosts,
          (
            items-IsKept _ "cluster.hosts" ".connectivity" refl refl hosts,
            (
              items-IsKept _ "cluster.hosts" ".disks_info" refl refl hosts,
              (
                items-IsKept _ "cluster.hosts" ".domain_name_resolutions" refl refl hosts,
                (
                  items-IsKept _ "cluster.hosts" ".free_addresses" refl refl hosts,
                  (
                    items-IsKept _ "cluster.hosts" ".images_status" refl refl hosts,
                    (
                      items-IsKept _ "cluster.hosts" ".ntp_sources" refl refl hosts,
                      (items-IsKept _ "cluster.hosts" ".validations_info" refl refl hosts, tt),
                    ),
                  ),
                ),
              ),
            ),
          ),
        ),
      ),
    ),
  )

  pub fields_map_to_list_drop_key-Kept :
      All (Kept json lib (IsFine json [])) get_default_fields_map_to_list_drop_key
  unfolding get_default_fields_map_to_list_drop_key is_complex_path is_plain Text.contains
      Text.split Text.has_prefix
  fields_map_to_list_drop_key-Kept =
      (cluster-IsKept "cluster.feature_usage" "feature_usage" refl refl refl refl, tt)

  pub fields_map_to_list-Kept : All (Kept json lib (IsFine json [])) get_default_fields_map_to_list
  unfolding get_default_fields_map_to_list is_complex_path is_plain Text.contains Text.split
      Text.has_prefix
  fields_map_to_list-Kept = (
    cluster-IsKept "cluster.connectivity_majority_groups" "connectivity_majority_groups" refl refl
        refl refl,
    (
      items-IsKept _ "cluster.hosts" ".disks_info" refl refl hosts,
      (items-IsKept _ "cluster.hosts" ".images_status" refl refl hosts, tt),
    ),
  )

  pub sensitive_keys-Kept :
      All (Kept json lib (IsFine json [])) (keys_of get_default_fields_to_anonymize)
  unfolding get_default_fields_to_anonymize is_complex_path is_plain Text.contains Text.split
      Text.has_prefix
  sensitive_keys-Kept = (
    cluster-IsKept "cluster.user_name" "user_name" refl refl refl refl,
    (
      items-IsKept _ "cluster.hosts" ".user_name" refl refl hosts,
      (
        items-IsKept _ "cluster.hosts" ".infra_env.user_name" refl refl hosts,
        (items-IsKept _ "infra_envs" ".user_name" refl refl infra_envs, tt),
      ),
    ),
  )
