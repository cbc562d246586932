-- ===== src/Process.antt =====
-- internal/projection/process: transform.go, anonymize.go and default_fields.go, over pkg/jsonedit.
-- Go visits the entries of a map in any order; `order` stands for the order of one visit, and the
-- paths of a map of paths are listed in the order of their visit.
pub mod Anonymize
use assisted_events_stream.Prelude.{String, Option, none, some, List, [], ◌∷◌}
use assisted_events_stream.Value.{Value, null, str, arr, obj, Fields, end, field, insert, from_list}
use assisted_events_stream.Types.{Codec}
use assisted_events_stream.JsonEdit.{PathLib, TransformFn, transform}
use assisted_events_stream.JsonEdit.Rename.{Renamed, rename}

-- `var dstList []interface{}` is nil until the first append, and sjson writes it as null.
abbrev pub slice : List Value → Value
slice [] = null
slice vs = arr (from_list vs)

abbrev values : Fields → List Value
values end = []
values (field k v m) = v ∷ values m

-- an item of mapToListJson: an object keeps its key as "id", another value becomes an object
keyed : String → Value → Value
keyed k (obj item) = obj (insert "id" (str k) item)
keyed k v = obj (insert "value" v (insert "key" (str k) end))

keyed_values : Fields → List Value
unfolding keyed
keyed_values end = []
keyed_values (field k v m) = keyed k v ∷ keyed_values m

unfoldable pub drop_key : (Fields → Fields) → TransformFn
drop_key order (obj m) = some (slice (values (order m)))
drop_key order _ = none

unfoldable pub map_to_list : (Fields → Fields) → TransformFn
unfolding keyed_values
map_to_list order (obj m) = some (slice (keyed_values (order m)))
map_to_list order _ = none

-- The `hash` of anonymizeJson; `md5_hex` is the hexadecimal MD5 digest of a text.
unfoldable pub hash : (String → String) → TransformFn
hash md5_hex (str sensitive) = some (str (md5_hex sensitive))
hash md5_hex unpacked = some unpacked

module _ (json : Codec) (lib : PathLib) where
  unfoldable pub unpack_json : String → List String → String
  unpack_json doc paths = transform json lib doc paths some

  unfoldable pub map_to_list_json_drop_key : (Fields → Fields) → String → List String → String
  map_to_list_json_drop_key order doc paths = transform json lib doc paths (drop_key order)

  unfoldable pub map_to_list_json : (Fields → Fields) → String → List String → String
  map_to_list_json order doc paths = transform json lib doc paths (map_to_list order)

  -- `anonymizeJson`: `srcs` are the keys of `paths`, in the order of the first visit.
  unfoldable pub anonymize_json :
      (String → String) → String → List String → List (String × String) → Renamed
  anonymize_json md5_hex doc srcs paths =
      rename json lib (transform json lib doc srcs (hash md5_hex)) paths

unfoldable pub get_default_fields_to_unpack : List String
get_default_fields_to_unpack =
    "cluster.feature_usage" ∷ "cluster.validations_info" ∷ "cluster.connectivity_majority_groups"
    ∷ "cluster.hosts[*].inventory" ∷ "cluster.hosts[*].connectivity" ∷ "cluster.hosts[*].disks_info"
    ∷ "cluster.hosts[*].domain_name_resolutions" ∷ "cluster.hosts[*].free_addresses"
    ∷ "cluster.hosts[*].images_status" ∷ "cluster.hosts[*].ntp_sources"
    ∷ "cluster.hosts[*].validations_info" ∷ []

unfoldable pub get_default_fields_map_to_list_drop_key : List String
get_default_fields_map_to_list_drop_key = "cluster.feature_usage" ∷ []

unfoldable pub get_default_fields_map_to_list : List String
get_default_fields_map_to_list =
    "cluster.connectivity_majority_groups" ∷ "cluster.hosts[*].disks_info"
    ∷ "cluster.hosts[*].images_status" ∷ []

unfoldable pub get_default_fields_to_delete : List String
get_default_fields_to_delete =
    "cluster.pull_secret" ∷ "cluster.ssh_public_key"
    ∷ "cluster.hosts[*].infra_env.ssh_authorized_key" ∷ "infra_envs[*].ssh_authorized_key" ∷ []

unfoldable pub get_default_fields_to_anonymize : List (String × String)
get_default_fields_to_anonymize =
    ("cluster.user_name", "cluster.user_id")
    ∷ ("cluster.hosts[*].user_name", "cluster.hosts[*].user_id")
    ∷ ("cluster.hosts[*].infra_env.user_name", "cluster.hosts[*].infra_env.user_id")
    ∷ ("infra_envs[*].user_name", "infra_envs[*].user_id")
    ∷ []
