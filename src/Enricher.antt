-- ===== src/Enricher.antt =====
-- internal/projection/process/event_enricher.go: what is read from the metadata and the payload of an
-- event, and the embedding of the infra-envs into the hosts.
pub mod Embedding
pub mod Assembly
pub mod Lists
pub mod Documents
pub mod Safety
pub mod Defaults
pub mod Sensitive
pub mod Transformed
pub mod Removed
pub mod Envs
pub mod Privacy
pub mod Returns
pub mod Sources
use Prim.Native.Nat.{◌^◌}
use assisted_events_stream.Prelude.{
  ℕ, String, Bool, true, false, ◌&&◌, ◌||◌, Option, none, some, List, [], ◌∷◌, ◌==◌, nat_eq,
}
use assisted_events_stream.Value.{
  Value, null, bool, num, str, arr, obj, Fields, end, Map, entries, lookup, insert, to_value,
}
use assisted_events_stream.Types.{Codec, Error}
use assisted_events_stream.Types.Decode.{decode_map}

-- `==` on the bits of two float64 that JSON can write: the two zeros are equal.
abbrev is_zero : ℕ → Bool
is_zero x = nat_eq x 0 || nat_eq x (2 ^ 63)

abbrev float_eq : ℕ → ℕ → Bool
float_eq x y = nat_eq x y || is_zero x && is_zero y

abbrev bool_eq : Bool → Bool → Bool
bool_eq true b = b
bool_eq false true = false
bool_eq false false = true

-- `==` on two `interface{}`; `none` is the panic of comparing two slices or two maps.
unfoldable pub equal : Value → Value → Option Bool
equal null null = some true
equal (bool a) (bool b) = some (bool_eq a b)
equal (num x) (num y) = some (float_eq x y)
equal (str s) (str t) = some (s == t)
equal (arr vs) (arr ws) = none
equal (obj m) (obj n) = none
equal _ _ = some false

-- `m[k]` without its `ok`
abbrev pub or_nil : Option Value → Value
or_nil none = null
or_nil (some v) = v

-- One round of the inner loop, by the result of the comparison.
abbrev pub embed_found : Option Bool → Map → Fields → Option Fields
embed_found none infra_env host = none
embed_found (some true) infra_env host = some (insert "infra_env" (to_value infra_env) host)
embed_found (some false) infra_env host = some host

abbrev pub and_embed : Option Fields → (Fields → Option Fields) → Option Fields
and_embed none next = none
and_embed (some host) next = next host

unfoldable pub embed : Value → List Map → Fields → Option Fields
unfolding equal
embed id [] host = some host
embed id (infra_env ∷ infra_envs) host =
    and_embed (embed_found (equal (or_nil (lookup "id" (entries infra_env))) id) infra_env host)
      (embed id infra_envs)

abbrev pub embed_by : Option Value → List Map → Fields → Option Fields
embed_by none infra_envs host = some host
embed_by (some id) infra_envs host = embed id infra_envs host

abbrev pub add_host : Option Fields → Option (List Map) → Option (List Map)
add_host (some host) (some hosts) = some (some host ∷ hosts)
add_host _ _ = none

abbrev pub add_nil : Option (List Map) → Option (List Map)
add_nil none = none
add_nil (some hosts) = some (none ∷ hosts)

-- `getHostsWithEmbeddedInfraEnv`; `none` is a panic
unfoldable pub get_hosts_with_embedded_infra_env : List Map → List Map → Option (List Map)
unfolding embed
get_hosts_with_embedded_infra_env [] infra_envs = some []
get_hosts_with_embedded_infra_env (none ∷ hosts) infra_envs =
    add_nil (get_hosts_with_embedded_infra_env hosts infra_envs)
get_hosts_with_embedded_infra_env (some host ∷ hosts) infra_envs =
    add_host (embed_by (lookup "infra_env_id" host) infra_envs host)
      (get_hosts_with_embedded_infra_env hosts infra_envs)

inner_versions : Option Value → Fields → Map
inner_versions (some (obj inner)) versions = some inner
inner_versions _ versions = some versions

versions_of : Option Value → Map
unfolding inner_versions
versions_of (some (obj versions)) = inner_versions (lookup "versions" versions) versions
versions_of _ = none

-- `getVersionsFromMetadata`; a nil map is `none`
unfoldable pub get_versions_from_metadata : Fields → Map
unfolding versions_of
get_versions_from_metadata metadata = versions_of (lookup "versions" metadata)

text_of : Option Value → Option String
text_of (some (str s)) = some s
text_of _ = none

release_tag_of : Option Value → Option String
unfolding text_of
release_tag_of (some (obj versions)) = text_of (lookup "release_tag" versions)
release_tag_of _ = none

-- `getReleaseTagFromMetadata`
unfoldable pub get_release_tag_from_metadata : Fields → Option String
unfolding release_tag_of
get_release_tag_from_metadata metadata = release_tag_of (lookup "versions" metadata)

props_of : Codec → Option Value → Map × Option Error
props_of json (some (str p)) = decode_map (json.unmarshal p)
props_of json _ = (some end, none)

-- `getProps`
unfoldable pub get_props : Codec → Value → Map × Option Error
unfolding props_of decode_map
get_props json (obj payload) = props_of json (lookup "props" payload)
get_props json _ = (some end, none)
