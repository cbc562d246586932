-- ===== src/Snapshot.antt =====
-- internal/repository/redis/snapshot_repository.go: the last known state of each cluster, host and
-- infra-env, kept as hashes in a redis-compatible server.
-- The client library is the parameter `RedisClient`; its methods take the server's state.
pub mod Keys
pub mod Laws
pub mod Hosts
pub mod Errors
use assisted_events_stream.Prelude.{
  ℕ, String, ◌≡◌, ◌==◌, if◌then◌else◌, Option, none, some, List, [], ◌∷◌, ◌++◌, ◌<>◌,
}
use assisted_events_stream.Value.{Fields, end, obj, Map}
use assisted_events_stream.Types.{Codec, Error, wrapped, Result, ok, err, Event}
use assisted_events_stream.Types.Decode.{decode_map}

-- `SnapshotRepositoryInterface`, over an unknown state.
pub record SnapshotRepository : Type 1 where
  pub State : Type 0
  pub set_cluster : String → Option Event → State → State × Option Error
  pub set_host : String → String → Option Event → State → State × Option Error
  pub set_infra_env : String → String → Option Event → State → State × Option Error
  pub get_cluster : String → State → Map × Option Error
  pub get_hosts : String → State → List Map × Option Error
  pub get_infra_envs : String → State → List Map × Option Error

-- What the projection relies on of a snapshot repository: a cluster state that is written without
-- an error is the one that is read, and other writes leave the clusters alone.
pub record IsSnapshot (S : SnapshotRepository) : Type 0 where
  pub get_cluster-set_cluster :
      (id c : String) (event : Event) (m : Fields) (s : S.State)
      → event.payload ≡ obj m
      → (S.set_cluster id (some event) s).1 ≡ none
      → S.get_cluster c (S.set_cluster id (some event) s).0
        ≡ (if id == c then (some m, none) else S.get_cluster c s)
  pub get_cluster-set_host :
      (id host c : String) (event : Option Event) (s : S.State)
      → S.get_cluster c (S.set_host id host event s).0 ≡ S.get_cluster c s
  pub get_cluster-set_infra_env :
      (id infra_env c : String) (event : Option Event) (s : S.State)
      → S.get_cluster c (S.set_infra_env id infra_env event s).0 ≡ S.get_cluster c s

-- The four commands of `redis.Cmdable` that the repository sends.
pub record RedisClient : Type 1 where
  pub State : Type 0
  pub hset : String → String → String → State → State × Option Error
  pub expire : String → ℕ → State → State × Option Error
  pub hget : String → String → State → Result String
  pub hget_all : String → State → Result (List (String × String))

abbrev pub clusters_redis_hkey : String
clusters_redis_hkey = "clusters"

abbrev pub hosts_redis_hkey_prefix : String
hosts_redis_hkey_prefix = "hosts_"

abbrev pub infra_envs_redis_hkey_prefix : String
infra_envs_redis_hkey_prefix = "infraenvs_"

unfoldable pub get_clusters_hkey : String
get_clusters_hkey = clusters_redis_hkey

unfoldable pub get_hosts_hkey : String → String
get_hosts_hkey cluster_id = hosts_redis_hkey_prefix <> cluster_id

unfoldable pub get_infra_envs_hkey : String → String
get_infra_envs_hkey cluster_id = infra_envs_redis_hkey_prefix <> cluster_id

-- `json.Marshal(event.Payload)`, or the empty text for a nil event.
unfoldable pub event_bytes : Codec → Option Event → String
event_bytes json none = ""
event_bytes json (some event) = json.marshal event.payload

-- The loops of GetHosts and GetInfraEnvs over what HGETALL returned: the first value that does not
-- decode ends the loop, and what was read before it is returned beside the error.
read_next :
    Map × Option Error → List Map → (List Map → List Map × Option Error) → List Map × Option Error
read_next (state, none) acc rest = rest (acc ++ state ∷ [])
read_next (state, some e) acc rest = (acc, some e)

unfoldable pub read_all : Codec → List Map → List (String × String) → List Map × Option Error
unfolding read_next
read_all json acc [] = (acc, none)
read_all json acc ((_, v) ∷ raw) =
    read_next (decode_map (json.unmarshal v)) acc (λ acc'. read_all json acc' raw)

module _ (json : Codec) (redis : RedisClient) (expiration : ℕ) where
  open redis use {State}

  after_expire : State × Option Error → State × Option Error
  after_expire (s, none) = (s, none)
  after_expire (s, some e) = (s, some (wrapped "failed to set ttl" e))

  after_hset : String → State × Option Error → State × Option Error
  unfolding after_expire
  after_hset key (s, none) = after_expire (redis.expire key expiration s)
  after_hset key (s, some e) = (s, some (wrapped "failed to set key" e))

  unfoldable pub hset : String → String → Option Event → State → State × Option Error
  unfolding after_hset
  hset key field event s = after_hset key (redis.hset key field (event_bytes json event) s)

  unfoldable pub set_cluster : String → Option Event → State → State × Option Error
  set_cluster cluster_id event = hset get_clusters_hkey cluster_id event

  unfoldable pub set_host : String → String → Option Event → State → State × Option Error
  set_host cluster_id host_id event = hset (get_hosts_hkey cluster_id) host_id event

  unfoldable pub set_infra_env : String → String → Option Event → State → State × Option Error
  set_infra_env cluster_id infra_env_id event =
      hset (get_infra_envs_hkey cluster_id) infra_env_id event

  -- Every failure of HGET, the missing key included, reads as an empty map and no error.
  cluster_of : Result String → Map × Option Error
  cluster_of (err _) = (some end, none)
  cluster_of (ok raw) = decode_map (json.unmarshal raw)

  unfoldable pub get_cluster : String → State → Map × Option Error
  unfolding cluster_of
  get_cluster cluster_id s = cluster_of (redis.hget get_clusters_hkey cluster_id s)

  all_of : Result (List (String × String)) → List Map × Option Error
  all_of (err e) = ([], some e)
  all_of (ok raw) = read_all json [] raw

  unfoldable pub get_hosts : String → State → List Map × Option Error
  unfolding all_of
  get_hosts cluster_id s = all_of (redis.hget_all (get_hosts_hkey cluster_id) s)

  unfoldable pub get_infra_envs : String → State → List Map × Option Error
  unfolding all_of
  get_infra_envs cluster_id s = all_of (redis.hget_all (get_infra_envs_hkey cluster_id) s)

  -- `NewSnapshotRepository`
  unfoldable pub new_snapshot_repository : SnapshotRepository
  new_snapshot_repository = record {
    State = State;
    set_cluster = set_cluster;
    set_host = set_host;
    set_infra_env = set_infra_env;
    get_cluster = get_cluster;
    get_hosts = get_hosts;
    get_infra_envs = get_infra_envs;
  }
