-- ===== src/Snapshot/Laws.antt =====
-- What a reader of the snapshots sees after a write, over a server that keeps its documentation.
use mathlib.Core.List.{Memᴰ}
use assisted_events_stream.Prelude.{
  ℕ, ◌<◌, String, ◌≡◌, ◌≢◌, refl, sym, ◌∙◌, ◌⊎◌, inl, inr, ◌&&◌, Option, none, some, List, ◌==◌,
  eq_refl, Bool-cases, if◌then◌else◌,
}
use assisted_events_stream.Value.{obj, Fields, end}
use assisted_events_stream.Types.{Codec, Error, Result, ok, err, Event}
use assisted_events_stream.Types.Decode.{decode_map}
use assisted_events_stream.Snapshot.{
  IsSnapshot, RedisClient, get_clusters_hkey, get_hosts_hkey, get_infra_envs_hkey, event_bytes,
  after_expire, after_hset, hset, set_cluster, set_host, set_infra_env, cluster_of, get_cluster,
  new_snapshot_repository,
}
use assisted_events_stream.Snapshot.Keys.{clusters-ne-hosts, clusters-ne-infra_envs}

-- The documented behaviour of HSET, EXPIRE and HGETALL. An HSET that reports a failure may have
-- been carried out or not. EXPIRE with a positive time removes nothing yet.
pub record IsLawful (redis : RedisClient) : Type 0 where
  pub hget-hset :
      (key field v : String) (s : redis.State)
      → (redis.hset key field v s).1 ≡ none
      → (k f : String)
      → redis.hget k f (redis.hset key field v s).0
        ≡ (if key == k && field == f then ok v else redis.hget k f s)
  pub hget-hset_any :
      (key field v : String) (s : redis.State) (k f : String)
      → (redis.hget k f (redis.hset key field v s).0 ≡ redis.hget k f s)
        ⊎ ((key ≡ k) × (field ≡ f) × (redis.hget k f (redis.hset key field v s).0 ≡ ok v))
  pub hget-expire :
      (key : String) (ttl : ℕ) (s : redis.State) (k f : String)
      → 0 < ttl
      → redis.hget k f (redis.expire key ttl s).0 ≡ redis.hget k f s
  pub hget_all_sound :
      (key : String) (s : redis.State) {raw : List (String × String)}
      → redis.hget_all key s ≡ ok raw
      → (f v : String) → Memᴰ (f, v) raw
      → redis.hget key f s ≡ ok v
  pub hget_all_complete :
      (key : String) (s : redis.State) {raw : List (String × String)}
      → redis.hget_all key s ≡ ok raw
      → (f v : String) → redis.hget key f s ≡ ok v
      → Memᴰ (f, v) raw

-- Every stored text decodes to an object.
abbrev pub IsDecodable : Codec → (redis : RedisClient) → redis.State → Type 0
IsDecodable json redis s =
    (k f v : String) → redis.hget k f s ≡ ok v → (m : Fields) × (json.unmarshal v ≡ some (obj m))

module _ (json : Codec) (redis : RedisClient) (expiration : ℕ) (lawful : IsLawful redis)
    (positive : 0 < expiration) where
  open redis use {State, hget}

  after_hset_ok :
      (key : String) (r : State × Option Error)
      → (after_hset json redis expiration key r).1 ≡ none
      → r.1 ≡ none
  unfolding after_hset
  after_hset_ok key (s, none) h = refl
  after_hset_ok key (s, some e) h = cc

  after_expire-state : (r : State × Option Error) → (after_expire json redis expiration r).0 ≡ r.0
  unfolding after_expire
  after_expire-state (s, none) = refl
  after_expire-state (s, some e) = refl

  hget-after_hset :
      (key : String) (r : State × Option Error) (k f : String)
      → hget k f (after_hset json redis expiration key r).0 ≡ hget k f r.0
  unfolding after_hset
  hget-after_hset key (s, none) k f =
      rw after_expire-state (lawful.hget-expire key expiration s k f positive)
  hget-after_hset key (s, some e) k f = refl

  -- A write that succeeds is read back under its key and field, and nothing else changes.
  pub hget-hset :
      (key field : String) (event : Option Event) (s : State)
      → (hset json redis expiration key field event s).1 ≡ none
      → (k f : String)
      → hget k f (hset json redis expiration key field event s).0
        ≡ (if key == k && field == f then ok (event_bytes json event) else hget k f s)
  unfolding hset
  hget-hset key field event s h k f =
      let v = event_bytes json event in
      rw (hget-after_hset key (redis.hset key field v s) k f)
        (lawful.hget-hset key field v s (after_hset_ok key (redis.hset key field v s) h) k f)

  -- A write that fails may have been made, and changes nothing else either.
  pub hget-hset_any :
      (key field : String) (event : Option Event) (s : State) (k f : String)
      → (hget k f (hset json redis expiration key field event s).0 ≡ hget k f s)
        ⊎ ((key ≡ k)
            × (field ≡ f)
            × (hget k f (hset json redis expiration key field event s).0
                ≡ ok (event_bytes json event)))
  unfolding hset
  hget-hset_any key field event s k f =
      let v = event_bytes json event in
      rw (hget-after_hset key (redis.hset key field v s) k f)
        (lawful.hget-hset_any key field v s k f)

  hget-hset_ne :
      (key field : String) (event : Option Event) (s : State) (k f : String)
      → key ≢ k
      → hget k f (hset json redis expiration key field event s).0 ≡ hget k f s
  hget-hset_ne key field event s k f n = elim (hget-hset_any key field event s k f) [
    | inl e ↦ e
    | inr t ↦ absurd (n t.0)
  ]

  -- Writing a host, whether the server reports a failure or not, leaves every cluster as it was.
  pub get_cluster-set_host :
      (cluster_id host_id c : String) (event : Option Event) (s : State)
      → get_cluster json redis expiration c
          (set_host json redis expiration cluster_id host_id event s).0
        ≡ get_cluster json redis expiration c s
  unfolding get_cluster set_host
  get_cluster-set_host cluster_id host_id c event s = rw (
      hget-hset_ne (get_hosts_hkey cluster_id) host_id event s get_clusters_hkey c
        (λ e. clusters-ne-hosts cluster_id (sym e)))

  -- So does writing an infra-env.
  pub get_cluster-set_infra_env :
      (cluster_id infra_env_id c : String) (event : Option Event) (s : State)
      → get_cluster json redis expiration c
          (set_infra_env json redis expiration cluster_id infra_env_id event s).0
        ≡ get_cluster json redis expiration c s
  unfolding get_cluster set_infra_env
  get_cluster-set_infra_env cluster_id infra_env_id c event s = rw (
      hget-hset_ne (get_infra_envs_hkey cluster_id) infra_env_id event s get_clusters_hkey c
        (λ e. clusters-ne-infra_envs cluster_id (sym e)))

  pub unmarshal-event_bytes :
      (event : Event) (m : Fields)
      → event.payload ≡ obj m
      → json.unmarshal (event_bytes json (some event)) ≡ some (obj m)
  unfolding event_bytes
  unmarshal-event_bytes event m p = rw (p, json.unmarshal-marshal)

  decode-event_bytes :
      (event : Event) (m : Fields)
      → event.payload ≡ obj m
      → decode_map (json.unmarshal (event_bytes json (some event))) ≡ (some m, none)
  unfolding event_bytes decode_map
  decode-event_bytes event m p = rw (p, json.unmarshal-marshal)

  -- A cluster state whose write succeeds is what a reader of that cluster gets, with no error, and
  -- every other cluster reads as before.
  pub get_cluster-set_cluster :
      (id c : String) (event : Event) (m : Fields) (s : State)
      → event.payload ≡ obj m
      → (set_cluster json redis expiration id (some event) s).1 ≡ none
      → get_cluster json redis expiration c (set_cluster json redis expiration id (some event) s).0
        ≡ (if id == c then (some m, none) else get_cluster json redis expiration c s)
  unfolding get_cluster set_cluster
  get_cluster-set_cluster id c event m s p h =
      rw (hget-hset get_clusters_hkey id (some event) s h get_clusters_hkey c, eq_refl)
        (elim (Bool-cases (id == c)) [
          | inl e ↦ rw (e, decode-event_bytes event m p)
          | inr e ↦ rw e
        ])

  -- Over a lawful server, with a positive expiration, writing an event whose payload is an object
  -- keeps every stored text decodable, whatever the server reports.
  pub hset-IsDecodable :
      (key field : String) (event : Event) (m : Fields) (s : State)
      → event.payload ≡ obj m
      → IsDecodable json redis s
      → IsDecodable json redis (hset json redis expiration key field (some event) s).0
  unfolding event_bytes
  hset-IsDecodable key field event m s p inv k f v h =
      elim (hget-hset_any key field (some event) s k f) [
        | inl e ↦ inv k f v (sym e ∙ h)
        | inr t ↦ (
          m,
          let e : json.marshal event.payload ≡ v = cc (t.2, h) in
              rw (← e, p, json.unmarshal-marshal),
        )
      ]

  -- Over a lawful server, with a positive expiration, if every stored text decodes to an object, a
  -- cluster is always read with no error, and never as a nil map.
  get_cluster-IsDecodable :
      (id : String) (s : State)
      → IsDecodable json redis s
      → (m : Fields) × (get_cluster json redis expiration id s ≡ (some m, none))
  unfolding get_cluster cluster_of decode_map
  get_cluster-IsDecodable id s inv = go (hget get_clusters_hkey id s) refl
    where
      go :
          (r : Result String)
          → hget get_clusters_hkey id s ≡ r
          → (m : Fields) × (cluster_of json redis expiration r ≡ (some m, none))
      go (err e) h = (end, refl)
      go (ok raw) h = let (m, d) = inv get_clusters_hkey id raw h in (m, rw d)

  -- Over a lawful server, with a positive expiration, the repository is what the projection relies
  -- on: a cluster state written without an error is the one read, and writes of other kinds leave
  -- the clusters alone.
  pub new_snapshot_repository-IsSnapshot :
      IsSnapshot (new_snapshot_repository json redis expiration)
  unfolding new_snapshot_repository
  new_snapshot_repository-IsSnapshot = record {
    get_cluster-set_cluster = get_cluster-set_cluster;
    get_cluster-set_host = λ id host c event s. get_cluster-set_host id host c event s;
    get_cluster-set_infra_env =
        λ id infra_env c event s. get_cluster-set_infra_env id infra_env c event s;
  }
