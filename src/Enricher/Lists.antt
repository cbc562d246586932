-- ===== src/Enricher/Lists.antt =====
-- The document of an enriched event: it has one cluster, under "cluster.hosts" and "infra_envs" there
-- are lists, or null, or nothing, and the cluster lacks some members, whatever is set and deleted under
-- the paths of the enricher.
use assisted_events_stream.Prelude.{
  String, ◌≡◌, refl, false, Option, none, some, List, [], ◌∷◌, arith, ◌==◌, eq_refl, All,
}
use assisted_events_stream.Value.{
  Value, obj, Fields, lookup, insert, erase, lookup-insert, lookup-erase,
}
use assisted_events_stream.Types.Decode.{equal_fold}
use assisted_events_stream.Types.Decode.Only.{Only, lookup-Only, insert-Only, insert_other-Only}
use assisted_events_stream.JsonEdit.Paths.{put_at, remove_at, keys}
use assisted_events_stream.JsonEdit.Invariants.{IsItems, IfAny}

-- None of the keys has a value.
abbrev pub Lacks : List String → Fields → Type 0
Lacks keys m = All (λ k. lookup k m ≡ none) keys

abbrev pub IsNoneOf : List String → String → Type 0
IsNoneOf keys key = All (λ k. (key == k) ≡ false) keys

pub record HoldsLists (lacked : List String) (v : Value) : Type 0 where
  pub root : Fields
  pub cluster : Fields
  pub envs : Option Value
  pub is_root : v ≡ obj root
  pub sole_cluster : Only "cluster" (some (obj cluster)) root
  pub sole_envs : Only "infra_envs" envs root
  pub hosts : IfAny IsItems (lookup "hosts" cluster)
  pub infra_envs : IfAny IsItems envs
  pub lacks : Lacks lacked cluster

Lacks-insert :
    (lacked : List String) (key : String) (x : Value) (m : Fields)
    → IsNoneOf lacked key
    → Lacks lacked m
    → Lacks lacked (insert key x m)
Lacks-insert [] key x m n l = tt
Lacks-insert (k ∷ lacked) key x m (n, ns) (l, ls) =
    (rw (lookup-insert k key x m, n) l, Lacks-insert lacked key x m ns ls)

Lacks-erase :
    (lacked : List String) (key : String) (m : Fields) → Lacks lacked m → Lacks lacked (erase key m)
Lacks-erase [] key m l = tt
Lacks-erase (k ∷ lacked) key m (l, ls) =
    (rw (lookup-erase k key m) (ground (arith, l)), Lacks-erase lacked key m ls)

lookup-erase_self : (k : String) (m : Fields) → lookup k (erase k m) ≡ none
lookup-erase_self k m = rw (lookup-erase k k m, eq_refl k)

module _ (lacked : List String) where
  -- the document with another cluster
  with_cluster :
      {v : Value} (h : HoldsLists lacked v) (lacked' : List String) (c : Fields)
      → IfAny IsItems (lookup "hosts" c)
      → Lacks lacked' c
      → HoldsLists lacked' (obj (insert "cluster" (obj c) h.root))
  unfolding equal_fold
  with_cluster h lacked' c hosts lacks = record {
    root = insert "cluster" (obj c) h.root;
    cluster = c;
    envs = h.envs;
    is_root = refl;
    sole_cluster = insert-Only "cluster" (obj c) (some (obj h.cluster)) h.root h.sole_cluster;
    sole_envs = insert_other-Only "infra_envs" "cluster" (obj c) h.envs h.root refl h.sole_envs;
    hosts = hosts;
    infra_envs = h.infra_envs;
    lacks = lacks;
  }

  pub with_envs :
      {v : Value} (h : HoldsLists lacked v) (x : Value)
      → IsItems x
      → (h' : HoldsLists lacked (obj (insert "infra_envs" x h.root))) × (h'.envs ≡ some x)
  unfolding equal_fold
  with_envs h x items = (
    record {
      root = insert "infra_envs" x h.root;
      cluster = h.cluster;
      envs = some x;
      is_root = refl;
      sole_cluster =
          insert_other-Only "cluster" "infra_envs" x (some (obj h.cluster)) h.root refl
            h.sole_cluster;
      sole_envs = insert-Only "infra_envs" x h.envs h.root h.sole_envs;
      hosts = h.hosts;
      infra_envs = items;
      lacks = h.lacks;
    },
    refl,
  )

  pub has_cluster :
      {v : Value} (h : HoldsLists lacked v) → lookup "cluster" h.root ≡ some (obj h.cluster)
  has_cluster h = lookup-Only "cluster" (some (obj h.cluster)) h.root h.sole_cluster

  pub has_envs : {v : Value} (h : HoldsLists lacked v) → lookup "infra_envs" h.root ≡ h.envs
  has_envs h = lookup-Only "infra_envs" h.envs h.root h.sole_envs

  pub put_at-cluster :
      (k : String) (x v : Value) (h : HoldsLists lacked v)
      → IfAny IsItems (lookup "hosts" (insert k x h.cluster))
      → IsNoneOf lacked k
      → (v' : Value) × (put_at ("cluster" ∷ k ∷ []) x v ≡ some v') × HoldsLists lacked v'
  unfolding put_at
  put_at-cluster k x v h items other = (
    obj (insert "cluster" (obj (insert k x h.cluster)) h.root),
    rw (h.is_root, has_cluster h),
    with_cluster h lacked (insert k x h.cluster) items
        (Lacks-insert lacked k x h.cluster other h.lacks),
  )

  pub put_at-infra_envs :
      (x v : Value)
      → HoldsLists lacked v
      → IsItems x
      → (v' : Value) × (put_at ("infra_envs" ∷ []) x v ≡ some v') × HoldsLists lacked v'
  unfolding put_at
  put_at-infra_envs x v h items =
      (obj (insert "infra_envs" x h.root), rw h.is_root, (with_envs h x items).0)

  -- What is deleted is lacked from then on.
  pub remove_at-cluster :
      (k : String) (v : Value)
      → (k == "hosts") ≡ false
      → HoldsLists lacked v
      → HoldsLists (k ∷ lacked) (remove_at ("cluster" ∷ k ∷ []) v)
  unfolding remove_at
  remove_at-cluster k v ne h =
      rw (h.is_root, has_cluster h)
        (with_cluster h (k ∷ lacked) (erase k h.cluster)
          (rw (lookup-erase "hosts" k h.cluster, ne) h.hosts)
          (lookup-erase_self k h.cluster, Lacks-erase lacked k h.cluster h.lacks))
