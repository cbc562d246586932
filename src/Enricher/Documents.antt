-- ===== src/Enricher/Documents.antt =====
-- The texts that decode to such documents, and what gjson and sjson do with them.
use assisted_events_stream.Prelude.{String, ◌≡◌, refl, true, false, some, List, [], ◌∷◌, ◌==◌}
use assisted_events_stream.Value.{Value, lookup, insert, lookup-insert}
use assisted_events_stream.Types.{Codec}
use assisted_events_stream.Text
use assisted_events_stream.JsonEdit.{PathLib, or_same, is_complex_path}
use assisted_events_stream.JsonEdit.Paths.{IsLawful, put_at, remove_at, is_plain, keys}
use assisted_events_stream.JsonEdit.Invariants.{IsItems, IfAny, IsAny, KeptAt}
use assisted_events_stream.Enricher.Lists.{
  HoldsLists, IsNoneOf, put_at-cluster, put_at-infra_envs, remove_at-cluster,
}

-- a member of the cluster that is not its hosts
pub record IsClusterPath (key path : String) : Type 0 where
  pub plain : is_plain path ≡ true
  pub simple : is_complex_path path ≡ false
  pub split_keys : keys path ≡ "cluster" ∷ key ∷ []
  pub not_hosts : (key == "hosts") ≡ false

-- A text that decodes to a document whose cluster lacks the keys.
pub record IsFine (json : Codec) (lacked : List String) (doc : String) : Type 0 where
  pub value : Value
  pub decodes : json.unmarshal doc ≡ some value
  pub lists : HoldsLists lacked value

pub forget :
    {json : Codec} {doc : String} (k : String) (lacked : List String)
    → IsFine json (k ∷ lacked) doc
    → IsFine json lacked doc
forget k lacked fine = record {
  value = fine.value;
  decodes = fine.decodes;
  lists =
      let h = fine.lists in
      record {
        root = h.root;
        cluster = h.cluster;
        envs = h.envs;
        is_root = h.is_root;
        sole_cluster = h.sole_cluster;
        sole_envs = h.sole_envs;
        hosts = h.hosts;
        infra_envs = h.infra_envs;
        lacks = h.lacks.1;
      };
}

module _ (json : Codec) (lib : PathLib) (lawful : IsLawful json lib) (lacked : List String) where
  -- sjson.Set returns a text
  pub set-IsFine :
      (doc path : String) (x : Value) (fine : IsFine json lacked doc)
      → is_plain path ≡ true
      → (v' : Value) × (put_at (keys path) x fine.value ≡ some v') × HoldsLists lacked v'
      → (doc' : String) × (lib.set doc path x ≡ some doc') × IsFine json lacked doc'
  set-IsFine doc path x fine plain (v', put, lists) =
      let (doc', set, d) = lawful.set_present doc path x fine.value v' plain fine.decodes put in
      (doc', set, record { value = v'; decodes = d; lists = lists })

  or_same-IsFine :
      (doc path : String) (x : Value)
      → (doc' : String) × (lib.set doc path x ≡ some doc') × IsFine json lacked doc'
      → IsFine json lacked (or_same doc (lib.set doc path x))
  unfolding or_same
  or_same-IsFine doc path x (doc', set, fine) = rw set fine

  pub set-cluster_path :
      (key path doc : String) (x : Value)
      → IsClusterPath key path
      → IsNoneOf lacked key
      → IsFine json lacked doc
      → (doc' : String) × (lib.set doc path x ≡ some doc') × IsFine json lacked doc'
  set-cluster_path key path doc x p other fine =
      let kept : IfAny IsItems (lookup "hosts" (insert key x fine.lists.cluster)) =
        rw (lookup-insert "hosts" key x fine.lists.cluster, p.not_hosts) fine.lists.hosts in
      set-IsFine doc path x fine p.plain
        (rw p.split_keys (put_at-cluster lacked key x fine.value fine.lists kept other))

  -- sjson.Delete returns a text, and its cluster lacks the key.
  pub delete-cluster_path :
      (key path doc : String)
      → IsClusterPath key path
      → IsFine json lacked doc
      → (doc' : String) × (lib.delete doc path ≡ some doc') × IsFine json (key ∷ lacked) doc'
  delete-cluster_path key path doc p fine =
      let (doc', deleted, d) = lawful.delete_lem doc path fine.value p.plain fine.decodes in
      let lists : HoldsLists (key ∷ lacked) (remove_at (keys path) fine.value) =
        rw p.split_keys (remove_at-cluster lacked key fine.value p.not_hosts fine.lists) in
      (doc', deleted, record { value = _; decodes = d; lists = lists })

  pub delete-cluster_path_kept :
      (key path doc : String)
      → IsClusterPath key path
      → IsFine json lacked doc
      → IsFine json lacked (or_same doc (lib.delete doc path))
  unfolding or_same
  delete-cluster_path_kept key path doc p fine =
      let (doc', deleted, fine') = delete-cluster_path key path doc p fine in
      rw deleted (forget key lacked fine')

  pub cluster_path-KeptAt :
      (key path : String)
      → IsClusterPath key path
      → IsNoneOf lacked key
      → KeptAt json lib (IsFine json lacked) IsAny path
  cluster_path-KeptAt key path p other = record {
    simple = p.simple;
    set_keeps =
        λ doc x any fine. or_same-IsFine doc path x (set-cluster_path key path doc x p other fine);
  }

  pub hosts-KeptAt :
      IsNoneOf lacked "hosts" → KeptAt json lib (IsFine json lacked) IsItems "cluster.hosts"
  unfolding is_complex_path is_plain put_at Text.contains Text.split Text.has_prefix
  hosts-KeptAt other = record {
    simple = refl;
    set_keeps = λ doc x items fine. or_same-IsFine doc "cluster.hosts" x (
        set-IsFine doc "cluster.hosts" x fine refl (
          put_at-cluster lacked "hosts" x fine.value fine.lists
            (rw (lookup-insert "hosts" "hosts" x fine.lists.cluster) items) other));
  }

  pub infra_envs-KeptAt : KeptAt json lib (IsFine json lacked) IsItems "infra_envs"
  unfolding is_complex_path is_plain put_at Text.contains Text.split Text.has_prefix
  infra_envs-KeptAt = record {
    simple = refl;
    set_keeps = λ doc x items fine. or_same-IsFine doc "infra_envs" x (
        set-IsFine doc "infra_envs" x fine refl
          (put_at-infra_envs lacked x fine.value fine.lists items));
  }
