-- ===== src/Enricher/Embedding.antt =====
-- Which infra-env a host gets.
use assisted_events_stream.Prelude.{
  String, ◌≡◌, refl, sym, ap, ◌∙◌, Bool, true, false, Option, none, some, List, [], ◌∷◌, arith,
  ◌==◌, eq_refl, if◌then◌else◌, All,
}
use assisted_events_stream.Value.{
  Value, null, bool, num, str, arr, obj, Fields, end, field, Map, entries, lookup, insert, to_value,
}
use assisted_events_stream.Enricher.{
  equal, or_nil, embed_found, and_embed, embed, embed_by, get_hosts_with_embedded_infra_env,
}

-- The infra-env is the one with the identifier.
abbrev pub has_id : String → Value → Bool
has_id id (str s) = s == id
has_id id _ = false

-- The last infra-env of the list that has the identifier.
abbrev pub later : Option Map → Option Map → Option Map
later none before = before
later (some env) before = some env

abbrev pub last_with_id : String → List Map → Option Map
last_with_id id [] = none
last_with_id id (env ∷ envs) =
    later (last_with_id id envs)
      (if has_id id (or_nil (lookup "id" (entries env))) then some env else none)

abbrev pub with_infra_env : Option Map → Fields → Fields
with_infra_env none host = host
with_infra_env (some env) host = insert "infra_env" (to_value env) host

-- What a host should become: its own identifier decides, if it is a text.
abbrev pub completed : Option Value → List Map → Fields → Fields
completed (some (str id)) envs host = with_infra_env (last_with_id id envs) host
completed _ envs host = host

abbrev pub completed_hosts : List Map → List Map → List Map
completed_hosts [] envs = []
completed_hosts (none ∷ hosts) envs = none ∷ completed_hosts hosts envs
completed_hosts (some host ∷ hosts) envs =
    some (completed (lookup "infra_env_id" host) envs host) ∷ completed_hosts hosts envs

-- The host's identifier is a text, if it has one.
abbrev pub TextIfAny : Option Value → Type 0
TextIfAny none = Unit
TextIfAny (some (str s)) = Unit
TextIfAny (some _) = ⊥

abbrev pub HasTextId : Map → Type 0
HasTextId none = Unit
HasTextId (some host) = TextIfAny (lookup "infra_env_id" host)

insert-insert : (k : String) (v w : Value) (m : Fields) → insert k w (insert k v m) ≡ insert k w m
unfolding insert
insert-insert k v w end = ground (arith, eq_refl k)
insert-insert k v w (field j u m) = ground (arith, eq_refl k, insert-insert k v w m)

equal-str : (v : Value) (id : String) → equal v (str id) ≡ some (has_id id v)
unfolding equal
equal-str null id = refl
equal-str (bool b) id = refl
equal-str (num n) id = refl
equal-str (str s) id = refl
equal-str (arr vs) id = refl
equal-str (obj m) id = refl

with_infra_env-insert :
    (o : Option Map) (env : Map) (host : Fields)
    → with_infra_env o (insert "infra_env" (to_value env) host)
      ≡ with_infra_env (later o (some env)) host
with_infra_env-insert none env host = refl
with_infra_env-insert (some e) env host = insert-insert "infra_env" (to_value env) (to_value e) host

later-none : (o : Option Map) → later o none ≡ o
later-none none = refl
later-none (some e) = refl

-- Comparing with a text never panics, and the last match stays.
embed-str :
    (id : String) (envs : List Map) (host : Fields)
    → embed (str id) envs host ≡ some (with_infra_env (last_with_id id envs) host)
unfolding embed
embed-str id [] host = refl
embed-str id (env ∷ envs) host =
    rw (equal-str (or_nil (lookup "id" (entries env))) id)
      (found (has_id id (or_nil (lookup "id" (entries env)))) (embed-str id envs))
  where
    found :
        (b : Bool)
        → ((h : Fields) → embed (str id) envs h ≡ some (with_infra_env (last_with_id id envs) h))
        → and_embed (embed_found (some b) env host) (embed (str id) envs)
          ≡ some (with_infra_env (later (last_with_id id envs) (if b then some env else none)) host)
    found true ih =
        ih (insert "infra_env" (to_value env) host)
        ∙ ap some (with_infra_env-insert (last_with_id id envs) env host)
    found false ih =
        ih host
        ∙ ap (λ (o : Option Map). some (with_infra_env o host))
            (sym (later-none (last_with_id id envs)))

-- If the infra_env_id of every host that has one is a text, nothing panics, whatever the infra-envs
-- hold; every host gets the last infra-env whose id is that text for its infra_env, or stays as it is
-- if there is none, and the hosts keep their order.
pub get_hosts_with_embedded_infra_env-completed :
    (hosts envs : List Map)
    → All HasTextId hosts
    → get_hosts_with_embedded_infra_env hosts envs ≡ some (completed_hosts hosts envs)
unfolding get_hosts_with_embedded_infra_env
get_hosts_with_embedded_infra_env-completed [] envs h = refl
get_hosts_with_embedded_infra_env-completed (none ∷ hosts) envs h =
    rw (get_hosts_with_embedded_infra_env-completed hosts envs h.1)
get_hosts_with_embedded_infra_env-completed (some host ∷ hosts) envs h = rw (
  get_hosts_with_embedded_infra_env-completed hosts envs h.1,
  embed_by_text (lookup "infra_env_id" host) h.0,
)
  where
    embed_by_text :
        (o : Option Value) → TextIfAny o → embed_by o envs host ≡ some (completed o envs host)
    embed_by_text none t = refl
    embed_by_text (some (str id)) t = embed-str id envs host
    embed_by_text (some null) t = absurd t
    embed_by_text (some _) t = absurd t
