-- ===== src/Summary/Counts.antt =====
-- What the loop over the hosts counts.
use native.Mathlib.Nat.{add-zero}
use assisted_events_stream.Prelude.{
  ℕ, zero, suc, ◌+◌, ◌≤◌, String, ◌≡◌, refl, ap, ◌∙◌, Bool, false, Option, none, some, List, [],
  ◌∷◌, arith, ◌==◌, eq_iff, length, Bool-cases, inl, inr, if◌then◌else◌,
}
use assisted_events_stream.Value.{Value, null, str, Fields, lookup}
use assisted_events_stream.Types.{Float}
use assisted_events_stream.Summary.{
  Counter, of_nat, add_one, get_infra_env_from_host, replace_dots, bump, update_counter,
}

-- The infra-envs of the hosts that have one.
abbrev pub with_infra_env : Option Fields → List Fields → List Fields
with_infra_env none envs = envs
with_infra_env (some env) envs = env ∷ envs

abbrev pub infra_envs_of : List Fields → List Fields
infra_envs_of [] = []
infra_envs_of (host ∷ hosts) = with_infra_env (get_infra_env_from_host host) (infra_envs_of hosts)

-- The text under a key, with its dots replaced, is the label.
abbrev pub is_label : Option Value → String → Bool
is_label (some (str s)) label = replace_dots s == label
is_label _ label = false

abbrev pub has_label : String → String → Fields → Bool
has_label k label env = is_label (lookup k env) label

-- How many of the infra-envs have the label under the key `k`.
abbrev pub count_label : String → String → List Fields → ℕ
count_label k label [] = 0
count_label k label (env ∷ envs) =
    let rest = count_label k label envs in if has_label k label env then suc rest else rest

pub count_label-le :
    (k label : String) (envs : List Fields) → count_label k label envs ≤ length envs
count_label-le k label [] = omega arith
count_label-le k label (env ∷ envs) = ground (arith, count_label-le k label envs)

-- An entry of a counter.
unfoldable pub get : String → Counter → Option Float
get label [] = none
get label ((k, x) ∷ c) = if k == label then some x else get label c

abbrev pub entry : ℕ → Option Float
entry zero = none
entry (suc n) = some (of_nat (suc n))

abbrev or_zero : Option Float → Float
or_zero none = of_nat 0
or_zero (some x) = x

pub get-bump :
    (j label : String) (c : Counter)
    → get j (bump label c)
      ≡ (if label == j then some (add_one (or_zero (get label c))) else get j c)
unfolding get bump
get-bump j label [] = ground arith
get-bump j label ((k, x) ∷ c) =
    ground (arith, eq_iff k j, eq_iff k label, eq_iff label j, get-bump j label c)

add_one-entry : (n : ℕ) → some (add_one (or_zero (entry n))) ≡ entry (suc n)
add_one-entry zero = refl
add_one-entry (suc n) = ground arith

update_counter-entry :
    (v : Option Value) (c : Counter) (f : String → ℕ)
    → ((l : String) → get l c ≡ entry (f l))
    → (l : String) → get l (update_counter v c) ≡ entry (if is_label v l then suc (f l) else f l)
unfolding update_counter
update_counter-entry none c f h l = h l
update_counter-entry (some (str s)) c f h l = elim (Bool-cases (replace_dots s == l)) [
  | inl e ↦
      rw (get-bump l (replace_dots s) c, e, h (replace_dots s), (eq_iff (replace_dots s) l).0 e)
        (add_one-entry (f l))
  | inr e ↦ rw (get-bump l (replace_dots s) c, e) (h l)
]
update_counter-entry (some null) c f h l = h l
update_counter-entry (some _) c f h l = h l

-- all the infra-envs counted under one key
unfoldable pub count_all : String → List Fields → Counter → Counter
count_all k [] c = c
count_all k (env ∷ envs) c = count_all k envs (update_counter (lookup k env) c)

count_all-entry :
    (k : String) (envs : List Fields) (c : Counter) (f : String → ℕ)
    → ((l : String) → get l c ≡ entry (f l))
    → (l : String) → get l (count_all k envs c) ≡ entry (f l + count_label k l envs)
unfolding count_all
count_all-entry k [] c f h l = rw add-zero (h l)
count_all-entry k (env ∷ envs) c f h l =
    count_all-entry k envs (update_counter (lookup k env) c)
      (λ j. if has_label k j env then suc (f j) else f j)
      (update_counter-entry (lookup k env) c f h) l
    ∙ ap entry (ground arith)

-- From an empty counter, each label is listed with its number of infra-envs, if there are any.
pub count_all-empty :
    (k : String) (envs : List Fields) (l : String)
    → get l (count_all k envs []) ≡ entry (count_label k l envs)
unfolding get
count_all-empty k envs l = count_all-entry k envs [] (λ _. 0) (λ _. refl) l ∙ ap entry (omega arith)
