-- ===== src/Summary/Unordered.antt =====
-- The summary of hosts whose order is forgotten.
use mathlib.Core.Quot
use mathlib.Core.Quot.{Quot}
use mathlib.Core.Bool.{Bool-set}
use mathlib.Core.List.{Permᴰ}
use mathlib.Core.List.Permᴰ
use native.Mathlib.Nat.{ℕ_set}
use assisted_events_stream.Prelude.{
  ℕ, ◌+◌, String, ◌≡◌, refl, sym, ap, ◌∙◌, Bool, true, false, Option, none, some, List, [], ◌∷◌,
  arith, length, if◌then◌else◌,
}
use assisted_events_stream.Value.{Fields}
use assisted_events_stream.Types.{EnrichedEvent}
use assisted_events_stream.Summary.{
  Counter, of_nat, float_lt, get_infra_env_from_host, get_hosts_from_event, counter_at, empty_stats,
  summary_of,
}
use assisted_events_stream.Summary.Counts.{
  infra_envs_of, with_infra_env, has_label, count_label, get,
}
use assisted_events_stream.Summary.Shares.{share, has_key, summary_of-shares}
use assisted_events_stream.Summary.Entries.{VisitsAll}
use assisted_events_stream.Summary.Heterogeneity.{
  uniform_of_full, full_of_uniform, label_of_highest, uniform_of_highest, highest_of_uniform,
  heterogeneous_lem,
}

abbrev pub SameHosts : List Fields → List Fields → Type 0
SameHosts xs ys = Permᴰ xs ys

-- Hosts in no order.
abbrev pub Hosts : Type 0
Hosts = Quot SameHosts

-- A sum over the hosts forgets their order.
sum-perm :
    (F : List Fields → ℕ) (weight : Fields → ℕ)
    → ((x : Fields) (xs : List Fields) → F (x ∷ xs) ≡ weight x + F xs)
    → (xs ys : List Fields) → Permᴰ xs ys
    → F xs ≡ F ys
sum-perm F weight add _ _ Permᴰ.nil = refl
sum-perm F weight add (x ∷ xs) (y ∷ ys) (Permᴰ.cons e p) =
    omega (arith, add x xs, add y ys, ap weight e, sum-perm F weight add xs ys p)
sum-perm F weight add (a ∷ b ∷ xs) (c ∷ d ∷ ys) (Permᴰ.swap e e') =
    omega (arith, add a (b ∷ xs), add b xs, add c (d ∷ xs), add d xs, ap weight e, ap weight e')
sum-perm F weight add xs zs (Permᴰ.trans p q) =
    sum-perm F weight add xs _ p ∙ sum-perm F weight add _ zs q

abbrev env_weight : Option Fields → ℕ
env_weight none = 0
env_weight (some env) = 1

abbrev label_weight : String → String → Option Fields → ℕ
label_weight k label none = 0
label_weight k label (some env) = if has_label k label env then 1 else 0

envs-perm :
    (xs ys : List Fields) → Permᴰ xs ys → length (infra_envs_of xs) ≡ length (infra_envs_of ys)
envs-perm =
    sum-perm (λ xs. length (infra_envs_of xs)) (λ x. env_weight (get_infra_env_from_host x)) add
  where
    by_env :
        (o : Option Fields) (xs : List Fields)
        → length (with_infra_env o (infra_envs_of xs)) ≡ env_weight o + length (infra_envs_of xs)
    by_env none xs = omega arith
    by_env (some env) xs = omega arith

    add :
        (x : Fields) (xs : List Fields)
        → length (infra_envs_of (x ∷ xs))
          ≡ env_weight (get_infra_env_from_host x) + length (infra_envs_of xs)
    add x xs = by_env (get_infra_env_from_host x) xs

labels-perm :
    (k label : String) (xs ys : List Fields)
    → Permᴰ xs ys
    → count_label k label (infra_envs_of xs) ≡ count_label k label (infra_envs_of ys)
labels-perm k label =
    sum-perm (λ xs. count_label k label (infra_envs_of xs))
      (λ x. label_weight k label (get_infra_env_from_host x)) add
  where
    by_env :
        (o : Option Fields) (xs : List Fields)
        → count_label k label (with_infra_env o (infra_envs_of xs))
          ≡ label_weight k label o + count_label k label (infra_envs_of xs)
    by_env none xs = omega arith
    by_env (some env) xs = ground arith

    add :
        (x : Fields) (xs : List Fields)
        → count_label k label (infra_envs_of (x ∷ xs))
          ≡ label_weight k label (get_infra_env_from_host x)
            + count_label k label (infra_envs_of xs)
    add x xs = by_env (get_infra_env_from_host x) xs

same_bool : (b c : Bool) → (b ≡ false → c ≡ false) → (c ≡ false → b ≡ false) → b ≡ c
same_bool true true f g = refl
same_bool true false f g = g refl
same_bool false c f g = sym (f refl)

abbrev heterogeneous : (Counter → Counter) → List Fields → Bool
heterogeneous order hosts = float_lt (label_of_highest order (infra_envs_of hosts)).1 (of_nat 1)

-- What is not heterogeneous in one order is not in another, of the hosts and of the visit.
homogeneous-perm :
    (order order' : Counter → Counter)
    → VisitsAll order
    → VisitsAll order'
    → (xs ys : List Fields) → length (infra_envs_of xs) ≡ length (infra_envs_of ys)
    → ((label : String)
        → count_label "cpu_architecture" label (infra_envs_of xs)
          ≡ count_label "cpu_architecture" label (infra_envs_of ys))
    → heterogeneous order xs ≡ false
    → heterogeneous order' ys ≡ false
homogeneous-perm order order' visits visits' xs ys envs labels h =
    let (label, some_env, all) = uniform_of_highest order visits (infra_envs_of xs) h in
    highest_of_uniform order' visits' (infra_envs_of ys) label
      (λ e.
        some_env (empty_of_length (infra_envs_of xs) (envs ∙ ap (λ (l : List Fields). length l) e)))
      (uniform_of_full "cpu_architecture" label (infra_envs_of ys) (
        sym (labels label)
        ∙ full_of_uniform "cpu_architecture" label (infra_envs_of xs) all
        ∙ envs))
  where
    empty_of_length : (l : List Fields) → length l ≡ 0 → l ≡ []
    empty_of_length [] e = refl
    empty_of_length (x ∷ l) e = absurd (omega (arith, e))

heterogeneous-perm :
    (order order' : Counter → Counter)
    → VisitsAll order
    → VisitsAll order'
    → (xs ys : List Fields) → SameHosts xs ys
    → heterogeneous order xs ≡ heterogeneous order' ys
heterogeneous-perm order order' visits visits' xs ys p =
    let envs = envs-perm xs ys p in
    let labels = λ (label : String). labels-perm "cpu_architecture" label xs ys p in
    same_bool (heterogeneous order xs) (heterogeneous order' ys)
      (homogeneous-perm order order' visits visits' xs ys envs labels)
      (homogeneous-perm order' order visits' visits ys xs (sym envs) (λ label. sym (labels label)))

in_order : VisitsAll (λ c. c)
in_order = record { meets = λ c x m. m; met = λ c x m. m }

pub host_count_of : Hosts → ℕ
host_count_of =
    Quot.lift ℕ_set (λ xs. length xs)
      (λ xs ys p. sum-perm (λ xs. length xs) (λ x. 1) (λ x xs. omega arith) xs ys p)

pub env_count_of : Hosts → ℕ
env_count_of = Quot.lift ℕ_set (λ xs. length (infra_envs_of xs)) (λ xs ys p. envs-perm xs ys p)

pub label_count_of : String → String → Hosts → ℕ
label_count_of k label =
    Quot.lift ℕ_set (λ xs. count_label k label (infra_envs_of xs))
      (λ xs ys p. labels-perm k label xs ys p)

pub is_heterogeneous : Hosts → Bool
is_heterogeneous =
    Quot.lift Bool-set (λ xs. heterogeneous (λ c. c) xs)
      (λ xs ys p. heterogeneous-perm (λ c. c) (λ c. c) in_order in_order xs ys p)

-- The number of hosts, the share of each label, and whether the architecture is heterogeneous are
-- functions of the hosts in no order: whatever order the hosts stand in, and in whatever order the
-- entries of a counter are visited, if each is met and nothing else.
pub summary_of-unordered :
    (order : Counter → Counter) (visits : VisitsAll order) (event : EnrichedEvent)
    (k label : String)
    → has_key k empty_stats ≡ true
    → let hosts : Hosts = Quot.mk (get_hosts_from_event event) in
      ((summary_of order event).host_count ≡ host_count_of hosts)
      × (get label (counter_at k (summary_of order event).infra_env)
          ≡ share (label_count_of k label hosts) (env_count_of hosts))
      × ((summary_of order event).has_etherogeneous_architecture ≡ is_heterogeneous hosts)
unfolding host_count_of env_count_of label_count_of is_heterogeneous
summary_of-unordered order visits event k label h =
    let hosts = get_hosts_from_event event in
    let (count, shares) = summary_of-shares order event k label h in
    (
      count,
      shares,
      heterogeneous_lem order visits event
          ∙ heterogeneous-perm order (λ c. c) visits in_order hosts hosts (Permᴰ.refl hosts),
    )
