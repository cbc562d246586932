-- ===== src/Summary/Shares.antt =====
-- The summary's shares are those of the infra-envs of the hosts.
use native.Mathlib.Nat.{zero-add}
use mathlib.Core.Option
use assisted_events_stream.Prelude.{
  ℕ, zero, suc, ◌+◌, String, ◌≡◌, refl, ap, ◌∙◌, Bool, true, false, ◌||◌, Option, none, some, List,
  [], ◌∷◌, arith, ◌==◌, eq_iff, length, Bool-cases, inl, inr,
}
use assisted_events_stream.Value.{Fields, lookup}
use assisted_events_stream.Types.{Float, EnrichedEvent}
use assisted_events_stream.Summary.{
  Counter, Stats, Tally, of_nat, divide, get_hosts_from_event, get_infra_env_from_host,
  update_counter, update_infra_env_stats, normalize_counter, normalize_infra_env_stats, counter_at,
  empty_stats, tally_infra_env, tally_hosts, start_tally, summary_of,
}
use assisted_events_stream.Summary.Counts.{
  infra_envs_of, with_infra_env, count_label, get, entry, count_all, count_all-empty,
}

abbrev pub has_key : String → Stats → Bool
has_key k [] = false
has_key k ((j, c) ∷ stats) = j == k || has_key k stats

-- all the infra-envs counted under every key
update_all : Stats → List Fields → Stats
update_all stats [] = stats
update_all stats (env ∷ envs) = update_all (update_infra_env_stats stats env) envs

has_key-update :
    (k : String) (stats : Stats) (env : Fields)
    → has_key k (update_infra_env_stats stats env) ≡ has_key k stats
unfolding update_infra_env_stats
has_key-update k [] env = refl
has_key-update k ((j, c) ∷ stats) env = ground (arith, has_key-update k stats env)

counter_at-update :
    (k : String) (stats : Stats) (env : Fields)
    → has_key k stats ≡ true
    → counter_at k (update_infra_env_stats stats env)
      ≡ update_counter (lookup k env) (counter_at k stats)
unfolding update_infra_env_stats counter_at
counter_at-update k [] env h = cc
counter_at-update k ((j, c) ∷ stats) env h = elim (Bool-cases (j == k)) [
  | inl e ↦ rw (e, (eq_iff j k).0 e)
  | inr e ↦ rw e (counter_at-update k stats env (rw e at h))
]

counter_at-update_all :
    (k : String) (stats : Stats) (envs : List Fields)
    → has_key k stats ≡ true
    → counter_at k (update_all stats envs) ≡ count_all k envs (counter_at k stats)
unfolding update_all count_all
counter_at-update_all k stats [] h = refl
counter_at-update_all k stats (env ∷ envs) h =
    counter_at-update_all k (update_infra_env_stats stats env) envs (has_key-update k stats env ∙ h)
    ∙ ap (count_all k envs) (counter_at-update k stats env h)

tally_path :
    {a b n : ℕ} {c : Stats}
    → a ≡ b
    → ◌≡◌ {A = Tally}
        (record { host_count = a; total_infra_envs = n; stats = c })
        (record { host_count = b; total_infra_envs = n; stats = c })
tally_path {a} {b} {n} {c} e =
    ap (λ (x : ℕ). let t : Tally = record { host_count = x; total_infra_envs = n; stats = c } in t)
      e

total_path :
    {a b n : ℕ} {c : Stats}
    → a ≡ b
    → ◌≡◌ {A = Tally}
        (record { host_count = n; total_infra_envs = a; stats = c })
        (record { host_count = n; total_infra_envs = b; stats = c })
total_path {a} {b} {n} {c} e =
    ap (λ (x : ℕ). let t : Tally = record { host_count = n; total_infra_envs = x; stats = c } in t)
      e

tally_hosts_lem :
    (hosts : List Fields) (t : Tally)
    → tally_hosts hosts t ≡ record {
      host_count = t.host_count + length hosts;
      total_infra_envs = t.total_infra_envs + length (infra_envs_of hosts);
      stats = update_all t.stats (infra_envs_of hosts);
    }
unfolding tally_hosts update_all
tally_hosts_lem [] t = ground arith
tally_hosts_lem (host ∷ hosts) t =
    of_env (get_infra_env_from_host host) (record t { host_count = t.host_count + 1 })
      (tally_hosts_lem hosts)
    ∙ tally_path (omega arith)
  where
    of_env :
        (o : Option Fields) (t : Tally)
        → ((t : Tally)
            → tally_hosts hosts t ≡ record {
              host_count = t.host_count + length hosts;
              total_infra_envs = t.total_infra_envs + length (infra_envs_of hosts);
              stats = update_all t.stats (infra_envs_of hosts);
            })
        → tally_hosts hosts (tally_infra_env o t) ≡ record {
          host_count = t.host_count + length hosts;
          total_infra_envs = t.total_infra_envs + length (with_infra_env o (infra_envs_of hosts));
          stats = update_all t.stats (with_infra_env o (infra_envs_of hosts));
        }
    of_env none t ih = ih t
    of_env (some env) t ih =
        ih (record t {
          total_infra_envs = t.total_infra_envs + 1;
          stats = update_infra_env_stats t.stats env;
        })
        ∙ total_path (omega arith)

counter_at-normalize :
    (k : String) (stats : Stats) (total : ℕ)
    → counter_at k (normalize_infra_env_stats stats total)
      ≡ normalize_counter (counter_at k stats) total
unfolding counter_at normalize_infra_env_stats
counter_at-normalize k [] total = refl
counter_at-normalize k ((j, c) ∷ stats) total = ground (arith, counter_at-normalize k stats total)

abbrev pub share : ℕ → ℕ → Option Float
share zero total = none
share (suc n) total = some (divide (of_nat (suc n)) total)

pub get-normalize :
    (l : String) (c : Counter) (n total : ℕ)
    → get l c ≡ entry n
    → get l (normalize_counter c total) ≡ share n total
unfolding get normalize_counter
get-normalize l [] zero total h = refl
get-normalize l [] (suc n) total h = cc
get-normalize l ((k, x) ∷ c) n total h = elim (Bool-cases (k == l)) [
  | inl e ↦ rw e (divided n (rw e at h))
  | inr e ↦ rw e (get-normalize l c n total (rw e at h))
]
  where
    divided : (n : ℕ) → some x ≡ entry n → some (divide x total) ≡ share n total
    divided zero h = cc
    divided (suc n) h = ap (λ (o : Option Float). Option.map (λ y. divide y total) o) h

counter_at-empty_stats : (k : String) → counter_at k empty_stats ≡ []
unfolding counter_at
counter_at-empty_stats k = ground arith

pub counter_of_summary :
    (order : Counter → Counter) (event : EnrichedEvent) (k : String)
    → has_key k empty_stats ≡ true
    → counter_at k (summary_of order event).infra_env
      ≡ normalize_counter
          (count_all k (infra_envs_of (get_hosts_from_event event)) [])
          (length (infra_envs_of (get_hosts_from_event event)))
unfolding summary_of
counter_of_summary order event k h = rw (
  tally_hosts_lem (get_hosts_from_event event) start_tally,
  zero-add,
  counter_at-normalize,
  counter_at-update_all k empty_stats (infra_envs_of (get_hosts_from_event event)) h,
  counter_at-empty_stats,
)

-- The summary counts every host; and for each of its three keys, the share of a label is the number
-- of infra-envs with that label over the number of hosts with an infra-env, and a label that no
-- infra-env has is not listed.
pub summary_of-shares :
    (order : Counter → Counter) (event : EnrichedEvent) (k label : String)
    → has_key k empty_stats ≡ true
    → let envs = infra_envs_of (get_hosts_from_event event) in
      ((summary_of order event).host_count ≡ length (get_hosts_from_event event))
      × (get label (counter_at k (summary_of order event).infra_env)
          ≡ share (count_label k label envs) (length envs))
unfolding summary_of
summary_of-shares order event k label h =
    let envs = infra_envs_of (get_hosts_from_event event) in
    (
      rw (tally_hosts_lem (get_hosts_from_event event) start_tally, zero-add),
      rw (counter_of_summary order event k h) (
          get-normalize label (count_all k envs []) (count_label k label envs) (length envs)
            (count_all-empty k envs label)),
    )
