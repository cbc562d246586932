-- ===== src/Summary/Heterogeneity.antt =====
-- When the summary calls a cluster's architecture heterogeneous.
use mathlib.Core.Logic.{◌↔◌}
use native.Mathlib.Nat.{le_of_mul-le-mul_left}
use assisted_events_stream.Prelude.{
  ℕ, zero, suc, ◌*◌, ◌≤◌, ◌<◌, String, ◌≡◌, ◌≢◌, refl, sym, ap, ◌∙◌, true, false, some, List, [],
  ◌∷◌, arith, All, length, inl, inr,
}
use assisted_events_stream.Value.{Fields}
use assisted_events_stream.Types.{Float, EnrichedEvent}
use assisted_events_stream.Summary.{
  Counter, of_nat, divide, float_lt, get_hosts_from_event, get_highest_key_value, summary_of,
}
use assisted_events_stream.Summary.Counts.{infra_envs_of, has_label, count_label, count_label-le}
use assisted_events_stream.Summary.Shares.{share, counter_of_summary}
use assisted_events_stream.Summary.Highest.{get_highest_key_value-greatest}
use assisted_events_stream.Summary.Entries.{
  VisitsAll, shares, share_of_mem, mem_of_share, shares-AllPositive,
}

-- All the infra-envs have the label exactly if it is counted once for each.
pub uniform_of_full :
    (k l : String) (envs : List Fields)
    → count_label k l envs ≡ length envs
    → All (λ env. has_label k l env ≡ true) envs
uniform_of_full k l [] h = tt
uniform_of_full k l (env ∷ envs) h =
    ground (arith, count_label-le k l envs, uniform_of_full k l envs)

pub full_of_uniform :
    (k l : String) (envs : List Fields)
    → All (λ env. has_label k l env ≡ true) envs
    → count_label k l envs ≡ length envs
full_of_uniform k l [] h = refl
full_of_uniform k l (env ∷ envs) h = ground (arith, full_of_uniform k l envs h.1)

reaches : (n a b : ℕ) → suc n * b ≤ a * (1 * suc n) → b ≤ a
reaches n a b h = le_of_mul-le-mul_left {k = suc n} (omega arith) (omega arith)

-- a value that is not below 1
not_below_one : (x : Float) → float_lt x (of_nat 1) ≡ false → x.denominator ≤ x.numerator
not_below_one x h = ground arith

below_one : (x : Float) → x.denominator ≤ x.numerator → float_lt x (of_nat 1) ≡ false
below_one x h = ground arith

full_of_share :
    (n total : ℕ) (x : Float)
    → n ≤ total
    → x.denominator ≤ x.numerator
    → share n total ≡ some x
    → (n ≡ total) × (0 < n)
full_of_share zero total x le h e = cc
full_of_share (suc n) total x le h e = ground arith

abbrev pub label_of_highest : (Counter → Counter) → List Fields → String × Float
label_of_highest order envs = get_highest_key_value (order (shares "cpu_architecture" envs))

module _ (order : Counter → Counter) (visits : VisitsAll order) where
  pub uniform_of_highest :
      (envs : List Fields)
      → float_lt (label_of_highest order envs).1 (of_nat 1) ≡ false
      → (label : String) × (envs ≢ [])
        × All (λ env. has_label "cpu_architecture" label env ≡ true) envs
  uniform_of_highest envs h =
      let found =
        get_highest_key_value-greatest (order (shares "cpu_architecture" envs))
          (shares-AllPositive order "cpu_architecture" envs visits) in
      elim found.1 [
        | inl e ↦ absurd (
            omega (
              arith,
              not_below_one (label_of_highest order envs).1 h,
              ap (λ (p : String × Float). p.1.numerator) e,
              ap (λ (p : String × Float). p.1.denominator) e,
            ))
        | inr m ↦
            let r = label_of_highest order envs in
            let full =
              full_of_share (count_label "cpu_architecture" r.0 envs) (length envs) r.1
                (count_label-le "cpu_architecture" r.0 envs) (not_below_one r.1 h)
                (share_of_mem "cpu_architecture" r.0 r.1 envs
                  (visits.met (shares "cpu_architecture" envs) r m)) in
            (
              r.0,
              λ e. omega (arith, full, ap (λ (l : List Fields). length l) e),
              uniform_of_full "cpu_architecture" r.0 envs full.0,
            )
      ]

  pub highest_of_uniform :
      (envs : List Fields) (label : String)
      → envs ≢ []
      → All (λ env. has_label "cpu_architecture" label env ≡ true) envs
      → float_lt (label_of_highest order envs).1 (of_nat 1) ≡ false
  highest_of_uniform [] label ne all = absurd (ne refl)
  highest_of_uniform (env ∷ envs) label ne all =
      let (above, _, _) =
        get_highest_key_value-greatest (order (shares "cpu_architecture" (env ∷ envs)))
          (shares-AllPositive order "cpu_architecture" (env ∷ envs) visits) in
      let n = length envs in
      let x : Float = divide (of_nat (suc n)) (suc n) in
      let counted : share (count_label "cpu_architecture" label (env ∷ envs)) (suc n) ≡ some x =
        rw (full_of_uniform "cpu_architecture" label (env ∷ envs) all) in
      let le = above label x (
        visits.meets (shares "cpu_architecture" (env ∷ envs)) (label, x)
          (mem_of_share "cpu_architecture" label x (env ∷ envs) counted)) in
      below_one _ (reaches n _ _ le)

  pub heterogeneous_lem :
      (event : EnrichedEvent)
      → (summary_of order event).has_etherogeneous_architecture
        ≡ float_lt
            (label_of_highest order (infra_envs_of (get_hosts_from_event event))).1
            (of_nat 1)
  unfolding summary_of
  heterogeneous_lem event =
      ap (λ (c : Counter). float_lt (get_highest_key_value (order c)).1 (of_nat 1))
        (counter_of_summary order event "cpu_architecture" refl)

  -- In whatever order the entries are visited, if each is met and nothing else: the architecture is reported as not heterogeneous
  -- exactly if some host has an infra-env and one label is the cpu_architecture of all infra-envs.
  pub not_heterogeneous_iff :
      (event : EnrichedEvent)
      → ((summary_of order event).has_etherogeneous_architecture ≡ false) ↔ (
          (label : String) × (infra_envs_of (get_hosts_from_event event) ≢ [])
          × All
              (λ env. has_label "cpu_architecture" label env ≡ true)
              (infra_envs_of (get_hosts_from_event event)))
  not_heterogeneous_iff event =
      let envs = infra_envs_of (get_hosts_from_event event) in
      (
        λ h. uniform_of_highest envs (sym (heterogeneous_lem event) ∙ h),
        λ u. heterogeneous_lem event ∙ highest_of_uniform envs u.0 u.1 u.2,
      )
