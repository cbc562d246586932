-- ===== src/Summary/Entries.antt =====
-- The entries of a counter of the summary, whatever the order in which they are visited.
use mathlib.Core.List.{Memᴰ}
use assisted_events_stream.Prelude.{
  true, ℕ, zero, suc, ◌≤◌, ◌<◌, String, ◌≡◌, refl, sym, ap, ◌∙◌, Option, none, some, List, [], ◌∷◌,
  arith, ◌==◌, eq_iff, eq_refl, length, Bool-cases, inl, inr,
}
use assisted_events_stream.Value.{Value, null, str, Fields, lookup}
use assisted_events_stream.Types.{Float, EnrichedEvent}
use assisted_events_stream.Summary.{
  Counter, bump, update_counter, normalize_counter, counter_at, empty_stats, summary_of,
  get_hosts_from_event,
}
use assisted_events_stream.Summary.Counts.{
  infra_envs_of, count_label, count_label-le, get, get-bump, count_all, count_all-empty,
}
use assisted_events_stream.Summary.Shares.{share, get-normalize, has_key, counter_of_summary}
use assisted_events_stream.Summary.Highest.{AllPositive}

-- A visit meets each entry, and nothing else.
pub record VisitsAll (order : Counter → Counter) : Type 0 where
  pub meets : (c : Counter) (x : String × Float) → Memᴰ x c → Memᴰ x (order c)
  pub met : (c : Counter) (x : String × Float) → Memᴰ x (order c) → Memᴰ x c

-- Each label is listed once.
abbrev pub NodupKeys : Counter → Type 0
NodupKeys [] = Unit
NodupKeys ((k, x) ∷ c) = (get k c ≡ none) × NodupKeys c

bump-NodupKeys : (label : String) (c : Counter) → NodupKeys c → NodupKeys (bump label c)
unfolding bump get
bump-NodupKeys label [] h = (refl, tt)
bump-NodupKeys label ((k, x) ∷ c) h =
    ground (arith, bump-NodupKeys label c h.1, get-bump k label c, eq_iff k label, eq_iff label k)

count_all-NodupKeys :
    (k : String) (envs : List Fields) (c : Counter) → NodupKeys c → NodupKeys (count_all k envs c)
unfolding count_all update_counter
count_all-NodupKeys k [] c h = h
count_all-NodupKeys k (env ∷ envs) c h =
    count_all-NodupKeys k envs (update_counter (lookup k env) c) (update (lookup k env))
  where
    update : (v : Option Value) → NodupKeys (update_counter v c)
    update none = h
    update (some (str s)) = bump-NodupKeys _ c h
    update (some null) = h
    update (some _) = h

get-normalize_none :
    (l : String) (c : Counter) (total : ℕ)
    → get l c ≡ none
    → get l (normalize_counter c total) ≡ none
unfolding get normalize_counter
get-normalize_none l [] total h = refl
get-normalize_none l ((k, x) ∷ c) total h = ground (arith, get-normalize_none l c total)

normalize-NodupKeys :
    (c : Counter) (total : ℕ) → NodupKeys c → NodupKeys (normalize_counter c total)
unfolding normalize_counter
normalize-NodupKeys [] total h = tt
normalize-NodupKeys ((k, x) ∷ c) total h =
    (get-normalize_none k c total h.0, normalize-NodupKeys c total h.1)

mem_of_get : (l : String) (x : Float) (c : Counter) → get l c ≡ some x → Memᴰ (l, x) c
unfolding get
mem_of_get l x [] h = cc
mem_of_get l x ((k, y) ∷ c) h = elim (Bool-cases (k == l)) [
  | inl e ↦ Memᴰ.head (ground (arith, eq_iff k l))
  | inr e ↦ Memᴰ.tail (mem_of_get l x c (rw e at h))
]

get_of_mem : (l : String) (x : Float) (c : Counter) → NodupKeys c → Memᴰ (l, x) c → get l c ≡ some x
unfolding get
get_of_mem l x [] h m = elim m [ ]
get_of_mem l x ((k, y) ∷ c) h (Memᴰ.head e) =
    rw (ap (λ (p : String × Float). p.0) e, eq_refl k)
      (ap (λ (p : String × Float). some p.1) (sym e))
get_of_mem l x ((k, y) ∷ c) h (Memᴰ.tail m) = ground (arith, eq_iff k l, get_of_mem l x c h.1 m)

-- the counter of the summary under one key
abbrev pub shares : String → List Fields → Counter
shares k envs = normalize_counter (count_all k envs []) (length envs)

get-shares :
    (k l : String) (envs : List Fields)
    → get l (shares k envs) ≡ share (count_label k l envs) (length envs)
get-shares k l envs =
    get-normalize l (count_all k envs []) (count_label k l envs) (length envs)
      (count_all-empty k envs l)

-- An entry is the share of its label, which some infra-env has.
pub share_of_mem :
    (k l : String) (x : Float) (envs : List Fields)
    → Memᴰ (l, x) (shares k envs)
    → share (count_label k l envs) (length envs) ≡ some x
share_of_mem k l x envs m =
    sym (get-shares k l envs)
    ∙ get_of_mem l x (shares k envs)
        (normalize-NodupKeys (count_all k envs []) (length envs) (count_all-NodupKeys k envs [] tt))
        m

pub mem_of_share :
    (k l : String) (x : Float) (envs : List Fields)
    → share (count_label k l envs) (length envs) ≡ some x
    → Memᴰ (l, x) (shares k envs)
mem_of_share k l x envs h = mem_of_get l x (shares k envs) (get-shares k l envs ∙ h)

positive_of_share :
    (n total : ℕ) (x : Float) → n ≤ total → share n total ≡ some x → 0 < x.denominator
positive_of_share zero total x le h = cc
positive_of_share (suc n) zero x le h = elim le [ ]
positive_of_share (suc n) (suc t) x le h = ground arith

AllPositive-of_mem :
    (c : Counter) → ((l : String) (x : Float) → Memᴰ (l, x) c → 0 < x.denominator) → AllPositive c
AllPositive-of_mem [] h = tt
AllPositive-of_mem ((k, x) ∷ c) h =
    (h k x (Memᴰ.head refl), AllPositive-of_mem c (λ l y m. h l y (Memᴰ.tail m)))

-- No share was divided by zero, in whatever order the entries are visited.
pub shares-AllPositive :
    (order : Counter → Counter) (k : String) (envs : List Fields)
    → VisitsAll order
    → AllPositive (order (shares k envs))
shares-AllPositive order k envs visits = AllPositive-of_mem (order (shares k envs)) λ l x m.
    positive_of_share (count_label k l envs) (length envs) x (count_label-le k l envs)
      (share_of_mem k l x envs (visits.met (shares k envs) (l, x) m))

-- Under each of its three keys the summary holds no share that was divided by zero.
summary_of-AllPositive :
    (order : Counter → Counter) (event : EnrichedEvent) (k : String)
    → has_key k empty_stats ≡ true
    → AllPositive (counter_at k (summary_of order event).infra_env)
summary_of-AllPositive order event k h = rw (counter_of_summary order event k h) (
    shares-AllPositive (λ c. c) k (infra_envs_of (get_hosts_from_event event))
      (record { meets = λ c x m. m; met = λ c x m. m }))
