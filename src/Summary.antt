-- ===== src/Summary.antt =====
-- internal/projection/process/hosts_summary.go: the summary of a cluster's hosts.
-- Go visits the entries of a map in any order; `order` stands for the order of one visit.
pub mod Counts
pub mod Shares
pub mod Highest
pub mod Entries
pub mod Heterogeneity
pub mod Unordered
use Prim.Native.Char.{Char, code}
use assisted_events_stream.Prelude.{
  ℕ, ◌+◌, ◌*◌, String, ◌≡◌, refl, Bool, Option, none, some, List, [], ◌∷◌, ◌==◌, ltb, nat_eq,
  if◌then◌else◌, true, false,
}
use assisted_events_stream.Value.{Value, str, arr, obj, Items, Fields, nil, cons, entries, lookup}
use assisted_events_stream.Types.{Float, HostsSummary, EnrichedEvent}

-- `map[string]float64`, and `types.HostsInfraEnvSummary`
abbrev pub Counter : Type 0
Counter = List (String × Float)

abbrev pub Stats : Type 0
Stats = List (String × Counter)

-- float64(n)
abbrev pub of_nat : ℕ → Float
of_nat n = record { numerator = n; denominator = 1 }

-- `x + 1`, `x / float64(total)` and `x < y`
abbrev pub add_one : Float → Float
add_one x = record x { numerator = x.numerator + x.denominator }

abbrev pub divide : Float → ℕ → Float
divide x total = record x { denominator = x.denominator * total }

abbrev pub float_lt : Float → Float → Bool
float_lt x y = ltb (x.numerator * y.denominator) (y.numerator * x.denominator)

-- the objects among the elements
maps_of : Items → List Fields
maps_of nil = []
maps_of (cons (obj m) vs) = m ∷ maps_of vs
maps_of (cons _ vs) = maps_of vs

hosts_of : Option Value → List Fields
hosts_of (some (arr vs)) = maps_of vs
hosts_of _ = []

unfoldable pub get_hosts_from_event : EnrichedEvent → List Fields
unfolding maps_of hosts_of
get_hosts_from_event event = hosts_of (lookup "hosts" (entries event.cluster))

infra_env_of : Option Value → Option Fields
infra_env_of (some (obj m)) = some m
infra_env_of _ = none

-- `none` is the `false` of the source
unfoldable pub get_infra_env_from_host : Fields → Option Fields
unfolding infra_env_of
get_infra_env_from_host host = infra_env_of (lookup "infra_env" host)

-- `strings.Replace(label, ".", "_", -1)`
unfoldable pub replace_dots : String → String
replace_dots String.[] = ""
replace_dots (String.◌∷◌ c s) =
    String.◌∷◌ (let underscore : Char = "_" in if nat_eq (code c) 46 then underscore else c)
      (replace_dots s)

-- `m[label] = m[label] + 1`
unfoldable pub bump : String → Counter → Counter
bump label [] = (label, add_one (of_nat 0)) ∷ []
bump label ((k, x) ∷ c) = if k == label then (k, add_one x) ∷ c else (k, x) ∷ bump label c

unfoldable pub update_counter : Option Value → Counter → Counter
unfolding bump replace_dots
update_counter (some (str label)) c = bump (replace_dots label) c
update_counter _ c = c

unfoldable pub update_infra_env_stats : Stats → Fields → Stats
unfolding update_counter
update_infra_env_stats [] infra_env = []
update_infra_env_stats ((k, c) ∷ stats) infra_env =
    (k, update_counter (lookup k infra_env) c) ∷ update_infra_env_stats stats infra_env

unfoldable pub normalize_counter : Counter → ℕ → Counter
normalize_counter [] total = []
normalize_counter ((k, x) ∷ c) total = (k, divide x total) ∷ normalize_counter c total

unfoldable pub normalize_infra_env_stats : Stats → ℕ → Stats
unfolding normalize_counter
normalize_infra_env_stats [] total = []
normalize_infra_env_stats ((k, c) ∷ stats) total =
    (k, normalize_counter c total) ∷ normalize_infra_env_stats stats total

highest_from : String → Float → Counter → String × Float
highest_from key value [] = (key, value)
highest_from key value ((k, v) ∷ c) =
    highest_from (if float_lt value v then k else key) (if float_lt value v then v else value) c

unfoldable pub get_highest_key_value : Counter → String × Float
unfolding highest_from
get_highest_key_value c = highest_from "" (of_nat 0) c

-- `stats[k]`
unfoldable pub counter_at : String → Stats → Counter
counter_at k [] = []
counter_at k ((j, c) ∷ stats) = if j == k then c else counter_at k stats

abbrev pub empty_stats : Stats
empty_stats = ("type", []) ∷ ("cpu_architecture", []) ∷ ("openshift_version", []) ∷ []

-- What the loop over the hosts keeps.
pub record Tally : Type 0 where
  pub host_count : ℕ
  pub total_infra_envs : ℕ
  pub stats : Stats

tally_infra_env : Option Fields → Tally → Tally
tally_infra_env none t = t
tally_infra_env (some infra_env) t = record t {
  total_infra_envs = t.total_infra_envs + 1;
  stats = update_infra_env_stats t.stats infra_env;
}

unfoldable pub tally_hosts : List Fields → Tally → Tally
unfolding tally_infra_env update_infra_env_stats get_infra_env_from_host
tally_hosts [] t = t
tally_hosts (host ∷ hosts) t =
    tally_hosts hosts
      (tally_infra_env (get_infra_env_from_host host) (record t { host_count = t.host_count + 1 }))

summarize : (Counter → Counter) → Tally → HostsSummary
summarize order t =
    let stats = normalize_infra_env_stats t.stats t.total_infra_envs in
    let arch = (get_highest_key_value (order (counter_at "cpu_architecture" stats))).1 in
    record {
      has_etherogeneous_architecture = float_lt arch (of_nat 1);
      host_count = t.host_count;
      infra_env = stats;
      iso_type = (get_highest_key_value (order (counter_at "type" stats))).0;
    }

abbrev pub start_tally : Tally
start_tally = record { host_count = 0; total_infra_envs = 0; stats = empty_stats }

-- The summary that AddHostsSummary stores in the event.
unfoldable pub summary_of : (Counter → Counter) → EnrichedEvent → HostsSummary
unfolding summarize tally_hosts normalize_infra_env_stats get_highest_key_value counter_at
    get_hosts_from_event
summary_of order event = summarize order (tally_hosts (get_hosts_from_event event) start_tally)

-- `AddHostsSummary`, which never fails
unfoldable pub add_hosts_summary : (Counter → Counter) → EnrichedEvent → EnrichedEvent
unfolding summary_of
add_hosts_summary order event = record event { hosts_summary = some (summary_of order event) }

replace_version : replace_dots "4.12" ≡ "4_12"
unfolding replace_dots
replace_version = refl
