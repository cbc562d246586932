-- ===== src/Tests/Summaries.antt =====
-- Runs of the theorems on the summary of the hosts.
use mathlib.Core.Logic.{◌↔◌}
use assisted_events_stream.Prelude.{
  String, ◌≡◌, ◌≢◌, refl, true, false, none, some, [], All, length,
}
use assisted_events_stream.Value.{Value, str, arr, obj, nil, cons, end, field}
use assisted_events_stream.Types.{EnrichedEvent}
use assisted_events_stream.Summary.{counter_at, get_hosts_from_event, summary_of}
use assisted_events_stream.Summary.Counts.{infra_envs_of, count_label, get, has_label}
use assisted_events_stream.Summary.Shares.{share, summary_of-shares}
use assisted_events_stream.Summary.Entries.{VisitsAll}
use assisted_events_stream.Summary.Unordered.{
  Hosts, host_count_of, env_count_of, label_count_of, is_heterogeneous, summary_of-unordered,
}
use mathlib.Core.Quot
use assisted_events_stream.Summary.Heterogeneity.{not_heterogeneous_iff}

abbrev host : Value
host = obj (
    field "infra_env"
      (obj (field "cpu_architecture" (str "x86") (field "openshift_version" (str "4.12") end))) end)

abbrev other_host : Value
other_host = obj (field "infra_env" (obj (field "cpu_architecture" (str "arm64") end)) end)

abbrev event : EnrichedEvent
event = record {
  id = "";
  message = "";
  category = "";
  cluster_id = "";
  event_time = "";
  hosts_summary = none;
  name = "";
  request_id = "";
  severity = "";
  properties = none;
  cluster =
      some (field "hosts" (arr (cons host (cons (obj end) (cons other_host (cons host nil))))) end);
  infra_envs = [];
  versions = none;
  release_tag = none;
}

in_order-VisitsAll : VisitsAll (λ c. c)
in_order-VisitsAll = record { meets = λ c x m. m; met = λ c x m. m }

summary_of-shares_example :
    let envs = infra_envs_of (get_hosts_from_event event) in
    ((summary_of (λ c. c) event).host_count ≡ length (get_hosts_from_event event))
    × (get "4_12" (counter_at "openshift_version" (summary_of (λ c. c) event).infra_env)
        ≡ share (count_label "openshift_version" "4_12" envs) (length envs))
summary_of-shares_example = summary_of-shares (λ c. c) event "openshift_version" "4_12" refl

not_heterogeneous_iff_example :
    ((summary_of (λ c. c) event).has_etherogeneous_architecture ≡ false) ↔ (
      (label : String) × (infra_envs_of (get_hosts_from_event event) ≢ [])
      × All
          (λ env. has_label "cpu_architecture" label env ≡ true)
          (infra_envs_of (get_hosts_from_event event)))
not_heterogeneous_iff_example = not_heterogeneous_iff (λ c. c) in_order-VisitsAll event

summary_of-unordered_example :
    let hosts : Hosts = Quot.mk (get_hosts_from_event event) in
    ((summary_of (λ c. c) event).host_count ≡ host_count_of hosts)
    × (get "x86" (counter_at "cpu_architecture" (summary_of (λ c. c) event).infra_env)
        ≡ share (label_count_of "cpu_architecture" "x86" hosts) (env_count_of hosts))
    × ((summary_of (λ c. c) event).has_etherogeneous_architecture ≡ is_heterogeneous hosts)
summary_of-unordered_example =
    summary_of-unordered (λ c. c) in_order-VisitsAll event "cpu_architecture" "x86" refl
