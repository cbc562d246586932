-- ===== src/Snapshot/Keys.antt =====
-- The keys of the hashes: no two kinds of snapshot, and no two clusters, share one.
use text.Mathlib.TextLemmas.{cons-append, append_cancel_left}
use Prim.Native.Char.{code}
use assisted_events_stream.Prelude.{ℕ, String, ◌≡◌, ◌≢◌, refl, ap, arith}
use assisted_events_stream.Snapshot.{get_clusters_hkey, get_hosts_hkey, get_infra_envs_hkey}

pub get_hosts_hkey_injective : (a b : String) → get_hosts_hkey a ≡ get_hosts_hkey b → a ≡ b
unfolding get_hosts_hkey
get_hosts_hkey_injective a b h = append_cancel_left "hosts_" a b h

pub get_infra_envs_hkey_injective :
    (a b : String) → get_infra_envs_hkey a ≡ get_infra_envs_hkey b → a ≡ b
unfolding get_infra_envs_hkey
get_infra_envs_hkey_injective a b h = append_cancel_left "infraenvs_" a b h

abbrev first_code : String → ℕ
first_code String.[] = 0
first_code (String.◌∷◌ c s) = code c

hosts_first : (a : String) → first_code (get_hosts_hkey a) ≡ 104
unfolding get_hosts_hkey
hosts_first a = ap first_code (cons-append "h" "osts_" a)

infra_envs_first : (a : String) → first_code (get_infra_envs_hkey a) ≡ 105
unfolding get_infra_envs_hkey
infra_envs_first a = ap first_code (cons-append "i" "nfraenvs_" a)

clusters_first : first_code get_clusters_hkey ≡ 99
unfolding get_clusters_hkey
clusters_first = refl

pub hosts-ne-infra_envs : (a b : String) → get_hosts_hkey a ≢ get_infra_envs_hkey b
hosts-ne-infra_envs a b h = omega (arith, ap first_code h, hosts_first a, infra_envs_first b)

pub clusters-ne-hosts : (a : String) → get_clusters_hkey ≢ get_hosts_hkey a
clusters-ne-hosts a h = omega (arith, ap first_code h, clusters_first, hosts_first a)

pub clusters-ne-infra_envs : (a : String) → get_clusters_hkey ≢ get_infra_envs_hkey a
clusters-ne-infra_envs a h = omega (arith, ap first_code h, clusters_first, infra_envs_first a)
