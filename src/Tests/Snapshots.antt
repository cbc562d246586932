-- ===== src/Tests/Snapshots.antt =====
-- Runs of the theorems on the snapshots.
use mathlib.Core.List.{Memᴰ}
use assisted_events_stream.Prelude.{◌≡◌, refl, none, some, [], ◌∷◌, arith}
use assisted_events_stream.Value.{str, obj, Fields, end, field}
use assisted_events_stream.Types.{Event, ok}
use assisted_events_stream.Snapshot.{
  IsSnapshot, new_snapshot_repository, set_host, hset, get_hosts, get_hosts_hkey, event_bytes,
}
use assisted_events_stream.Snapshot.Laws.{IsDecodable, new_snapshot_repository-IsSnapshot}
use assisted_events_stream.Snapshot.Hosts.{get_hosts-set_host}
use assisted_events_stream.Tests.Codec.{codec, marshal}
use assisted_events_stream.Tests.Server.{server, server-IsLawful}
use assisted_events_stream.Tests.Server

abbrev host : Fields
host = field "id" (str "h") (field "cluster_id" (str "c") end)

abbrev host_event : Event
host_event = record { name = "HostState"; payload = obj host; metadata = end }

empty-IsDecodable : IsDecodable codec server []
unfolding Server.hget
empty-IsDecodable k f v h = cc

host_written : (set_host codec server 60 "c" "h" (some host_event) []).1 ≡ none
unfolding set_host hset Server.hset
host_written = refl

answered :
    server.hget_all (get_hosts_hkey "c") (set_host codec server 60 "c" "h" (some host_event) []).0
    ≡ ok (("h", marshal (obj host)) ∷ [])
unfolding set_host hset Server.hset Server.hget_all get_hosts_hkey event_bytes
answered = refl

new_snapshot_repository-IsSnapshot_example : IsSnapshot (new_snapshot_repository codec server 60)
new_snapshot_repository-IsSnapshot_example =
    new_snapshot_repository-IsSnapshot codec server 60 server-IsLawful (omega arith)

get_hosts-set_host_example :
    let read =
      get_hosts codec server 60 "c" (set_host codec server 60 "c" "h" (some host_event) []).0 in
    (read.1 ≡ none) × Memᴰ (some host) read.0
get_hosts-set_host_example =
    get_hosts-set_host codec server 60 server-IsLawful (omega arith) "c" "h" host_event host [] refl
      empty-IsDecodable host_written {raw = ("h", marshal (obj host)) ∷ []} answered
