-- ===== src/Tests/Assembling.antt =====
-- Runs of the theorems on the whole enricher.
use assisted_events_stream.Prelude.{
  String, ◌≡◌, ◌≢◌, refl, inl, inr, false, Option, none, some, [], ◌∷◌, ◌<>◌, ◌==◌, All, IsOneOf,
  if◌then◌else◌,
}
use assisted_events_stream.Value.{Value, str, obj, Fields, end, field, entries, lookup}
use assisted_events_stream.Types.{
  HostsSummary, Error, Event, EnrichedEvent, Message, Outcome, returned, panicked,
}
use assisted_events_stream.Types.Encode.{encode_enriched_event, encode_hosts_summary}
use assisted_events_stream.Types.Decode.Enriched.{
  Decoded, decode_enriched_event, zero_enriched_event,
}
use assisted_events_stream.Types.Decode.ReadBack.{
  omitted, read_back, decode_enriched_event-encode_enriched_event,
}
use assisted_events_stream.Snapshot.{SnapshotRepository}
use assisted_events_stream.Process.{slice, get_default_fields_to_anonymize}
use assisted_events_stream.Summary.{summary_of}
use assisted_events_stream.Enricher.{get_versions_from_metadata, get_release_tag_from_metadata}
use assisted_events_stream.Enricher.Embedding.{completed_hosts, HasTextId}
use assisted_events_stream.Enricher.Assembly.{
  Tools, Visits, namespace, values_of, decode_payload, get_base_enriched_event, get_enriched_event,
  get_enriched_event_from_json, add_hosts_summary_json,
}
use assisted_events_stream.Enricher.Defaults.{keys_of}
use assisted_events_stream.Enricher.Returns.{AreDefaults}
use assisted_events_stream.Enricher.Privacy.{get_enriched_event-returns_private}
use assisted_events_stream.Enricher.Lists.{Lacks}
use assisted_events_stream.Enricher.Sources.{
  get_base_enriched_event-completed, get_enriched_event_from_json-add_hosts_summary_json,
}
use assisted_events_stream.Projection.{World, process_message}
use assisted_events_stream.Projection.Returns.{
  Returns, StoreReturns, new_event_enricher, process_message-no_panic,
}
use assisted_events_stream.Tests.Codec.{codec, marshal, unmarshal}
use assisted_events_stream.Tests.Parts.{paths, paths-IsLawful, enriched_events}

abbrev pub text_of : Option Value → String
text_of (some (str s)) = s
text_of _ = ""

-- a reader of summaries that looks at one member
abbrev pub decode_summary : Value → Option HostsSummary → Decoded (Option HostsSummary)
decode_summary (obj m) old = (
  some (record {
    has_etherogeneous_architecture = false;
    host_count = 0;
    infra_env = [];
    iso_type = text_of (lookup "iso_type" m);
  }),
  none,
)
decode_summary _ old = (none, none)

abbrev pub tools : Tools
tools = record {
  bits = λ x. x.numerator;
  decode_summary = decode_summary;
  new_sha1 = λ n s. n <> s;
  md5_hex = λ s. "d_" <> s;
}

abbrev pub visits : Visits
visits = record {
  members = λ m. m;
  counter = λ c. c;
  sensitive_keys = keys_of get_default_fields_to_anonymize;
  sensitive_paths = get_default_fields_to_anonymize;
}

pub visits-AreDefaults : AreDefaults visits
unfolding get_default_fields_to_anonymize
visits-AreDefaults = record {
  keys = (inl refl, (inr (inl refl), (inr (inr (inl refl)), (inr (inr (inr (inl refl))), tt))));
  paths = (inl refl, (inr (inl refl), (inr (inr (inl refl)), (inr (inr (inr (inl refl))), tt))));
}

pub empty_invalid : unmarshal "" ≡ none
unfolding unmarshal
empty_invalid = refl

abbrev cluster : Fields
cluster = field "id" (str "c") (field "user_name" (str "bob") end)

abbrev host : Fields
host = field "id" (str "h") (field "infra_env_id" (str "e") end)

abbrev env : Fields
env = field "id" (str "e") (field "type" (str "full-iso") end)

abbrev event : Event
event = record {
  name = "Event";
  payload = obj (field "cluster_id" (str "c") (field "message" (str "done") end));
  metadata = end;
}

hosts-HasTextId : All HasTextId (some host ∷ [])
unfolding lookup
hosts-HasTextId = (tt, tt)

abbrev enriched : EnrichedEvent
enriched = record zero_enriched_event {
  message = "done";
  cluster = some cluster;
  infra_envs = some env ∷ [];
  release_tag = some "v1";
}

decode_enriched_event-encode_enriched_event_example :
    decode_enriched_event decode_summary
      (some (encode_enriched_event tools.bits enriched))
      zero_enriched_event
    ≡ read_back (decode_summary (encode_hosts_summary tools.bits none) none) enriched
decode_enriched_event-encode_enriched_event_example =
    decode_enriched_event-encode_enriched_event decode_summary tools.bits enriched

get_enriched_event_from_json-add_hosts_summary_json_example :
    get_enriched_event_from_json codec paths tools visits (
      add_hosts_summary_json codec paths tools visits
        (marshal (encode_enriched_event tools.bits enriched)))
    ≡ (let e =
          get_enriched_event_from_json codec paths tools visits
            (marshal (encode_enriched_event tools.bits enriched)) in
        record e {
          properties = omitted e.properties;
          hosts_summary =
              (tools.decode_summary
                (encode_hosts_summary tools.bits (some (summary_of visits.counter e)))
                none).0;
        })
get_enriched_event_from_json-add_hosts_summary_json_example =
    get_enriched_event_from_json-add_hosts_summary_json codec paths tools visits
      (marshal (encode_enriched_event tools.bits enriched))

get_base_enriched_event-completed_example :
    (e : EnrichedEvent) × (error : Option Error) × (get_base_enriched_event codec paths tools visits
        event
        (some cluster)
        (some host ∷ [])
        (some env ∷ [])
      ≡ some (e, error))
    × ((k : String)
        → lookup k (entries e.cluster) ≡ (
            if "hosts" == k
            then some (slice (values_of (completed_hosts (some host ∷ []) (some env ∷ []))))
            else lookup k cluster))
    × (e.infra_envs ≡ some env ∷ [])
    × (e.versions ≡ get_versions_from_metadata event.metadata)
    × (e.release_tag ≡ get_release_tag_from_metadata event.metadata)
    × (e.id ≡ tools.new_sha1 namespace (e.message <> e.event_time))
    × (e.message ≡ (decode_payload codec paths tools visits event).0.message)
    × (e.event_time ≡ (decode_payload codec paths tools visits event).0.event_time)
    × (e.name ≡ (decode_payload codec paths tools visits event).0.name)
get_base_enriched_event-completed_example =
    get_base_enriched_event-completed codec paths tools visits event cluster (some host ∷ [])
      (some env ∷ []) hosts-HasTextId

-- snapshots that know one cluster with one host
abbrev snapshots : SnapshotRepository
snapshots = record {
  State = Unit;
  set_cluster = λ id e s. (s, none);
  set_host = λ id host_id e s. (s, none);
  set_infra_env = λ id infra_env_id e s. (s, none);
  get_cluster = λ id s. (some cluster, none);
  get_hosts = λ id s. (some host ∷ [], none);
  get_infra_envs = λ id s. (some env ∷ [], none);
}

abbrev world : World snapshots enriched_events
world = record { snapshots = tt; enriched = []; acks = [] }

abbrev message : Message
message = record {
  key = "c";
  value = marshal (
      obj (
        field "name" (str "Event")
          (field "payload" (obj (field "cluster_id" (str "c") (field "ID" (str "7") end))) end)));
  offset = 0;
  headers = [];
}

store-Returns : StoreReturns enriched_events
store-Returns e msg s h = returned-ne-panicked h
  where
    returned-ne-panicked : (let o : Outcome = returned none in o ≢ panicked)
    returned-ne-panicked h = cc

process_message-no_panic_example :
    Returns codec snapshots (new_event_enricher codec paths tools visits) enriched_events [] (
      process_message codec snapshots
        (new_event_enricher codec paths tools visits)
        enriched_events
        []
        message
        world)
process_message-no_panic_example =
    process_message-no_panic codec paths paths-IsLawful empty_invalid tools visits
      visits-AreDefaults snapshots enriched_events [] store-Returns message world
      (λ id. (cluster, refl)) (λ id. hosts-HasTextId)

pub visits_user_name : IsOneOf visits.sensitive_paths ("cluster.user_name", "cluster.user_id")
unfolding get_default_fields_to_anonymize
visits_user_name = inl refl

abbrev secret_cluster : Fields
secret_cluster =
    field "user_name" (str "bob")
      (field "pull_secret" (str "s") (field "ssh_public_key" (str "k") end))

abbrev secret_env : Fields
secret_env = field "id" (str "e") (field "ssh_authorized_key" (str "k") end)

get_enriched_event-returns_private_example :
    (e : EnrichedEvent) × (get_enriched_event codec paths tools visits event
        (some secret_cluster)
        (some host ∷ [])
        (some secret_env ∷ [])
      ≡ some e)
    × Lacks ("ssh_public_key" ∷ "pull_secret" ∷ "user_name" ∷ []) (entries e.cluster)
    × All (λ m. lookup "ssh_authorized_key" (entries m) ≡ none) e.infra_envs
get_enriched_event-returns_private_example =
    get_enriched_event-returns_private codec paths paths-IsLawful tools visits empty_invalid
      visits-AreDefaults visits_user_name event secret_cluster (some host ∷ [])
      (some secret_env ∷ []) hosts-HasTextId
