-- ===== src/Extractor.antt =====
-- internal/onprem/event_extractor.go: from the files of an unpacked archive to events on a channel.
-- The operating system is the parameter `Os`, over its state. The channel is filled before anyone
-- receives from it: it is the list of what it holds, and `none` is a send that blocks for ever.
pub mod Paths
pub mod Archive
pub mod Events
pub mod Capacity
pub mod Delivery
use assisted_events_stream.Prelude.{
  ℕ, String, Bool, true, false, Option, none, some, List, [], ◌∷◌, ◌++◌, ◌==◌, ◌<>◌, if◌then◌else◌,
  ltb, length,
}
use assisted_events_stream.Value.{
  Value, null, bool, str, arr, obj, Items, nil, cons, Fields, end, field, Map, entries, lookup,
  insert, erase, to_value,
}
use assisted_events_stream.Types.{Codec, Error, failed, Result, ok, err, Event, EventEnvelope}

pub record EventTypeMatch : Type 0 where
  pub glob : String
  pub event_name : String
  pub cluster_id_key : String

-- What the extractor calls of os, filepath, gzip and io. `open_tar` opens a gzip file and gives its
-- tar entries (Extractor.Archive); `read` opens a file and reads what can be read of it.
pub record Os (Tar : Type 0) : Type 1 where
  pub State : Type 0
  pub mkdir_temp : State → State × Result String
  pub remove_all : String → State → State
  pub open_tar : String → State → Result Tar
  pub mkdir_all : String → State → State × Option Error
  pub open_file : String → State → State × Option Error
  pub copy : String → String → State → State × Option Error
  pub glob : String → State → Result (List String)
  pub read : String → State → Result String

abbrev pub Channel : Type 0
Channel = Option (List EventEnvelope)

-- `eventChannel <- e` on a channel with a buffer of `capacity` that nobody receives from
unfoldable pub send : ℕ → EventEnvelope → Channel → Channel
send capacity e none = none
send capacity e (some sent) = if ltb (length sent) capacity then some (sent ++ e ∷ []) else none

unfoldable pub event_types_matches : List EventTypeMatch
event_types_matches =
    (record {
      glob = "/*/events/hosts.json";
      event_name = "HostState";
      cluster_id_key = "cluster_id";
    })
    ∷ (record {
      glob = "/*/events/cluster.json";
      event_name = "ClusterState";
      cluster_id_key = "id";
    })
    ∷ (record {
      glob = "/*/events/infraenv.json";
      event_name = "InfraEnv";
      cluster_id_key = "cluster_id";
    })
    ∷ (record { glob = "/*/events.json"; event_name = "Event"; cluster_id_key = "cluster_id" })
    ∷ []

-- json.Unmarshal into a map[string]string: a value that is not a text leaves the empty text, and
-- null is no error.
abbrev pub text_or_empty : Value → Value
text_or_empty (str s) = str s
text_or_empty _ = str ""

unfoldable pub to_texts : Fields → Fields
to_texts end = end
to_texts (field k v m) = field k (text_or_empty v) (to_texts m)

abbrev pub fits_text : Value → Bool
fits_text (str s) = true
fits_text null = true
fits_text _ = false

unfoldable pub all_texts : Fields → Bool
all_texts end = true
all_texts (field k v m) = if fits_text v then all_texts m else false

unfoldable pub decode_versions : Option Value → Map × Option Error
unfolding to_texts all_texts
decode_versions none = (some end, some (failed "syntax error"))
decode_versions (some (obj m)) = (
  some (to_texts m),
  if all_texts m then none else some (failed "cannot unmarshal into a string"),
)
decode_versions (some null) = (none, none)
decode_versions (some _) = (some end, some (failed "cannot unmarshal into a map"))

-- The elements of a list that decode into a map each: objects, and null as a nil map.
abbrev pub add_map : Map → Option (List Map) → Option (List Map)
add_map m none = none
add_map m (some ms) = some (m ∷ ms)

unfoldable pub maps_of : Items → Option (List Map)
maps_of nil = some []
maps_of (cons (obj m) vs) = add_map (some m) (maps_of vs)
maps_of (cons null vs) = add_map none (maps_of vs)
maps_of (cons _ vs) = none

abbrev pub or_undecoded : Option (List Map) → Result (List Map)
or_undecoded none = err (failed "cannot unmarshal into a map")
or_undecoded (some ms) = ok ms

-- The decoding of `getResourcesFromFile`: as a list of maps, or else as one map.
unfoldable pub decode_resources : Option Value → Result (List Map)
unfolding maps_of
decode_resources none = err (failed "syntax error")
decode_resources (some (arr vs)) = or_undecoded (maps_of vs)
decode_resources (some null) = ok []
decode_resources (some (obj m)) = ok (some m ∷ [])
decode_resources (some _) = err (failed "cannot unmarshal into a map")

-- `getMetadata`; a map[string]string is written like any other map
unfoldable pub get_metadata : String → Map → Fields
get_metadata event_name versions =
    field "versions" (obj (field "versions" (to_value versions) end)) end

-- The payload of a ClusterState: marked, and without its hosts.
unfoldable pub payload_of : String → Fields → Fields
payload_of event_name resource =
    if event_name == "ClusterState"
    then erase "hosts" (insert "onprem" (bool true) resource)
    else resource

-- The event of a resource by its cluster's identifier; `none` where the function returns.
abbrev pub envelope_by : EventTypeMatch → Map → Fields → Option Value → Option EventEnvelope
envelope_by match versions resource (some (str cluster_id)) = some (record {
  key = cluster_id;
  event = record {
    name = match.event_name;
    payload = obj (payload_of match.event_name resource);
    metadata = get_metadata match.event_name versions;
  };
})
envelope_by match versions resource _ = none

unfoldable pub envelope_of : EventTypeMatch → Map → Map → Option EventEnvelope
envelope_of match versions resource =
    envelope_by match versions (entries resource) (lookup match.cluster_id_key (entries resource))

abbrev pub send_or_return : ℕ → Option EventEnvelope → Channel → (Channel → Channel) → Channel
send_or_return capacity none ch next = ch
send_or_return capacity (some e) ch next = next (send capacity e ch)

-- `transformResourcesToEvents`: the first resource without a text for its cluster ends it.
unfoldable pub transform_resources_to_events :
    ℕ → EventTypeMatch → Map → List Map → Channel → Channel
unfolding send envelope_of
transform_resources_to_events capacity match versions [] ch = ch
transform_resources_to_events capacity match versions (resource ∷ resources) ch =
    send_or_return capacity (envelope_of match versions resource) ch
      (transform_resources_to_events capacity match versions resources)

module _ (json : Codec) {Tar : Type 0} (os : Os Tar) (capacity : ℕ) where
  open os use {State}

  abbrev pub decoded_resources : Result String → Result (List Map)
  decoded_resources (err e) = err e
  decoded_resources (ok raw) = decode_resources (json.unmarshal raw)

  -- `getResourcesFromFile`
  unfoldable pub get_resources_from_file : String → State → Result (List Map)
  get_resources_from_file filename s = decoded_resources (os.read filename s)

  abbrev pub decoded_versions : Result String → Map × Option Error
  decoded_versions (err e) = (some end, some e)
  decoded_versions (ok raw) = decode_versions (json.unmarshal raw)

  abbrev pub versions_from : String → Result (List String) → State → Map × Option Error
  versions_from filename (err e) s = (some end, some (failed "could not glob"))
  versions_from filename (ok []) s = (some end, some (failed "no versions file found"))
  versions_from filename (ok (file ∷ files)) s = decoded_versions (os.read file s)

  -- `getVersionsFromFile`
  unfoldable pub get_versions_from_file : String → String → State → Map × Option Error
  get_versions_from_file tmpdir filename s =
      versions_from filename (os.glob (tmpdir <> filename) s) s

  -- a file that cannot be read or decoded gives no resources
  abbrev pub or_no_resources : Result (List Map) → List Map
  or_no_resources (err e) = []
  or_no_resources (ok resources) = resources

  unfoldable pub extract_from_files : EventTypeMatch → Map → List String → State → Channel → Channel
  unfolding get_resources_from_file transform_resources_to_events
  extract_from_files match versions [] s ch = ch
  extract_from_files match versions (file ∷ files) s ch =
      extract_from_files match versions files s (
        transform_resources_to_events capacity match versions
          (or_no_resources (get_resources_from_file file s)) ch)

  abbrev pub or_no_files : Result (List String) → List String
  or_no_files (err e) = []
  or_no_files (ok files) = files

  -- `extractEventsForEventType`
  unfoldable pub extract_events_for_event_type :
      String → Map → State → EventTypeMatch → Channel → Channel
  unfolding extract_from_files
  extract_events_for_event_type tmpdir versions s match ch =
      extract_from_files match versions (or_no_files (os.glob (tmpdir <> match.glob) s)) s ch

  unfoldable pub extract_for_matches :
      String → Map → State → List EventTypeMatch → Channel → Channel
  unfolding extract_events_for_event_type
  extract_for_matches tmpdir versions s [] ch = ch
  extract_for_matches tmpdir versions s (match ∷ matches) ch =
      extract_for_matches tmpdir versions s matches
        (extract_events_for_event_type tmpdir versions s match ch)

  -- `extractEvents`
  unfoldable pub extract_events : String → State → Channel → Channel
  unfolding extract_for_matches get_versions_from_file event_types_matches
  extract_events tmpdir s ch =
      extract_for_matches tmpdir (get_versions_from_file tmpdir "/*/versions.json" s).0 s
        event_types_matches ch
