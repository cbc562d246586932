-- ===== src/Extractor/Paths.antt =====
-- filepath.Join and filepath.Dir, on paths with slashes.
use Prim.Native.Char.{code}
use assisted_events_stream.Prelude.{
  String, ◌≡◌, refl, Bool, true, false, ◌||◌, List, [], ◌∷◌, ◌==◌, ◌<>◌, nat_eq, if◌then◌else◌,
}
use assisted_events_stream.Text

-- The segments that are kept, the last one first.
abbrev up : Bool → List String → List String
up rooted [] = if rooted then [] else ".." ∷ []
up rooted (segment ∷ kept) = if segment == ".." then ".." ∷ segment ∷ kept else kept

abbrev step : Bool → List String → String → List String
step rooted kept segment =
    if segment == "" || segment == "."
    then kept
    else if segment == ".."
    then up rooted kept
    else segment ∷ kept

steps : Bool → List String → List String → List String
steps rooted kept [] = kept
steps rooted kept (segment ∷ segments) = steps rooted (step rooted kept segment) segments

-- the kept segments in their order, with slashes between them, before `rest`
abbrev joined_before : List String → String → String
joined_before [] rest = rest
joined_before (segment ∷ kept) rest = joined_before kept (segment <> "/" <> rest)

abbrev joined : List String → String
joined [] = ""
joined (segment ∷ kept) = joined_before kept segment

abbrev or_dot : String → String
or_dot s = if s == "" then "." else s

-- `filepath.Clean`
unfoldable pub clean : String → String
unfolding steps Text.split Text.has_prefix
clean path =
    if Text.has_prefix "/" path
    then "/" <> joined (steps true [] (Text.split path "/"))
    else or_dot (joined (steps false [] (Text.split path "/")))

-- `filepath.Join` of two elements
unfoldable pub join : String → String → String
unfolding clean
join dir name =
    if dir == "" then if name == "" then "" else clean name else clean (dir <> "/" <> name)

up_to_slash : String → String
up_to_slash String.[] = ""
up_to_slash (String.◌∷◌ c s) =
    let rest = up_to_slash s in
    if rest == "" then if nat_eq (code c) b'/' then "/" else "" else String.◌∷◌ c rest

-- `filepath.Dir`
unfoldable pub dir : String → String
unfolding clean up_to_slash
dir path = clean (up_to_slash path)

join_plain : join "/tmp/.untar-1" "c/events/hosts.json" ≡ "/tmp/.untar-1/c/events/hosts.json"
unfolding join
join_plain = refl

-- The name of an entry can lead out of the directory.
join_escapes : join "/tmp/.untar-1" "../../etc/passwd" ≡ "/etc/passwd"
unfolding join
join_escapes = refl

dir_of_file : dir "/tmp/.untar-1/c/events.json" ≡ "/tmp/.untar-1/c"
unfolding dir
dir_of_file = refl
