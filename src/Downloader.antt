-- ===== src/Downloader.antt =====
-- internal/onprem/downloader.go: a file that is downloaded into one directory. The HTTP client, url.Parse
-- and the file system are the parameter `Web`, over its state.
use mathlib.Core.Path.{subst}
use assisted_events_stream.Prelude.{
  String, ◌≡◌, refl, sym, ap, ◌∙◌, Option, none, some, List, [], ◌∷◌,
}
use assisted_events_stream.Types.{Error, Result, ok, err}
use assisted_events_stream.Text
use assisted_events_stream.Extractor.Paths.{join}

-- `parse` gives the path of the parsed URL. `get` gives the body of the response, whatever its status.
pub record Web : Type 1 where
  pub State : Type 0
  pub Body : Type 0
  pub parse : String → Result String
  pub get : String → State → State × Result Body
  pub create : String → State → State × Option Error
  pub copy : String → Body → State → State × Option Error
  pub remove_all : String → State → State

-- `segments[len(segments)-1]`
unfoldable pub last_segment : List String → String
last_segment [] = ""
last_segment (segment ∷ []) = segment
last_segment (segment ∷ segments) = last_segment segments

-- The name of the file for a path of a URL.
unfoldable pub filename_of : String → String → String
unfolding last_segment
filename_of download_dir path = join download_dir (last_segment (Text.split path "/"))

module _ (web : Web) (download_dir : String) where
  open web use {State, Body}

  abbrev copied : String → State × Option Error → State × Result String
  copied filename (s, none) = (s, ok filename)
  copied filename (s, some e) = (s, err e)

  abbrev created : String → Body → State × Option Error → State × Result String
  created filename body (s, none) = copied filename (web.copy filename body s)
  created filename body (s, some e) = (s, err e)

  abbrev received : String → State × Result Body → State × Result String
  received filename (s, ok body) = created filename body (web.create filename s)
  received filename (s, err e) = (s, err e)

  abbrev parsed : String → Result String → State → State × Result String
  parsed raw_url (err e) s = (s, err e)
  parsed raw_url (ok path) s = received (filename_of download_dir path) (web.get raw_url s)

  -- `DownloadFile`
  unfoldable pub download_file : String → State → State × Result String
  unfolding filename_of
  download_file raw_url s = parsed raw_url (web.parse raw_url) s

  -- `Close`
  unfoldable pub close : State → State
  close s = web.remove_all download_dir s

  -- Whatever comes out is the name or an error.
  abbrev IsNamed : String → State × Result String → Type 0
  IsNamed filename (s, ok name) = name ≡ filename
  IsNamed filename (s, err e) = Unit

  copied-IsNamed :
      (filename : String) (r : State × Option Error) → IsNamed filename (copied filename r)
  copied-IsNamed filename (s, none) = refl
  copied-IsNamed filename (s, some e) = tt

  created-IsNamed :
      (filename : String) (body : Body) (r : State × Option Error)
      → IsNamed filename (created filename body r)
  created-IsNamed filename body (s, none) = copied-IsNamed filename (web.copy filename body s)
  created-IsNamed filename body (s, some e) = tt

  received-IsNamed :
      (filename : String) (r : State × Result Body) → IsNamed filename (received filename r)
  received-IsNamed filename (s, ok body) = created-IsNamed filename body (web.create filename s)
  received-IsNamed filename (s, err e) = tt

  -- A download that succeeds gives the file that the last segment of the URL's path names in the
  -- directory, so two URLs whose paths end in one segment give one file.
  pub download_file-filename_of :
      (raw_url path filename : String) (s s' : State)
      → web.parse raw_url ≡ ok path
      → download_file raw_url s ≡ (s', ok filename)
      → filename ≡ filename_of download_dir path
  unfolding download_file
  download_file-filename_of raw_url path filename s s' p h =
      let got : parsed raw_url (ok path) s ≡ (s', ok filename) =
        ap (λ (r : Result String). parsed raw_url r s) (sym p) ∙ h in
      subst (IsNamed (filename_of download_dir path)) got
        (received-IsNamed (filename_of download_dir path) (web.get raw_url s))
