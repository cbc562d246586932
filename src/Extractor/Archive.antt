-- ===== src/Extractor/Archive.antt =====
-- internal/onprem/event_extractor.go: unpacking an archive, and ExtractEvents as a whole.
use assisted_events_stream.Prelude.{
  ℕ, String, ◌≡◌, refl, Bool, true, false, Option, none, some, List, [], ◌∷◌,
}
use assisted_events_stream.Types.{Codec, Error, Result, ok, err}
use assisted_events_stream.Extractor.{Os, Channel, extract_events}
use assisted_events_stream.Extractor.Paths.{join, dir}

-- An entry of a tar file, and what `Next` gives: the end, an error, or an entry.
pub record TarEntry : Type 0 where
  pub name : String
  pub is_dir : Bool
  pub content : String

pub data TarRound : Type 0 where
  eof : TarRound
  broken : Error → TarRound
  next : TarEntry → TarRound

module _ (json : Codec) (os : Os (List TarRound)) (capacity : ℕ) where
  open os use {State}

  -- a failed step is logged, and the entry is left
  abbrev and_then : State × Option Error → (State → State × Bool) → State × Bool
  and_then (s, some e) rest = (s, true)
  and_then (s, none) rest = rest s

  abbrev copied : State × Option Error → State × Bool
  copied (s, e) = (s, true)

  abbrev make_dir : Bool → String → State → State × Option Error
  make_dir true path s = os.mkdir_all path s
  make_dir false path s = (s, none)

  -- `readTarLine`: whether to go on
  unfoldable pub read_tar_line : TarRound → String → State → State × Bool
  unfolding join dir
  read_tar_line eof tmpdir s = (s, false)
  read_tar_line (broken e) tmpdir s = (s, false)
  read_tar_line (next entry) tmpdir s =
      let path = join tmpdir entry.name in
      and_then (make_dir entry.is_dir path s) λ s1.
        and_then (os.mkdir_all (dir path) s1)
          λ s2. and_then (os.open_file path s2) λ s3. copied (os.copy path entry.content s3)

  abbrev while_read : State × Bool → (State → State) → State
  while_read (s, false) rest = s
  while_read (s, true) rest = rest s

  unfoldable pub untar_rounds : List TarRound → String → State → State
  unfolding read_tar_line
  untar_rounds [] tmpdir s = s
  untar_rounds (round ∷ rounds) tmpdir s =
      while_read (read_tar_line round tmpdir s) (untar_rounds rounds tmpdir)

  abbrev untar_opened : Result (List TarRound) → String → State → State
  untar_opened (err e) tmpdir s = s
  untar_opened (ok rounds) tmpdir s = untar_rounds rounds tmpdir s

  -- `untarFile`: a file that cannot be opened leaves the directory empty
  unfoldable pub untar_file : String → String → State → State
  unfolding untar_rounds
  untar_file filename tmpdir s = untar_opened (os.open_tar filename s) tmpdir s

  -- The directory is removed when the function returns, which it does not if a send blocks.
  abbrev pub returned : String → Channel → State → State × Result Channel
  returned tmpdir none s = (s, ok none)
  returned tmpdir (some sent) s = (os.remove_all tmpdir s, ok (some sent))

  abbrev pub extract_into : State × Result String → String → State × Result Channel
  extract_into (s, err e) filename = (s, err e)
  extract_into (s, ok tmpdir) filename =
      let s' = untar_file filename tmpdir s in
      returned tmpdir (extract_events json os capacity tmpdir s' (some [])) s'

  -- `ExtractEvents`
  unfoldable pub extract : String → State → State × Result Channel
  unfolding untar_file extract_events
  extract filename s = extract_into (os.mkdir_temp s) filename

  -- every entry once, in order
  abbrev pub unpack : List TarEntry → String → State → State
  unpack [] tmpdir s = s
  unpack (entry ∷ entries) tmpdir s = unpack entries tmpdir (read_tar_line (next entry) tmpdir s).0

  abbrev pub rounds_of : List TarEntry → TarRound → List TarRound → List TarRound
  rounds_of [] stop rest = stop ∷ rest
  rounds_of (entry ∷ entries) stop rest = next entry ∷ rounds_of entries stop rest

  -- the rounds that end the reading
  abbrev pub IsStop : TarRound → Type 0
  IsStop eof = Unit
  IsStop (broken e) = Unit
  IsStop (next entry) = ⊥

  and_then-continues :
      (r : State × Option Error) (rest : State → State × Bool)
      → ((s : State) → (rest s).1 ≡ true)
      → (and_then r rest).1 ≡ true
  and_then-continues (s, none) rest h = h s
  and_then-continues (s, some e) rest h = refl

  read_tar_line-continues :
      (entry : TarEntry) (tmpdir : String) (s : State)
      → (read_tar_line (next entry) tmpdir s).1 ≡ true
  unfolding read_tar_line
  read_tar_line-continues entry tmpdir s =
      let path = join tmpdir entry.name in
      let opened : State → State × Bool =
        λ s2. and_then (os.open_file path s2) λ s3. copied (os.copy path entry.content s3) in
      and_then-continues (make_dir entry.is_dir path s)
        (λ s1. and_then (os.mkdir_all (dir path) s1) opened)
        λ s1. and_then-continues (os.mkdir_all (dir path) s1) opened λ s2.
          and_then-continues (os.open_file path s2) (λ s3. copied (os.copy path entry.content s3))
            (λ s3. refl)

  -- Of the rounds of a tar file, the entries before the first end or error are handled, each once and
  -- in order, whatever fails for one of them; what comes after is not read.
  pub untar_rounds-unpack :
      (entries : List TarEntry) (stop : TarRound) (rest : List TarRound) (tmpdir : String)
      (s : State)
      → IsStop stop
      → untar_rounds (rounds_of entries stop rest) tmpdir s ≡ unpack entries tmpdir s
  unfolding untar_rounds
  untar_rounds-unpack [] eof rest tmpdir s h = refl
  untar_rounds-unpack [] (broken e) rest tmpdir s h = refl
  untar_rounds-unpack [] (next entry) rest tmpdir s h = absurd h
  untar_rounds-unpack (entry ∷ entries) stop rest tmpdir s h =
      go (read_tar_line (next entry) tmpdir s) (read_tar_line-continues entry tmpdir s)
        (λ s'. untar_rounds-unpack entries stop rest tmpdir s' h)
    where
      go :
          (r : State × Bool)
          → r.1 ≡ true
          → ((s' : State)
              → untar_rounds (rounds_of entries stop rest) tmpdir s' ≡ unpack entries tmpdir s')
          → while_read r (untar_rounds (rounds_of entries stop rest) tmpdir)
            ≡ unpack entries tmpdir r.0
      go (s', true) e ih = ih s'
      go (s', false) e ih = cc
