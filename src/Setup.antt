-- ===== src/Setup.antt =====
-- How the programs are set up: the NewXFromEnv functions of internal and the first lines of cmd. What
-- envconfig.Process and os.Getenv read, and the clients of the servers, are parameters.
pub mod Opensearch
pub mod Consumer
pub mod Hydrator
pub mod Conditions
pub mod Listening
use assisted_events_stream.Prelude.{
  ℕ, ap, String, ◌≡◌, refl, Bool, Option, none, some, List, [], ◌∷◌,
}
use assisted_events_stream.Types.{Error, Result, ok, err}
use assisted_events_stream.Stream.Login.{KafkaConfig}

-- Go's int, and time.Duration, as far as the set-up reads them.
pub data ℤ : Type 0 where
  pos : ℕ → ℤ
  negsuc : ℕ → ℤ

-- A step of the set-up: it returns, it returns an error, `Fatal` ends the process, or a panic does.
pub data Started {ℓ} (A : Type ℓ) : Type ℓ where
  started : A → Started A
  refused : Error → Started A
  exited : Started A
  crashed : Started A

unfoldable pub and_then {ℓ κ} : {A : Type ℓ} {B : Type κ} → Started A → (A → Started B) → Started B
and_then (started a) next = next a
and_then (refused e) next = refused e
and_then exited next = exited
and_then crashed next = crashed

-- `if err != nil { return nil, err }`
unfoldable pub or_refuse {ℓ} : {A : Type ℓ} → Result A → Started A
or_refuse (ok a) = started a
or_refuse (err e) = refused e

-- the same after a call that may panic, which is none
unfoldable pub or_crash {ℓ} : {A : Type ℓ} → Option (Result A) → Started A
unfolding or_refuse
or_crash none = crashed
or_crash (some r) = or_refuse r

-- `if err != nil { Fatal }`
unfoldable pub or_exit {ℓ} : {A : Type ℓ} → Started A → Started A
or_exit (started a) = started a
or_exit (refused e) = exited
or_exit exited = exited
or_exit crashed = crashed

-- the value, unless there is an error, which is `Fatal`
unfoldable pub exit_on : {A : Type 0} → A → Option Error → Started A
exit_on a none = started a
exit_on a (some e) = exited

-- What envconfig.Process leaves in a struct, and its error.
abbrev pub Processed : Type 0 → Type 0
Processed A = A × Option Error

unfoldable pub value_of : {A : Type 0} → Processed A → Result A
value_of (a, none) = ok a
value_of (a, some e) = err e

pub record OpensearchEnvConfig : Type 0 where
  pub num_workers : ℤ
  pub flush_bytes : ℤ
  pub flush_interval : ℤ
  pub bulk_timeout : ℤ
  pub username : String
  pub password : String
  pub address : String
  pub response_timeout : ℤ
  pub dial_timeout : ℤ
  pub ssl_insecure_skip_verify : Bool
  pub index_prefix : String
  pub config_index : String
  pub doc_id : String

pub record ChannelsConfig : Type 0 where
  pub download_channel_buffer_size : ℤ
  pub untar_channel_buffer_size : ℤ
  pub event_channel_buffer_size : ℤ

-- The environment, as each struct of the programs reads it, and os.Getenv.
pub record Environment : Type 0 where
  pub kafka : Processed KafkaConfig
  pub opensearch : Processed OpensearchEnvConfig
  pub excluded_user_names : Processed (List String)
  pub channels : Processed ChannelsConfig
  pub download_dir : Processed String
  pub work_dir : Processed String
  pub getenv : String → String

-- What goes on has gone on before.
pub and_then-started {ℓ κ} :
    {A : Type ℓ} {B : Type κ} (m : Started A) (next : A → Started B) (b : B)
    → and_then m next ≡ started b
    → (a : A) × (m ≡ started a) × (next a ≡ started b)
unfolding and_then
and_then-started (started a) next b h = (a, refl, h)
and_then-started (refused e) next b h = cc
and_then-started exited next b h = cc
and_then-started crashed next b h = cc

pub or_exit-started {ℓ} :
    {A : Type ℓ} (m : Started A) (a : A) → or_exit m ≡ started a → m ≡ started a
unfolding or_exit
or_exit-started (started a) b h = h
or_exit-started (refused e) b h = cc
or_exit-started exited b h = h
or_exit-started crashed b h = h

pub or_refuse-started {ℓ} : {A : Type ℓ} (r : Result A) (a : A) → or_refuse r ≡ started a → r ≡ ok a
unfolding or_refuse
or_refuse-started (ok a) b h = cc
or_refuse-started (err e) b h = cc

pub or_crash-started {ℓ} :
    {A : Type ℓ} (o : Option (Result A)) (a : A) → or_crash o ≡ started a → o ≡ some (ok a)
unfolding or_crash
or_crash-started none b h = cc
or_crash-started (some r) b h = ap some (or_refuse-started r b h)

pub value_of-read : {A : Type 0} (p : Processed A) → p.1 ≡ none → value_of p ≡ ok p.0
unfolding value_of
value_of-read (a, none) h = refl
value_of-read (a, some e) h = cc

pub exit_on-started :
    {A : Type 0} (a b : A) (o : Option Error) → exit_on a o ≡ started b → (o ≡ none) × (a ≡ b)
unfolding exit_on
exit_on-started a b none h = (refl, cc)
exit_on-started a b (some e) h = cc

pub value_of-ok :
    {A : Type 0} (p : Processed A) (a : A) → value_of p ≡ ok a → (p.1 ≡ none) × (p.0 ≡ a)
unfolding value_of
value_of-ok (a, none) b h = (refl, cc)
value_of-ok (a, some e) b h = cc
