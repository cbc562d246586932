-- ===== src/Types.antt =====
-- internal/types/event.go and hosts_summary.go, the errors of internal/projection/process/errors.go,
-- and what the program uses of encoding/json.
pub mod Decode
pub mod Encode
use assisted_events_stream.Prelude.{ℕ, String, ◌≡◌, Bool, Option, none, some, List}
use assisted_events_stream.Value.{Value, Fields, Map}

-- Go's `error` values; `Option Error` is an `error` that may be nil. `malformed_event` carries the
-- key that its message names, and `wrapped` is `fmt.Errorf` with `%w`.
pub data Error : Type 0 where
  malformed_event : String → Error
  failed : String → Error
  wrapped : String → Error → Error

-- A result `(value, error)` where the value counts only if the error is nil.
pub data Result {ℓ} (A : Type ℓ) : Type ℓ where
  ok : A → Result A
  err : Error → Result A

-- json.Marshal and json.Unmarshal of an `interface{}`. Go strings and byte slices are texts.
-- Marshal fails only on what JSON cannot express (channels, functions, NaN), and `Value` holds
-- none of that, so `marshal` is total.
pub record Codec : Type 0 where
  pub marshal : Value → String
  pub unmarshal : String → Option Value
  pub unmarshal-marshal : (v : Value) → unmarshal (marshal v) ≡ some v

pub record Event : Type 0 where
  pub name : String
  pub payload : Value
  pub metadata : Fields

pub record EventEnvelope : Type 0 where
  pub event : Event
  pub key : String

-- A float64 of the summary: a count, or the quotient of two counts. Counts below 2 ^ 53 are exact,
-- and two quotients by one total are ordered as their numerators are.
pub record Float : Type 0 where
  pub numerator : ℕ
  pub denominator : ℕ

pub record HostsSummary : Type 0 where
  pub has_etherogeneous_architecture : Bool
  pub host_count : ℕ
  pub infra_env : List (String × List (String × Float))
  pub iso_type : String

pub record EnrichedEvent : Type 0 where
  pub id : String
  pub message : String
  pub category : String
  pub cluster_id : String
  pub event_time : String
  pub hosts_summary : Option HostsSummary
  pub name : String
  pub request_id : String
  pub severity : String
  pub properties : Map
  pub cluster : Map
  pub infra_envs : List Map
  pub versions : Map
  pub release_tag : Option String

-- The fields of a kafka.Message that the program reads.
pub record Message : Type 0 where
  pub key : String
  pub value : String
  pub offset : ℕ
  pub headers : List (String × String)

-- How a call ends: it returns an `error`, which may be nil, or it panics.
pub data Outcome : Type 0 where
  returned : Option Error → Outcome
  panicked : Outcome
