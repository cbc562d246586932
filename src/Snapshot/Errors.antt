-- ===== src/Snapshot/Errors.antt =====
-- The errors that the snapshot repository returns.
use assisted_events_stream.Prelude.{ℕ, String, ◌≢◌, Option, none, some}
use assisted_events_stream.Types.{Codec, Error, malformed_event, Event}
use assisted_events_stream.Snapshot.{RedisClient, after_expire, after_hset, hset}

module _ (json : Codec) (redis : RedisClient) (expiration : ℕ) where
  after_expire-plain :
      (r : redis.State × Option Error) (key : String)
      → (after_expire json redis expiration r).1 ≢ some (malformed_event key)
  unfolding after_expire
  after_expire-plain (s, none) key h = cc
  after_expire-plain (s, some e) key h = cc

  after_hset-plain :
      (k : String) (r : redis.State × Option Error) (key : String)
      → (after_hset json redis expiration k r).1 ≢ some (malformed_event key)
  unfolding after_hset
  after_hset-plain k (s, none) key h = after_expire-plain (redis.expire k expiration s) key h
  after_hset-plain k (s, some e) key h = cc

  pub hset-plain :
      (k field : String) (e : Option Event) (s : redis.State) (key : String)
      → (hset json redis expiration k field e s).1 ≢ some (malformed_event key)
  unfolding hset
  hset-plain k field e s key h = after_hset-plain k _ key h
