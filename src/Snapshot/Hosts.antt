-- ===== src/Snapshot/Hosts.antt =====
-- The loops of GetHosts and GetInfraEnvs, and what they return of the hosts that were written.
use mathlib.Core.List.{Memᴰ, append-nil, append_assoc}
use assisted_events_stream.Prelude.{
  ℕ, ◌<◌, String, ◌≡◌, refl, sym, ap, ◌∙◌, none, some, List, [], ◌∷◌, ◌++◌, eq_refl,
}
use assisted_events_stream.Value.{obj, Fields, Map}
use assisted_events_stream.Types.{Codec, ok, Event}
use assisted_events_stream.Types.Decode.{decode_map}
use assisted_events_stream.Snapshot.{
  RedisClient, get_hosts_hkey, event_bytes, read_all, set_host, hset, get_hosts,
}
use assisted_events_stream.Snapshot.Laws.{
  IsLawful, IsDecodable, hget-hset, hset-IsDecodable, unmarshal-event_bytes,
}

-- Every text of a hash decodes to an object.
abbrev pub AllObjects : Codec → List (String × String) → Type 0
AllObjects json [] = Unit
AllObjects json ((f, v) ∷ raw) =
    ((m : Fields) × (json.unmarshal v ≡ some (obj m))) × AllObjects json raw

module _ (json : Codec) where
  -- the maps that the texts of a hash hold
  abbrev pub maps_of : (raw : List (String × String)) → AllObjects json raw → List Map
  maps_of [] h = []
  maps_of ((f, v) ∷ raw) h = some h.0.0 ∷ maps_of raw h.1

  pub read_all-AllObjects :
      (acc : List Map) (raw : List (String × String)) (h : AllObjects json raw)
      → read_all json acc raw ≡ (acc ++ maps_of raw h, none)
  unfolding read_all decode_map
  read_all-AllObjects acc [] h = rw append-nil
  read_all-AllObjects acc ((f, v) ∷ raw) h = rw h.0.1 (
      read_all-AllObjects (acc ++ some h.0.0 ∷ []) raw h.1
      ∙ ap (λ (ms : List Map). (ms, none)) (append_assoc acc (some h.0.0 ∷ []) (maps_of raw h.1)))

  AllObjects-of_mem :
      (raw : List (String × String))
      → ((f v : String) → Memᴰ (f, v) raw → (m : Fields) × (json.unmarshal v ≡ some (obj m)))
      → AllObjects json raw
  AllObjects-of_mem [] h = tt
  AllObjects-of_mem ((f, v) ∷ raw) h =
      (h f v (Memᴰ.head refl), AllObjects-of_mem raw (λ g w mem. h g w (Memᴰ.tail mem)))

  same_map :
      {m n : Fields} {v w : String}
      → json.unmarshal w ≡ some (obj n)
      → json.unmarshal v ≡ some (obj m)
      → v ≡ w
      → some m ≡ some n
  same_map {m} {n} {v} {w} p q e =
      let r : some (obj m) ≡ some (obj n) = sym q ∙ ap json.unmarshal e ∙ p in cc

  mem-maps_of :
      (f v : String) (m : Fields) (raw : List (String × String)) (h : AllObjects json raw)
      → json.unmarshal v ≡ some (obj m)
      → Memᴰ (f, v) raw
      → Memᴰ (some m) (maps_of raw h)
  mem-maps_of f v m [] h u mem = elim mem [ ]
  mem-maps_of f v m ((g, w) ∷ raw) h u (Memᴰ.head e) =
      Memᴰ.head (same_map h.0.1 u (ap (λ (p : String × String). p.1) e))
  mem-maps_of f v m ((g, w) ∷ raw) h u (Memᴰ.tail mem) = Memᴰ.tail (mem-maps_of f v m raw h.1 u mem)

module _ (json : Codec) (redis : RedisClient) (expiration : ℕ) (lawful : IsLawful redis)
    (positive : 0 < expiration) where
  open redis use {State}

  -- Over a lawful server, with a positive expiration: after a host state with an object for its
  -- payload is written without an error to a server whose texts all decode to objects, reading the
  -- cluster's hosts gives no error and the host's payload is among them, if the server answers.
  pub get_hosts-set_host :
      (cluster_id host_id : String) (event : Event) (m : Fields) (s : State)
      → event.payload ≡ obj m
      → IsDecodable json redis s
      → (set_host json redis expiration cluster_id host_id (some event) s).1 ≡ none
      → {raw : List (String × String)}
      → redis.hget_all
          (get_hosts_hkey cluster_id)
          (set_host json redis expiration cluster_id host_id (some event) s).0
        ≡ ok raw
      → let read =
          get_hosts json redis expiration cluster_id
            (set_host json redis expiration cluster_id host_id (some event) s).0 in
        (read.1 ≡ none) × Memᴰ (some m) read.0
  unfolding get_hosts set_host
  get_hosts-set_host cluster_id host_id event m s p inv h {raw} answered =
      let key = get_hosts_hkey cluster_id in
      let s' = (hset json redis expiration key host_id (some event) s).0 in
      let inv' =
        hset-IsDecodable json redis expiration lawful positive key host_id event m s p inv in
      let all =
        AllObjects-of_mem json raw
          (λ f v mem. inv' key f v (lawful.hget_all_sound key s' answered f v mem)) in
      let stored : redis.hget key host_id s' ≡ ok (event_bytes json (some event)) = rw (
        hget-hset json redis expiration lawful positive key host_id (some event) s h key host_id,
        eq_refl key,
        eq_refl host_id,
      ) in
      rw (answered, read_all-AllObjects json [] raw all)
        (
          refl,
          mem-maps_of json host_id (event_bytes json (some event)) m raw all
              (unmarshal-event_bytes json redis expiration lawful positive event m p)
              (lawful.hget_all_complete key s' answered host_id (event_bytes json (some event))
                stored),
        )
