-- ===== src/Types/Encode.antt =====
-- json.Marshal of an EnrichedEvent, by the tags of internal/types.
use assisted_events_stream.Prelude.{ℕ, String, Option, none, some, List, [], ◌∷◌}
use assisted_events_stream.Value.{
  Value, null, bool, num, str, arr, obj, Items, nil, cons, Fields, end, field, Map, to_value,
}
use assisted_events_stream.Types.{Float, HostsSummary, EnrichedEvent}

abbrev pub to_items : List Map → Items
to_items [] = nil
to_items (m ∷ ms) = cons (to_value m) (to_items ms)

-- `omitempty` leaves out a map without entries, a list without elements and a nil pointer.
abbrev pub map_unless_empty : String → Map → Fields → Fields
map_unless_empty k none rest = rest
map_unless_empty k (some end) rest = rest
map_unless_empty k (some m) rest = field k (obj m) rest

abbrev pub list_unless_empty : String → List Map → Fields → Fields
list_unless_empty k [] rest = rest
list_unless_empty k ms rest = field k (arr (to_items ms)) rest

abbrev pub text_unless_nil : String → Option String → Fields → Fields
text_unless_nil k none rest = rest
text_unless_nil k (some s) rest = field k (str s) rest

-- `bits` is the float64 nearest to an exact quotient.
module _ (bits : Float → ℕ) where
  abbrev pub encode_counter : List (String × Float) → Fields
  encode_counter [] = end
  encode_counter ((k, x) ∷ c) = field k (num (bits x)) (encode_counter c)

  abbrev pub encode_stats : List (String × List (String × Float)) → Fields
  encode_stats [] = end
  encode_stats ((k, c) ∷ stats) = field k (obj (encode_counter c)) (encode_stats stats)

  abbrev pub encode_hosts_summary : Option HostsSummary → Value
  encode_hosts_summary none = null
  encode_hosts_summary (some s) = obj (
      field "heterogeneous_arch" (bool s.has_etherogeneous_architecture) (
        field "host_count" (num (bits (record { numerator = s.host_count; denominator = 1 }))) (
          field "infra_env" (obj (encode_stats s.infra_env))
            (field "iso_type" (str s.iso_type) end))))

  unfoldable pub encode_enriched_event : EnrichedEvent → Value
  encode_enriched_event e = obj (
      field "id" (str e.id) (
        field "message" (str e.message) (
          field "category" (str e.category) (
            field "cluster_id" (str e.cluster_id) (
              field "event_time" (str e.event_time) (
                field "host_summary" (encode_hosts_summary e.hosts_summary) (
                  field "name" (str e.name) (
                    field "request_id" (str e.request_id) (
                      field "severity" (str e.severity) (
                        field "event" (obj (map_unless_empty "props" e.properties end)) (
                          field "cluster" (to_value e.cluster) (
                            list_unless_empty "infra_envs" e.infra_envs (
                              field "versions" (to_value e.versions)
                                (text_unless_nil "release_tag" e.release_tag end))))))))))))))
