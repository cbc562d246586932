-- ===== src/Opensearch.antt =====
-- internal/repository/opensearch: the index of enriched events, and the projection's configuration.
pub mod Index
pub mod Names
pub mod Errors
pub mod Queue
use assisted_events_stream.Prelude.{
  ℕ, ◌<◌, String, Bool, true, false, ◌&&◌, Option, none, some, List, [], ◌∷◌, ◌++◌, ◌<>◌, ltb,
  if◌then◌else◌,
}
use assisted_events_stream.Value.{Value, null, str, obj, Fields, end, field, Map, entries, lookup}
use assisted_events_stream.Types.{Codec, Error, Float, EnrichedEvent, Message, Outcome}
use assisted_events_stream.Types.Decode.{equal_fold}
use assisted_events_stream.Types.Encode.{encode_enriched_event}
use assisted_events_stream.Projection.{EnrichedEventRepository}
use assisted_events_stream.Opensearch.Index.{index_suffix}

-- The fields of a `BulkIndexerItem` that the program sets; its callbacks are `on_success` and
-- `on_failure`, which know the message.
pub record BulkIndexerItem : Type 0 where
  pub index : String
  pub document_id : String
  pub body : String
  pub msg : Message

-- `opensearchutil.BulkIndexer`, over its state; a call of a nil one panics.
pub record BulkIndexer : Type 1 where
  pub State : Type 0
  pub add : BulkIndexerItem → State → State × Outcome

-- Whether the cluster has the member that marks an on-premise one.
abbrev pub has_member : Option Value → Bool
has_member none = false
has_member (some v) = true

-- `parse_time` gives the year and the month of a time in RFC 3339, and those of the zero time (1 and
-- 1) for a text that is not one.
module _ (json : Codec) (bits : Float → ℕ) (parse_time : String → ℕ × ℕ) (index_prefix : String)
    (bulk : BulkIndexer) where
  -- `getIndexName`
  unfoldable pub get_index_name : EnrichedEvent → String
  unfolding index_suffix
  get_index_name event =
      let (year, month) = parse_time event.event_time in
      index_prefix <> index_suffix year month (has_member (lookup "onprem" (entries event.cluster)))

  -- `Store`
  unfoldable pub store : EnrichedEvent → Message → bulk.State → bulk.State × Outcome
  unfolding get_index_name encode_enriched_event
  store event msg s =
      bulk.add
        (record {
          index = get_index_name event;
          document_id = event.id;
          body = json.marshal (encode_enriched_event bits event);
          msg = msg;
        })
        s

  -- `NewEnrichedEventRepository`
  abbrev pub new_enriched_event_repository : EnrichedEventRepository
  new_enriched_event_repository = record { State = bulk.State; store = store }

-- What the client's `Get` gives: an error, or a response. Its status and body are read.
pub record Response : Type 0 where
  pub is_error : Bool
  pub status_code : ℕ
  pub body : String

abbrev pub projection_mode_online : String
projection_mode_online = "online"

-- Decoding of an OpensearchRawConfigDocument: only the mode in `_source` is used. The mode is left
-- as it is by null; another kind of value is an error, as it is for `_index` and `_id`.
abbrev set_mode : Value → String → Option String
set_mode (str s) mode = some s
set_mode null mode = some mode
set_mode _ mode = none

abbrev next_mode : Option String → (String → Option String) → Option String
next_mode none next = none
next_mode (some mode) next = next mode

decode_projection_config : Fields → String → Option String
unfolding equal_fold
decode_projection_config end mode = some mode
decode_projection_config (field k v m) mode =
    next_mode (if equal_fold k "Mode" then set_mode v mode else some mode)
      (decode_projection_config m)

abbrev set_source : Value → String → Option String
set_source (obj m) mode = decode_projection_config m mode
set_source null mode = some mode
set_source _ mode = none

abbrev text_member : Value → String → Option String
text_member (str s) mode = some mode
text_member null mode = some mode
text_member _ mode = none

decode_document_fields : Fields → String → Option String
unfolding decode_projection_config equal_fold
decode_document_fields end mode = some mode
decode_document_fields (field k v m) mode =
    next_mode
      (if equal_fold k "_source"
        then set_source v mode
        else if equal_fold k "_index"
        then text_member v mode
        else if equal_fold k "_id"
        then text_member v mode
        else some mode)
      (decode_document_fields m)

unfoldable pub decode_document : Option Value → Option String
unfolding decode_document_fields
decode_document (some (obj m)) = decode_document_fields m ""
decode_document (some null) = some ""
decode_document _ = none

abbrev or_default : Option String → String
or_default none = projection_mode_online
or_default (some mode) = mode

-- `ProjectionConfigRepository.Get`: the mode; `none` is a response that the client did not give
unfoldable pub get_mode : Codec → Option Response → Option Error → String
unfolding decode_document
get_mode json none e = projection_mode_online
get_mode json (some res) (some e) = projection_mode_online
get_mode json (some res) none =
    if res.is_error
    then projection_mode_online
    else if ltb res.status_code 400
    then or_default (decode_document (json.unmarshal res.body))
    else projection_mode_online
