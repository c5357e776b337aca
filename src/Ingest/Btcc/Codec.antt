-- ===== src/Ingest/Btcc/Codec.antt =====
-- bundle/internal/ingest/btcc/codec.go: topics, their markets and the control messages. The mutex makes
-- each operation one step on the codec's state; a nil codec is not modelled. SHA-256 in hexadecimal is
-- the argument `sign`.
pub mod Laws
pub mod Updates
pub mod Markets
use go_hft.Prelude.{
  ℕ, ◌+◌, ◌-◌, Bool, true, false, Option, none, some, [], ◌∷◌, ◌++◌, ◌==◌, if◌then◌else◌, ◌||◌,
  ◌&&◌, Bytes, codes, bytes_eq, length,
}
use go_hft.Prelude.Maps.{Map, lookup, insert, delete}
use go_hft.Websocket.Types.{TopicId, MessageType, message_text}
use go_hft.Adapter.Enum.{topic_depth, topic_order}
use go_hft.Adapter.Symbol.{Symbol, append_bytes}
use go_hft.Adapter.Ingest.{IngestRequest}
use go_hft.Scanner.{scan_string_field, scan_uint_field}
use go_hft.Ingest.Text.{hash_bytes, append_uint}
use go_hft.Ingest.Binance.Payload.{quoted}
use go_hft.Ingest.Binance.Codec.{Encoded, message, protocol_error, panics}
use go_hft.Ingest.Btcc.Params.{Found, found, missing, scan_params_value}
use go_hft.Ingest.Btcc.Fields
use go_hft.Ingest.Btcc.Fields.{scan_params_string}

pub data TopicKind : Type 0 where
  unknown depth order : TopicKind

pub record TopicMeta : Type 0 where
  pub kind : TopicKind
  pub market : Bytes

pub record Codec : Type 0 where
  pub topics_by_id : Map TopicMeta
  pub depth_lookup : Map TopicId
  pub order_lookup : Map TopicId
  pub auth_topic_id : TopicId
  pub auth_req_id : ℕ
  pub auth_access : Bytes
  pub auth_secret : Bytes
  pub auth_enabled : Bool

abbrev pub new_codec : Codec
new_codec = record {
  topics_by_id = [];
  depth_lookup = [];
  order_lookup = [];
  auth_topic_id = 0;
  auth_req_id = 0;
  auth_access = [];
  auth_secret = [];
  auth_enabled = false;
}

-- `strings.IndexByte(apiKey, ':')`, and the text on both sides.
unfoldable pub split_at_colon : Bytes → Option (Bytes × Bytes)
split_at_colon [] = none
split_at_colon (b ∷ text) = elim (b == b':') [
  | true ↦ some ([], text)
  | false ↦ elim (split_at_colon text) [ none ↦ none | some (s, rest) ↦ some (b ∷ s, rest) ]
]

-- Both sides have a byte or more.
unfoldable pub split_api_key : Bytes → Option (Bytes × Bytes)
unfolding split_at_colon
split_api_key api_key = elim (split_at_colon api_key) [
  | none ↦ none
  | some (access, secret) ↦
      if length access == 0 || length secret == 0 then none else some (access, secret)
]

-- `none` is errEmptyTopic.
unfoldable pub register_auth : TopicId → Bytes → ℕ → Codec → Option Codec
unfolding split_api_key
register_auth topic_id api_key req_id c = elim (split_api_key api_key) [
  | none ↦ none
  | some (access, secret) ↦ some (record c {
    auth_topic_id = topic_id;
    auth_req_id = req_id;
    auth_access = access;
    auth_secret = secret;
    auth_enabled = true;
  })
]

-- `dst` with an id and the rest of a message behind it.
unfoldable pub with_id : Bytes → ℕ → Bytes → Encoded
unfolding append_uint
with_id dst id rest = elim (append_uint (dst ++ codes "{\"id\":") id) [
  | none ↦ panics
  | some text ↦ message message_text (text ++ rest)
]

unfoldable pub auth_message : (Bytes → Bytes) → Bytes → Bytes → Bytes → ℕ → Encoded
unfolding with_id
auth_message sign dst access secret req_id = with_id dst req_id (
    codes ",\"method\":\"server.accessid_auth\",\"params\":[\""
    ++ access
    ++ codes "\",\""
    ++ sign secret
    ++ codes "\"]}")

-- `EncodeAuth`
unfoldable pub encode_auth : (Bytes → Bytes) → Bytes → Bytes → ℕ → Encoded
unfolding split_api_key auth_message
encode_auth sign dst api_key req_id = elim (split_api_key api_key) [
  | none ↦ protocol_error
  | some (access, secret) ↦ auth_message sign dst access secret req_id
]

-- `encodeAuth`
unfoldable pub encode_registered_auth : (Bytes → Bytes) → Bytes → Codec → Encoded
unfolding auth_message
encode_registered_auth sign dst c =
    if length c.auth_access == 0 || length c.auth_secret == 0
    then protocol_error
    else auth_message sign dst c.auth_access c.auth_secret c.auth_req_id

unfoldable pub market_from_request : IngestRequest → Option TopicMeta
unfolding append_bytes
market_from_request req =
    if req.topic == topic_depth
    then some (record { kind = depth; market = append_bytes req.symbol })
    else if req.topic == topic_order
    then some (record { kind = order; market = append_bytes req.symbol })
    else none

abbrev pub is_order : TopicKind → Bool
is_order order = true
is_order depth = false
is_order unknown = false

unfoldable pub add_topic : TopicId → TopicMeta → Codec → Codec
add_topic topic_id meta c = record c {
  topics_by_id = insert c.topics_by_id topic_id meta;
  depth_lookup =
      if is_order meta.kind
      then c.depth_lookup
      else insert c.depth_lookup (hash_bytes meta.market) topic_id;
  order_lookup =
      if is_order meta.kind
      then insert c.order_lookup (hash_bytes meta.market) topic_id
      else c.order_lookup;
}

unfoldable pub register : TopicId → IngestRequest → Codec → Option Codec
unfolding market_from_request add_topic
register topic_id req c = elim (market_from_request req) [
  | none ↦ none
  | some meta ↦ if length meta.market == 0 then none else some (add_topic topic_id meta c)
]

unfoldable pub drop_topic : TopicId → TopicMeta → Codec → Codec
drop_topic topic_id meta c = record c {
  topics_by_id = delete c.topics_by_id topic_id;
  depth_lookup =
      if is_order meta.kind then c.depth_lookup else delete c.depth_lookup (hash_bytes meta.market);
  order_lookup =
      if is_order meta.kind then delete c.order_lookup (hash_bytes meta.market) else c.order_lookup;
}

unfoldable pub unregister : TopicId → Codec → Codec
unfolding drop_topic
unregister topic_id c = elim (lookup c.topics_by_id topic_id) [
  | none ↦ c
  | some meta ↦ drop_topic topic_id meta c
]

unfoldable pub is_auth_ack : Bytes → Codec → Bool
is_auth_ack payload c = elim (c.auth_enabled) [
  | false ↦ false
  | true ↦ elim (scan_uint_field payload (quoted (codes "id"))) [
    | none ↦ false
    | some id ↦ elim (id == c.auth_req_id) [
      | false ↦ false
      | true ↦ elim (scan_string_field payload (quoted (codes "status"))) [
        | some status ↦ bytes_eq status (codes "success")
        | none ↦ elim (scan_string_field payload (quoted (codes "result"))) [
          | some result ↦ bytes_eq result (codes "success")
          | none ↦ false
        ]
      ]
    ]
  ]
]

-- The topic of a market that was found.
abbrev pub topic_of : Map TopicId → Found Bytes → Found TopicId
topic_of m missing = missing
topic_of m Found.panics = Found.panics
topic_of m (found market) = elim (lookup m (hash_bytes market)) [
  | none ↦ missing
  | some id ↦ found id
]

-- The market of an order, in its value.
abbrev pub order_market : Found Bytes → Found Bytes
order_market missing = missing
order_market Found.panics = Found.panics
order_market (found value) =
    elim (go_hft.Ingest.Btcc.Fields.scan_string_field value (quoted (codes "market"))) [
      | none ↦ missing
      | some market ↦ found market
    ]

-- `missing` is the pair of 0 and false; `beyond` is what lies behind the payload in its buffer.
unfoldable pub decode_topic : Bytes → Bytes → Codec → Found TopicId
unfolding is_auth_ack scan_params_string scan_params_value
decode_topic beyond payload c =
    if is_auth_ack payload c
    then found c.auth_topic_id
    else elim (scan_string_field payload (quoted (codes "method"))) [
      | none ↦ missing
      | some method ↦
          if bytes_eq method (codes "depth.update")
          then topic_of c.depth_lookup (scan_params_string beyond payload 2)
          else if bytes_eq method (codes "order.update")
          then topic_of c.order_lookup (order_market (scan_params_value beyond payload 1))
          else missing
    ]

unfoldable pub is_auth_topic : TopicId → Codec → Bool
is_auth_topic topic c = c.auth_enabled && c.auth_topic_id == topic

-- A message about the market of a topic.
unfoldable pub control : Bytes → TopicId → Bytes → Bytes → Bytes → Encoded
unfolding with_id
control dst topic method market rest =
    with_id dst topic
      (codes ",\"method\":\"" ++ method ++ codes "\",\"params\":[\"" ++ market ++ rest)

unfoldable pub encode_subscribe : (Bytes → Bytes) → Bytes → TopicId → Codec → Encoded
unfolding is_auth_topic encode_registered_auth control
encode_subscribe sign dst topic c =
    if is_auth_topic topic c
    then encode_registered_auth sign dst c
    else elim (lookup c.topics_by_id topic) [
      | none ↦ protocol_error
      | some meta ↦
          if is_order meta.kind
          then control dst topic (codes "order.subscribe") meta.market (codes "\"]}")
          else control dst topic (codes "depth.subscribe") meta.market
              (codes "\",20,\"0.00000001\"]}")
    ]

-- `dst[:0]` is an empty text.
unfoldable pub encode_unsubscribe : Bytes → TopicId → Codec → Encoded
unfolding is_auth_topic control
encode_unsubscribe dst topic c =
    if is_auth_topic topic c then message message_text [] else elim (lookup c.topics_by_id topic) [
      | none ↦ protocol_error
      | some meta ↦
          if is_order meta.kind
          then control dst topic (codes "order.unsubscribe") meta.market (codes "\"]}")
          else control dst topic (codes "depth.unsubscribe") meta.market (codes "\"]}")
    ]
