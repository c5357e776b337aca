-- ===== src/Ingest/Binance/Codec.antt =====
-- bundle/internal/ingest/binance/codec.go: topics, their streams and the control messages. The mutex
-- makes each operation one step on the codec's state; a nil codec is not modelled. `strings.ToLower`
-- on the text of a symbol is the argument `to_lower`.
pub mod Laws
pub mod Shared
use go_hft.Prelude.{
  ℕ, ◌+◌, ◌-◌, Bool, true, false, Option, none, some, [], ◌∷◌, ◌++◌, ◌==◌, leb, if◌then◌else◌, ◌||◌,
  ◌&&◌, not, Bytes, codes, bytes_eq, length, ◌≡◌,
}
use go_hft.Prelude.Maps.{Map, lookup, insert, delete}
use go_hft.Websocket.Types.{TopicId, MessageType, message_text}
use go_hft.Adapter.Enum.{topic_depth, topic_order, topic_is_available}
use go_hft.Adapter.Symbol.{Symbol, append_bytes}
use go_hft.Adapter.Ingest.{IngestRequest}
use go_hft.Scanner.{scan_string_field, scan_uint_field, bytes_contains}
use go_hft.Ingest.Text.{hash_bytes, append_uint}
use go_hft.Ingest.Binance.Payload.{quoted}

pub record Codec : Type 0 where
  pub stream_by_id : Map Bytes
  pub stream_lookup : Map TopicId
  pub symbol_lookup : Map TopicId
  pub auth_topic_id : TopicId
  pub auth_req_id : ℕ
  pub auth_api_key : Bytes
  pub auth_enabled : Bool

abbrev pub new_codec : Codec
new_codec = record {
  stream_by_id = [];
  stream_lookup = [];
  symbol_lookup = [];
  auth_topic_id = 0;
  auth_req_id = 0;
  auth_api_key = [];
  auth_enabled = false;
}

-- `none` is errEmptyTopic.
unfoldable pub register_auth : TopicId → Bytes → ℕ → Codec → Option Codec
register_auth topic_id api_key req_id c =
    if length api_key == 0
    then none
    else some (record c {
      auth_topic_id = topic_id;
      auth_req_id = req_id;
      auth_api_key = api_key;
      auth_enabled = true;
    })

-- What an encoder comes to: a message, ErrWebSocketProtocol, or a panic.
pub data Encoded : Type 0 where
  message : MessageType → Bytes → Encoded
  protocol_error : Encoded
  panics : Encoded

-- `dst` with a text, a number and a closing brace behind it.
unfoldable pub numbered : Bytes → ℕ → Encoded
numbered dst v = elim (append_uint dst v) [
  | none ↦ panics
  | some text ↦ message message_text (text ++ b'}' ∷ [])
]

unfoldable pub encode_auth : Bytes → Bytes → ℕ → Encoded
unfolding numbered
encode_auth dst api_key req_id =
    if length api_key == 0
    then protocol_error
    else numbered
        (dst ++ codes "{\"method\":\"auth\",\"params\":[\"" ++ api_key ++ codes "\"],\"id\":")
        req_id

unfoldable pub stream_for_request : (Bytes → Bytes) → IngestRequest → Option Bytes
unfolding append_bytes
stream_for_request to_lower req =
    if req.topic == topic_depth
    then some (to_lower (append_bytes req.symbol) ++ codes "@depth@100ms")
    else if req.topic == topic_order
    then some (to_lower (append_bytes req.symbol))
    else none

-- `b >= 'a' && b <= 'z'`, and `b -= 'a' - 'A'`
unfoldable pub upper : ℕ → ℕ
upper b = if leb b'a' b && leb b b'z' then b - 32 else b

unfoldable pub parse_symbol_upper : Bytes → Bytes
unfolding upper
parse_symbol_upper [] = []
parse_symbol_upper (b ∷ stream) =
    let more = upper b ∷ parse_symbol_upper stream in if b == b'@' then [] else more

unfoldable pub add_stream : TopicId → Bytes → Codec → Codec
unfolding parse_symbol_upper
add_stream topic_id stream c =
    let symbol = parse_symbol_upper stream in
    record c {
      stream_by_id = insert c.stream_by_id topic_id stream;
      stream_lookup = insert c.stream_lookup (hash_bytes stream) topic_id;
      symbol_lookup =
          if length symbol == 0
          then c.symbol_lookup
          else insert c.symbol_lookup (hash_bytes symbol) topic_id;
    }

unfoldable pub register : (Bytes → Bytes) → TopicId → IngestRequest → Codec → Option Codec
unfolding stream_for_request add_stream topic_is_available
register to_lower topic_id req c =
    if not (topic_is_available req.topic) then none else elim (stream_for_request to_lower req) [
      | none ↦ none
      | some stream ↦ some (add_stream topic_id stream c)
    ]

unfoldable pub drop_stream : TopicId → Bytes → Codec → Codec
unfolding parse_symbol_upper
drop_stream topic_id stream c =
    let symbol = parse_symbol_upper stream in
    record c {
      stream_by_id = delete c.stream_by_id topic_id;
      stream_lookup = delete c.stream_lookup (hash_bytes stream);
      symbol_lookup =
          if length symbol == 0
          then c.symbol_lookup
          else delete c.symbol_lookup (hash_bytes symbol);
    }

unfoldable pub unregister : TopicId → Codec → Codec
unfolding drop_stream
unregister topic_id c = elim (lookup c.stream_by_id topic_id) [
  | none ↦ c
  | some stream ↦ drop_stream topic_id stream c
]

unfoldable pub is_success_value : Bytes → Bool
is_success_value value = bytes_eq value (codes "success")

unfoldable pub is_auth_ack : Bytes → Codec → Bool
unfolding is_success_value
is_auth_ack payload c = elim (c.auth_enabled) [
  | false ↦ false
  | true ↦ elim (scan_uint_field payload (quoted (codes "id"))) [
    | none ↦ false
    | some id ↦ elim (id == c.auth_req_id) [
      | false ↦ false
      | true ↦ elim (scan_string_field payload (quoted (codes "result"))) [
        | some result ↦ is_success_value result
        | none ↦ elim (scan_string_field payload (quoted (codes "status"))) [
          | some status ↦ is_success_value status
          | none ↦ bytes_contains payload (codes "\"success\":true")
        ]
      ]
    ]
  ]
]

abbrev pub lookup_text : Map TopicId → Option Bytes → Option TopicId
lookup_text m none = none
lookup_text m (some text) = lookup m (hash_bytes text)

abbrev pub first_of {ℓ} : {A : Type ℓ} → Option A → Option A → Option A
first_of none o = o
first_of (some a) o = some a

unfoldable pub decode_topic : Bytes → Codec → Option TopicId
unfolding is_auth_ack
decode_topic payload c =
    let stream = lookup_text c.stream_lookup (scan_string_field payload (quoted (codes "e"))) in
    let symbol = lookup_text c.symbol_lookup (scan_string_field payload (quoted (codes "s"))) in
    if is_auth_ack payload c then some c.auth_topic_id else first_of stream symbol

unfoldable pub is_auth_topic : TopicId → Codec → Bool
is_auth_topic topic c = c.auth_enabled && c.auth_topic_id == topic

unfoldable pub encode_subscribe : Bytes → TopicId → Codec → Encoded
unfolding is_auth_topic encode_auth numbered
encode_subscribe dst topic c =
    if is_auth_topic topic c
    then encode_auth dst c.auth_api_key c.auth_req_id
    else elim (lookup c.stream_by_id topic) [
      | none ↦ protocol_error
      | some stream ↦
          numbered
            (dst
              ++ codes "{\"method\":\"SUBSCRIBE\",\"params\":[\""
              ++ stream
              ++ codes "\"],\"id\":")
            topic
    ]

-- `dst[:0]` is an empty text.
unfoldable pub encode_unsubscribe : Bytes → TopicId → Codec → Encoded
unfolding is_auth_topic numbered
encode_unsubscribe dst topic c =
    if is_auth_topic topic c then message message_text [] else elim (lookup c.stream_by_id topic) [
      | none ↦ protocol_error
      | some stream ↦
          numbered
            (dst
              ++ codes "{\"method\":\"UNSUBSCRIBE\",\"params\":[\""
              ++ stream
              ++ codes "\"],\"id\":")
            topic
    ]
