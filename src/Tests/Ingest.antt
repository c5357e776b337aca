-- ===== src/Tests/Ingest.antt =====
-- Runs of the decimals and of the topic codec (bundle/internal/ingest/binance).
use go_hft.Prelude.{
  ℕ, ◌+◌, ◌*◌, ◌-◌, ◌^◌, ◌≡◌, refl, false, none, some, [], ◌∷◌, ◌++◌, arith, codes, Bytes,
  replicate, map, if◌then◌else◌, ◌&&◌, leb,
}
use go_hft.Prelude.Int.{negsuc}
use go_hft.Prelude.Digits.{decimal, value}
use go_hft.Prelude.Maps.{lookup}
use go_hft.Websocket.Types.{message_text}
use go_hft.Adapter.Common.{append_scaled_int}
use go_hft.Adapter.Symbol.{append_bytes, new_symbol}
use go_hft.Adapter.Ingest.{IngestRequest}
use go_hft.Adapter.Enum.{topic_depth, topic_order}
use go_hft.Scanner.{scan_string_field}
use go_hft.Ingest.Decimal.{parse_decimal}
use go_hft.Ingest.Decimal.RoundTrip.{parse-append_scaled_int}
use go_hft.Ingest.Decimal.Overflow.{parse_decimal_wraps}
use go_hft.Ingest.Text.{append_uint}
use go_hft.Ingest.Text.Print.{append_uint-decimal}
use go_hft.Ingest.Binance.Codec.{
  Codec, message, protocol_error, new_codec, register, unregister, stream_for_request, decode_topic,
  encode_subscribe, encode_unsubscribe, is_auth_ack, is_auth_topic, add_stream, parse_symbol_upper,
}
use go_hft.Ingest.Binance.Codec.Laws.{control, register-encode, decode_topic-register}
use go_hft.Ingest.Binance.Codec.Shared.{unregister_shared}

-- -1.25
parse-append_scaled_int_example :
    parse_decimal (append_scaled_int (negsuc 124) 2)
    ≡ some (record { integer = negsuc 124; scale = 2 })
parse-append_scaled_int_example = parse-append_scaled_int (negsuc 124) 2 (omega arith) (omega arith)

parse_decimal_wraps_example :
    parse_decimal (b'9' ∷ b'.' ∷ codes "999999999999999999")
    ≡ some (record {
      integer = negsuc (2 ^ 64 - 1 - (9 * 10 ^ 18 + value 0 (codes "999999999999999999")));
      scale = 18;
    })
unfolding value
parse_decimal_wraps_example =
    parse_decimal_wraps (codes "999999999999999999") (ground arith) refl (omega arith)

append_uint-decimal_example : append_uint (codes "id") 1024 ≡ some (codes "id" ++ decimal 1024)
append_uint-decimal_example = append_uint-decimal (codes "id") 1024 (omega arith)

-- `strings.ToLower` on ASCII
abbrev to_lower : Bytes → Bytes
to_lower = map (λ b. if leb b'A' b && leb b b'Z' then b + 32 else b)

abbrev request : ℕ → IngestRequest
request topic = record {
  platform = 2;
  topic = topic;
  symbol = new_symbol (codes "BTC") (codes "USDT") [];
  api_key = replicate 64 0;
}

abbrev registered : Codec
registered = add_stream 5 (codes "btcusdt") new_codec

register_order : register to_lower 5 (request topic_order) new_codec ≡ some registered
unfolding register new_symbol
register_order = refl

register-encode_example :
    (s : Bytes) × (stream_for_request to_lower (request topic_order) ≡ some s)
    × (encode_subscribe [] 5 registered ≡ message message_text (control [] (codes "SUBSCRIBE") s 5))
    × (encode_unsubscribe [] 5 registered
        ≡ message message_text (control [] (codes "UNSUBSCRIBE") s 5))
    × (encode_subscribe [] 5 (unregister 5 registered) ≡ protocol_error)
    × (encode_unsubscribe [] 5 (unregister 5 registered) ≡ protocol_error)
    × (encode_subscribe [] 6 registered ≡ encode_subscribe [] 6 new_codec)
unfolding is_auth_topic
register-encode_example =
    register-encode to_lower 5 6 (request topic_order) new_codec registered [] register_order refl
      (omega arith) refl

-- A message of the stream, and one that names the symbol.
abbrev stream_message : Bytes
stream_message = codes "{\"e\":\"btcusdt\"}"

abbrev symbol_message : Bytes
symbol_message = codes "{\"s\":\"BTCUSDT\"}"

no_ack :
    (is_auth_ack stream_message new_codec ≡ false) × (is_auth_ack symbol_message new_codec ≡ false)
unfolding is_auth_ack
no_ack = (refl, refl)

streams :
    (scan_string_field stream_message (codes "\"e\"") ≡ some (codes "btcusdt"))
    × (scan_string_field symbol_message (codes "\"e\"") ≡ none)
    × (scan_string_field symbol_message (codes "\"s\"") ≡ some (codes "BTCUSDT"))
unfolding scan_string_field
streams = (refl, refl, refl)

order_stream : stream_for_request to_lower (request topic_order) ≡ some (codes "btcusdt")
unfolding stream_for_request new_symbol
order_stream = refl

decode_topic-register_example : decode_topic stream_message registered ≡ some 5
decode_topic-register_example =
    decode_topic-register to_lower 5 (request topic_order) new_codec registered stream_message
      (codes "btcusdt") register_order order_stream no_ack.0 streams.0

abbrev depth_codec : Codec
depth_codec = add_stream 4 (codes "btcusdt@depth@100ms") new_codec

abbrev both_codec : Codec
both_codec = add_stream 5 (codes "btcusdt") depth_codec

register_both :
    (register to_lower 4 (request topic_depth) new_codec ≡ some depth_codec)
    × (register to_lower 5 (request topic_order) depth_codec ≡ some both_codec)
unfolding register new_symbol
register_both = (refl, refl)

unregister_shared_example :
    (decode_topic symbol_message both_codec ≡ some 5)
    × (decode_topic symbol_message (unregister 4 both_codec) ≡ none)
    × (lookup (unregister 4 both_codec).stream_by_id 5 ≡ some (codes "btcusdt"))
unfolding append_bytes new_symbol parse_symbol_upper
unregister_shared_example =
    unregister_shared to_lower 4 5 (request topic_depth) (request topic_order) new_codec depth_codec
      both_codec symbol_message refl refl refl (ground arith) (ground arith) refl register_both.0
      register_both.1 no_ack.1 streams.1 streams.2
