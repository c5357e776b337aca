-- ===== src/Tests/Btcc.antt =====
-- Runs of the readers and of the codec of bundle/internal/ingest/btcc.
use go_hft.Prelude.{
  ℕ, ◌≡◌, refl, none, some, [], ◌∷◌, ◌++◌, arith, codes, Bytes, false, All, replicate,
}
use go_hft.Websocket.Types.{message_text}
use go_hft.Adapter.Symbol.{append_bytes, new_symbol}
use go_hft.Adapter.Ingest.{IngestRequest}
use go_hft.Adapter.Enum.{topic_depth, topic_order}
use go_hft.Ingest.Binance.Payload.{quoted}
use go_hft.Ingest.Binance.Codec.{message, protocol_error}
use go_hft.Ingest.Btcc.Skip.{ends_value, skip_value}
use go_hft.Ingest.Btcc.Skip.Json.{
  Value, scalar, string, nest, curly, square, end, entry, put, IsJson,
}
use go_hft.Ingest.Btcc.Skip.Values.{skip_value-put}
use go_hft.Ingest.Btcc.Params.{found, panics, scan_params_value, params}
use go_hft.Ingest.Btcc.Elements.{put_values, scan_params_value-put_values}
use go_hft.Ingest.Btcc.Fields
use go_hft.Ingest.Btcc.Codec.{
  Codec, TopicMeta, depth, order, new_codec, add_topic, register, unregister, market_from_request,
  encode_subscribe, encode_unsubscribe, is_auth_topic, is_auth_ack,
}
use go_hft.Ingest.Btcc.Unclosed.{unclosed, scan_params_value-unclosed}
use go_hft.Ingest.Btcc.Codec.Laws.{subscribe_text, unsubscribe_text, register-encode_market}
use go_hft.Ingest.Btcc.Codec.Updates.{depth_update, order_update}
use go_hft.Ingest.Btcc.Codec.Markets.{Split, unregister-Split}

-- `{"a]":[1,"\""]}`, `true` and `"BTCUSDT"`
abbrev book : Value
book = nest curly (
    entry (some (codes "a]"))
      (nest square (entry none (scalar b'1' []) (entry none (string (b'"' ∷ [])) end))) end)

abbrev yes_value : Value
yes_value = scalar b't' (codes "rue")

abbrev market : Value
market = string (codes "BTCUSDT")

book-IsJson : IsJson book
book-IsJson = ((((refl, tt), (tt, tt))), tt)

skip_value-put_example : skip_value (put book (codes ",7]")) ≡ some (codes ",7]")
unfolding ends_value
skip_value-put_example = skip_value-put book (codes ",7]") book-IsJson refl

abbrev update : Bytes
update = depth_update (yes_value ∷ book ∷ market ∷ []) (codes ",\"id\":null}")

update-params :
    params update
    ≡ some (put_values (yes_value ∷ book ∷ market ∷ []) (b']' ∷ codes ",\"id\":null}"))
unfolding params
update-params = refl

yes_value-IsJson : IsJson yes_value
yes_value-IsJson = (refl, (refl, (refl, (refl, tt))))

values-IsJson : All IsJson (yes_value ∷ book ∷ market ∷ [])
values-IsJson = (yes_value-IsJson, (book-IsJson, (tt, tt)))

scan_params_value-put_values_example : scan_params_value [] update 1 ≡ found (put book [])
scan_params_value-put_values_example =
    scan_params_value-put_values [] update (codes ",\"id\":null}") 1
      (yes_value ∷ book ∷ market ∷ []) update-params values-IsJson

abbrev cut_message : Bytes
cut_message = codes "{\"params\":[" ++ (b'"' ∷ unclosed (codes "a"))

cut_message-params : params cut_message ≡ some (b'"' ∷ unclosed (codes "a"))
unfolding params
cut_message-params = refl

scan_params_value-unclosed_example :
    (scan_params_value [] cut_message 0 ≡ panics)
    × (scan_params_value (9 ∷ []) cut_message 0 ≡ found (b'"' ∷ unclosed (codes "a") ++ 9 ∷ []))
scan_params_value-unclosed_example =
    scan_params_value-unclosed cut_message (codes "a") [] 9 cut_message-params (ground arith)
      (ground arith)

abbrev request : ℕ → IngestRequest
request topic = record {
  platform = 1;
  topic = topic;
  symbol = new_symbol (codes "BTC") (codes "USDT") [];
  api_key = replicate 64 0;
}

abbrev depth_meta : TopicMeta
depth_meta = record { kind = depth; market = codes "BTCUSDT" }

abbrev order_meta : TopicMeta
order_meta = record { kind = order; market = codes "BTCUSDT" }

abbrev depth_codec : Codec
depth_codec = add_topic 4 depth_meta new_codec

abbrev both_codec : Codec
both_codec = add_topic 5 order_meta depth_codec

register_both :
    (register 4 (request topic_depth) new_codec ≡ some depth_codec)
    × (register 5 (request topic_order) depth_codec ≡ some both_codec)
unfolding register new_symbol
register_both = (refl, refl)

abbrev sign : Bytes → Bytes
sign secret = secret

register-encode_market_example :
    (meta : TopicMeta) × (market_from_request (request topic_depth) ≡ some meta)
    × (encode_subscribe sign [] 4 depth_codec ≡ message message_text (subscribe_text [] 4 meta))
    × (encode_unsubscribe [] 4 depth_codec ≡ message message_text (unsubscribe_text [] 4 meta))
    × (encode_subscribe sign [] 4 (unregister 4 depth_codec) ≡ protocol_error)
    × (encode_subscribe sign [] 6 depth_codec ≡ encode_subscribe sign [] 6 new_codec)
unfolding is_auth_topic
register-encode_market_example =
    register-encode_market sign 4 6 (request topic_depth) new_codec depth_codec [] register_both.0
      refl (omega arith) refl

-- `{"market":"BTCUSDT"}`
abbrev order_value : Value
order_value = nest curly (entry (some (codes "market")) market end)

order_value-market :
    go_hft.Ingest.Btcc.Fields.scan_string_field (put order_value []) (quoted (codes "market"))
    ≡ some (codes "BTCUSDT")
unfolding go_hft.Ingest.Btcc.Fields.scan_string_field
order_value-market = refl

no_ack :
    (is_auth_ack (depth_update (yes_value ∷ book ∷ market ∷ []) []) new_codec ≡ false)
    × (is_auth_ack (order_update (yes_value ∷ order_value ∷ []) []) new_codec ≡ false)
unfolding is_auth_ack
no_ack = (refl, refl)

unregister-Split_example :
    Split 4 5 both_codec []
      (depth_update (yes_value ∷ book ∷ market ∷ []) [])
      (order_update (yes_value ∷ order_value ∷ []) [])
unfolding new_symbol append_bytes
unregister-Split_example =
    unregister-Split 4 5 (request topic_depth) (request topic_order) new_codec depth_codec
      both_codec [] [] yes_value book yes_value order_value [] [] refl refl refl (ground arith)
      (ground arith) refl register_both.0 register_both.1 (yes_value-IsJson, (book-IsJson, tt))
      (yes_value-IsJson, ((tt, tt), tt)) order_value-market no_ack.0 no_ack.1
