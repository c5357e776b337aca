-- ===== src/Ingest/Btcc/Codec/Updates.antt =====
-- Where the codec of bundle/internal/ingest/btcc/codec.go takes the messages of the exchange.
use go_hft.Prelude.{
  ℕ, ◌+◌, ◌≡◌, refl, ap, ◌∙◌, false, Option, none, some, List, [], ◌∷◌, ◌++◌, ◌==◌, ◌||◌, ltb,
  if◌then◌else◌, Bytes, codes, bytes_eq, length, drop, arith, Lacks, All,
}
use go_hft.Websocket.Types.{TopicId}
use go_hft.Scanner.{
  scan_string_field, index_of, index_from, behind_key, value_of, string_value, take_until,
  skip_until, skip_spaces, is_space, starts_with, ◌>>=◌,
}
use go_hft.Ingest.Binance.Payload.{quoted, find_key, after_key}
use go_hft.Ingest.Btcc.Skip.Json.{Value, string, put, IsJson}
use go_hft.Ingest.Btcc.Params.{Found, found, missing, params, scan_params_value}
use go_hft.Ingest.Btcc.Elements.{put_values, scan_params_value-put_values}
use go_hft.Ingest.Btcc.Fields
use go_hft.Ingest.Btcc.Fields.{scan_params_string}
use go_hft.Ingest.Btcc.Fields.Strings.{scan_params_string-put_values}
use go_hft.Ingest.Btcc.Codec.{Codec, is_auth_ack, topic_of, order_market, decode_topic}

-- A message of the exchange with its method and its parameters.
abbrev pub depth_update : List Value → Bytes → Bytes
depth_update vs behind =
    codes "{\"method\":\"depth.update\",\"params\":[" ++ put_values vs (b']' ∷ behind)

depth_update-params :
    (vs : List Value) (behind : Bytes)
    → params (depth_update vs behind) ≡ some (put_values vs (b']' ∷ behind))
unfolding params find_key after_key value_of starts_with skip_until skip_spaces is_space
depth_update-params vs behind = refl

-- A message of the exchange about an order.
abbrev pub order_update : List Value → Bytes → Bytes
order_update vs behind =
    codes "{\"method\":\"order.update\",\"params\":[" ++ put_values vs (b']' ∷ behind)

order_update-params :
    (vs : List Value) (behind : Bytes)
    → params (order_update vs behind) ≡ some (put_values vs (b']' ∷ behind))
unfolding params find_key after_key value_of starts_with skip_until skip_spaces is_space
order_update-params vs behind = refl

index_of_long :
    (payload key : Bytes)
    → (length key == 0 || ltb (length payload) (length key)) ≡ false
    → index_of payload key ≡ index_from 0 payload key
unfolding index_of
index_of_long payload key h = rw (h) refl

scan_string_field_at :
    (payload key : Bytes) (i : ℕ)
    → index_of payload key ≡ some i
    → scan_string_field payload key ≡ (value_of (drop (i + length key) payload) >>= string_value)
unfolding scan_string_field behind_key
scan_string_field_at payload key i e =
    ap
      (λ o.
        (elim o as (λ _. Option Bytes) [
          | none ↦ none
          | some idx ↦ some (drop (idx + length key) payload)
        ])
        >>= (λ rest. value_of rest >>= string_value))
      e

depth_update-method :
    (rest : Bytes)
    → scan_string_field (codes "{\"method\":\"depth.update\"," ++ rest) (quoted (codes "method"))
      ≡ some (codes "depth.update")
unfolding value_of string_value take_until skip_until skip_spaces is_space index_from starts_with
depth_update-method rest =
    scan_string_field_at _ (quoted (codes "method")) 1
      (index_of_long (codes "{\"method\":\"depth.update\"," ++ rest) _ (ground arith))

order_update-method :
    (rest : Bytes)
    → scan_string_field (codes "{\"method\":\"order.update\"," ++ rest) (quoted (codes "method"))
      ≡ some (codes "order.update")
unfolding value_of string_value take_until skip_until skip_spaces is_space index_from starts_with
order_update-method rest =
    scan_string_field_at _ (quoted (codes "method")) 1
      (index_of_long (codes "{\"method\":\"order.update\"," ++ rest) _ (ground arith))

-- Where the codec takes a message whose method is known, once it is no acknowledgement.
by_method : Bytes → Bytes → Codec → Option Bytes → Found TopicId
unfolding scan_params_string scan_params_value
by_method beyond payload c none = missing
by_method beyond payload c (some method) =
    if bytes_eq method (codes "depth.update")
    then topic_of c.depth_lookup (scan_params_string beyond payload 2)
    else if bytes_eq method (codes "order.update")
    then topic_of c.order_lookup (order_market (scan_params_value beyond payload 1))
    else missing

decode_topic-by_method :
    (beyond payload : Bytes) (c : Codec)
    → is_auth_ack payload c ≡ false
    → decode_topic beyond payload c
      ≡ by_method beyond payload c (scan_string_field payload (quoted (codes "method")))
unfolding decode_topic by_method
decode_topic-by_method beyond payload c a =
    let method = scan_string_field payload (quoted (codes "method")) in
    rw (a)
      (elim method
        as (λ o.
          (elim o as (λ _. Found TopicId) [
            | none ↦ missing
            | some method ↦
                if bytes_eq method (codes "depth.update")
                then topic_of c.depth_lookup (scan_params_string beyond payload 2)
                else if bytes_eq method (codes "order.update")
                then topic_of c.order_lookup (order_market (scan_params_value beyond payload 1))
                else missing
          ])
          ≡ by_method beyond payload c o) [ none ↦ refl | some method ↦ refl ])

pub depth_update-topic :
    (beyond : Bytes) (c : Codec) (v w : Value) (vs : List Value) (m behind : Bytes)
    → All IsJson (v ∷ w ∷ string m ∷ vs)
    → Lacks b'"' m
    → Lacks b'\\' m
    → is_auth_ack (depth_update (v ∷ w ∷ string m ∷ vs) behind) c ≡ false
    → decode_topic beyond (depth_update (v ∷ w ∷ string m ∷ vs) behind) c
      ≡ topic_of c.depth_lookup (found m)
unfolding by_method
depth_update-topic beyond c v w vs m behind h quotes backslashes a =
    let payload = depth_update (v ∷ w ∷ string m ∷ vs) behind in
    decode_topic-by_method beyond payload c a
    ∙ ap (by_method beyond payload c) (depth_update-method _)
    ∙ ap (topic_of c.depth_lookup) (
        scan_params_string-put_values beyond payload behind 2 (v ∷ w ∷ string m ∷ vs) m
          (depth_update-params (v ∷ w ∷ string m ∷ vs) behind) h refl quotes backslashes)

pub order_update-topic :
    (beyond : Bytes) (c : Codec) (v w : Value) (vs : List Value) (m behind : Bytes)
    → All IsJson (v ∷ w ∷ vs)
    → go_hft.Ingest.Btcc.Fields.scan_string_field (put w []) (quoted (codes "market")) ≡ some m
    → is_auth_ack (order_update (v ∷ w ∷ vs) behind) c ≡ false
    → decode_topic beyond (order_update (v ∷ w ∷ vs) behind) c ≡ topic_of c.order_lookup (found m)
unfolding by_method
order_update-topic beyond c v w vs m behind h e a =
    let payload = order_update (v ∷ w ∷ vs) behind in
    decode_topic-by_method beyond payload c a
    ∙ ap (by_method beyond payload c) (order_update-method _)
    ∙ ap (λ o. topic_of c.order_lookup (order_market o))
        (scan_params_value-put_values beyond payload behind 1 (v ∷ w ∷ vs)
          (order_update-params (v ∷ w ∷ vs) behind) h)
    ∙ ap
        (λ o.
          topic_of c.order_lookup
            (elim o as (λ _. Found Bytes) [ none ↦ missing | some market ↦ found market ]))
        e
