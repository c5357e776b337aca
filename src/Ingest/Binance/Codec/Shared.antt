-- ===== src/Ingest/Binance/Codec/Shared.antt =====
-- The depth and the order topic of one symbol in bundle/internal/ingest/binance/codec.go: both
-- register under the hash of the same symbol.
use go_hft.Prelude.{
  ◌≡◌, ◌≢◌, refl, ap, ◌∙◌, subst, false, none, some, [], ◌∷◌, ◌++◌, ◌==◌, if◌then◌else◌, Bytes,
  codes, arith, Lacks, length,
}
use go_hft.Prelude.Maps.{
  lookup, insert, delete, lookup-insert, lookup-insert_other, lookup-delete, lookup-delete_other,
}
use go_hft.Websocket.Types.{TopicId}
use go_hft.Adapter.Enum.{topic_depth, topic_order}
use go_hft.Adapter.Symbol.{append_bytes}
use go_hft.Adapter.Ingest.{IngestRequest}
use go_hft.Scanner.{scan_string_field}
use go_hft.Ingest.Text.{hash_bytes}
use go_hft.Ingest.Binance.Payload.{quoted}
use go_hft.Ingest.Binance.Codec.{
  Codec, stream_for_request, parse_symbol_upper, add_stream, drop_stream, register, unregister,
  is_auth_ack, decode_topic,
}
use go_hft.Ingest.Binance.Codec.Laws.{
  register-cases, decode_topic-fields, auth_kept-add, auth_kept-drop, unregister_known,
}

parse-at :
    (m rest : Bytes) → Lacks b'@' m → parse_symbol_upper (m ++ b'@' ∷ rest) ≡ parse_symbol_upper m
unfolding parse_symbol_upper
parse-at [] rest h = refl
parse-at (b ∷ m) rest (h, hs) = ground (arith, parse-at m rest hs)

parse-length : (m : Bytes) → Lacks b'@' m → m ≢ [] → (length (parse_symbol_upper m) == 0) ≡ false
unfolding parse_symbol_upper
parse-length [] h k = absurd (k refl)
parse-length (b ∷ m) (h, hs) k = ground arith

depth_stream :
    (to_lower : Bytes → Bytes) (req : IngestRequest)
    → req.topic ≡ topic_depth
    → stream_for_request to_lower req
      ≡ some (to_lower (append_bytes req.symbol) ++ codes "@depth@100ms")
unfolding stream_for_request
depth_stream to_lower req h =
    ap
      (λ t.
        if t == topic_depth
        then some (to_lower (append_bytes req.symbol) ++ codes "@depth@100ms")
        else if t == topic_order
        then some (to_lower (append_bytes req.symbol))
        else none)
      h

order_stream :
    (to_lower : Bytes → Bytes) (req : IngestRequest)
    → req.topic ≡ topic_order
    → stream_for_request to_lower req ≡ some (to_lower (append_bytes req.symbol))
unfolding stream_for_request
order_stream to_lower req h =
    ap
      (λ t.
        if t == topic_depth
        then some (to_lower (append_bytes req.symbol) ++ codes "@depth@100ms")
        else if t == topic_order
        then some (to_lower (append_bytes req.symbol))
        else none)
      h

symbol-add :
    (topic : TopicId) (stream symbol : Bytes) (c : Codec)
    → parse_symbol_upper stream ≡ symbol
    → (length symbol == 0) ≡ false
    → lookup (add_stream topic stream c).symbol_lookup (hash_bytes symbol) ≡ some topic
unfolding add_stream
symbol-add topic stream symbol c e h =
    subst
      (λ y.
        (length y == 0) ≡ false
        → lookup (add_stream topic stream c).symbol_lookup (hash_bytes y) ≡ some topic)
      e
      (λ k.
        ap
          (λ b.
            lookup
              (if b
                then c.symbol_lookup
                else insert c.symbol_lookup (hash_bytes (parse_symbol_upper stream)) topic)
              (hash_bytes (parse_symbol_upper stream)))
          k
        ∙ lookup-insert c.symbol_lookup (hash_bytes (parse_symbol_upper stream)) topic)
      h

symbol-drop :
    (topic : TopicId) (stream symbol : Bytes) (c : Codec)
    → parse_symbol_upper stream ≡ symbol
    → (length symbol == 0) ≡ false
    → lookup (drop_stream topic stream c).symbol_lookup (hash_bytes symbol) ≡ none
unfolding drop_stream
symbol-drop topic stream symbol c e h =
    subst
      (λ y.
        (length y == 0) ≡ false
        → lookup (drop_stream topic stream c).symbol_lookup (hash_bytes y) ≡ none)
      e
      (λ k.
        ap
          (λ b.
            lookup
              (if b
                then c.symbol_lookup
                else delete c.symbol_lookup (hash_bytes (parse_symbol_upper stream)))
              (hash_bytes (parse_symbol_upper stream)))
          k
        ∙ lookup-delete c.symbol_lookup (hash_bytes (parse_symbol_upper stream)))
      h

registered :
    (to_lower : Bytes → Bytes) (topic : TopicId) (req : IngestRequest) (c c' : Codec)
    (stream : Bytes)
    → register to_lower topic req c ≡ some c'
    → stream_for_request to_lower req ≡ some stream
    → c' ≡ add_stream topic stream c
registered to_lower topic req c c' stream h r =
    let (s, q, e) = register-cases to_lower topic req c c' h in
    let same : s ≡ stream = cc in e ∙ ap (λ t. add_stream topic t c) same

-- A message with a symbol and no stream.
symbol_topic :
    (c : Codec) (payload symbol : Bytes)
    → is_auth_ack payload c ≡ false
    → scan_string_field payload (quoted (codes "e")) ≡ none
    → scan_string_field payload (quoted (codes "s")) ≡ some symbol
    → decode_topic payload c ≡ lookup c.symbol_lookup (hash_bytes symbol)
symbol_topic c payload symbol a e s = decode_topic-fields c payload none (some symbol) a e s

other_stream :
    (d o : TopicId) (text m : Bytes) (c : Codec)
    → (d == o) ≡ false
    → lookup (drop_stream d text (add_stream o m c)).stream_by_id o ≡ some m
unfolding drop_stream add_stream
other_stream d o text m c h =
    lookup-delete_other (insert c.stream_by_id o m) d o h ∙ lookup-insert c.stream_by_id o m

kept_stream :
    (d o : TopicId) (text m : Bytes) (c : Codec)
    → (o == d) ≡ false
    → lookup (add_stream o m (add_stream d text c)).stream_by_id d ≡ some text
unfolding add_stream
kept_stream d o text m c h =
    lookup-insert_other (insert c.stream_by_id d text) o d m h ∙ lookup-insert c.stream_by_id d text

shared_streams :
    (d o : TopicId) (m rest : Bytes) (c : Codec) (payload : Bytes)
    → Lacks b'@' m
    → m ≢ []
    → (o == d) ≡ false
    → is_auth_ack payload c ≡ false
    → scan_string_field payload (quoted (codes "e")) ≡ none
    → scan_string_field payload (quoted (codes "s")) ≡ some (parse_symbol_upper m)
    → let c₂ = add_stream o m (add_stream d (m ++ b'@' ∷ rest) c) in
      (decode_topic payload c₂ ≡ some o)
      × (decode_topic payload (unregister d c₂) ≡ none)
      × (lookup (unregister d c₂).stream_by_id o ≡ some m)
shared_streams d o m rest c payload lacks full apart a e s =
    let text : Bytes = m ++ b'@' ∷ rest in
    let c₁ = add_stream d text c in
    let c₂ = add_stream o m c₁ in
    let solid = parse-length m lacks full in
    let dropped = unregister_known d text c₂ (kept_stream d o text m c apart) in
    let a₂ = auth_kept-add payload m o c₁ ∙ auth_kept-add payload text d c ∙ a in
    (
      symbol_topic c₂ payload _ a₂ e s ∙ symbol-add o m _ c₁ refl solid,
      rw (dropped) (
          symbol_topic (drop_stream d text c₂) payload _ (auth_kept-drop payload text d c₂ ∙ a₂) e s
          ∙ symbol-drop d text _ c₂ (parse-at m rest lacks) solid),
      rw (dropped) (other_stream d o text m c₁ (ground arith)),
    )

-- A codec registers the depth topic d and then the order topic o of one symbol, whose lower-case text
-- is not empty and has no `@`. A message that names the symbol and no stream, and is no acknowledgement
-- of the auth request, is then taken to o, a depth update as well; once d is unregistered, it is taken
-- nowhere, though o is still registered.
pub unregister_shared :
    (to_lower : Bytes → Bytes) (d o : TopicId) (depth order : IngestRequest) (c c₁ c₂ : Codec)
    (payload : Bytes)
    → depth.topic ≡ topic_depth
    → order.topic ≡ topic_order
    → depth.symbol ≡ order.symbol
    → Lacks b'@' (to_lower (append_bytes order.symbol))
    → to_lower (append_bytes order.symbol) ≢ []
    → (o == d) ≡ false
    → register to_lower d depth c ≡ some c₁
    → register to_lower o order c₁ ≡ some c₂
    → is_auth_ack payload c ≡ false
    → scan_string_field payload (quoted (codes "e")) ≡ none
    → scan_string_field payload (quoted (codes "s"))
      ≡ some (parse_symbol_upper (to_lower (append_bytes order.symbol)))
    → (decode_topic payload c₂ ≡ some o)
      × (decode_topic payload (unregister d c₂) ≡ none)
      × (lookup (unregister d c₂).stream_by_id o ≡ some (to_lower (append_bytes order.symbol)))
unregister_shared to_lower d o depth order c c₁ c₂ payload td to same lacks full apart rd ro a e s =
    let m = to_lower (append_bytes order.symbol) in
    let market = ap (λ y. to_lower (append_bytes y) ++ codes "@depth@100ms") same in
    let e₁ =
      registered to_lower d depth c c₁ (m ++ codes "@depth@100ms") rd
        (depth_stream to_lower depth td ∙ ap some market) in
    let e₂ = registered to_lower o order c₁ c₂ m ro (order_stream to_lower order to) in
    rw (e₂, e₁) (shared_streams d o m (codes "depth@100ms") c payload lacks full apart a e s)
