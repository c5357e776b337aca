-- ===== src/Ingest/Btcc/Codec/Markets.antt =====
-- The depth and the order topic of one market in bundle/internal/ingest/btcc/codec.go: each has a map of
-- its own.
use go_hft.Prelude.{
  ℕ, ◌≡◌, refl, ap, ◌∙◌, false, none, some, List, [], ◌∷◌, ◌==◌, Bytes, codes, Lacks, All,
}
use go_hft.Prelude.Maps.{lookup, insert, lookup-insert, lookup-insert_other, lookup-delete}
use go_hft.Websocket.Types.{TopicId}
use go_hft.Adapter.Enum.{topic_depth, topic_order}
use go_hft.Adapter.Symbol.{append_bytes}
use go_hft.Adapter.Ingest.{IngestRequest}
use go_hft.Ingest.Text.{hash_bytes}
use go_hft.Ingest.Binance.Payload.{quoted}
use go_hft.Ingest.Btcc.Skip.Json.{Value, string, put, IsJson}
use go_hft.Ingest.Btcc.Params.{Found, found, missing}
use go_hft.Ingest.Btcc.Fields
use go_hft.Ingest.Btcc.Codec.{
  Codec, TopicMeta, depth, order, market_from_request, add_topic, drop_topic, register, unregister,
  is_auth_ack, topic_of, decode_topic,
}
use go_hft.Ingest.Btcc.Codec.Laws.{register-cases, unregister_known}
use go_hft.Ingest.Btcc.Codec.Updates.{
  depth_update, order_update, depth_update-topic, order_update-topic,
}

abbrev depth_meta : Bytes → TopicMeta
depth_meta m = record { kind = depth; market = m }

abbrev order_meta : Bytes → TopicMeta
order_meta m = record { kind = order; market = m }

depth_request :
    (req : IngestRequest)
    → req.topic ≡ topic_depth
    → market_from_request req ≡ some (depth_meta (append_bytes req.symbol))
unfolding market_from_request
depth_request req h = rw (h) refl

order_request :
    (req : IngestRequest)
    → req.topic ≡ topic_order
    → market_from_request req ≡ some (order_meta (append_bytes req.symbol))
unfolding market_from_request
order_request req h = rw (h) refl

registered :
    (topic : TopicId) (req : IngestRequest) (c c' : Codec) (meta : TopicMeta)
    → register topic req c ≡ some c'
    → market_from_request req ≡ some meta
    → c' ≡ add_topic topic meta c
registered topic req c c' meta h r =
    let (found_meta, q, e) = register-cases topic req c c' h in
    let same : found_meta ≡ meta = cc in e ∙ ap (λ t. add_topic topic t c) same

-- Both topics of a market.
abbrev both : TopicId → TopicId → Bytes → Codec → Codec
both d o m c = add_topic o (order_meta m) (add_topic d (depth_meta m) c)

found_in :
    (m : List (ℕ × TopicId)) (market : Bytes) (id : TopicId)
    → lookup m (hash_bytes market) ≡ some id
    → topic_of m (found market) ≡ found id
found_in m market id e =
    ap (λ o. elim o as (λ _. Found TopicId) [ none ↦ missing | some id' ↦ found id' ]) e

not_in :
    (m : List (ℕ × TopicId)) (market : Bytes)
    → lookup m (hash_bytes market) ≡ none
    → topic_of m (found market) ≡ missing
not_in m market e =
    ap (λ o. elim o as (λ _. Found TopicId) [ none ↦ missing | some id' ↦ found id' ]) e

both-depth :
    (d o : TopicId) (m : Bytes) (c : Codec)
    → topic_of (both d o m c).depth_lookup (found m) ≡ found d
unfolding add_topic
both-depth d o m c =
    found_in (both d o m c).depth_lookup m d (lookup-insert c.depth_lookup (hash_bytes m) d)

both-order :
    (d o : TopicId) (m : Bytes) (c : Codec)
    → topic_of (both d o m c).order_lookup (found m) ≡ found o
unfolding add_topic
both-order d o m c =
    found_in (both d o m c).order_lookup m o (lookup-insert c.order_lookup (hash_bytes m) o)

-- Without one of the two topics.
without_depth :
    (d o : TopicId) (m : Bytes) (c : Codec)
    → (o == d) ≡ false
    → unregister d (both d o m c) ≡ drop_topic d (depth_meta m) (both d o m c)
unfolding add_topic
without_depth d o m c h = unregister_known d (depth_meta m) (both d o m c) (
    lookup-insert_other (insert c.topics_by_id d (depth_meta m)) o d (order_meta m) h
    ∙ lookup-insert c.topics_by_id d (depth_meta m))

without_order :
    (d o : TopicId) (m : Bytes) (c : Codec)
    → unregister o (both d o m c) ≡ drop_topic o (order_meta m) (both d o m c)
unfolding add_topic
without_order d o m c =
    unregister_known o (order_meta m) (both d o m c)
      (lookup-insert (add_topic d (depth_meta m) c).topics_by_id o (order_meta m))

-- Where the messages of the market go while both topics, one or the other is registered.
pub record Split (d o : TopicId) (c : Codec) (beyond depth_text order_text : Bytes) : Type 0 where
  depth_first : decode_topic beyond depth_text c ≡ found d
  order_first : decode_topic beyond order_text c ≡ found o
  depth_kept : decode_topic beyond depth_text (unregister o c) ≡ found d
  order_gone : decode_topic beyond order_text (unregister o c) ≡ missing
  depth_gone : decode_topic beyond depth_text (unregister d c) ≡ missing
  order_kept : decode_topic beyond order_text (unregister d c) ≡ found o

auth_kept-both :
    (payload : Bytes) (d o : TopicId) (m : Bytes) (c : Codec)
    → is_auth_ack payload (both d o m c) ≡ is_auth_ack payload c
unfolding is_auth_ack add_topic
auth_kept-both payload d o m c = refl

auth_kept-drop :
    (payload : Bytes) (topic : TopicId) (meta : TopicMeta) (c : Codec)
    → is_auth_ack payload (drop_topic topic meta c) ≡ is_auth_ack payload c
unfolding is_auth_ack drop_topic
auth_kept-drop payload topic meta c = refl

-- The codec takes the two messages to what its two maps have for the market.
record Lookups (c : Codec) (m beyond depth_text order_text : Bytes) : Type 0 where
  depths : decode_topic beyond depth_text c ≡ topic_of c.depth_lookup (found m)
  orders : decode_topic beyond order_text c ≡ topic_of c.order_lookup (found m)

both-Split :
    (d o : TopicId) (m : Bytes) (c : Codec) (beyond depth_text order_text : Bytes)
    → (o == d) ≡ false
    → Lookups (both d o m c) m beyond depth_text order_text
    → Lookups (drop_topic d (depth_meta m) (both d o m c)) m beyond depth_text order_text
    → Lookups (drop_topic o (order_meta m) (both d o m c)) m beyond depth_text order_text
    → Split d o (both d o m c) beyond depth_text order_text
unfolding drop_topic
both-Split d o m c beyond depth_text order_text h all no_depth no_order = record {
  depth_first = all.depths ∙ both-depth d o m c;
  order_first = all.orders ∙ both-order d o m c;
  depth_kept = rw (without_order d o m c) (no_order.depths ∙ both-depth d o m c);
  order_gone =
      rw (without_order d o m c)
        (no_order.orders ∙ not_in _ m (lookup-delete (both d o m c).order_lookup (hash_bytes m)));
  depth_gone =
      rw (without_depth d o m c h)
        (no_depth.depths ∙ not_in _ m (lookup-delete (both d o m c).depth_lookup (hash_bytes m)));
  order_kept = rw (without_depth d o m c h) (no_depth.orders ∙ both-order d o m c);
}

-- A codec registers the depth topic d and then another topic o for the orders of one symbol, whose text m
-- has no quotes and no backslashes. The two messages are a depth update whose third parameter is the
-- string m, and an order update in whose second parameter the field `market` reads m; their parameters
-- are JSON values, and neither is an acknowledgement of the auth request. Then the depth update goes to d
-- and the order update to o; once o is unregistered, the first still goes to d and the second nowhere,
-- and once d is unregistered instead, the first goes nowhere and the second still goes to o.
pub unregister-Split :
    (d o : TopicId) (depths orders : IngestRequest) (c c₁ c₂ : Codec) (beyond behind : Bytes)
    (v w x y : Value) (vs ws : List Value)
    → depths.topic ≡ topic_depth
    → orders.topic ≡ topic_order
    → orders.symbol ≡ depths.symbol
    → Lacks b'"' (append_bytes depths.symbol)
    → Lacks b'\\' (append_bytes depths.symbol)
    → (o == d) ≡ false
    → register d depths c ≡ some c₁
    → register o orders c₁ ≡ some c₂
    → All IsJson (v ∷ w ∷ vs)
    → All IsJson (x ∷ y ∷ ws)
    → go_hft.Ingest.Btcc.Fields.scan_string_field (put y []) (quoted (codes "market"))
      ≡ some (append_bytes depths.symbol)
    → is_auth_ack (depth_update (v ∷ w ∷ string (append_bytes depths.symbol) ∷ vs) behind) c ≡ false
    → is_auth_ack (order_update (x ∷ y ∷ ws) behind) c ≡ false
    → Split d o c₂ beyond
        (depth_update (v ∷ w ∷ string (append_bytes depths.symbol) ∷ vs) behind)
        (order_update (x ∷ y ∷ ws) behind)
unregister-Split d o depths orders c c₁ c₂ beyond behind v w x y vs ws td to same quotes backslashes
      h rd ro (jv, (jw, jvs)) js e ad ao =
    let m = append_bytes depths.symbol in
    let e₁ = registered d depths c c₁ (depth_meta m) rd (depth_request depths td) in
    let e₂ =
      registered o orders c₁ c₂ (order_meta m) ro
        (order_request orders to ∙ ap (λ s. some (order_meta (append_bytes s))) same) in
    let looks : (a : Codec)
        → is_auth_ack (depth_update (v ∷ w ∷ string m ∷ vs) behind) a ≡ false
        → is_auth_ack (order_update (x ∷ y ∷ ws) behind) a ≡ false
        → Lookups a m beyond (depth_update (v ∷ w ∷ string m ∷ vs) behind)
            (order_update (x ∷ y ∷ ws) behind) =
      λ a p q. record {
        depths =
            depth_update-topic beyond a v w vs m behind (jv, (jw, (tt, jvs))) quotes backslashes p;
        orders = order_update-topic beyond a x y ws m behind js e q;
      } in
    let both_codec = both d o m c in
    rw (e₂, e₁)
      (both-Split d o m c beyond _ _ h
        (looks both_codec (auth_kept-both _ d o m c ∙ ad) (auth_kept-both _ d o m c ∙ ao))
        (looks (drop_topic d (depth_meta m) both_codec)
          (auth_kept-drop _ d (depth_meta m) both_codec ∙ auth_kept-both _ d o m c ∙ ad)
          (auth_kept-drop _ d (depth_meta m) both_codec ∙ auth_kept-both _ d o m c ∙ ao))
        (looks (drop_topic o (order_meta m) both_codec)
          (auth_kept-drop _ o (order_meta m) both_codec ∙ auth_kept-both _ d o m c ∙ ad)
          (auth_kept-drop _ o (order_meta m) both_codec ∙ auth_kept-both _ d o m c ∙ ao)))
