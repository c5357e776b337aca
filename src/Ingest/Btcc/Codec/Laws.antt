-- ===== src/Ingest/Btcc/Codec/Laws.antt =====
-- What registering a topic with the codec of bundle/internal/ingest/btcc/codec.go means to the messages
-- that it encodes.
use go_hft.Prelude.{
  ℕ, ◌^◌, ◌<◌, ◌≡◌, refl, ap, ◌∙◌, false, Option, none, some, ◌++◌, ◌==◌, if◌then◌else◌, Bytes,
  codes, length, apply-if, arith,
}
use go_hft.Prelude.Digits.{decimal}
use go_hft.Prelude.Maps.{lookup, lookup-insert, lookup-insert_other, lookup-delete}
use go_hft.Websocket.Types.{TopicId, message_text}
use go_hft.Adapter.Ingest.{IngestRequest}
use go_hft.Ingest.Text.Print.{append_uint-decimal}
use go_hft.Ingest.Binance.Codec.{Encoded, message, protocol_error, panics}
use go_hft.Ingest.Btcc.Codec.{
  Codec, TopicMeta, is_order, with_id, control, market_from_request, add_topic, drop_topic,
  register, unregister, is_auth_topic, encode_registered_auth, encode_subscribe, encode_unsubscribe,
}

with_id_lem :
    (dst rest : Bytes) (id : ℕ)
    → id < 2 ^ 64
    → with_id dst id rest ≡ message message_text (dst ++ codes "{\"id\":" ++ decimal id ++ rest)
unfolding with_id
with_id_lem dst rest id h =
    ap
      (λ o. elim o as (λ _. Encoded) [
        | none ↦ panics
        | some text ↦ message message_text (text ++ rest)
      ])
      (append_uint-decimal (dst ++ codes "{\"id\":") id h)

pub register-cases :
    (topic : TopicId) (req : IngestRequest) (c c' : Codec)
    → register topic req c ≡ some c'
    → (meta : TopicMeta) × (market_from_request req ≡ some meta) × (c' ≡ add_topic topic meta c)
register-cases topic req c c' h = go (market_from_request req) (unfold register in h)
  where
    go :
        (o : Option TopicMeta)
        → (elim o as (λ _. Option Codec) [
          | none ↦ none
          | some meta ↦ if length meta.market == 0 then none else some (add_topic topic meta c)
        ])
          ≡ some c'
        → (meta : TopicMeta) × (o ≡ some meta) × (c' ≡ add_topic topic meta c)
    go none e = cc
    go (some meta) e = (meta, refl, ground arith)

pub add_topic-lookup :
    (topic : TopicId) (meta : TopicMeta) (c : Codec)
    → lookup (add_topic topic meta c).topics_by_id topic ≡ some meta
unfolding add_topic
add_topic-lookup topic meta c = lookup-insert c.topics_by_id topic meta

pub unregister_known :
    (topic : TopicId) (meta : TopicMeta) (c : Codec)
    → lookup c.topics_by_id topic ≡ some meta
    → unregister topic c ≡ drop_topic topic meta c
unfolding unregister
unregister_known topic meta c e =
    ap (λ o. elim o as (λ _. Codec) [ none ↦ c | some meta ↦ drop_topic topic meta c ]) e

auth_topic-add :
    (i topic : TopicId) (meta : TopicMeta) (c : Codec)
    → is_auth_topic i (add_topic topic meta c) ≡ is_auth_topic i c
unfolding is_auth_topic add_topic
auth_topic-add i topic meta c = refl

auth_topic-drop :
    (i topic : TopicId) (meta : TopicMeta) (c : Codec)
    → is_auth_topic i (drop_topic topic meta c) ≡ is_auth_topic i c
unfolding is_auth_topic drop_topic
auth_topic-drop i topic meta c = refl

-- The messages of a topic, as texts.
abbrev pub text : Bytes → TopicId → Bytes → Bytes → Bytes → Bytes
text dst topic method market rest =
    dst
    ++ codes "{\"id\":"
    ++ decimal topic
    ++ (codes ",\"method\":\"" ++ method ++ codes "\",\"params\":[\"" ++ market ++ rest)

abbrev pub subscribe_text : Bytes → TopicId → TopicMeta → Bytes
subscribe_text dst topic meta =
    if is_order meta.kind
    then text dst topic (codes "order.subscribe") meta.market (codes "\"]}")
    else text dst topic (codes "depth.subscribe") meta.market (codes "\",20,\"0.00000001\"]}")

abbrev pub unsubscribe_text : Bytes → TopicId → TopicMeta → Bytes
unsubscribe_text dst topic meta =
    if is_order meta.kind
    then text dst topic (codes "order.unsubscribe") meta.market (codes "\"]}")
    else text dst topic (codes "depth.unsubscribe") meta.market (codes "\"]}")

control_lem :
    (dst : Bytes) (topic : TopicId) (method market rest : Bytes)
    → topic < 2 ^ 32
    → control dst topic method market rest
      ≡ message message_text (text dst topic method market rest)
unfolding control
control_lem dst topic method market rest h = with_id_lem dst _ topic (omega arith)

known-subscribe :
    (sign : Bytes → Bytes) (dst : Bytes) (topic : TopicId) (meta : TopicMeta) (c : Codec)
    → is_auth_topic topic c ≡ false
    → lookup c.topics_by_id topic ≡ some meta
    → topic < 2 ^ 32
    → encode_subscribe sign dst topic c ≡ message message_text (subscribe_text dst topic meta)
unfolding encode_subscribe
known-subscribe sign dst topic meta c a e h =
    let as_order = control_lem dst topic (codes "order.subscribe") meta.market (codes "\"]}") h in
    let as_depth =
      control_lem dst topic (codes "depth.subscribe") meta.market (codes "\",20,\"0.00000001\"]}")
        h in
    rw (a, e, as_order, as_depth) (apply-if (message message_text) (is_order meta.kind) _ _)

unknown-subscribe :
    (sign : Bytes → Bytes) (dst : Bytes) (topic : TopicId) (c : Codec)
    → is_auth_topic topic c ≡ false
    → lookup c.topics_by_id topic ≡ none
    → encode_subscribe sign dst topic c ≡ protocol_error
unfolding encode_subscribe
unknown-subscribe sign dst topic c a e = rw (a, e) refl

known-unsubscribe :
    (dst : Bytes) (topic : TopicId) (meta : TopicMeta) (c : Codec)
    → is_auth_topic topic c ≡ false
    → lookup c.topics_by_id topic ≡ some meta
    → topic < 2 ^ 32
    → encode_unsubscribe dst topic c ≡ message message_text (unsubscribe_text dst topic meta)
unfolding encode_unsubscribe
known-unsubscribe dst topic meta c a e h =
    let as_order = control_lem dst topic (codes "order.unsubscribe") meta.market (codes "\"]}") h in
    let as_depth = control_lem dst topic (codes "depth.unsubscribe") meta.market (codes "\"]}") h in
    rw (a, e, as_order, as_depth) (apply-if (message message_text) (is_order meta.kind) _ _)

other_topics :
    (sign : Bytes → Bytes) (topic other : TopicId) (meta : TopicMeta) (dst : Bytes) (c : Codec)
    → (topic == other) ≡ false
    → encode_subscribe sign dst other (add_topic topic meta c) ≡ encode_subscribe sign dst other c
unfolding encode_subscribe add_topic is_auth_topic encode_registered_auth
other_topics sign topic other meta dst c h =
    rw (lookup-insert_other c.topics_by_id topic other meta h) refl

-- A topic that is no auth topic and that registering accepts has a kind and a market; from then on its
-- control messages are those of its kind and name the market and the topic, the subscription of another
-- topic is encoded as before, and once the topic is unregistered it has no subscription.
pub register-encode_market :
    (sign : Bytes → Bytes) (topic other : TopicId) (req : IngestRequest) (c c' : Codec)
    (dst : Bytes)
    → register topic req c ≡ some c'
    → is_auth_topic topic c ≡ false
    → topic < 2 ^ 32
    → (topic == other) ≡ false
    → (meta : TopicMeta) × (market_from_request req ≡ some meta)
      × (encode_subscribe sign dst topic c' ≡ message message_text (subscribe_text dst topic meta))
      × (encode_unsubscribe dst topic c' ≡ message message_text (unsubscribe_text dst topic meta))
      × (encode_subscribe sign dst topic (unregister topic c') ≡ protocol_error)
      × (encode_subscribe sign dst other c' ≡ encode_subscribe sign dst other c)
register-encode_market sign topic other req c c' dst h a l k =
    let (meta, e, e') = register-cases topic req c c' h in
    let found = add_topic-lookup topic meta c in
    let kept = auth_topic-add topic topic meta c ∙ a in
    let dropped = unregister_known topic meta (add_topic topic meta c) found in
    let gone =
      unknown-subscribe sign dst topic (drop_topic topic meta (add_topic topic meta c))
        (auth_topic-drop topic topic meta (add_topic topic meta c) ∙ kept)
        (unfold drop_topic in lookup-delete (add_topic topic meta c).topics_by_id topic) in
    (
      meta,
      e,
      rw (e') (known-subscribe sign dst topic meta (add_topic topic meta c) kept found l),
      rw (e') (known-unsubscribe dst topic meta (add_topic topic meta c) kept found l),
      rw (e', dropped) gone,
      rw (e') (other_topics sign topic other meta dst c k),
    )
