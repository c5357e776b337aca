-- ===== src/Ingest/Binance/Codec/Laws.antt =====
-- What registering a topic with the codec of bundle/internal/ingest/binance/codec.go means to the
-- messages that it encodes and decodes afterwards.
use go_hft.Prelude.{
  ℕ, ◌^◌, ◌<◌, ◌≡◌, refl, ap, ap₂, ◌∙◌, Bool, true, false, not, Option, none, some, [], ◌∷◌, ◌++◌,
  ◌==◌, if◌then◌else◌, Bytes, codes, arith,
}
use go_hft.Prelude.Digits.{decimal}
use go_hft.Prelude.Maps.{lookup, lookup-insert, lookup-insert_other, lookup-delete}
use go_hft.Websocket.Types.{TopicId, message_text}
use go_hft.Adapter.Enum.{topic_is_available}
use go_hft.Adapter.Ingest.{IngestRequest}
use go_hft.Scanner.{scan_string_field}
use go_hft.Ingest.Text.{hash_bytes}
use go_hft.Ingest.Text.Print.{append_uint-decimal}
use go_hft.Ingest.Binance.Payload.{quoted}
use go_hft.Ingest.Binance.Codec.{
  Codec, Encoded, message, protocol_error, panics, numbered, stream_for_request, add_stream,
  drop_stream, register, unregister, is_auth_ack, is_auth_topic, lookup_text, first_of,
  decode_topic, encode_subscribe, encode_unsubscribe,
}

numbered_lem :
    (dst : Bytes) (v : ℕ)
    → v < 2 ^ 64
    → numbered dst v ≡ message message_text (dst ++ decimal v ++ b'}' ∷ [])
unfolding numbered
numbered_lem dst v h =
    ap
      (λ o. elim o as (λ _. Encoded) [
        | none ↦ panics
        | some text ↦ message message_text (text ++ b'}' ∷ [])
      ])
      (append_uint-decimal dst v h)

-- The text of a control message behind `dst`.
abbrev pub control : Bytes → Bytes → Bytes → TopicId → Bytes
control dst method stream topic =
    dst
    ++ (codes "{\"method\":\"" ++ method ++ codes "\",\"params\":[\"")
    ++ stream
    ++ codes "\"],\"id\":"
    ++ decimal topic
    ++ b'}' ∷ []

-- What the two encoders answer on a topic that has the stream `o`.
record Encodes (c : Codec) (dst : Bytes) (topic : TopicId) (subscribe unsubscribe : Encoded)
    : Type 0 where
  subscribes : encode_subscribe dst topic c ≡ subscribe
  unsubscribes : encode_unsubscribe dst topic c ≡ unsubscribe

known-Encodes :
    (c : Codec) (dst stream : Bytes) (topic : TopicId)
    → is_auth_topic topic c ≡ false
    → lookup c.stream_by_id topic ≡ some stream
    → topic < 2 ^ 32
    → Encodes c dst topic
        (message message_text (control dst (codes "SUBSCRIBE") stream topic))
        (message message_text (control dst (codes "UNSUBSCRIBE") stream topic))
unfolding encode_subscribe encode_unsubscribe
known-Encodes c dst stream topic a e h = record {
  subscribes = rw (a, e) (numbered_lem _ topic (omega arith));
  unsubscribes = rw (a, e) (numbered_lem _ topic (omega arith));
}

unknown-Encodes :
    (c : Codec) (dst : Bytes) (topic : TopicId)
    → is_auth_topic topic c ≡ false
    → lookup c.stream_by_id topic ≡ none
    → Encodes c dst topic protocol_error protocol_error
unfolding encode_subscribe encode_unsubscribe
unknown-Encodes c dst topic a e = record {
  subscribes = rw (a, e) refl;
  unsubscribes = rw (a, e) refl;
}

pub register-cases :
    (to_lower : Bytes → Bytes) (topic : TopicId) (req : IngestRequest) (c c' : Codec)
    → register to_lower topic req c ≡ some c'
    → (s : Bytes) × (stream_for_request to_lower req ≡ some s) × (c' ≡ add_stream topic s c)
register-cases to_lower topic req c c' h =
    go (topic_is_available req.topic) (stream_for_request to_lower req) (unfold register in h)
  where
    go :
        (b : Bool) (o : Option Bytes)
        → (if not b then none else elim o as (λ _. Option Codec) [
          | none ↦ none
          | some stream ↦ some (add_stream topic stream c)
        ])
          ≡ some c'
        → (s : Bytes) × (o ≡ some s) × (c' ≡ add_stream topic s c)
    go false o e = cc
    go true none e = cc
    go true (some s) e = (s, refl, cc)

pub add_stream-lookup :
    (topic : TopicId) (s : Bytes) (c : Codec)
    → lookup (add_stream topic s c).stream_by_id topic ≡ some s
unfolding add_stream
add_stream-lookup topic s c = lookup-insert c.stream_by_id topic s

pub unregister_known :
    (topic : TopicId) (s : Bytes) (c : Codec)
    → lookup c.stream_by_id topic ≡ some s
    → unregister topic c ≡ drop_stream topic s c
unfolding unregister
unregister_known topic s c e =
    ap (λ o. elim o as (λ _. Codec) [ none ↦ c | some stream ↦ drop_stream topic stream c ]) e

auth_topic-add :
    (i topic : TopicId) (s : Bytes) (c : Codec)
    → is_auth_topic i (add_stream topic s c) ≡ is_auth_topic i c
unfolding is_auth_topic add_stream
auth_topic-add i topic s c = refl

auth_topic-drop :
    (i topic : TopicId) (s : Bytes) (c : Codec)
    → is_auth_topic i (drop_stream topic s c) ≡ is_auth_topic i c
unfolding is_auth_topic drop_stream
auth_topic-drop i topic s c = refl

forgotten :
    (topic : TopicId) (s dst : Bytes) (c : Codec)
    → is_auth_topic topic c ≡ false
    → Encodes (drop_stream topic s c) dst topic protocol_error protocol_error
forgotten topic s dst c a =
    unknown-Encodes (drop_stream topic s c) dst topic (auth_topic-drop topic topic s c ∙ a)
      (unfold drop_stream in lookup-delete c.stream_by_id topic)

other_topics :
    (topic other : TopicId) (s dst : Bytes) (c : Codec)
    → (topic == other) ≡ false
    → encode_subscribe dst other (add_stream topic s c) ≡ encode_subscribe dst other c
unfolding encode_subscribe add_stream
other_topics topic other s dst c h = rw (lookup-insert_other c.stream_by_id topic other s h) refl

-- A topic that is no auth topic and that registering accepts has a stream; from then on its control
-- messages name that stream and the topic, the subscription of another topic is encoded as before,
-- and once the topic is unregistered it has no control messages.
pub register-encode :
    (to_lower : Bytes → Bytes) (topic other : TopicId) (req : IngestRequest) (c c' : Codec)
    (dst : Bytes)
    → register to_lower topic req c ≡ some c'
    → is_auth_topic topic c ≡ false
    → topic < 2 ^ 32
    → (topic == other) ≡ false
    → (s : Bytes) × (stream_for_request to_lower req ≡ some s)
      × (encode_subscribe dst topic c'
          ≡ message message_text (control dst (codes "SUBSCRIBE") s topic))
      × (encode_unsubscribe dst topic c'
          ≡ message message_text (control dst (codes "UNSUBSCRIBE") s topic))
      × (encode_subscribe dst topic (unregister topic c') ≡ protocol_error)
      × (encode_unsubscribe dst topic (unregister topic c') ≡ protocol_error)
      × (encode_subscribe dst other c' ≡ encode_subscribe dst other c)
register-encode to_lower topic other req c c' dst h a l k =
    let (s, e, e') = register-cases to_lower topic req c c' h in
    let found = add_stream-lookup topic s c in
    let known =
      known-Encodes (add_stream topic s c) dst s topic (auth_topic-add topic topic s c ∙ a) found
        l in
    let dropped = unregister_known topic s (add_stream topic s c) found in
    let gone = forgotten topic s dst (add_stream topic s c) (auth_topic-add topic topic s c ∙ a) in
    (
      s,
      e,
      rw (e') known.subscribes,
      rw (e') known.unsubscribes,
      rw (e', dropped) gone.subscribes,
      rw (e', dropped) gone.unsubscribes,
      rw (e') (other_topics topic other s dst c k),
    )

-- A message that is no acknowledgement of the auth request is taken to the topic of its stream, and if
-- it names none that is known, to the topic of its symbol.
pub decode_topic-fields :
    (c : Codec) (payload : Bytes) (stream symbol : Option Bytes)
    → is_auth_ack payload c ≡ false
    → scan_string_field payload (quoted (codes "e")) ≡ stream
    → scan_string_field payload (quoted (codes "s")) ≡ symbol
    → decode_topic payload c
      ≡ first_of (lookup_text c.stream_lookup stream) (lookup_text c.symbol_lookup symbol)
unfolding decode_topic
decode_topic-fields c payload stream symbol a e k =
    let first =
      first_of (lookup_text c.stream_lookup (scan_string_field payload (quoted (codes "e"))))
        (lookup_text c.symbol_lookup (scan_string_field payload (quoted (codes "s")))) in
    ap (λ b. if b then some c.auth_topic_id else first) a
    ∙ ap₂ (λ o q. first_of (lookup_text c.stream_lookup o) (lookup_text c.symbol_lookup q)) e k

pub auth_kept-add :
    (payload stream : Bytes) (topic : TopicId) (c : Codec)
    → is_auth_ack payload (add_stream topic stream c) ≡ is_auth_ack payload c
unfolding is_auth_ack add_stream
auth_kept-add payload stream topic c = refl

pub auth_kept-drop :
    (payload stream : Bytes) (topic : TopicId) (c : Codec)
    → is_auth_ack payload (drop_stream topic stream c) ≡ is_auth_ack payload c
unfolding is_auth_ack drop_stream
auth_kept-drop payload stream topic c = refl

-- Once a topic is registered, a message that is no acknowledgement of the auth request and names the
-- topic's stream is taken to that topic.
pub decode_topic-register :
    (to_lower : Bytes → Bytes) (topic : TopicId) (req : IngestRequest) (c c' : Codec)
    (payload stream : Bytes)
    → register to_lower topic req c ≡ some c'
    → stream_for_request to_lower req ≡ some stream
    → is_auth_ack payload c ≡ false
    → scan_string_field payload (quoted (codes "e")) ≡ some stream
    → decode_topic payload c' ≡ some topic
decode_topic-register to_lower topic req c c' payload stream h r a e =
    let (s, q, e') = register-cases to_lower topic req c c' h in
    let same : s ≡ stream = cc in
    rw (e', same)
      (decode_topic-fields (add_stream topic stream c) payload (some stream)
          (scan_string_field payload (quoted (codes "s")))
          (auth_kept-add payload stream topic c ∙ a) e refl
        ∙ unfold add_stream in
          ap
            (λ o. first_of o (
              lookup_text (add_stream topic stream c).symbol_lookup
                (scan_string_field payload (quoted (codes "s")))))
            (lookup-insert c.stream_lookup (hash_bytes stream) topic))
