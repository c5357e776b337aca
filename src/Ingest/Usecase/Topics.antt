-- ===== src/Ingest/Usecase/Topics.antt =====
-- bundle/internal/ingest/usecase.go: what Subscribe, Unsubscribe and Resolve do in a group.
use go_hft.Prelude.{
  ℕ, ◌+◌, ◌-◌, ◌%◌, ◌^◌, Bool, Option, none, some, ◌==◌, if◌then◌else◌, ◌⊎◌, inl, inr, Bytes,
}
use go_hft.Prelude.Maps.{lookup, insert, delete}
use go_hft.Websocket.Types.{TopicId}
use go_hft.Websocket.Manager.{unknown_topic}
use go_hft.Adapter.Symbol
use go_hft.Adapter.Symbol.{Symbol}
use go_hft.Adapter.Ingest.{IngestRequest}
use go_hft.Ingest.Usecase.{
  IngestError, codec_refused, manager_refused, PlatformCodec, register, unregister, TopicState,
  WsGroup, find_topic, drop_topic, put_topic, add_consumer, remove_consumer, manager_subscribe,
  manager_unsubscribe,
}

-- `nextTopicID`, of a uint32.
abbrev pub next_topic_id : ℕ → TopicId
next_topic_id current = (current + 1) % 2 ^ 32

abbrev pub request_of : ℕ → Symbol → WsGroup → IngestRequest
request_of topic symbol g = record {
  platform = g.platform;
  topic = topic;
  symbol = symbol;
  api_key = g.api_key;
}

-- Its text is the argument of a topic.
unfoldable pub text_of : Symbol → Bytes
unfolding Symbol.append_bytes
text_of symbol = Symbol.append_bytes symbol

abbrev pub new_state : ℕ → Symbol → TopicId → TopicState
new_state topic symbol id = record {
  topic = topic;
  arg = text_of symbol;
  symbol = symbol;
  topic_id = id;
  ref_count = 0;
}

-- Once the manager has answered.
unfoldable pub kept :
    TopicState → (IngestError ⊎ ℕ) × WsGroup → (IngestError ⊎ TopicState) × WsGroup
unfolding unregister put_topic
kept s (inl e, g) = (inl e, record g { codec = unregister s.topic_id g.codec })
kept s (inr session, g) = (
  inr s,
  record g { topics = put_topic s g.topics; topics_by_id = insert g.topics_by_id s.topic_id s },
)

-- Once the codec has answered.
unfoldable pub registered :
    Bool → TopicState → WsGroup → Option PlatformCodec → (IngestError ⊎ TopicState) × WsGroup
unfolding manager_subscribe kept
registered sends s g none = (inl codec_refused, g)
registered sends s g (some codec) =
    kept s (manager_subscribe sends s.topic_id (record g { codec = codec }))

-- With the state that the key has; the counter goes up only for a new one.
unfoldable pub ensured :
    (Bytes → Bytes)
    → Bool
    → ℕ
    → Symbol
    → ℕ
    → WsGroup
    → Option TopicState
    → (IngestError ⊎ TopicState) × ℕ × WsGroup
unfolding register registered
ensured to_lower sends topic symbol current g (some s) = (inr s, current, g)
ensured to_lower sends topic symbol current g none =
    let id = next_topic_id current in
    let (answer, g') =
      registered sends (new_state topic symbol id) g
        (register to_lower id (request_of topic symbol g) g.codec) in
    (answer, id, g')

unfoldable pub ensure_topic :
    (Bytes → Bytes) → Bool → ℕ → Symbol → ℕ → WsGroup → (IngestError ⊎ TopicState) × ℕ × WsGroup
unfolding ensured find_topic
ensure_topic to_lower sends topic symbol current g =
    ensured to_lower sends topic symbol current g (find_topic topic (text_of symbol) g.topics)

-- One reference more.
unfoldable pub counted : TopicState → WsGroup → WsGroup
unfolding put_topic
counted s g = record g { topics = put_topic (record s { ref_count = s.ref_count + 1 }) g.topics }

unfoldable pub attached : TopicState → WsGroup → Option WsGroup → (IngestError ⊎ TopicId) × WsGroup
unfolding counted
attached s g none = (inl (manager_refused unknown_topic), g)
attached s g (some g') = (inr s.topic_id, counted s g')

unfoldable pub attach :
    ℕ → (IngestError ⊎ TopicState) × ℕ × WsGroup → (IngestError ⊎ TopicId) × ℕ × WsGroup
unfolding attached add_consumer
attach p (inl e, current, g) = (inl e, current, g)
attach p (inr s, current, g) =
    let (answer, g') = attached s g (add_consumer s.topic_id p g) in (answer, current, g')

-- What `Subscribe` does once it has the group: the topic's id, or an error, the counter and the group.
unfoldable pub subscribe_in :
    (Bytes → Bytes) → Bool → ℕ → Symbol → ℕ → ℕ → WsGroup → (IngestError ⊎ TopicId) × ℕ × WsGroup
unfolding ensure_topic attach
subscribe_in to_lower sends topic symbol p current g =
    attach p (ensure_topic to_lower sends topic symbol current g)

-- The last reference is gone.
unfoldable pub removed : TopicState → WsGroup → WsGroup
unfolding manager_unsubscribe drop_topic unregister
removed s g = manager_unsubscribe s.topic_id (record g {
  topics = drop_topic s.topic s.arg g.topics;
  topics_by_id = delete g.topics_by_id s.topic_id;
  codec = unregister s.topic_id g.codec;
})

-- `refCount--`, and whether it is not positive.
unfoldable pub uncounted : TopicState → WsGroup → WsGroup
unfolding removed put_topic
uncounted s g =
    if s.ref_count - 1 == 0
    then removed s g
    else record g { topics = put_topic (record s { ref_count = s.ref_count - 1 }) g.topics }

unfoldable pub detached : TopicState → WsGroup → Option WsGroup → Option IngestError × WsGroup
unfolding uncounted
detached s g none = (some (manager_refused unknown_topic), g)
detached s g (some g') = (none, uncounted s g')

unfoldable pub detach : ℕ → WsGroup → Option TopicState → Option IngestError × WsGroup
unfolding detached remove_consumer
detach p g none = (some IngestError.unknown_topic, g)
detach p g (some s) = detached s g (remove_consumer s.topic_id p g)

-- What `Unsubscribe` does once it has the group; `none` is no error.
unfoldable pub unsubscribe_in : ℕ → Symbol → ℕ → WsGroup → Option IngestError × WsGroup
unfolding detach find_topic
unsubscribe_in topic symbol p g = detach p g (find_topic topic (text_of symbol) g.topics)

-- What `Resolve` does once it has the group.
abbrev pub meaning : Option TopicState → Option (ℕ × Symbol)
meaning none = none
meaning (some s) = some (s.topic, s.symbol)

unfoldable pub resolve_in : TopicId → WsGroup → Option (ℕ × Symbol)
resolve_in id g = meaning (lookup g.topics_by_id id)
