-- ===== src/Ingest/Usecase/Calls.antt =====
-- bundle/internal/ingest/usecase.go: the calls of a client, and the groups.
use go_hft.Prelude.{
  ℕ, Bool, true, false, Option, none, some, List, [], ◌∷◌, ◌==◌, if◌then◌else◌, ◌&&◌, ◌||◌, not,
  ◌⊎◌, inl, inr, Bytes, bytes_eq,
}
use go_hft.Websocket.Types.{TopicId, fan_out_shared}
use go_hft.Websocket.Manager.{Manager, absent}
use go_hft.Websocket.Subscriptions.{new_subscriptions}
use go_hft.Websocket.Router.{new_router}
use go_hft.Adapter.Enum.{platform_btcc, platform_binance, platform_is_available, topic_is_available}
use go_hft.Adapter.Symbol.{Symbol}
use go_hft.Adapter.Str64
use go_hft.Ingest.Binance.Codec as Binance
use go_hft.Ingest.Btcc.Codec as Btcc
use go_hft.Ingest.Usecase.{
  IngestError, invalid_request, nil_consumer, unknown_topic, unsupported_platform, codec_refused,
  PlatformCodec, binance, btcc, register_auth, WsGroup,
}
use go_hft.Ingest.Usecase.Topics.{next_topic_id, subscribe_in, unsubscribe_in, resolve_in}

-- A group with the text of its key.
pub record Entry : Type 0 where
  pub platform : ℕ
  pub api_key : Bytes
  pub group : WsGroup

pub record Usecase : Type 0 where
  pub groups : List Entry
  pub curr_topic_id : ℕ

abbrev pub new_usecase : Usecase
new_usecase = record { groups = []; curr_topic_id = 0 }

unfoldable pub find_group : ℕ → Bytes → List Entry → Option WsGroup
find_group platform key [] = none
find_group platform key (e ∷ es) =
    let later = find_group platform key es in
    if e.platform == platform && bytes_eq e.api_key key then some e.group else later

-- The group of a key is set: where it stands, or else at the end.
unfoldable pub put_group : ℕ → Bytes → WsGroup → List Entry → List Entry
put_group platform key g [] = record { platform = platform; api_key = key; group = g } ∷ []
put_group platform key g (e ∷ es) =
    let rest = put_group platform key g es in
    if e.platform == platform && bytes_eq e.api_key key
    then record e { group = g } ∷ es
    else e ∷ rest

-- The manager that `websocket.New` makes with its defaults.
abbrev pub new_manager : Manager
new_manager = record {
  max_topics = 10;
  store = λ p. record { id = 0; subscriptions = new_subscriptions };
  fresh = 0;
  sessions = [];
  subscriptions = [];
  next_session_id = 0;
  ctx = absent;
}

abbrev pub group_with : ℕ → Bytes → PlatformCodec → WsGroup
group_with platform api_key codec = record {
  manager = new_manager;
  router = new_router fan_out_shared;
  codec = codec;
  topics = [];
  topics_by_id = [];
  running = false;
  api_key = api_key;
  auth_req_id = 0;
  platform = platform;
}

unfoldable pub new_group : ℕ → Bytes → Option WsGroup
new_group platform api_key =
    if platform == platform_binance
    then some (group_with platform api_key (binance Binance.new_codec))
    else if platform == platform_btcc
    then some (group_with platform api_key (btcc Btcc.new_codec))
    else none

-- `start`: the manager runs in the background, once.
abbrev pub start : WsGroup → WsGroup
start g = record g { running = true }

-- The auth request of a new group with a key.
unfoldable pub with_auth : Bytes → ℕ → WsGroup → Option WsGroup
unfolding register_auth
with_auth key req_id g = elim (register_auth req_id key req_id g.codec) [
  | none ↦ none
  | some codec ↦ some (record g { auth_req_id = req_id; codec = codec })
]

unfoldable pub authorized : ℕ → Bytes → TopicId → Option WsGroup → IngestError ⊎ WsGroup
unfolding with_auth
authorized len key req_id none = inl unsupported_platform
authorized len key req_id (some g) =
    if len == 0
    then inr g
    else elim (with_auth key req_id g) [ none ↦ inl codec_refused | some g' ↦ inr g' ]

-- The group with the next id, which a key takes whether the group is there or not.
abbrev pub opened :
    ℕ → Bytes → TopicId → Usecase → IngestError ⊎ WsGroup → (IngestError ⊎ WsGroup) × Usecase
opened platform key current u (inl e) = (inl e, record u { curr_topic_id = current })
opened platform key current u (inr g) = (
  inr (start g),
  record u { groups = put_group platform key (start g) u.groups; curr_topic_id = current },
)

unfoldable pub or_new : ℕ → Bytes → Bytes → TopicId → Option WsGroup → IngestError ⊎ WsGroup
unfolding new_group authorized
or_new platform api_key key current (some g) = inr g
or_new platform api_key key current none =
    authorized (Str64.len api_key) key current (new_group platform api_key)

unfoldable pub get_or_create_group : ℕ → Bytes → Usecase → (IngestError ⊎ WsGroup) × Usecase
unfolding find_group put_group or_new Str64.append_bytes Str64.len
get_or_create_group platform api_key u =
    let key = Str64.append_bytes api_key in
    let current =
      if Str64.len api_key == 0 then u.curr_topic_id else next_topic_id u.curr_topic_id in
    if not (platform_is_available platform)
    then (inl invalid_request, u)
    else opened platform key current u
        (or_new platform api_key key current (find_group platform key u.groups))

unfoldable pub subscribe_at :
    (Bytes → Bytes)
    → Bool
    → ℕ
    → Bytes
    → ℕ
    → Symbol
    → ℕ
    → (IngestError ⊎ WsGroup) × Usecase
    → (IngestError ⊎ TopicId) × Usecase
unfolding subscribe_in put_group
subscribe_at to_lower sends platform key topic symbol p (inl e, u) = (inl e, u)
subscribe_at to_lower sends platform key topic symbol p (inr g, u) =
    let (answer, current, g') = subscribe_in to_lower sends topic symbol p u.curr_topic_id g in
    (answer, record u { groups = put_group platform key g' u.groups; curr_topic_id = current })

-- `Subscribe`; the answer has the topic's id, which the code does not return.
unfoldable pub subscribe :
    (Bytes → Bytes)
    → Bool
    → ℕ
    → Bytes
    → ℕ
    → Symbol
    → Option ℕ
    → Usecase
    → (IngestError ⊎ TopicId) × Usecase
unfolding get_or_create_group subscribe_at
subscribe to_lower sends platform api_key topic symbol consumer u =
    if not (platform_is_available platform) || not (topic_is_available topic)
    then (inl invalid_request, u)
    else elim consumer [
      | none ↦ (inl nil_consumer, u)
      | some p ↦
          subscribe_at to_lower sends platform (Str64.append_bytes api_key) topic symbol p
            (get_or_create_group platform api_key u)
    ]

unfoldable pub unsubscribe_at :
    ℕ → Bytes → ℕ → Symbol → ℕ → Usecase → Option WsGroup → Option IngestError × Usecase
unfolding unsubscribe_in put_group
unsubscribe_at platform key topic symbol p u none = (some unknown_topic, u)
unsubscribe_at platform key topic symbol p u (some g) =
    let (answer, g') = unsubscribe_in topic symbol p g in
    (answer, record u { groups = put_group platform key g' u.groups })

-- `Unsubscribe`; `none` is no error.
unfoldable pub unsubscribe :
    ℕ → Bytes → ℕ → Symbol → Option ℕ → Usecase → Option IngestError × Usecase
unfolding find_group unsubscribe_at
unsubscribe platform api_key topic symbol consumer u =
    let key = Str64.append_bytes api_key in
    if not (platform_is_available platform) || not (topic_is_available topic)
    then (some invalid_request, u)
    else elim consumer [
      | none ↦ (some nil_consumer, u)
      | some p ↦ unsubscribe_at platform key topic symbol p u (find_group platform key u.groups)
    ]

unfoldable pub resolve_at : TopicId → Option WsGroup → Option (ℕ × Symbol)
unfolding resolve_in
resolve_at topic_id none = none
resolve_at topic_id (some g) = resolve_in topic_id g

unfoldable pub resolve : ℕ → Bytes → TopicId → Usecase → Option (ℕ × Symbol)
unfolding find_group resolve_at
resolve platform api_key topic_id u =
    if not (platform_is_available platform)
    then none
    else resolve_at topic_id (find_group platform (Str64.append_bytes api_key) u.groups)
