-- ===== src/Ingest/Usecase.antt =====
-- bundle/internal/ingest/usecase.go: groups of topics by platform and key, over the codecs of the
-- platforms and the websocket manager. Calls run one after the other. Whether a session could send a
-- control message is the argument `sends`; starting a group runs its manager in the background.
pub mod Topics
pub mod Calls
pub mod References
pub mod Subscribed
pub mod Forgotten
use go_hft.Prelude.{
  ℕ, ◌+◌, ◌-◌, ◌%◌, ◌^◌, Bool, true, false, Option, none, some, List, [], ◌∷◌, ◌==◌, if◌then◌else◌,
  ◌&&◌, ◌||◌, not, leb, ◌⊎◌, inl, inr, Bytes, bytes_eq,
}
use go_hft.Prelude.Maps.{Map, lookup, insert, delete}
use go_hft.Websocket.Types.{TopicId, fan_out_shared}
use go_hft.Websocket.Manager
use go_hft.Websocket.Manager.{Manager, ManagerError, Context}
use go_hft.Websocket.Router
use go_hft.Websocket.Router.{Router, new_router}
use go_hft.Adapter.Enum.{platform_btcc, platform_binance, platform_is_available, topic_is_available}
use go_hft.Adapter.Symbol.{Symbol}
use go_hft.Adapter.Symbol
use go_hft.Adapter.Str64
use go_hft.Adapter.Ingest.{IngestRequest}
use go_hft.Ingest.Binance.Codec as Binance
use go_hft.Ingest.Btcc.Codec as Btcc

pub data IngestError : Type 0 where
  invalid_request nil_consumer unknown_topic unsupported_platform : IngestError
  codec_refused : IngestError
  manager_refused : ManagerError → IngestError
  not_sent : IngestError

-- The interface `platformCodec`, by its two implementations.
pub data PlatformCodec : Type 0 where
  binance : Binance.Codec → PlatformCodec
  btcc : Btcc.Codec → PlatformCodec

abbrev pub wrapped {ℓ κ} : {A : Type ℓ} {B : Type κ} → (A → B) → Option A → Option B
wrapped f none = none
wrapped f (some a) = some (f a)

unfoldable pub register :
    (Bytes → Bytes) → TopicId → IngestRequest → PlatformCodec → Option PlatformCodec
register to_lower topic_id req (binance c) =
    wrapped binance (Binance.register to_lower topic_id req c)
register to_lower topic_id req (btcc c) = wrapped btcc (Btcc.register topic_id req c)

unfoldable pub unregister : TopicId → PlatformCodec → PlatformCodec
unregister topic_id (binance c) = binance (Binance.unregister topic_id c)
unregister topic_id (btcc c) = btcc (Btcc.unregister topic_id c)

unfoldable pub register_auth : TopicId → Bytes → ℕ → PlatformCodec → Option PlatformCodec
register_auth topic_id api_key req_id (binance c) =
    wrapped binance (Binance.register_auth topic_id api_key req_id c)
register_auth topic_id api_key req_id (btcc c) =
    wrapped btcc (Btcc.register_auth topic_id api_key req_id c)

-- `refCount` is an int; it is counted down to 0 at most once.
pub record TopicState : Type 0 where
  pub topic : ℕ
  pub arg : Bytes
  pub symbol : Symbol
  pub topic_id : TopicId
  pub ref_count : ℕ

-- A topic by its key; `topicsByID` points to the same states, of which Resolve reads what never changes.
pub record WsGroup : Type 0 where
  pub manager : Manager
  pub router : Router
  pub codec : PlatformCodec
  pub topics : List TopicState
  pub topics_by_id : Map TopicState
  pub running : Bool
  pub api_key : Bytes
  pub auth_req_id : ℕ
  pub platform : ℕ

unfoldable pub is_key : ℕ → Bytes → TopicState → Bool
is_key topic arg s = s.topic == topic && bytes_eq s.arg arg

unfoldable pub find_topic : ℕ → Bytes → List TopicState → Option TopicState
unfolding is_key
find_topic topic arg [] = none
find_topic topic arg (s ∷ states) =
    let later = find_topic topic arg states in if is_key topic arg s then some s else later

unfoldable pub drop_topic : ℕ → Bytes → List TopicState → List TopicState
unfolding is_key
drop_topic topic arg [] = []
drop_topic topic arg (s ∷ states) =
    let rest = drop_topic topic arg states in if is_key topic arg s then rest else s ∷ rest

-- The state of a key is set: where it stands, or else in front.
unfoldable pub put_topic : TopicState → List TopicState → List TopicState
unfolding drop_topic
put_topic s states = s ∷ drop_topic s.topic s.arg states

-- What a call answers, and the state it leaves, also where it fails.
abbrev pub Answer : Type 0 → Type 0 → Type 0
Answer A S = (IngestError ⊎ A) × S

-- `AddConsumer` and `RemoveConsumer` of the manager.
unfoldable pub add_consumer : TopicId → ℕ → WsGroup → Option WsGroup
add_consumer topic_id p g = elim (lookup g.manager.subscriptions topic_id) [
  | none ↦ none
  | some session ↦ some (record g { router = Router.add_consumer topic_id p g.router })
]

unfoldable pub remove_consumer : TopicId → ℕ → WsGroup → Option WsGroup
remove_consumer topic_id p g = elim (lookup g.manager.subscriptions topic_id) [
  | none ↦ none
  | some session ↦ some (record g { router = Router.remove_consumer topic_id p g.router })
]

-- `Subscribe` of the manager: its part under the mutex, and then the session's answer.
abbrev pub subscribed : Bool → WsGroup → ManagerError ⊎ (ℕ × Manager) → (IngestError ⊎ ℕ) × WsGroup
subscribed sends g (inl e) = (inl (manager_refused e), g)
subscribed true g (inr (session, m)) = (inr session, record g { manager = m })
subscribed false g (inr (session, m)) = (inl not_sent, record g { manager = m })

unfoldable pub manager_subscribe : Bool → TopicId → WsGroup → (IngestError ⊎ ℕ) × WsGroup
manager_subscribe sends topic_id g = subscribed sends g (Manager.subscribe topic_id g.manager)

-- `Unsubscribe` of the manager, whose error is not read: the topic goes out of the router as well.
abbrev pub unsubscribed : TopicId → WsGroup → ManagerError ⊎ (ℕ × Bool × Manager) → WsGroup
unsubscribed topic_id g (inl e) = g
unsubscribed topic_id g (inr (session, empty, m)) = record g {
  manager = m;
  router = Router.remove_topic topic_id g.router;
}

unfoldable pub manager_unsubscribe : TopicId → WsGroup → WsGroup
manager_unsubscribe topic_id g = unsubscribed topic_id g (Manager.unsubscribe topic_id g.manager)
