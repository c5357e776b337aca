-- ===== src/Tests/Usecase.antt =====
-- Runs of the ingest use case (bundle/internal/ingest/usecase.go).
use go_hft.Prelude.{ℕ, true, ◌≡◌, refl, none, some, [], inr, arith, codes, replicate}
use go_hft.Prelude.Maps.{lookup}
use go_hft.Websocket.Manager.Bounded.{IsBounded}
use go_hft.Websocket.Subscriptions.{has}
use go_hft.Websocket.Router.{consumers_of}
use go_hft.Websocket.Router.Lists.{IsListed, listed}
use go_hft.Adapter.Symbol.{Symbol, new_symbol}
use go_hft.Adapter.Symbol
use go_hft.Adapter.Enum.{topic_depth, platform_btcc}
use go_hft.Ingest.Btcc.Codec as Btcc
use go_hft.Ingest.Usecase.{PlatformCodec, btcc, WsGroup, register, find_topic}
use go_hft.Ingest.Usecase.Topics.{
  text_of, next_topic_id, request_of, new_state, subscribe_in, unsubscribe_in, resolve_in,
}
use go_hft.Ingest.Usecase.Calls.{group_with, new_manager}
use go_hft.Ingest.Usecase.References.{IsGone}
use go_hft.Ingest.Usecase.Subscribed.{subscribe_new}

abbrev symbol : Symbol
symbol = new_symbol (codes "BTC") (codes "USDT") []

abbrev group : WsGroup
group = group_with platform_btcc (replicate 64 0) (btcc Btcc.new_codec)

abbrev codec : PlatformCodec
codec =
    btcc (Btcc.add_topic 1 (record { kind = Btcc.depth; market = codes "BTCUSDT" }) Btcc.new_codec)

codec-registers :
    register (λ s. s) (next_topic_id 0) (request_of topic_depth symbol group) group.codec
    ≡ some codec
unfolding register Btcc.register new_symbol Symbol.append_bytes
codec-registers = refl

manager-IsBounded : IsBounded new_manager
manager-IsBounded = record { positive = omega arith; within = tt }

router-IsListed : IsListed group.router
unfolding consumers_of lookup
router-IsListed topic x = omega arith

-- The consumer 7 subscribes, and 8 unsubscribes.
subscribe_new_example :
    (session : ℕ) × (g' : WsGroup) × (g'' : WsGroup) × (subscribe_in
        (λ s. s)
        true
        topic_depth
        symbol
        7
        0
        group
      ≡ (inr 1, 1, g'))
    × (find_topic topic_depth (text_of symbol) g'.topics
        ≡ some (record (new_state topic_depth symbol 1) { ref_count = 1 }))
    × (resolve_in 1 g' ≡ some (topic_depth, symbol))
    × (listed 1 7 g'.router ≡ 1)
    × (g'.codec ≡ codec)
    × (lookup g'.manager.subscriptions 1 ≡ some session)
    × (has (g'.manager.store session).subscriptions.desired 1 ≡ true)
    × (unsubscribe_in topic_depth symbol 8 g' ≡ (none, g''))
    × IsGone topic_depth (text_of symbol) 1 session g''
unfolding find_topic lookup
subscribe_new_example =
    subscribe_new (λ s. s) topic_depth 7 8 0 symbol group codec refl codec-registers
      manager-IsBounded refl refl router-IsListed
