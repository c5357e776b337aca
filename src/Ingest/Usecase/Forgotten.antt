-- ===== src/Ingest/Usecase/Forgotten.antt =====
-- What the codecs and the manager of bundle/internal/ingest/usecase.go know of a topic id.
use go_hft.Prelude.{ℕ, ◌≡◌, refl, none, some, false, Option}
use go_hft.Prelude.Maps.{lookup, lookup-delete}
use go_hft.Websocket.Types.{TopicId}
use go_hft.Websocket.Subscriptions.{has}
use go_hft.Websocket.Manager.Calls.{release-has, release-lookup, unsubscribe-eq}
use go_hft.Ingest.Binance.Codec as Binance
use go_hft.Ingest.Btcc.Codec as Btcc
use go_hft.Ingest.Usecase.{PlatformCodec, binance, btcc, WsGroup, unregister, manager_unsubscribe}

-- The codec has no stream or market of the topic, from which it makes the control messages.
abbrev pub IsForgotten : TopicId → PlatformCodec → Type 0
IsForgotten id (binance c) = lookup c.stream_by_id id ≡ none
IsForgotten id (btcc c) = lookup c.topics_by_id id ≡ none

binance-IsForgotten :
    (id : TopicId) (c : Binance.Codec) → lookup (Binance.unregister id c).stream_by_id id ≡ none
unfolding Binance.unregister Binance.drop_stream
binance-IsForgotten id c = go (lookup c.stream_by_id id) refl
  where
    go :
        (o : Option _)
        → lookup c.stream_by_id id ≡ o
        → lookup (Binance.unregister id c).stream_by_id id ≡ none
    go none e = rw (Binance.unregister, e) e
    go (some stream) e = rw (Binance.unregister, e) (lookup-delete c.stream_by_id id)

btcc-IsForgotten :
    (id : TopicId) (c : Btcc.Codec) → lookup (Btcc.unregister id c).topics_by_id id ≡ none
unfolding Btcc.unregister Btcc.drop_topic
btcc-IsForgotten id c = go (lookup c.topics_by_id id) refl
  where
    go :
        (o : Option _)
        → lookup c.topics_by_id id ≡ o
        → lookup (Btcc.unregister id c).topics_by_id id ≡ none
    go none e = rw (Btcc.unregister, e) e
    go (some meta) e = rw (Btcc.unregister, e) (lookup-delete c.topics_by_id id)

pub unregister-IsForgotten : (id : TopicId) (c : PlatformCodec) → IsForgotten id (unregister id c)
unfolding unregister
unregister-IsForgotten id (binance c) = binance-IsForgotten id c
unregister-IsForgotten id (btcc c) = btcc-IsForgotten id c

-- Unsubscribing takes a topic that is on a session off it, and off the manager, and leaves the codec.
pub record IsOff (id : TopicId) (session : ℕ) (g g' : WsGroup) : Type 0 where
  pub unknown : lookup g'.manager.subscriptions id ≡ none
  pub idle : has (g'.manager.store session).subscriptions.desired id ≡ false
  pub codec_kept : g'.codec ≡ g.codec

pub manager_unsubscribe-IsOff :
    (id : TopicId) (g : WsGroup) (session : ℕ)
    → lookup g.manager.subscriptions id ≡ some session
    → IsOff id session g (manager_unsubscribe id g)
unfolding manager_unsubscribe
manager_unsubscribe-IsOff id g session e =
    rw (unsubscribe-eq id g.manager (some session) e) (record {
      unknown = release-lookup id session g.manager;
      idle = release-has id session g.manager;
      codec_kept = refl;
    })
