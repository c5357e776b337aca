-- ===== src/Ingest/Usecase/Subscribed.antt =====
-- A topic that is new to a group of bundle/internal/ingest/usecase.go.
use go_hft.Prelude.{
  ℕ, ◌+◌, ◌≡◌, refl, ap, true, false, none, some, List, ◌==◌, inr, Bytes, bytes_eq, bytes_eq_iff,
  arith,
}
use go_hft.Prelude.Maps.{lookup, insert, lookup-insert}
use go_hft.Websocket.Manager
use go_hft.Websocket.Manager.{Manager, is_done}
use go_hft.Websocket.Manager.Bounded.{IsBounded}
use go_hft.Websocket.Manager.Calls.{subscribe_lem}
use go_hft.Websocket.Subscriptions.{has}
use go_hft.Websocket.Router
use go_hft.Websocket.Router.Lists.{IsListed, listed, router_lists}
use go_hft.Websocket.Frames.Owners.{one}
use go_hft.Adapter.Symbol.{Symbol}
use go_hft.Ingest.Usecase.{
  PlatformCodec, TopicState, WsGroup, is_key, find_topic, put_topic, add_consumer,
  manager_subscribe, register,
}
use go_hft.Ingest.Usecase.Topics.{
  text_of, next_topic_id, request_of, new_state, kept, registered, ensured, ensure_topic, counted,
  attached, attach, subscribe_in, unsubscribe_in, resolve_in, meaning,
}
use go_hft.Ingest.Usecase.References.{IsGone, unsubscribe_last}

find_topic-put :
    (s : TopicState) (states : List TopicState)
    → find_topic s.topic s.arg (put_topic s states) ≡ some s
unfolding find_topic put_topic is_key
find_topic-put s states =
    let topics : (s.topic == s.topic) ≡ true = ground arith in
    let args : bytes_eq s.arg s.arg ≡ true = (bytes_eq_iff s.arg s.arg).1 refl in
    rw (topics, args) refl

-- The group with the new topic, referred to once.
abbrev with_topic : TopicState → ℕ → PlatformCodec → Manager → WsGroup → WsGroup
unfolding put_topic Router.add_consumer
with_topic s p codec m g = record g {
  codec = codec;
  manager = m;
  topics = put_topic (record s { ref_count = 1 }) (put_topic s g.topics);
  topics_by_id = insert g.topics_by_id s.topic_id s;
  router = Router.add_consumer s.topic_id p g.router;
}

subscribe_in-new :
    (to_lower : Bytes → Bytes) (topic p current session : ℕ) (symbol : Symbol) (g : WsGroup)
    (codec : PlatformCodec) (m : Manager)
    → find_topic topic (text_of symbol) g.topics ≡ none
    → register to_lower (next_topic_id current) (request_of topic symbol g) g.codec ≡ some codec
    → Manager.subscribe (next_topic_id current) g.manager ≡ inr (session, m)
    → lookup m.subscriptions (next_topic_id current) ≡ some session
    → subscribe_in to_lower true topic symbol p current g ≡ (
      inr (next_topic_id current),
      next_topic_id current,
      with_topic (new_state topic symbol (next_topic_id current)) p codec m g,
    )
unfolding subscribe_in ensure_topic ensured registered manager_subscribe attach add_consumer kept
    attached counted with_topic lookup text_of insert
subscribe_in-new to_lower topic p current session symbol g codec m none_there r e found =
    rw (none_there, r, e, found) refl

-- In a group whose manager takes topics and whose router lists each consumer once at most, Subscribe of a
-- topic that the group does not have and its codec accepts, where the session can send, succeeds, with
-- the next id: the topic is referred to once, its id means the topic and the symbol, the codec is the one
-- that registered it, the manager has it on a session, and the consumer is listed once for it. Then an Unsubscribe
-- of any consumer q, one that never subscribed included, succeeds and leaves nothing of the topic: no state,
-- meaning or consumer, nothing that the codec could send for it, and no subscription in the manager or on
-- that session.
pub subscribe_new :
    (to_lower : Bytes → Bytes) (topic p q current : ℕ) (symbol : Symbol) (g : WsGroup)
    (codec : PlatformCodec)
    → find_topic topic (text_of symbol) g.topics ≡ none
    → register to_lower (next_topic_id current) (request_of topic symbol g) g.codec ≡ some codec
    → IsBounded g.manager
    → is_done g.manager.ctx ≡ false
    → lookup g.manager.subscriptions (next_topic_id current) ≡ none
    → IsListed g.router
    → (session : ℕ) × (g' : WsGroup) × (g'' : WsGroup) × (subscribe_in to_lower true topic symbol p
          current g
        ≡ (inr (next_topic_id current), next_topic_id current, g'))
      × (find_topic topic (text_of symbol) g'.topics
          ≡ some (record (new_state topic symbol (next_topic_id current)) { ref_count = 1 }))
      × (resolve_in (next_topic_id current) g' ≡ some (topic, symbol))
      × (listed (next_topic_id current) p g'.router ≡ 1)
      × (g'.codec ≡ codec)
      × (lookup g'.manager.subscriptions (next_topic_id current) ≡ some session)
      × (has (g'.manager.store session).subscriptions.desired (next_topic_id current) ≡ true)
      × (unsubscribe_in topic symbol q g' ≡ (none, g''))
      × IsGone topic (text_of symbol) (next_topic_id current) session g''
unfolding with_topic resolve_in
subscribe_new to_lower topic p q current symbol g codec none_there r bounded running fresh lists =
    let id = next_topic_id current in
    let (session, m, e, b, found, desired, again, in_list) =
      subscribe_lem id g.manager bounded running fresh in
    let s = new_state topic symbol id in
    let one_of : TopicState = record s { ref_count = 1 } in
    let g' = with_topic s p codec m g in
    let there = find_topic-put one_of (put_topic s g.topics) in
    let apart : (id == id + 1) ≡ false = ground arith in
    let added = (router_lists id (id + 1) p p g.router lists apart).2 in
    let at_most = lists id p in
    let self : one p p ≡ 1 = ground arith in
    let (g'', gone_ok, gone) = unsubscribe_last topic q session symbol g' one_of there refl found in
    (
      session,
      g',
      g'',
      subscribe_in-new to_lower topic p current session symbol g codec m none_there r e found,
      there,
      ap meaning (lookup-insert g.topics_by_id id s),
      omega arith,
      refl,
      found,
      desired,
      gone_ok,
      gone,
    )
