-- ===== src/Ingest/Usecase/References.antt =====
-- What the reference counts of bundle/internal/ingest/usecase.go come to.
use go_hft.Prelude.{
  ℕ, ◌-◌, ◌≡◌, refl, ap, sym, subst, ◌∙◌, true, false, Option, none, some, List, [], ◌∷◌, ◌==◌,
  if◌then◌else◌, inl, inr, Bytes, bytes_eq, bytes_eq_iff, arith, Bool-cases,
}
use go_hft.Prelude.Maps.{lookup, delete, lookup-delete}
use go_hft.Websocket.Types.{TopicId}
use go_hft.Websocket.Manager
use go_hft.Websocket.Manager.{Manager}
use go_hft.Websocket.Subscriptions.{has}
use go_hft.Ingest.Usecase.Forgotten.{IsForgotten, unregister-IsForgotten, manager_unsubscribe-IsOff}
use go_hft.Websocket.Router
use go_hft.Websocket.Router.{consumers_of}
use go_hft.Adapter.Symbol.{Symbol}
use go_hft.Ingest.Usecase.{
  TopicState, WsGroup, is_key, find_topic, drop_topic, remove_consumer, unsubscribed,
  manager_unsubscribe, unregister,
}
use go_hft.Ingest.Usecase.Topics.{
  text_of, removed, uncounted, detached, detach, unsubscribe_in, resolve_in, meaning,
}

find_topic-drop :
    (topic : ℕ) (arg : Bytes) (states : List TopicState)
    → find_topic topic arg (drop_topic topic arg states) ≡ none
unfolding find_topic drop_topic
find_topic-drop topic arg [] = refl
find_topic-drop topic arg (s ∷ states) = elim (Bool-cases (is_key topic arg s)) [
  | inl e ↦ rw (e) (find_topic-drop topic arg states)
  | inr e ↦ rw (e, e) (find_topic-drop topic arg states)
]

is_key-eq :
    (topic : ℕ) (arg : Bytes) (s : TopicState)
    → is_key topic arg s ≡ true
    → (s.topic ≡ topic) × (s.arg ≡ arg)
unfolding is_key
is_key-eq topic arg s h =
    let same : bytes_eq s.arg arg ≡ true = ground arith in
    (ground arith, (bytes_eq_iff s.arg arg).0 same)

-- The state that is found has the key.
find_topic-key :
    (topic : ℕ) (arg : Bytes) (states : List TopicState) (s : TopicState)
    → find_topic topic arg states ≡ some s
    → (s.topic ≡ topic) × (s.arg ≡ arg)
unfolding find_topic
find_topic-key topic arg [] s h = cc
find_topic-key topic arg (r ∷ states) s h = elim (Bool-cases (is_key topic arg r)) [
  | inl e ↦
      let one_of = sym (ap (λ b. if b then some r else find_topic topic arg states) e) ∙ h in
      let found : r ≡ s = cc in
      subst (λ s. (s.topic ≡ topic) × (s.arg ≡ arg)) found (is_key-eq topic arg r e)
  | inr e ↦
      find_topic-key topic arg states s
        (sym (ap (λ b. if b then some r else find_topic topic arg states) e) ∙ h)
]

-- The subscription of a topic is taken out of the manager and the router.
manager_unsubscribe-router :
    (id : TopicId) (g : WsGroup) (session : ℕ)
    → lookup g.manager.subscriptions id ≡ some session
    → (manager_unsubscribe id g).router ≡ Router.remove_topic id g.router
unfolding manager_unsubscribe Manager.unsubscribe
manager_unsubscribe-router id g session e =
    ap (λ o. (unsubscribed id g (Manager.unsubscribe_with id g.manager o)).router) e

manager_unsubscribe-topics :
    (id : TopicId) (g : WsGroup) (session : ℕ)
    → lookup g.manager.subscriptions id ≡ some session
    → ((manager_unsubscribe id g).topics ≡ g.topics)
      × ((manager_unsubscribe id g).topics_by_id ≡ g.topics_by_id)
unfolding manager_unsubscribe Manager.unsubscribe
manager_unsubscribe-topics id g session e = (
  ap (λ o. (unsubscribed id g (Manager.unsubscribe_with id g.manager o)).topics) e,
  ap (λ o. (unsubscribed id g (Manager.unsubscribe_with id g.manager o)).topics_by_id) e,
)

remove_topic-consumers :
    (id : TopicId) (r : Router.Router) → consumers_of id (Router.remove_topic id r) ≡ []
unfolding consumers_of Router.remove_topic
remove_topic-consumers id r = ap Router.or_nil (lookup-delete r.topics id)

-- Nothing is left of a topic that was on the session: no state, no meaning and no consumer, nothing that the
-- codec could send for it, and no subscription in the manager or on the session.
pub record IsGone (topic : ℕ) (arg : Bytes) (id : TopicId) (session : ℕ) (g : WsGroup)
    : Type 0 where
  state : find_topic topic arg g.topics ≡ none
  meaning : resolve_in id g ≡ none
  consumers : consumers_of id g.router ≡ []
  forgotten : IsForgotten id g.codec
  unknown : lookup g.manager.subscriptions id ≡ none
  idle : has (g.manager.store session).subscriptions.desired id ≡ false

removed-IsGone :
    (s : TopicState) (g : WsGroup) (session : ℕ)
    → lookup g.manager.subscriptions s.topic_id ≡ some session
    → IsGone s.topic s.arg s.topic_id session (removed s g)
unfolding removed resolve_in
removed-IsGone s g session e =
    let bare : WsGroup = record g {
      topics = drop_topic s.topic s.arg g.topics;
      topics_by_id = delete g.topics_by_id s.topic_id;
      codec = unregister s.topic_id g.codec;
    } in
    let (same, by_id) = manager_unsubscribe-topics s.topic_id bare session e in
    let off = manager_unsubscribe-IsOff s.topic_id bare session e in
    record {
      state = ap (find_topic s.topic s.arg) same ∙ find_topic-drop s.topic s.arg g.topics;
      meaning =
          ap (λ m. meaning (lookup m s.topic_id)) by_id
          ∙ ap meaning (lookup-delete g.topics_by_id s.topic_id);
      consumers =
          ap (consumers_of s.topic_id) (manager_unsubscribe-router s.topic_id bare session e)
          ∙ remove_topic-consumers s.topic_id g.router;
      forgotten =
          subst (IsForgotten s.topic_id) (sym off.codec_kept)
            (unregister-IsForgotten s.topic_id g.codec);
      unknown = off.unknown;
      idle = off.idle;
    }

uncounted-one : (s : TopicState) (g : WsGroup) → s.ref_count ≡ 1 → uncounted s g ≡ removed s g
unfolding uncounted
uncounted-one s g h =
    let zero_left : (s.ref_count - 1 == 0) ≡ true = ground arith in rw (zero_left) refl

-- When a topic is subscribed in the manager and is referred to once, Unsubscribe succeeds for any consumer,
-- one that never subscribed to it included, and nothing is left of the topic.
pub unsubscribe_last :
    (topic p session : ℕ) (symbol : Symbol) (g : WsGroup) (s : TopicState)
    → find_topic topic (text_of symbol) g.topics ≡ some s
    → s.ref_count ≡ 1
    → lookup g.manager.subscriptions s.topic_id ≡ some session
    → (g' : WsGroup) × (unsubscribe_in topic symbol p g ≡ (none, g'))
      × IsGone topic (text_of symbol) s.topic_id session g'
unfolding unsubscribe_in detach detached remove_consumer
unsubscribe_last topic p session symbol g s e one m =
    let g₁ : WsGroup = record g { router = Router.remove_consumer s.topic_id p g.router } in
    let (same_topic, same_arg) = find_topic-key topic (text_of symbol) g.topics s e in
    let found : remove_consumer s.topic_id p g ≡ some g₁ =
      ap
        (λ o. elim o as (λ _. Option WsGroup) [
          | none ↦ none
          | some session ↦ some (record g { router = Router.remove_consumer s.topic_id p g.router })
        ])
        m in
    (
      removed s g₁,
      ap (detach p g) e ∙ ap (detached s g) found ∙ ap (λ g. (none, g)) (uncounted-one s g₁ one),
      subst (λ a. IsGone topic a s.topic_id session (removed s g₁)) same_arg
          (subst (λ t. IsGone t s.arg s.topic_id session (removed s g₁)) same_topic
            (removed-IsGone s g₁ session m)),
    )
