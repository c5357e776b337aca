-- ===== src/Websocket/Manager/Calls.antt =====
-- What Subscribe and Unsubscribe of libs/shared/websocket/manager.go do to the topics of the sessions.
use go_hft.Prelude.{
  ℕ, ◌-◌, ◌<◌, ◌≡◌, refl, ap, ◌∙◌, Bool, true, false, ◌==◌, if◌then◌else◌, Option, none, some, List,
  [], ◌∷◌, arith, Bool-cases, inl, inr,
}
use go_hft.Prelude.Maps.{lookup, lookup-insert, lookup-delete, lookup-delete_other}
use go_hft.Websocket.Types.{TopicId}
use go_hft.Websocket.Subscriptions.{Subscriptions, add, remove, has, without, include, count}
use go_hft.Websocket.Frames.Owners.{one, occurrences}
use go_hft.Websocket.Manager.{
  Manager, find_room, picked, pick_session_locked, assign, is_done, add_topic, subscribe_with,
  subscribe, release, unsubscribe_with, unsubscribe, already_subscribed, not_running, unknown_topic,
  new_session,
}
use go_hft.Websocket.Manager.Sessions.{
  add_topic-listed, release-has_other, release-count, release-sessions, release-store,
}
use go_hft.Websocket.Manager.Bounded.{IsBounded, add_topic-IsBounded, release-IsBounded, write-same}

has-include : (ts : List TopicId) (t : TopicId) → has (include ts t) t ≡ true
unfolding has include
has-include ts t = let e : (t == t) ≡ true = ground arith in ground arith

has-without : (ts : List TopicId) (t : TopicId) → has (without ts t) t ≡ false
unfolding has without
has-without [] t = refl
has-without (u ∷ ts) t = let rest = has-without ts t in ground arith

has-add : (t : TopicId) (s : Subscriptions) → has (add t s).1.desired t ≡ true
unfolding add
has-add t s = has-include s.desired t

has-remove : (t : TopicId) (s : Subscriptions) → has (remove t s).1.desired t ≡ false
unfolding remove
has-remove t s = elim (Bool-cases (has s.desired t)) [
  | inl e ↦ ap (λ b. has (branch b).1.desired t) e ∙ has-without s.desired t
  | inr e ↦ ap (λ b. has (branch b).1.desired t) e ∙ e
]
  where
    branch : Bool → Bool × Subscriptions
    branch b =
        if b
        then (true, record { desired = without s.desired t; active = without s.active t })
        else (false, s)

assign-has :
    (t : TopicId) (p : ℕ) (m : Manager)
    → has ((assign t p m).store p).subscriptions.desired t ≡ true
unfolding assign
assign-has t p m =
    ap (λ s. has s.subscriptions.desired t) (write-same m.store p _)
    ∙ has-add t (m.store p).subscriptions

pub release-has :
    (t : TopicId) (p : ℕ) (m : Manager)
    → has ((release t p m).1.store p).subscriptions.desired t ≡ false
unfolding release
release-has t p m =
    ap (λ s. has s.subscriptions.desired t) (write-same m.store p _)
    ∙ has-remove t (m.store p).subscriptions

subscribe-eq :
    (topic : TopicId) (m : Manager) (o : Option ℕ)
    → is_done m.ctx ≡ false
    → lookup m.subscriptions topic ≡ o
    → subscribe topic m ≡ subscribe_with topic m o
unfolding subscribe
subscribe-eq topic m o d e =
    ap (λ b. if b then inl not_running else subscribe_with topic m (lookup m.subscriptions topic)) d
    ∙ ap (subscribe_with topic m) e

pub unsubscribe-eq :
    (topic : TopicId) (m : Manager) (o : Option ℕ)
    → lookup m.subscriptions topic ≡ o
    → unsubscribe topic m ≡ unsubscribe_with topic m o
unfolding unsubscribe
unsubscribe-eq topic m o e = ap (unsubscribe_with topic m) e

assign-lookup : (t : TopicId) (p : ℕ) (m : Manager) → lookup (assign t p m).subscriptions t ≡ some p
unfolding assign
assign-lookup t p m = lookup-insert m.subscriptions t p

pub release-lookup :
    (t : TopicId) (p : ℕ) (m : Manager) → lookup (release t p m).1.subscriptions t ≡ none
unfolding release
release-lookup t p m = lookup-delete m.subscriptions t

release-lookup_other :
    (t other : TopicId) (p : ℕ) (m : Manager)
    → (t == other) ≡ false
    → lookup (release t p m).1.subscriptions other ≡ lookup m.subscriptions other
unfolding release
release-lookup_other t other p m h = lookup-delete_other m.subscriptions t other h

picked-ctx : (m : Manager) (o : Option ℕ) → (picked m o).1.ctx ≡ m.ctx
unfolding new_session
picked-ctx m none = refl
picked-ctx m (some p) = refl

add_topic-ctx : (t : TopicId) (m : Manager) → (add_topic t m).1.ctx ≡ m.ctx
unfolding pick_session_locked assign
add_topic-ctx t m = picked-ctx m (find_room m.store m.max_topics m.sessions)

-- On a manager that is not shut down, and whose sessions carry no more topics than one may, Subscribe
-- takes a topic that has no subscription: it is put on a session of its list that then has it, and no
-- session carries more topics than one may. The same topic cannot be subscribed again.
pub subscribe_lem :
    (topic : TopicId) (m : Manager)
    → IsBounded m
    → is_done m.ctx ≡ false
    → lookup m.subscriptions topic ≡ none
    → (p : ℕ) × (m' : Manager) × (subscribe topic m ≡ inr (p, m'))
      × IsBounded m'
      × (lookup m'.subscriptions topic ≡ some p)
      × (has (m'.store p).subscriptions.desired topic ≡ true)
      × (subscribe topic m' ≡ inl already_subscribed)
      × (0 < occurrences p m'.sessions)
subscribe_lem topic m b running new =
    let (p, m₁) = pick_session_locked m in
    let found = assign-lookup topic p m₁ in
    (
      p,
      assign topic p m₁,
      subscribe-eq topic m none running new,
      add_topic-IsBounded topic m b,
      found,
      assign-has topic p m₁,
      subscribe-eq topic (assign topic p m₁) (some p) (ap is_done (add_topic-ctx topic m) ∙ running)
          found,
      add_topic-listed topic m,
    )

-- In a manager whose sessions carry no more topics than one may, Unsubscribe of a topic that is on a
-- session takes it off there; the session keeps its other topics, the other sessions stay, and no session
-- carries more topics than one may. The flag tells whether the session has no topic left, and just then it
-- goes from the list of sessions, once. The topic is unknown from then on, and the subscriptions of
-- the other topics stay.
pub unsubscribe_lem :
    (topic other : TopicId) (m : Manager) (p q r : ℕ)
    → IsBounded m
    → lookup m.subscriptions topic ≡ some p
    → (topic == other) ≡ false
    → (r == p) ≡ false
    → (empty : Bool) × (m' : Manager) × (unsubscribe topic m ≡ inr (p, empty, m'))
      × IsBounded m'
      × (has (m'.store p).subscriptions.desired topic ≡ false)
      × (has (m'.store p).subscriptions.desired other ≡ has (m.store p).subscriptions.desired other)
      × (m'.store r ≡ m.store r)
      × (empty ≡ (count (m'.store p).subscriptions == 0))
      × (occurrences q m'.sessions ≡ occurrences q m.sessions - (if empty then one p q else 0))
      × (unsubscribe topic m' ≡ inl unknown_topic)
      × (lookup m'.subscriptions other ≡ lookup m.subscriptions other)
unsubscribe_lem topic other m p q r b e apart others = (
  (release topic p m).0,
  (release topic p m).1,
  unsubscribe-eq topic m (some p) e,
  release-IsBounded topic p m b,
  release-has topic p m,
  release-has_other topic other p m apart,
  release-store topic p r m others,
  release-count topic p m,
  release-sessions topic p q m,
  unsubscribe-eq topic (release topic p m).1 none (release-lookup topic p m),
  release-lookup_other topic other p m apart,
)
