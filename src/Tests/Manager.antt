-- ===== src/Tests/Manager.antt =====
-- Runs of the manager (libs/shared/websocket/manager.go).
use go_hft.Prelude.{
  ◌<◌, ℕ, ◌-◌, ◌==◌, if◌then◌else◌, ◌≡◌, refl, Bool, true, false, none, some, [], ◌∷◌, inl, inr,
  arith,
}
use go_hft.Prelude.Maps.{lookup}
use go_hft.Websocket.Subscriptions.{has, count}
use go_hft.Websocket.Manager.{
  Session, Manager, live, already_subscribed, unknown_topic, subscribe, unsubscribe,
}
use go_hft.Websocket.Frames.Owners.{one, occurrences}
use go_hft.Websocket.Manager.Bounded.{IsBounded}
use go_hft.Websocket.Manager.Calls.{subscribe_lem, unsubscribe_lem}

-- One session, which carries topics 7 and 8 and has no room left.
abbrev carrier : Session
carrier = record { id = 1; subscriptions = record { desired = 7 ∷ 8 ∷ []; active = [] } }

abbrev manager : Manager
manager = record {
  max_topics = 2;
  store = λ _. carrier;
  fresh = 1;
  sessions = 0 ∷ [];
  subscriptions = (7, 0) ∷ (8, 0) ∷ [];
  next_session_id = 1;
  ctx = live;
}

manager-IsBounded : IsBounded manager
unfolding go_hft.Websocket.Subscriptions.count
manager-IsBounded = record { positive = omega arith; within = ((omega arith, omega arith), tt) }

unknown : lookup manager.subscriptions 9 ≡ none
unfolding lookup
unknown = refl

known : lookup manager.subscriptions 7 ≡ some 0
unfolding lookup
known = refl

subscribe_lem_example :
    (p : ℕ) × (m' : Manager) × (subscribe 9 manager ≡ inr (p, m'))
    × IsBounded m'
    × (lookup m'.subscriptions 9 ≡ some p)
    × (has (m'.store p).subscriptions.desired 9 ≡ true)
    × (subscribe 9 m' ≡ inl already_subscribed)
    × (0 < occurrences p m'.sessions)
subscribe_lem_example = subscribe_lem 9 manager manager-IsBounded refl unknown

unsubscribe_lem_example :
    (empty : Bool) × (m' : Manager) × (unsubscribe 7 manager ≡ inr (0, empty, m'))
    × IsBounded m'
    × (has (m'.store 0).subscriptions.desired 7 ≡ false)
    × (has (m'.store 0).subscriptions.desired 8 ≡ has (manager.store 0).subscriptions.desired 8)
    × (m'.store 1 ≡ manager.store 1)
    × (empty ≡ (count (m'.store 0).subscriptions == 0))
    × (occurrences 0 m'.sessions ≡ occurrences 0 manager.sessions - (if empty then one 0 0 else 0))
    × (unsubscribe 7 m' ≡ inl unknown_topic)
    × (lookup m'.subscriptions 8 ≡ lookup manager.subscriptions 8)
unsubscribe_lem_example = unsubscribe_lem 7 8 manager 0 0 1 manager-IsBounded known refl refl
