-- ===== src/Websocket/Manager.antt =====
-- libs/shared/websocket/manager.go: which session carries which topic. The heap of sessions is a
-- function of addresses, `fresh` the next address. Of Subscribe and Unsubscribe this is what runs under
-- the manager's mutex; what they then start, send or stop is the session's.
pub mod Bounded
pub mod Calls
pub mod Sessions
use go_hft.Prelude.{
  ℕ, ◌+◌, ◌%◌, ◌^◌, Bool, true, false, Option, none, some, List, [], ◌∷◌, ◌++◌, ◌==◌, ltb,
  if◌then◌else◌, ◌⊎◌, inl, inr,
}
use go_hft.Prelude.Maps.{Map, lookup, insert, delete}
use go_hft.Websocket.Types.{TopicId}
use go_hft.Websocket.Subscriptions.{Subscriptions, new_subscriptions, add, remove, count}

pub record Session : Type 0 where
  pub id : ℕ
  pub subscriptions : Subscriptions

-- The manager's context: absent while it does not run, live, or done.
pub data Context : Type 0 where
  absent live done : Context

pub record Manager : Type 0 where
  pub max_topics : ℕ
  pub store : ℕ → Session
  pub fresh : ℕ
  pub sessions : List ℕ
  pub subscriptions : Map ℕ
  pub next_session_id : ℕ
  pub ctx : Context

pub data ManagerError : Type 0 where
  not_running already_subscribed unknown_topic : ManagerError

-- The heap with one session replaced.
abbrev pub write : (ℕ → Session) → ℕ → Session → ℕ → Session
write store p s q = if q == p then s else store q

-- The search of `pickSessionLocked`.
unfoldable pub find_room : (ℕ → Session) → ℕ → List ℕ → Option ℕ
unfolding count
find_room store max [] = none
find_room store max (p ∷ ps) =
    let later = find_room store max ps in
    if ltb (count (store p).subscriptions) max then some p else later

unfoldable pub new_session : Manager → Manager
new_session m =
    let id = (m.next_session_id + 1) % 2 ^ 64 in
    record m {
      store = write m.store m.fresh (record { id = id; subscriptions = new_subscriptions });
      fresh = m.fresh + 1;
      sessions = m.sessions ++ m.fresh ∷ [];
      next_session_id = id;
    }

abbrev pub picked : Manager → Option ℕ → ℕ × Manager
picked m none = (m.fresh, new_session m)
picked m (some p) = (p, m)

unfoldable pub pick_session_locked : Manager → ℕ × Manager
unfolding find_room new_session
pick_session_locked m = picked m (find_room m.store m.max_topics m.sessions)

-- The last of a list with a head, and the others in place.
unfoldable pub last_of : ℕ → List ℕ → ℕ
last_of p [] = p
last_of p (q ∷ qs) = last_of q qs

unfoldable pub all_but_last : List ℕ → List ℕ
all_but_last [] = []
all_but_last (p ∷ []) = []
all_but_last (p ∷ q ∷ qs) = p ∷ all_but_last (q ∷ qs)

-- `sessions[i] = sessions[len-1]; sessions = sessions[:len-1]` at the first place of the target.
unfoldable pub remove_session_locked : ℕ → List ℕ → List ℕ
unfolding last_of all_but_last
remove_session_locked target [] = []
remove_session_locked target (p ∷ ps) =
    let rest = p ∷ remove_session_locked target ps in
    if p == target then all_but_last (last_of p ps ∷ ps) else rest

-- A topic is put on a session.
unfoldable pub assign : TopicId → ℕ → Manager → Manager
unfolding add
assign topic p m =
    let s = m.store p in
    record m {
      store = write m.store p (record s { subscriptions = (add topic s.subscriptions).1 });
      subscriptions = insert m.subscriptions topic p;
    }

abbrev pub is_done : Context → Bool
is_done absent = false
is_done live = false
is_done done = true

abbrev pub add_topic : TopicId → Manager → ℕ × Manager
add_topic topic m = let (p, m') = pick_session_locked m in (p, assign topic p m')

-- With the subscription that the topic has.
abbrev pub subscribe_with : TopicId → Manager → Option ℕ → ManagerError ⊎ (ℕ × Manager)
subscribe_with topic m (some p) = inl already_subscribed
subscribe_with topic m none = inr (add_topic topic m)

-- The session on which the topic is, unless the call fails.
unfoldable pub subscribe : TopicId → Manager → ManagerError ⊎ (ℕ × Manager)
unfolding pick_session_locked assign
subscribe topic m =
    if is_done m.ctx then inl not_running else subscribe_with topic m (lookup m.subscriptions topic)

-- A topic is taken off a session; the flag tells whether the session has become empty.
unfoldable pub release : TopicId → ℕ → Manager → Bool × Manager
unfolding remove count remove_session_locked
release topic p m =
    let s = m.store p in
    let left = (remove topic s.subscriptions).1 in
    let empty = count left == 0 in
    (
      empty,
      record m {
        store = write m.store p (record s { subscriptions = left });
        subscriptions = delete m.subscriptions topic;
        sessions = if empty then remove_session_locked p m.sessions else m.sessions;
      },
    )

abbrev pub unsubscribe_with : TopicId → Manager → Option ℕ → ManagerError ⊎ (ℕ × Bool × Manager)
unsubscribe_with topic m none = inl unknown_topic
unsubscribe_with topic m (some p) = let (empty, m') = release topic p m in inr (p, empty, m')

unfoldable pub unsubscribe : TopicId → Manager → ManagerError ⊎ (ℕ × Bool × Manager)
unfolding release
unsubscribe topic m = unsubscribe_with topic m (lookup m.subscriptions topic)
