-- ===== src/Websocket/Manager/Sessions.antt =====
-- What taking a topic off a session of libs/shared/websocket/manager.go leaves of the other topics and of
-- the list of sessions.
use go_hft.Prelude.{
  ℕ, ◌-◌, ◌≡◌, refl, ap, sym, ◌∙◌, false, Option, none, some, ltb, ◌<◌, ◌==◌, if◌then◌else◌, List,
  [], ◌∷◌, arith, Bool-cases, inl, inr,
}
use go_hft.Websocket.Types.{TopicId}
use go_hft.Websocket.Subscriptions.{Subscriptions, remove, has, without, count}
use go_hft.Websocket.Frames.Owners.{one, occurrences}
use go_hft.Websocket.Router.Lists.{occurrences-moved, occurrences-snoc, one-cases}
use go_hft.Websocket.Manager.{
  Manager, Session, find_room, picked, new_session, pick_session_locked, assign, add_topic,
  remove_session_locked, release,
}
use go_hft.Websocket.Manager.Bounded.{write-same}

-- Of a session that is taken out one occurrence goes, if there is one.
occurrences-remove_session_locked :
    (x target : ℕ) (ps : List ℕ)
    → occurrences x (remove_session_locked target ps) ≡ occurrences x ps - one target x
unfolding remove_session_locked
occurrences-remove_session_locked x target [] = omega arith
occurrences-remove_session_locked x target (p ∷ ps) = elim (Bool-cases (p == target)) [
  | inl e ↦
      let same : p ≡ target = ground arith in
      let same_one = ap (λ q. one q x) same in
      let moved = occurrences-moved x p ps in rw (e) (omega arith)
  | inr e ↦
      let rest = occurrences-remove_session_locked x target ps in
      elim (one-cases target x) [
        | inl (same, one_is) ↦
            let apart : one p target ≡ 0 = ground arith in
            let other = ap (λ y. one p y) same in rw (e) (omega arith)
        | inr none_is ↦ rw (e) (omega arith)
      ]
]

has-without_other :
    (ts : List TopicId) (t u : TopicId) → (t == u) ≡ false → has (without ts t) u ≡ has ts u
unfolding has without
has-without_other [] t u h = refl
has-without_other (v ∷ ts) t u h = let rest = has-without_other ts t u h in ground arith

has-remove_other :
    (t u : TopicId) (s : Subscriptions)
    → (t == u) ≡ false
    → has (remove t s).1.desired u ≡ has s.desired u
unfolding remove
has-remove_other t u s h = elim (Bool-cases (has s.desired t)) [
  | inl e ↦ rw (e) (has-without_other s.desired t u h)
  | inr e ↦ rw (e) refl
]

-- The session keeps its other topics.
pub release-has_other :
    (t u : TopicId) (p : ℕ) (m : Manager)
    → (t == u) ≡ false
    → has ((release t p m).1.store p).subscriptions.desired u
      ≡ has (m.store p).subscriptions.desired u
unfolding release
release-has_other t u p m h =
    ap (λ s. has s.subscriptions.desired u) (write-same m.store p _)
    ∙ has-remove_other t u (m.store p).subscriptions h

-- The flag tells whether the session has no topics left.
pub release-count :
    (t : TopicId) (p : ℕ) (m : Manager)
    → (release t p m).0 ≡ (count ((release t p m).1.store p).subscriptions == 0)
unfolding release
release-count t p m = sym (ap (λ s. count s.subscriptions == 0) (write-same m.store p _))

-- The session leaves the list just when it is empty, and the others stay.
pub release-sessions :
    (t : TopicId) (p q : ℕ) (m : Manager)
    → occurrences q (release t p m).1.sessions
      ≡ occurrences q m.sessions - (if (release t p m).0 then one p q else 0)
unfolding release
release-sessions t p q m = elim (Bool-cases (count (remove t (m.store p).subscriptions).1 == 0)) [
  | inl e ↦ rw (e) (occurrences-remove_session_locked q p m.sessions)
  | inr e ↦ rw (e) (omega arith)
]

-- No other session changes.
pub release-store :
    (t : TopicId) (p q : ℕ) (m : Manager) → (q == p) ≡ false → (release t p m).1.store q ≡ m.store q
unfolding release
release-store t p q m h = rw (h) refl

find_room-listed :
    (store : ℕ → Session) (max p : ℕ) (ps : List ℕ)
    → find_room store max ps ≡ some p
    → 0 < occurrences p ps
unfolding find_room
find_room-listed store max p [] h = cc
find_room-listed store max p (q ∷ ps) h =
    elim (Bool-cases (ltb (count (store q).subscriptions) max)) [
      | inl e ↦
          let one_of = sym (ap (λ b. if b then some q else find_room store max ps) e) ∙ h in
          let same : q ≡ p = cc in let self : one q p ≡ 1 = ground arith in omega arith
      | inr e ↦
          let rest = sym (ap (λ b. if b then some q else find_room store max ps) e) ∙ h in
          let there = find_room-listed store max p ps rest in omega arith
    ]

picked-listed :
    (m : Manager) (o : Option ℕ)
    → find_room m.store m.max_topics m.sessions ≡ o
    → 0 < occurrences (picked m o).0 (picked m o).1.sessions
unfolding new_session
picked-listed m (some p) e = find_room-listed m.store m.max_topics p m.sessions e
picked-listed m none e =
    let more = occurrences-snoc m.fresh m.fresh m.sessions in
    let self : one m.fresh m.fresh ≡ 1 = ground arith in omega arith

-- The session that a topic is put on is in the list, whether it is new or not.
pub add_topic-listed :
    (t : TopicId) (m : Manager) → 0 < occurrences (add_topic t m).0 (add_topic t m).1.sessions
unfolding pick_session_locked assign
add_topic-listed t m = picked-listed m (find_room m.store m.max_topics m.sessions) refl
