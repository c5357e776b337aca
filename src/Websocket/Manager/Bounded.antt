-- ===== src/Websocket/Manager/Bounded.antt =====
-- The number of topics that a session of libs/shared/websocket/manager.go carries.
use go_hft.Prelude.{
  ℕ, ◌+◌, ◌≤◌, ◌<◌, ◌≡◌, refl, ap, sym, ◌∙◌, ◌%◌, ◌^◌, subst, Bool, true, false, ◌==◌, ltb,
  if◌then◌else◌, Option, none, some, List, [], ◌∷◌, arith, Bool-cases, inl, inr, All, All-append,
  length, ltb→lt,
}
use go_hft.Websocket.Types.{TopicId}
use go_hft.Websocket.Subscriptions.{
  Subscriptions, add, remove, count, without, include, new_subscriptions,
}
use go_hft.Websocket.Manager.{
  Session, Manager, write, find_room, new_session, picked, pick_session_locked, last_of,
  all_but_last, remove_session_locked, assign, add_topic, release,
}

-- An address that is in use, of a session with at most `max` topics.
abbrev pub Within : (ℕ → Session) → ℕ → ℕ → ℕ → Type 0
Within store fresh max p = (p < fresh) × (count (store p).subscriptions ≤ max)

-- Every session of the manager is in use, and carries at most the topics that one may carry.
pub record IsBounded (m : Manager) : Type 0 where
  pub positive : 0 < m.max_topics
  pub within : All (Within m.store m.fresh m.max_topics) m.sessions

count-add : (t : TopicId) (s : Subscriptions) → count (add t s).1 ≤ count s + 1
unfolding count add include
count-add t s = ground arith

count_new : count new_subscriptions ≡ 0
unfolding count
count_new = refl

length-without : (ts : List TopicId) (t : TopicId) → length (without ts t) ≤ length ts
unfolding without
length-without [] t = omega arith
length-without (u ∷ ts) t = let rest = length-without ts t in ground arith

count-remove : (t : TopicId) (s : Subscriptions) → count (remove t s).1 ≤ count s
unfolding count remove
count-remove t s = let l = length-without s.desired t in ground arith

-- A write that leaves room keeps all sessions within the bound.
write-Within :
    (store : ℕ → Session) (fresh fresh' max p : ℕ) (s : Session) (ps : List ℕ)
    → fresh ≤ fresh'
    → ((count (store p).subscriptions ≤ max) → count s.subscriptions ≤ max)
    → All (Within store fresh max) ps
    → All (Within (write store p s) fresh' max) ps
write-Within store fresh fresh' max p s [] le h a = tt
write-Within store fresh fresh' max p s (q ∷ ps) le h ((l, b), a) =
    ((omega arith, one (q == p) refl), write-Within store fresh fresh' max p s ps le h a)
  where
    one : (c : Bool) → (q == p) ≡ c → count (if c then s else store q).subscriptions ≤ max
    one true e = h (subst (λ r. count (store r).subscriptions ≤ max) (ground arith) b)
    one false e = b

-- What a search for room has found.
abbrev HasRoom : (ℕ → Session) → ℕ → ℕ → Option ℕ → Type 0
HasRoom store fresh max none = Unit
HasRoom store fresh max (some p) = (p < fresh) × (count (store p).subscriptions < max)

find_room-HasRoom :
    (store : ℕ → Session) (fresh max : ℕ) (ps : List ℕ)
    → All (Within store fresh max) ps
    → HasRoom store fresh max (find_room store max ps)
unfolding find_room
find_room-HasRoom store fresh max [] a = tt
find_room-HasRoom store fresh max (p ∷ ps) ((l, b), a) =
    elim (Bool-cases (ltb (count (store p).subscriptions) max)) [
      | inl e ↦
          subst (λ c. HasRoom store fresh max (if c then some p else find_room store max ps))
            (sym e) (l, ltb→lt _ _ e)
      | inr e ↦
          subst (λ c. HasRoom store fresh max (if c then some p else find_room store max ps))
            (sym e) (find_room-HasRoom store fresh max ps a)
    ]

pub write-same : (store : ℕ → Session) (p : ℕ) (s : Session) → write store p s p ≡ s
write-same store p s =
    let e : (p == p) ≡ true = ground arith in ap (λ b. if b then s else store p) e

-- A session with room in a bounded manager.
record Ready (p : ℕ) (m : Manager) : Type 0 where
  bounded : IsBounded m
  room : count (m.store p).subscriptions < m.max_topics

picked-Ready :
    (m : Manager) (o : Option ℕ)
    → IsBounded m
    → HasRoom m.store m.fresh m.max_topics o
    → Ready (picked m o).0 (picked m o).1
picked-Ready m (some p) b h = record { bounded = b; room = h.1 }
picked-Ready m none b h =
    let s : Session = record {
      id = (m.next_session_id + 1) % 2 ^ 64;
      subscriptions = new_subscriptions;
    } in
    let empty : count (write m.store m.fresh s m.fresh).subscriptions ≡ 0 =
      ap (λ t. count t.subscriptions) (write-same m.store m.fresh s) ∙ count_new in
    let more = b.positive in
    unfold new_session in
    record {
      bounded = record {
        positive = b.positive;
        within =
            All-append _ m.sessions (m.fresh ∷ [])
              (write-Within m.store m.fresh (m.fresh + 1) m.max_topics m.fresh s m.sessions
                (omega arith) (λ _. let z = count_new in omega arith) b.within)
              ((omega arith, omega arith), tt);
      };
      room = omega arith;
    }

assign-IsBounded : (t : TopicId) (p : ℕ) (m : Manager) → Ready p m → IsBounded (assign t p m)
unfolding assign
assign-IsBounded t p m r = record {
  positive = r.bounded.positive;
  within =
      write-Within m.store m.fresh m.fresh m.max_topics p _ m.sessions (omega arith)
        (λ _. let c = count-add t (m.store p).subscriptions in let l = r.room in omega arith)
        r.bounded.within;
}

pub add_topic-IsBounded : (t : TopicId) (m : Manager) → IsBounded m → IsBounded (add_topic t m).1
unfolding pick_session_locked
add_topic-IsBounded t m b =
    let o = find_room m.store m.max_topics m.sessions in
    let h = find_room-HasRoom m.store m.fresh m.max_topics m.sessions b.within in
    assign-IsBounded t (picked m o).0 (picked m o).1 (picked-Ready m o b h)

module _ (P : ℕ → Type 0) where
  last_of-All : (p : ℕ) (ps : List ℕ) → P p → All P ps → P (last_of p ps)
  unfolding last_of
  last_of-All p [] h a = h
  last_of-All p (q ∷ qs) h (k, a) = last_of-All q qs k a

  all_but_last-All : (ps : List ℕ) → All P ps → All P (all_but_last ps)
  unfolding all_but_last
  all_but_last-All [] a = tt
  all_but_last-All (p ∷ []) a = tt
  all_but_last-All (p ∷ q ∷ qs) (h, a) = (h, all_but_last-All (q ∷ qs) a)

  remove_session_locked-All :
      (target : ℕ) (ps : List ℕ) → All P ps → All P (remove_session_locked target ps)
  unfolding remove_session_locked
  remove_session_locked-All target [] a = tt
  remove_session_locked-All target (p ∷ ps) (h, a) =
      (elim (p == target)
        as (λ b.
          All P
            (if b then all_but_last (last_of p ps ∷ ps) else p ∷ remove_session_locked target ps)) [
              | true ↦ all_but_last-All (last_of p ps ∷ ps) (last_of-All p ps h a, a)
              | false ↦ (h, remove_session_locked-All target ps a)
            ])

pub release-IsBounded :
    (t : TopicId) (p : ℕ) (m : Manager) → IsBounded m → IsBounded (release t p m).1
unfolding release
release-IsBounded t p m b =
    let s = m.store p in
    let left = (remove t s.subscriptions).1 in
    let store = write m.store p (record s { subscriptions = left }) in
    let all =
      write-Within m.store m.fresh m.fresh m.max_topics p (record s { subscriptions = left })
        m.sessions (omega arith) (λ l. let c = count-remove t s.subscriptions in omega arith)
        b.within in
    record {
      positive = b.positive;
      within =
          elim (count left == 0)
            as (λ e.
              All (Within store m.fresh m.max_topics)
                (if e then remove_session_locked p m.sessions else m.sessions)) [
                  | true ↦ remove_session_locked-All _ p m.sessions all
                  | false ↦ all
                ];
    }
