-- ===== src/Websocket/Session/Resubscribe.antt =====
-- libs/shared/websocket/session.go: the subscriptions that a session sends when it has connected.
use go_hft.Prelude.{
  ℕ, suc, ◌+◌, ◌≤◌, ◌<◌, ◌≡◌, refl, ap, sym, subst, ◌∙◌, Bool, true, false, Option, none, some,
  List, [], ◌∷◌, ◌++◌, ◌==◌, ltb, Bytes, length, length-append, append_assoc, append-nil, dec_lt,
  All, arith, lt→ltb,
}
use go_hft.Websocket.Types.{TopicId, MessageType, overflow_block}
use go_hft.Websocket.Queue.{FramePtr, returns}
use go_hft.Websocket.Subscriptions.{has, include, mark_active, desired_of, clear_active, count}
use go_hft.Websocket.Writer
use go_hft.Websocket.Writer.{Writer, drop_loop}
use go_hft.Websocket.Session.{
  Session, Encoder, Call, done, fails, parks, send, send_subscribe, next_topic, subscribe_all,
  resubscribe, connect, round, served, Round, stops, again, stuck,
}

drop_loop-room :
    (room : ℕ) (frame : FramePtr) (out : List ℕ) (queue : List FramePtr)
    → length queue < room
    → drop_loop room frame out queue ≡ (true, out, queue ++ frame ∷ [])
unfolding drop_loop
drop_loop-room room frame out [] h = let e : ltb 0 room ≡ true = lt→ltb 0 room h in rw (e) refl
drop_loop-room room frame out (old ∷ queue) h =
    let e : ltb (length queue + 1) room ≡ true = lt→ltb (length queue + 1) room (omega arith) in
    rw (e) refl

-- A writer that has room takes a frame, under each policy.
enqueue-room :
    (f : ℕ) (w : Writer)
    → w.connected ≡ true
    → length w.queue < w.capacity
    → Writer.enqueue (some f) w ≡ returns true [] (record w { queue = w.queue ++ some f ∷ [] })
unfolding Writer.enqueue
enqueue-room f w c h =
    let e = lt→ltb (length w.queue) w.capacity h in
    let d = drop_loop-room w.capacity (some f) [] w.queue h in ground (arith, d)

-- The places that new frames take in a list, and what the encoder gives for the topics.
abbrev pub places : ℕ → List TopicId → List FramePtr
places n [] = []
places n (topic ∷ topics) = some n ∷ places (suc n) topics

abbrev with_message :
    Option (MessageType × Bytes) → List (MessageType × Bytes) → List (MessageType × Bytes)
with_message none rest = rest
with_message (some message) rest = message ∷ rest

abbrev pub messages : Encoder → List TopicId → List (MessageType × Bytes)
messages encode [] = []
messages encode (topic ∷ topics) = with_message (encode topic) (messages encode topics)

abbrev pub IsEncoded : Encoder → TopicId → Type 0
IsEncoded encode topic = (message : MessageType × Bytes) × (encode topic ≡ some message)

-- The session once all the topics are sent: their frames stand behind what the queue held, in order, and
-- each topic is active.
pub record HasSent (encode : Encoder) (topics : List TopicId) (s s' : Session) : Type 0 where
  pub queue : s'.writer.queue ≡ s.writer.queue ++ places (length s.outbound) topics
  pub outbound : s'.outbound ≡ s.outbound ++ messages encode topics
  pub desired : s'.subscriptions.desired ≡ s.subscriptions.desired
  pub active : All (λ t. has s'.subscriptions.active t ≡ true) topics
  pub kept :
      (t : TopicId) → has s.subscriptions.active t ≡ true → has s'.subscriptions.active t ≡ true

has-include : (ts : List TopicId) (u t : TopicId) → has ts t ≡ true → has (include ts u) t ≡ true
unfolding has include
has-include ts u t h = ground arith

has-include_self : (ts : List TopicId) (t : TopicId) → has (include ts t) t ≡ true
unfolding has include
has-include_self ts t = let e : (t == t) ≡ true = ground arith in ground arith

-- The session once one topic is sent.
abbrev after : Session → TopicId → MessageType × Bytes → Session
unfolding mark_active
after s topic message = record s {
  writer = record (s.writer) { queue = s.writer.queue ++ some (length s.outbound) ∷ [] };
  outbound = s.outbound ++ message ∷ [];
  released = s.released ++ [];
  subscriptions = mark_active topic s.subscriptions;
}

send-room :
    (encode : Encoder) (topic : TopicId) (message : MessageType × Bytes) (s : Session)
    (next : Session → Call)
    → encode topic ≡ some message
    → s.writer.connected ≡ true
    → length s.writer.queue < s.writer.capacity
    → next_topic topic next (send_subscribe encode topic s) ≡ next (after s topic message)
unfolding send_subscribe send after
send-room encode topic message s next e c h =
    rw (e, enqueue-room (length s.outbound) s.writer c h) refl

after-HasSent :
    (encode : Encoder) (topic : TopicId) (topics : List TopicId) (message : MessageType × Bytes)
    (s s' : Session)
    → encode topic ≡ some message
    → HasSent encode topics (after s topic message) s'
    → HasSent encode (topic ∷ topics) s s'
unfolding after mark_active
after-HasSent encode topic topics message s s' e r =
    let n : length (s.outbound ++ message ∷ []) ≡ suc (length s.outbound) =
      length-append s.outbound (message ∷ []) ∙ omega arith in
    record {
      queue =
          r.queue
          ∙ ap (λ n. s.writer.queue ++ some (length s.outbound) ∷ [] ++ places n topics) n
          ∙ append_assoc s.writer.queue (some (length s.outbound) ∷ [])
              (places (suc (length s.outbound)) topics);
      outbound =
          r.outbound
          ∙ append_assoc s.outbound (message ∷ []) (messages encode topics)
          ∙ ap (λ o. s.outbound ++ with_message o (messages encode topics)) (sym e);
      desired = r.desired;
      active = (r.kept topic (has-include_self s.subscriptions.active topic), r.active);
      kept = λ t h. r.kept t (has-include s.subscriptions.active topic t h);
    }

subscribe_all-room :
    (encode : Encoder) (topics : List TopicId) (s : Session)
    → All (IsEncoded encode) topics
    → s.writer.connected ≡ true
    → length s.writer.queue + length topics ≤ s.writer.capacity
    → (s' : Session) × (subscribe_all encode topics s ≡ done s') × HasSent encode topics s s'
unfolding subscribe_all
subscribe_all-room encode [] s a c h = (
  s,
  refl,
  record {
    queue = sym (append-nil s.writer.queue);
    outbound = sym (append-nil s.outbound);
    desired = refl;
    active = tt;
    kept = λ t k. k;
  },
)
subscribe_all-room encode (topic ∷ topics) s ((message, e), a) c h =
    let queued = length-append s.writer.queue (some (length s.outbound) ∷ []) in
    let (s', e', r) =
      subscribe_all-room encode topics (after s topic message) a (unfold after in c)
        (unfold after in omega arith) in
    (
      s',
      send-room encode topic message s (subscribe_all encode topics) e c (omega arith) ∙ e',
      after-HasSent encode topic topics message s s' e r,
    )

-- When a session has connected and the desired topics fit behind what its writer holds, and the encoder has a
-- message for each, resubscribing succeeds under every overflow policy: the messages stand behind what the
-- queue held, in the order of the topics, and each desired topic is active.
pub resubscribe-HasSent :
    (encode : Encoder) (s : Session)
    → All (IsEncoded encode) s.subscriptions.desired
    → s.writer.connected ≡ true
    → length s.writer.queue + length s.subscriptions.desired ≤ s.writer.capacity
    → (s' : Session) × (resubscribe encode s ≡ done s')
      × HasSent encode s.subscriptions.desired s s'
unfolding resubscribe desired_of
resubscribe-HasSent encode s a c h = subscribe_all-room encode s.subscriptions.desired s a c h

-- A call that parks.
abbrev pub IsParked : Call → Type 0
IsParked (done s) = ⊥
IsParked (fails e s) = ⊥
IsParked (parks s) = Unit

send-full :
    (encode : Encoder) (topic : TopicId) (message : MessageType × Bytes) (s : Session)
    (next : Session → Call)
    → encode topic ≡ some message
    → s.writer.connected ≡ true
    → s.writer.policy ≡ overflow_block
    → s.writer.capacity ≤ length s.writer.queue
    → IsParked (next_topic topic next (send_subscribe encode topic s))
unfolding send_subscribe send Writer.enqueue
send-full encode topic message s next e c p h =
    let full : ltb (length s.writer.queue) s.writer.capacity ≡ false = ground arith in
    rw (e, c, p, full) tt

subscribe_all-full :
    (encode : Encoder) (topics : List TopicId) (s : Session)
    → All (IsEncoded encode) topics
    → s.writer.connected ≡ true
    → s.writer.policy ≡ overflow_block
    → s.writer.capacity < length s.writer.queue + length topics
    → length s.writer.queue ≤ s.writer.capacity
    → IsParked (subscribe_all encode topics s)
unfolding subscribe_all
subscribe_all-full encode [] s a c p h l = absurd (omega arith)
subscribe_all-full encode (topic ∷ topics) s ((message, e), a) c p h l =
    elim (dec_lt (length s.writer.queue) s.writer.capacity) [
      | no full ↦ send-full encode topic message s (subscribe_all encode topics) e c p (omega arith)
      | yes room ↦
          let queued = length-append s.writer.queue (some (length s.outbound) ∷ []) in
          subst IsParked
            (sym (send-room encode topic message s (subscribe_all encode topics) e c room))
            (subscribe_all-full encode topics (after s topic message) a (unfold after in c)
              (unfold after in p) (unfold after in omega arith) (unfold after in omega arith))
    ]

-- A round that does not end.
abbrev pub IsStuck : Round → Type 0
IsStuck (stops s) = ⊥
IsStuck (again s) = ⊥
IsStuck (stuck s) = Unit

parked-IsStuck :
    (serve : Session → Session) (cancelled : Bool) (c : Call)
    → IsParked c
    → IsStuck (served serve cancelled c)
unfolding served
parked-IsStuck serve cancelled (done s) h = absurd h
parked-IsStuck serve cancelled (fails e s) h = absurd h
parked-IsStuck serve cancelled (parks s) h = tt

-- A session with a desired topic dials and greets, its writer is connected, blocks when it is full and holds
-- no more than its capacity, the encoder has a message for each topic, and the desired topics do not fit
-- behind what the queue holds. Then the round of `run` never ends: it is stuck in an enqueue.
pub round-IsStuck :
    (encode : Encoder) (greet serve : Session → Session) (cancelled : Bool) (s : Session)
    → All (IsEncoded encode) (greet (connect s)).subscriptions.desired
    → 0 < length s.subscriptions.desired
    → (greet (connect s)).writer.connected ≡ true
    → (greet (connect s)).writer.policy ≡ overflow_block
    → (greet (connect s)).writer.capacity
      < length (greet (connect s)).writer.queue + length (greet (connect s)).subscriptions.desired
    → length (greet (connect s)).writer.queue ≤ (greet (connect s)).writer.capacity
    → IsStuck (round encode true true greet serve cancelled s)
unfolding round resubscribe desired_of clear_active count
round-IsStuck encode greet serve cancelled s a n c p h l =
    let up = greet (connect s) in
    let cleared : Session = record up {
      subscriptions = record { desired = up.subscriptions.desired; active = [] };
    } in
    let full = subscribe_all-full encode up.subscriptions.desired cleared a c p h l in
    let some_topic : (length s.subscriptions.desired == 0) ≡ false = ground arith in
    rw (some_topic)
      (parked-IsStuck serve cancelled (subscribe_all encode up.subscriptions.desired cleared) full)
