-- ===== src/Websocket/Session.antt =====
-- libs/shared/websocket/session.go: the control messages of a session, its rounds of connecting and the
-- size of its read buffer. An outgoing frame is its place in the list `outbound`; what the encoder, the
-- network and the contexts answer are arguments. Reading and writing while connected are those of the
-- connection, the writer and the router.
pub mod Grow
pub mod Answers
pub mod Resubscribe
use go_hft.Prelude.{
  ℕ, zero, suc, ◌+◌, ◌-◌, Bool, true, false, Option, none, some, List, [], ◌∷◌, ◌++◌, ◌==◌, ltb,
  if◌then◌else◌, ◌||◌, not, ◌⊎◌, inl, inr, Bytes, length,
}
use go_hft.Websocket.Types.{TopicId, MessageType}
use go_hft.Websocket.Queue.{Outcome, returns, waits}
use go_hft.Websocket.Subscriptions.{Subscriptions, mark_active, clear_active, desired_of, count}
use go_hft.Websocket.Writer
use go_hft.Websocket.Writer.{Writer, set_connected, drain}
use go_hft.Websocket.BufferPool.{BufferPool, Buffer, get, put, next_bucket_size}

pub data SessionError : Type 0 where
  encoder_error frame_too_large queue_full : SessionError

pub record Session : Type 0 where
  pub subscriptions : Subscriptions
  pub writer : Writer
  pub outbound : List (MessageType × Bytes)
  pub released : List ℕ
  pub connected : Bool
  pub attempt : ℕ

-- What `encodeControl` answers for a topic; `none` is an error.
abbrev pub Encoder : Type 0
Encoder = TopicId → Option (MessageType × Bytes)

abbrev pub capacity_of : Option Buffer → ℕ
capacity_of none = 0
capacity_of (some b) = b.cap

unfoldable pub put_back : Option Buffer → BufferPool → BufferPool
unfolding put
put_back none pool = pool
put_back (some b) pool = put b pool

abbrev pub Control : Type 0
Control = SessionError ⊎ (MessageType × Bytes)

-- The second try, in the buffer `buf`, with what the encoder answers this time.
unfoldable pub encoded_again :
    Option Buffer → BufferPool → Option (MessageType × Bytes) → Control × BufferPool
unfolding put_back
encoded_again buf pool none = (inl encoder_error, put_back buf pool)
encoded_again buf pool (some (msg_type, payload)) =
    if ltb (capacity_of buf) (length payload)
    then (inl frame_too_large, put_back buf pool)
    else (inr (msg_type, payload), pool)

-- The calls below have `none` where the pool panics.
abbrev pub in_buffer {ℓ} :
    {A : Type ℓ}
    → (Option Buffer → BufferPool → Option A)
    → Option (Option Buffer × BufferPool)
    → Option A
in_buffer f none = none
in_buffer f (some (buf, pool)) = f buf pool

unfoldable pub encode_again :
    ℕ → ℕ → ℕ → Option (MessageType × Bytes) → BufferPool → Option (Control × BufferPool)
unfolding get encoded_again
encode_again limit pick buf_size answer pool =
    in_buffer (λ buf pool'. some (encoded_again buf pool' answer)) (get limit pick buf_size pool)

unfoldable pub encoded :
    ℕ
    → ℕ
    → Option (MessageType × Bytes)
    → Option Buffer
    → BufferPool
    → Option (MessageType × Bytes)
    → Option (Control × BufferPool)
unfolding encode_again put_back
encoded limit pick again buf pool none = some (inl encoder_error, put_back buf pool)
encoded limit pick again buf pool (some (msg_type, payload)) =
    if ltb (capacity_of buf) (length payload)
    then encode_again limit pick (length payload) again (put_back buf pool)
    else some (inr (msg_type, payload), pool)

-- `encodeControl`, with the most that the runtime allocates, the two choices of the pool, and what the
-- encoder answers when it is called first and, if it is, again. A payload longer than the buffer has a
-- positive length, so that the test for one that is not is left out.
unfoldable pub encode_control :
    ℕ
    → ℕ
    → ℕ
    → ℕ
    → Option (MessageType × Bytes)
    → Option (MessageType × Bytes)
    → BufferPool
    → Option (Control × BufferPool)
unfolding get encoded
encode_control limit pick pick' control_buf_size answer again pool =
    in_buffer (λ buf pool'. encoded limit pick' again buf pool' answer)
      (get limit pick control_buf_size pool)

-- What a call of the session comes to: it is done, it fails, or it parks.
pub data Call : Type 0 where
  done : Session → Call
  fails : SessionError → Session → Call
  parks : Session → Call

-- The frame f is enqueued.
abbrev pub sent : ℕ → Session → Outcome Writer Bool → Call
sent f s (returns true out w) = done (record s { writer = w; released = s.released ++ out })
sent f s (returns false out w) =
    fails queue_full (record s { writer = w; released = s.released ++ out ++ f ∷ [] })
sent f s (waits w) = parks (record s { writer = w })

unfoldable pub send : Session → Option (MessageType × Bytes) → Call
unfolding Writer.enqueue
send s none = fails encoder_error s
send s (some message) =
    let f = length s.outbound in
    sent f (record s { outbound = s.outbound ++ message ∷ [] }) (Writer.enqueue (some f) s.writer)

-- `sendSubscribe`, and `sendUnsubscribe` of its own encoder.
unfoldable pub send_subscribe : Encoder → TopicId → Session → Call
unfolding send
send_subscribe encode topic s = send s (encode topic)

abbrev pub marked : TopicId → Session → Session
marked topic s = record s { subscriptions = mark_active topic s.subscriptions }

abbrev pub next_topic : TopicId → (Session → Call) → Call → Call
next_topic topic next (done s) = next (marked topic s)
next_topic topic next (fails e s) = fails e s
next_topic topic next (parks s) = parks s

-- The loop of `resubscribe`.
unfoldable pub subscribe_all : Encoder → List TopicId → Session → Call
unfolding send_subscribe
subscribe_all encode [] s = done s
subscribe_all encode (topic ∷ topics) s =
    next_topic topic (λ s'. subscribe_all encode topics s') (send_subscribe encode topic s)

unfoldable pub resubscribe : Encoder → Session → Call
unfolding subscribe_all desired_of
resubscribe encode s = subscribe_all encode (desired_of s.subscriptions) s

-- `subscribe` of one topic while the session may be connected.
unfoldable pub subscribe : Encoder → TopicId → Session → Call
unfolding send_subscribe
subscribe encode topic s =
    if not s.connected then done s else next_topic topic done (send_subscribe encode topic s)

unfoldable pub unsubscribe : Encoder → TopicId → Session → Call
unfolding send_subscribe
unsubscribe encode topic s = if not s.connected then done s else send_subscribe encode topic s

-- `connected.Store(false); writer.SetConnected(false); writer.Drain()`
unfoldable pub disconnect : Session → Session
unfolding drain set_connected
disconnect s =
    let (out, w) = drain (set_connected false s.writer) in
    record s { writer = w; released = s.released ++ out; connected = false }

unfoldable pub connect : Session → Session
unfolding set_connected
connect s = record s { writer = set_connected true s.writer; connected = true; attempt = 0 }

abbrev pub failed : Session → Session
failed s = record s { attempt = s.attempt + 1 }

-- What `tryGrowReadBuffer` does with the frame size; `none` is false.
unfoldable pub try_grow_read_buffer : ℕ → ℕ → ℕ → BufferPool → Option ℕ
unfolding next_bucket_size
try_grow_read_buffer frame_size current_len bucket_cap pool =
    let next =
      if ltb current_len bucket_cap then bucket_cap else next_bucket_size bucket_cap pool in
    if current_len == 0 || next == 0
    then none
    else some (if ltb frame_size next then next else frame_size)

-- What a round of `run` comes to: the loop ends or goes on, or it is stuck in an enqueue.
pub data Round : Type 0 where
  stops : Session → Round
  again : Session → Round
  stuck : Session → Round

unfoldable pub served : (Session → Session) → Bool → Call → Round
unfolding disconnect
served serve cancelled (fails e s) = again (failed (disconnect s))
served serve cancelled (parks s) = stuck s
served serve cancelled (done s) =
    let down = disconnect (serve s) in if cancelled then stops down else again (failed down)

-- A round of the loop of `run` whose context is not done at first: whether Dial and OnConnect succeed, what
-- OnConnect and `runSession` do to the session, and whether the context is done then.
unfoldable pub round :
    Encoder → Bool → Bool → (Session → Session) → (Session → Session) → Bool → Session → Round
unfolding count connect disconnect clear_active resubscribe served
round encode dialed greeted greet serve cancelled s =
    let up = greet (connect s) in
    let cleared : Session = record up { subscriptions = clear_active up.subscriptions } in
    if count s.subscriptions == 0
    then stops s
    else if not dialed
    then again (failed s)
    else if not greeted
    then again (failed (disconnect up))
    else served serve cancelled (resubscribe encode cleared)
