-- ===== src/Tests/Session.antt =====
-- Runs of the session (libs/shared/websocket/session.go).
use go_hft.Prelude.{ℕ, Bytes, ◌≡◌, refl, some, [], ◌∷◌, arith, codes, true, false, All}
use go_hft.Websocket.Types.{MessageType, message_text, overflow_block}
use go_hft.Websocket.Writer.{Writer, set_connected}
use go_hft.Websocket.BufferPool.{BufferPool}
use go_hft.Websocket.Session.{
  Session, Encoder, done, resubscribe, connect, round, try_grow_read_buffer,
}
use go_hft.Websocket.Session.Resubscribe.{
  HasSent, IsEncoded, IsStuck, resubscribe-HasSent, round-IsStuck,
}
use go_hft.Websocket.Session.Grow.{IsLarger, try_grow_read_buffer-IsLarger}

abbrev encode : Encoder
encode topic = some (message_text, topic ∷ [])

abbrev writer : ℕ → Writer
writer capacity = record {
  queue = [];
  capacity = capacity;
  policy = overflow_block;
  connected = true;
}

-- Two topics are desired.
abbrev session : ℕ → Session
session capacity = record {
  subscriptions = record { desired = 5 ∷ 6 ∷ []; active = [] };
  writer = writer capacity;
  outbound = [];
  released = [];
  connected = true;
  attempt = 0;
}

all-IsEncoded : All (IsEncoded encode) (5 ∷ 6 ∷ [])
all-IsEncoded = (((message_text, 5 ∷ []), refl), (((message_text, 6 ∷ []), refl), tt))

resubscribe-HasSent_example :
    (s' : Session) × (resubscribe encode (session 2) ≡ done s')
    × HasSent encode (5 ∷ 6 ∷ []) (session 2) s'
resubscribe-HasSent_example =
    resubscribe-HasSent encode (session 2) all-IsEncoded refl (omega arith)

round-IsStuck_example : IsStuck (round encode true true (λ s. s) (λ s. s) false (session 1))
unfolding connect set_connected
round-IsStuck_example =
    round-IsStuck encode (λ s. s) (λ s. s) false (session 1) all-IsEncoded (omega arith) refl refl
      (omega arith) (omega arith)

abbrev pool : BufferPool
pool = record { sizes = 16 ∷ 256 ∷ []; pools = [] ∷ [] ∷ [] }

try_grow_read_buffer-IsLarger_example : IsLarger 16 (try_grow_read_buffer 16 16 16 pool)
try_grow_read_buffer-IsLarger_example =
    try_grow_read_buffer-IsLarger 16 16 0 pool (omega arith, (omega arith, tt)) (omega arith)

abbrev long_message : MessageType × Bytes
long_message = (message_text, codes "a message of more than 16 bytes")
