-- ===== src/Websocket/Queue/Consumer.antt =====
-- libs/shared/websocket/consumer.go, Consumer: the calls that go through to the queue, and what
-- they answer on a nil consumer. A `*Consumer` is an optional consumer.
use go_hft.Prelude.{ℕ, Bool, false, Option, none, some, List, []}
use mathlib.Core.Option
use go_hft.Websocket.Types.{OverflowPolicy}
use go_hft.Websocket.Queue
use go_hft.Websocket.Queue.Fifo.{outcome_map}
use go_hft.Websocket.Queue.{FramePtr, FrameQueue, Outcome, returns, waits, new_frame_queue}

-- The field `queue` may be nil.
pub record Consumer : Type 0 where
  pub queue : Option FrameQueue

pub new_consumer : ℕ → OverflowPolicy → Consumer
new_consumer capacity policy = record { queue = some (new_frame_queue capacity policy) }

-- The queue behind a consumer that may be nil.
pub queue_of : Option Consumer → Option FrameQueue
queue_of none = none
queue_of (some c) = c.queue

pub next : Option Consumer → Option (Outcome (Option FrameQueue) (Option FramePtr))
next c = elim (queue_of c) [
  | none ↦ some (returns none [] none)
  | some q ↦ Option.map (outcome_map some) (Queue.pop q)
]

pub enqueue : FramePtr → Option Consumer → Option (Outcome (Option FrameQueue) Bool)
enqueue frame c = elim (queue_of c) [
  | none ↦ some (returns false [] none)
  | some q ↦ Option.map (outcome_map some) (Queue.push frame q)
]

pub len : Option Consumer → ℕ
len c = elim (queue_of c) [ none ↦ 0 | some q ↦ Queue.len q ]

pub close : Option Consumer → List ℕ × Option FrameQueue
close c = elim (queue_of c) [
  | none ↦ ([], none)
  | some q ↦ let (out, q') = Queue.close q in (out, some q')
]
