-- ===== src/Websocket/Queue.antt =====
-- libs/shared/websocket/consumer.go: the bounded ring buffer of frames behind a consumer.
-- A `*Frame` is an optional address; nil is `none`. Each call runs under the queue's mutex, so it is
-- one step; a call that parks on a condition variable is the outcome `waits`, with the state in
-- which it parks. What `Release` is called on is listed in order. Reading outside `buf` would panic:
-- such a step is `none`, as is a loop whose fuel runs out.
pub mod View
pub mod Fifo
pub mod Steps
pub mod Refine
pub mod Close
pub mod Consumer
use go_hft.Prelude.{
  ℕ, zero, suc, ◌+◌, ◌-◌, ◌%◌, Bool, true, false, Option, none, some, List, [], ◌∷◌, ◌++◌, ltb, leb,
  ◌==◌, if◌then◌else◌, length, get_elem?, set, replicate,
}
use go_hft.Websocket.Types.{
  OverflowPolicy, overflow_block, overflow_drop_newest, overflow_drop_oldest,
}

abbrev pub FramePtr : Type 0
FramePtr = Option ℕ

pub record FrameQueue : Type 0 where
  pub buf : List FramePtr
  pub head : ℕ
  pub tail : ℕ
  pub size : ℕ
  pub closed : Bool
  pub policy : OverflowPolicy

-- What a call does: it returns a value, having released some frames, or it parks.
pub data Outcome (S R : Type 0) : Type 0 where
  returns : R → List ℕ → S → Outcome S R
  waits : S → Outcome S R

-- A capacity that is not positive (0 here: an `int` below it reads the same) becomes 1.
pub new_frame_queue : ℕ → OverflowPolicy → FrameQueue
new_frame_queue capacity policy =
    let n = if capacity == 0 then 1 else capacity in
    record { buf = replicate n none; head = 0; tail = 0; size = 0; closed = false; policy = policy }

-- `if old != nil { old.Release() }`
abbrev pub release : FramePtr → List ℕ
release none = []
release (some f) = f ∷ []

-- `buf[tail] = frame; tail = (tail + 1) % len(buf); size++`
pub put : FramePtr → FrameQueue → FrameQueue
put frame q = record q {
  buf = set q.buf q.tail frame;
  tail = (q.tail + 1) % length q.buf;
  size = q.size + 1;
}

-- `buf[head] = nil; head = (head + 1) % len(buf); size--`
pub advance : FrameQueue → FrameQueue
advance q = record q {
  buf = set q.buf q.head none;
  head = (q.head + 1) % length q.buf;
  size = q.size - 1;
}

-- The loop of `Push`, with what it has released so far.
push_loop : ℕ → List ℕ → FramePtr → FrameQueue → Option (Outcome FrameQueue Bool)
push_loop zero out frame q = none
push_loop (suc fuel) out frame q = elim q.closed [
  | true ↦ some (returns false out q)
  | false ↦ elim (ltb q.size (length q.buf)) [
    | true ↦ some (returns true out (put frame q))
    | false ↦ elim q.policy [
      | overflow_block ↦ some (waits q)
      | overflow_drop_newest ↦ some (returns false out q)
      | overflow_drop_oldest ↦ elim (get_elem? q.buf q.head) [
        | none ↦ none
        | some old ↦ push_loop fuel (out ++ release old) frame (advance q)
      ]
    ]
  ]
]

-- Two rounds are enough: after one drop there is room.
pub push : FramePtr → FrameQueue → Option (Outcome FrameQueue Bool)
push frame q = push_loop 2 [] frame q

pub pop : FrameQueue → Option (Outcome FrameQueue (Option FramePtr))
pop q =
    if ltb 0 q.size
    then elim (get_elem? q.buf q.head) [
      | none ↦ none
      | some frame ↦ some (returns (some frame) [] (advance q))
    ]
    else if q.closed
    then some (returns none [] q)
    else some (waits q)

-- The loop of `Close` with `i` counting up, and `n` rounds left: it releases and clears each slot.
close_loop : ℕ → ℕ → List ℕ → FrameQueue → List ℕ × List FramePtr
close_loop zero i out q = (out, q.buf)
close_loop (suc n) i out q =
    let idx = (q.head + i) % length q.buf in
    elim (get_elem? q.buf idx) [
      | some (some f) ↦ close_loop n (i + 1) (out ++ f ∷ []) (record q { buf = set q.buf idx none })
      | _ ↦ close_loop n (i + 1) out q
    ]

pub close : FrameQueue → List ℕ × FrameQueue
close q =
    if q.closed
    then ([], q)
    else let (out, buf) = close_loop q.size 0 [] (record q { closed = true }) in
      (out, record q { buf = buf; head = 0; tail = 0; size = 0; closed = true })

pub len : FrameQueue → ℕ
len q = q.size
