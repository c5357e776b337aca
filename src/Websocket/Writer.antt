-- ===== src/Websocket/Writer.antt =====
-- libs/shared/websocket/writer.go: the bounded queue of outgoing frames. A frame is an address, nil is
-- `none`; a channel send that parks is the outcome `waits`. The contents of the frames, and Next, which
-- waits on a context, are left out.
pub mod Refine
use go_hft.Prelude.{
  ℕ, ◌+◌, Bool, true, false, Option, none, some, List, [], ◌∷◌, ◌++◌, ltb, ◌==◌, if◌then◌else◌,
  length,
}
use go_hft.Websocket.Types.{
  OverflowPolicy, overflow_block, overflow_drop_newest, overflow_drop_oldest,
}
use go_hft.Websocket.Queue.{FramePtr, Outcome, returns, waits, release}

pub record Writer : Type 0 where
  pub queue : List FramePtr
  pub capacity : ℕ
  pub policy : OverflowPolicy
  pub connected : Bool

-- A capacity that is not positive becomes 1.
unfoldable pub new_writer : ℕ → OverflowPolicy → Writer
new_writer capacity policy = record {
  queue = [];
  capacity = if capacity == 0 then 1 else capacity;
  policy = policy;
  connected = false;
}

unfoldable pub set_connected : Bool → Writer → Writer
set_connected connected w = record w { connected = connected }

-- The loop that drops the oldest frame until there is room, with what it has released so far; an empty
-- channel that takes nothing ends it.
unfoldable pub drop_loop : ℕ → FramePtr → List ℕ → List FramePtr → Bool × List ℕ × List FramePtr
drop_loop room frame out [] = if ltb 0 room then (true, out, frame ∷ []) else (false, out, [])
drop_loop room frame out (old ∷ queue) =
    let rest = drop_loop room frame (out ++ release old) queue in
    if ltb (length queue + 1) room then (true, out, old ∷ (queue ++ frame ∷ [])) else rest

unfoldable pub enqueue : FramePtr → Writer → Outcome Writer Bool
unfolding drop_loop
enqueue none w = returns false [] w
enqueue (some f) w = elim (w.connected) [
  | false ↦ returns false [] w
  | true ↦ elim (w.policy) [
    | overflow_drop_oldest ↦
        let (sent, out, queue) = drop_loop w.capacity (some f) [] w.queue in
        returns sent out (record w { queue = queue })
    | overflow_block ↦
        if ltb (length w.queue) w.capacity
        then returns true [] (record w { queue = w.queue ++ some f ∷ [] })
        else waits w
    | overflow_drop_newest ↦
        if ltb (length w.queue) w.capacity
        then returns true [] (record w { queue = w.queue ++ some f ∷ [] })
        else returns false [] w
  ]
]

-- `Drain`: what is released, in order.
unfoldable pub drain : Writer → List ℕ × Writer
drain w = (released w.queue, record w { queue = [] })
  where
    released : List FramePtr → List ℕ
    released [] = []
    released (p ∷ ps) = release p ++ released ps
