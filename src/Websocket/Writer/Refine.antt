-- ===== src/Websocket/Writer/Refine.antt =====
-- The outgoing queue of libs/shared/websocket/writer.go against the bounded list that the queue of a
-- consumer is proved against.
use go_hft.Prelude.{
  ℕ, ◌≤◌, ◌<◌, ◌≡◌, refl, Bool, true, false, not, some, List, [], ◌∷◌, arith, length,
}
use go_hft.Websocket.Types.{
  OverflowPolicy, overflow_block, overflow_drop_newest, overflow_drop_oldest,
}
use go_hft.Websocket.Queue.{FramePtr, Outcome}
use go_hft.Websocket.Queue.Fifo as Fifo
use go_hft.Websocket.Writer.{Writer, drop_loop, enqueue}

-- One round of the loop is enough on a queue that is no longer than it may be.
drop_loop_lem :
    (room f : ℕ) (queue : List FramePtr)
    → 0 < room
    → length queue ≤ room
    → Outcome.returns
        (drop_loop room (some f) [] queue).0
        (drop_loop room (some f) [] queue).1
        (drop_loop room (some f) [] queue).2
      ≡ Fifo.push overflow_drop_oldest false room (some f) queue
unfolding drop_loop Fifo.push
drop_loop_lem room f [] h l = ground arith
drop_loop_lem room f (old ∷ []) h l = ground arith
drop_loop_lem room f (old ∷ next ∷ queue) h l = ground arith

enqueue_fields :
    (f : ℕ) (queue : List FramePtr) (room : ℕ) (policy : OverflowPolicy) (connected : Bool)
    → 0 < room
    → length queue ≤ room
    → Fifo.outcome_map
        (λ v. v.queue)
        (enqueue
          (some f)
          (record { queue = queue; capacity = room; policy = policy; connected = connected }))
      ≡ Fifo.push policy (not connected) room (some f) queue
unfolding enqueue Fifo.push
enqueue_fields f queue room overflow_block false h l = refl
enqueue_fields f queue room overflow_drop_newest false h l = refl
enqueue_fields f queue room overflow_drop_oldest false h l = refl
enqueue_fields f queue room overflow_block true h l = ground arith
enqueue_fields f queue room overflow_drop_newest true h l = ground arith
enqueue_fields f queue room overflow_drop_oldest true h l = drop_loop_lem room f queue h l

-- A writer whose queue is no longer than its capacity, which is positive, does with a frame what the
-- bounded list does under its policy, where a list that is closed stands for a writer that is not
-- connected.
pub enqueue-refines :
    (f : ℕ) (w : Writer)
    → 0 < w.capacity
    → length w.queue ≤ w.capacity
    → Fifo.outcome_map (λ v. v.queue) (enqueue (some f) w)
      ≡ Fifo.push w.policy (not w.connected) w.capacity (some f) w.queue
enqueue-refines f w h l = enqueue_fields f w.queue w.capacity w.policy w.connected h l
