-- ===== src/Websocket/Queue/Refine.antt =====
-- The ring buffer of libs/shared/websocket/consumer.go against a bounded first-in first-out list.
use go_hft.Prelude.{
  ℕ, suc, ◌<◌, ◌≡◌, refl, ap, Bool, true, false, Option, none, some, List, [], ◌∷◌, arith, length,
  get_or, length-set, ltb, if◌then◌else◌, get_elem?-eq-get_or,
}
use go_hft.Websocket.Types.{overflow_block, overflow_drop_newest, overflow_drop_oldest}
use go_hft.Websocket.Queue.{
  FramePtr, FrameQueue, Outcome, returns, waits, release, push_loop, push, pop, put, advance,
}
use go_hft.Websocket.Queue.Fifo
use go_hft.Websocket.Queue.Fifo.{outcome_map, state}
use go_hft.Websocket.Queue.Steps.{
  put-IsValid, advance-IsValid, view-put, view-advance, put-Keeps, advance-Keeps, length-view,
  Keeps,
}
use go_hft.Websocket.Queue.View.{view, slots, IsValid}

-- One successful round of the loop.
push_loop-room :
    (fuel : ℕ) (out : List ℕ) (frame : FramePtr) (q : FrameQueue)
    → q.closed ≡ false
    → q.size < length q.buf
    → push_loop (suc fuel) out frame q ≡ some (returns true out (put frame q))
unfolding push_loop
push_loop-room fuel out frame q c h = ground arith

push_loop-drop :
    (fuel : ℕ) (frame : FramePtr) (q : FrameQueue)
    → IsValid q
    → q.closed ≡ false
    → q.policy ≡ overflow_drop_oldest
    → ltb q.size (length q.buf) ≡ false
    → push_loop (suc fuel) [] frame q
      ≡ push_loop fuel (release (get_or q.buf q.head none)) frame (advance q)
unfolding push_loop
push_loop-drop fuel frame q v c p h =
    ground (arith, get_elem?-eq-get_or q.buf q.head none v.head_in)

view-cons :
    (q : FrameQueue)
    → IsValid q
    → ltb q.size (length q.buf) ≡ false
    → view q ≡ get_or q.buf q.head none ∷ view (advance q)
view-cons q v h = let r = v.room in view-advance q v (ground arith)

-- The outcome of `Push`, branch by branch.
push_outcome : FramePtr → FrameQueue → Outcome FrameQueue Bool
push_outcome frame q =
    if q.closed
    then returns false [] q
    else if ltb q.size (length q.buf)
    then returns true [] (put frame q)
    else elim q.policy [
      | overflow_block ↦ waits q
      | overflow_drop_newest ↦ returns false [] q
      | overflow_drop_oldest ↦
          returns true (release (get_or q.buf q.head none)) (put frame (advance q))
    ]

advance-room :
    (q : FrameQueue)
    → IsValid q
    → ltb q.size (length q.buf) ≡ false
    → (advance q).size < length (advance q).buf
unfolding advance
advance-room q v h =
    let l = length-set q.buf q.head none in let r = v.room in let f = v.fits in rw l (ground arith)

advance-closed : (q : FrameQueue) → (advance q).closed ≡ q.closed
unfolding advance
advance-closed q = refl

push-outcome :
    (frame : FramePtr) (q : FrameQueue) → IsValid q → push frame q ≡ some (push_outcome frame q)
unfolding push push_outcome push_loop
push-outcome frame q v =
    let old = get_or q.buf q.head none in
    ground (
      arith,
      get_elem?-eq-get_or q.buf q.head none v.head_in,
      push_loop-room 0 (release old) frame (advance q),
      advance-room q v,
      advance-closed q,
    )

push_outcome-view :
    (frame : FramePtr) (q : FrameQueue)
    → IsValid q
    → outcome_map view (push_outcome frame q)
      ≡ Fifo.push q.policy q.closed (length q.buf) frame (view q)
unfolding push_outcome Fifo.push
push_outcome-view frame q v = ground (
  arith,
  length-view q,
  view-put frame q v,
  view-cons q v,
  advance-IsValid q v,
  v.room,
  view-put frame (advance q),
  advance-room q v,
)

push_outcome-IsValid :
    (frame : FramePtr) (q : FrameQueue) → IsValid q → IsValid (state (push_outcome frame q))
unfolding push_outcome
push_outcome-IsValid frame q v = ground (
  arith,
  put-IsValid frame q v,
  advance-IsValid q v,
  v.room,
  put-IsValid frame (advance q),
  advance-room q v,
  advance-closed q,
)

push_outcome-Keeps : (frame : FramePtr) (q : FrameQueue) → Keeps q (state (push_outcome frame q))
unfolding push_outcome
push_outcome-Keeps frame q =
    ground (arith, put-Keeps frame q, advance-Keeps q, put-Keeps frame (advance q))

-- `Push` returns or parks, within the two rounds that its loop is given, and does to the frames
-- held what the bounded list does: accept, park, refuse, or drop the oldest. The ring stays valid,
-- and keeps its capacity, its policy and whether it is closed.
pub push-refines :
    (frame : FramePtr) (q : FrameQueue)
    → IsValid q
    → (o : Outcome FrameQueue Bool) × (push frame q ≡ some o)
      × (outcome_map view o ≡ Fifo.push q.policy q.closed (length q.buf) frame (view q))
      × IsValid (state o)
      × Keeps q (state o)
push-refines frame q v = (
  push_outcome frame q,
  push-outcome frame q v,
  push_outcome-view frame q v,
  push_outcome-IsValid frame q v,
  push_outcome-Keeps frame q,
)

pop_outcome : FrameQueue → Outcome FrameQueue (Option FramePtr)
pop_outcome q =
    if ltb 0 q.size
    then returns (some (get_or q.buf q.head none)) [] (advance q)
    else if q.closed
    then returns none [] q
    else waits q

pop-outcome : (q : FrameQueue) → IsValid q → pop q ≡ some (pop_outcome q)
unfolding pop pop_outcome
pop-outcome q v = ground (arith, get_elem?-eq-get_or q.buf q.head none v.head_in)

view-nil : (q : FrameQueue) → q.size ≡ 0 → view q ≡ []
unfolding view slots
view-nil q h = ap (slots q.buf q.head) h

pop_outcome-view :
    (q : FrameQueue) → IsValid q → outcome_map view (pop_outcome q) ≡ Fifo.pop q.closed (view q)
unfolding pop_outcome Fifo.pop
pop_outcome-view q v = ground (arith, view-advance q v, view-nil q)

pop_outcome-IsValid : (q : FrameQueue) → IsValid q → IsValid (state (pop_outcome q))
unfolding pop_outcome
pop_outcome-IsValid q v = ground (arith, advance-IsValid q v)

pop_outcome-Keeps : (q : FrameQueue) → Keeps q (state (pop_outcome q))
unfolding pop_outcome
pop_outcome-Keeps q = ground (arith, advance-Keeps q)

-- `Pop` returns or parks, and takes the oldest frame held; on an empty queue it parks, or reports
-- the end once the queue is closed. The ring stays valid, and keeps its capacity, its policy and
-- whether it is closed.
pub pop-refines :
    (q : FrameQueue)
    → IsValid q
    → (o : Outcome FrameQueue (Option FramePtr)) × (pop q ≡ some o)
      × (outcome_map view o ≡ Fifo.pop q.closed (view q))
      × IsValid (state o)
      × Keeps q (state o)
pop-refines q v = (
  pop_outcome q,
  pop-outcome q v,
  pop_outcome-view q v,
  pop_outcome-IsValid q v,
  pop_outcome-Keeps q,
)
