-- ===== src/Websocket/Router/Handover.antt =====
-- What a queue does with the references to frames when it is handed one
-- (libs/shared/websocket/consumer.go), as the router needs it.
use go_hft.Prelude.{
  ℕ, ◌+◌, ◌≡◌, refl, sym, subst, Bool, true, false, some, List, [], ◌∷◌, ◌++◌, ltb, length, arith,
}
use go_hft.Websocket.Types.{
  OverflowPolicy, overflow_block, overflow_drop_newest, overflow_drop_oldest,
}
use go_hft.Websocket.Queue
use go_hft.Websocket.Queue.{FramePtr, FrameQueue, Outcome, returns, waits, release}
use go_hft.Websocket.Queue.View.{view, IsValid}
use go_hft.Websocket.Queue.Fifo
use go_hft.Websocket.Queue.Fifo.{frames, outcome_map, state}
use go_hft.Websocket.Queue.Refine.{push-refines}
use go_hft.Websocket.Frames.Owners.{one, occurrences, held}

-- A frame that is accepted is there once more.
abbrev pub accepted : Bool → ℕ → ℕ → ℕ
accepted true f g = one f g
accepted false f g = 0

-- What is in the list and what it let go is what was there, with the frame that it has accepted.
abbrev Moves : ℕ → List FramePtr → Outcome (List FramePtr) Bool → Type 0
Moves f items (returns ok out items') =
    (g : ℕ)
    → occurrences g (frames items') + occurrences g out
      ≡ occurrences g (frames items) + accepted ok f g
Moves f items (waits items') =
    (g : ℕ) → occurrences g (frames items') ≡ occurrences g (frames items)

occurrences-append :
    (g : ℕ) (fs gs : List ℕ) → occurrences g (fs ++ gs) ≡ occurrences g fs + occurrences g gs
occurrences-append g [] gs = omega arith
occurrences-append g (f ∷ fs) gs = let e = occurrences-append g fs gs in omega arith

frames-snoc :
    (g f : ℕ) (items : List FramePtr)
    → occurrences g (frames (items ++ some f ∷ [])) ≡ occurrences g (frames items) + one f g
unfolding frames
frames-snoc g f [] = omega arith
frames-snoc g f (p ∷ items) =
    let e = frames-snoc g f items in
    let a = occurrences-append g (release p) (frames (items ++ some f ∷ [])) in
    let b = occurrences-append g (release p) (frames items) in omega arith

drop-Moves : (f : ℕ) (items : List FramePtr) → Moves f items (Fifo.drop_oldest (some f) items)
unfolding frames
drop-Moves f [] = λ g. omega arith
drop-Moves f (old ∷ items) = λ g.
    let e = frames-snoc g f items in
    let b = occurrences-append g (release old) (frames items) in omega arith

-- A full list, under each policy.
abbrev when_full : OverflowPolicy → ℕ → List FramePtr → Outcome (List FramePtr) Bool
when_full policy f items = elim policy [
  | overflow_block ↦ waits items
  | overflow_drop_newest ↦ returns false [] items
  | overflow_drop_oldest ↦ Fifo.drop_oldest (some f) items
]

when_full-Moves :
    (policy : OverflowPolicy) (f : ℕ) (items : List FramePtr)
    → Moves f items (when_full policy f items)
when_full-Moves overflow_block f items = λ g. refl
when_full-Moves overflow_drop_newest f items = λ g. omega arith
when_full-Moves overflow_drop_oldest f items = drop-Moves f items

push-Moves :
    (policy : OverflowPolicy) (closed : Bool) (n f : ℕ) (items : List FramePtr)
    → Moves f items (Fifo.push policy closed n (some f) items)
unfolding Fifo.push
push-Moves policy true n f items = λ g. omega arith
push-Moves policy false n f items =
    elim (ltb (length items) n)
      as (λ b. Moves f items (elim b as (λ _. Outcome (List FramePtr) Bool) [
        | true ↦ returns true [] (items ++ some f ∷ [])
        | false ↦ when_full policy f items
      ])) [
        | true ↦ λ g. let e = frames-snoc g f items in omega arith
        | false ↦ when_full-Moves policy f items
      ]

-- The same of the ring buffer, which stays valid.
abbrev pub Hands : ℕ → FrameQueue → Outcome FrameQueue Bool → Type 0
Hands f q (returns ok out q') =
    IsValid q' × ((g : ℕ) → held g q' + occurrences g out ≡ held g q + accepted ok f g)
Hands f q (waits q') = IsValid q' × ((g : ℕ) → held g q' ≡ held g q)

Moves-Hands :
    (f : ℕ) (q : FrameQueue) (o : Outcome FrameQueue Bool)
    → IsValid (state o)
    → Moves f (view q) (outcome_map view o)
    → Hands f q o
unfolding held
Moves-Hands f q (returns ok out q') v m = (v, m)
Moves-Hands f q (waits q') v m = (v, m)

-- `Push` comes to an end, and keeps account of the references.
pub push-Hands :
    (f : ℕ) (q : FrameQueue)
    → IsValid q
    → (o : Outcome FrameQueue Bool) × (Queue.push (some f) q ≡ some o) × Hands f q o
push-Hands f q v =
    let (o, e, m, v', k) = push-refines (some f) q v in
    let moves =
      subst (Moves f (view q)) (sym m) (push-Moves q.policy q.closed (length q.buf) f (view q)) in
    (o, e, Moves-Hands f q o v' moves)
