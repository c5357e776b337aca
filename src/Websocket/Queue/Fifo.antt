-- ===== src/Websocket/Queue/Fifo.antt =====
-- What a frame queue promises (libs/shared/websocket/consumer.go): a bounded first-in first-out list
-- with an overflow policy, and no ring. It does not model code; the ring is proved against it.
use go_hft.Prelude.{ℕ, Bool, true, false, Option, none, some, List, [], ◌∷◌, ◌++◌, ltb, length}
use go_hft.Websocket.Types.{
  OverflowPolicy, overflow_block, overflow_drop_newest, overflow_drop_oldest,
}
use go_hft.Websocket.Queue.{FramePtr, Outcome, returns, waits, release}

-- A full list drops its oldest entry to make room.
abbrev pub drop_oldest : FramePtr → List FramePtr → Outcome (List FramePtr) Bool
drop_oldest frame [] = returns true [] (frame ∷ [])
drop_oldest frame (old ∷ items) = returns true (release old) (items ++ frame ∷ [])

unfoldable pub push :
    OverflowPolicy → Bool → ℕ → FramePtr → List FramePtr → Outcome (List FramePtr) Bool
push policy true cap frame items = returns false [] items
push policy false cap frame items = elim (ltb (length items) cap) [
  | true ↦ returns true [] (items ++ frame ∷ [])
  | false ↦ elim policy [
    | overflow_block ↦ waits items
    | overflow_drop_newest ↦ returns false [] items
    | overflow_drop_oldest ↦ drop_oldest frame items
  ]
]

unfoldable pub pop : Bool → List FramePtr → Outcome (List FramePtr) (Option FramePtr)
pop closed (frame ∷ items) = returns (some frame) [] items
pop true [] = returns none [] []
pop false [] = waits []

-- The frames of a list of pointers, nil left out.
unfoldable pub frames : List FramePtr → List ℕ
frames [] = []
frames (p ∷ ps) = release p ++ frames ps

abbrev pub outcome_map : {S T R : Type 0} → (S → T) → Outcome S R → Outcome T R
outcome_map f (returns r out s) = returns r out (f s)
outcome_map f (waits s) = waits (f s)

abbrev pub state : {S R : Type 0} → Outcome S R → S
state (returns r out s) = s
state (waits s) = s
