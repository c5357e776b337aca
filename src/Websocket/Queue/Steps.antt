-- ===== src/Websocket/Queue/Steps.antt =====
-- One write into the ring and one removal from it (libs/shared/websocket/consumer.go, frameQueue):
-- the invariant, and what they do to the frames held.
use go_hft.Prelude.{
  ℕ, suc, ◌+◌, ◌-◌, ◌%◌, ◌<◌, ◌≡◌, refl, ap, ◌∙◌, Bool, true, false, none, [], ◌∷◌, ◌++◌, arith,
  length, get_or, length-set,
}
use native.Mathlib.Nat.{mod-eq_of_lt, mod-lt, mod-add-mod, add_assoc}
use native.Mathlib.Numerals.{add-one}
use go_hft.Websocket.Queue.{FramePtr, FrameQueue, put, advance}
use go_hft.Websocket.Queue.View.{
  view, slots, IsValid, EmptyIf, slots-put, slots-advance, length-slots,
}

EmptyIf-pred : (b : Bool) (n : ℕ) → EmptyIf b n → EmptyIf b (n - 1)
EmptyIf-pred true n h = omega arith
EmptyIf-pred false n h = tt

mod-mod-add : (a b l : ℕ) → 0 < l → (a % l + b) % l ≡ (a + b) % l
mod-mod-add a b l h = grind (arith, mod-add-mod)

pub put-IsValid :
    (frame : FramePtr) (q : FrameQueue)
    → IsValid q
    → q.closed ≡ false
    → q.size < length q.buf
    → IsValid (put frame q)
unfolding put
put-IsValid frame q v c h =
    let l = length-set q.buf q.tail frame in
    record {
      room = rw l v.room;
      head_in = rw l v.head_in;
      fits = rw l (omega arith);
      tail_at = rw (
        l,
        v.tail_at,
        mod-mod-add (q.head + q.size) 1 (length q.buf) v.room,
        add_assoc q.head q.size 1,
      );
      drained = rw c tt;
    }

pub advance-IsValid : (q : FrameQueue) → IsValid q → 0 < q.size → IsValid (advance q)
unfolding advance
advance-IsValid q v h =
    let l = length-set q.buf q.head none in
    let e : q.head + 1 + (q.size - 1) ≡ q.head + q.size = omega arith in
    record {
      room = rw l v.room;
      head_in = rw l (mod-lt (q.head + 1) v.room);
      fits = rw l (omega arith);
      tail_at = rw (l, mod-mod-add (q.head + 1) (q.size - 1) (length q.buf) v.room, e) v.tail_at;
      drained = EmptyIf-pred q.closed q.size v.drained;
    }

pub view-put :
    (frame : FramePtr) (q : FrameQueue)
    → IsValid q
    → q.size < length q.buf
    → view (put frame q) ≡ view q ++ frame ∷ []
unfolding put view
view-put frame q v h =
    rw (v.tail_at, add-one q.size) (slots-put q.buf frame q.head q.size v.head_in h)

pub view-advance :
    (q : FrameQueue)
    → IsValid q
    → 0 < q.size
    → (view q ≡ get_or q.buf q.head none ∷ view (advance q))
unfolding advance view slots
view-advance q v h =
    let e : q.size ≡ suc (q.size - 1) = omega arith in
    rw (slots-advance q.buf q.head (q.size - 1) v.head_in (omega arith))
      (ap (slots q.buf q.head) e ∙ rw (mod-eq_of_lt v.head_in))

-- What a call leaves alone.
abbrev pub Keeps : FrameQueue → FrameQueue → Type 0
Keeps q q' = (length q'.buf ≡ length q.buf) × (q'.closed ≡ q.closed) × (q'.policy ≡ q.policy)

pub put-Keeps : (frame : FramePtr) (q : FrameQueue) → Keeps q (put frame q)
unfolding put
put-Keeps frame q = (length-set q.buf q.tail frame, refl, refl)

pub advance-Keeps : (q : FrameQueue) → Keeps q (advance q)
unfolding advance
advance-Keeps q = (length-set q.buf q.head none, refl, refl)

pub length-view : (q : FrameQueue) → length (view q) ≡ q.size
unfolding view
length-view q = length-slots q.buf q.head q.size
