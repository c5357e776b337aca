-- ===== src/Websocket/Queue/Close.antt =====
-- Closing a frame queue (libs/shared/websocket/consumer.go, frameQueue.Close) against the frames
-- that it holds.
use go_hft.Prelude.{
  ℕ, zero, suc, ◌+◌, ◌%◌, ◌≤◌, ◌<◌, ◌≡◌, refl, ap, sym, subst, ◌∙◌, true, none, some, List, [],
  ◌++◌, arith, length, get_elem?, get_or, set, length-set, if◌then◌else◌, get_elem?-eq-get_or,
  append_assoc, append-nil, Bool-cases, inl, inr,
}
use native.Mathlib.Nat.{mod-lt, mod-eq_of_lt, add_assoc, add-zero}
use go_hft.Websocket.Queue.{FramePtr, FrameQueue, release, close_loop, close}
use go_hft.Websocket.Queue.Fifo.{frames}
use go_hft.Websocket.Queue.View.{view, slots, IsValid, EmptyIf, slots-set, mod-add_self}

-- A slot that is written falls out of those behind it.
slots-clear :
    (buf : List FramePtr) (k n : ℕ)
    → suc n ≤ length buf
    → slots (set buf (k % length buf) none) (k + 1) n ≡ slots buf (k + 1) n
slots-clear buf k n h =
    let e = mod-add_self k (length buf) (omega arith) in
    ap (λ j. slots (set buf j none) (k + 1) n) (sym e)
    ∙ slots-set buf none (k + length buf) (k + 1) n (omega arith) (omega arith)

-- What a round leaves of the queue.
cleared : FramePtr → ℕ → FrameQueue → FrameQueue
cleared none idx q = q
cleared (some f) idx q = record q { buf = set q.buf idx none }

close_loop-step :
    (n i : ℕ) (out : List ℕ) (q : FrameQueue) (p : FramePtr)
    → get_elem? q.buf ((q.head + i) % length q.buf) ≡ some p
    → close_loop (suc n) i out q
      ≡ close_loop n (i + 1) (out ++ release p) (cleared p ((q.head + i) % length q.buf) q)
unfolding close_loop cleared
close_loop-step n i out q none e = ground (arith, append-nil out)
close_loop-step n i out q (some f) e = ground arith

cleared-length : (p : FramePtr) (j : ℕ) (q : FrameQueue) → length (cleared p j q).buf ≡ length q.buf
unfolding cleared
cleared-length none j q = refl
cleared-length (some f) j q = length-set q.buf j none

cleared-head : (p : FramePtr) (j : ℕ) (q : FrameQueue) → (cleared p j q).head ≡ q.head
unfolding cleared
cleared-head none j q = refl
cleared-head (some f) j q = refl

cleared-slots :
    (p : FramePtr) (k n : ℕ) (q : FrameQueue)
    → suc n ≤ length q.buf
    → slots (cleared p (k % length q.buf) q).buf (k + 1) n ≡ slots q.buf (k + 1) n
unfolding cleared
cleared-slots none k n q h = refl
cleared-slots (some f) k n q h = slots-clear q.buf k n h

-- The loop releases the frames of the slots left, in order, and keeps the length of the buffer.
close_loop_lem :
    (n i : ℕ) (out : List ℕ) (q : FrameQueue)
    → n ≤ length q.buf
    → 0 < length q.buf
    → ((close_loop n i out q).0 ≡ out ++ frames (slots q.buf (q.head + i) n))
      × (length (close_loop n i out q).1 ≡ length q.buf)
unfolding frames slots
close_loop_lem zero i out q h r = unfold close_loop in (sym (append-nil out), refl)
close_loop_lem (suc n) i out q h r =
    let k = q.head + i in
    let j = k % length q.buf in
    let p = get_or q.buf j none in
    let q' = cleared p j q in
    let e = get_elem?-eq-get_or q.buf j none (mod-lt k r) in
    let l = cleared-length p j q in
    let ih = close_loop_lem n (i + 1) (out ++ release p) q' (omega (arith)) (omega arith) in
    let here : frames (slots q'.buf (q'.head + (i + 1)) n) ≡ frames (slots q.buf (k + 1) n) =
      ap frames (
        ap (λ t. slots q'.buf t n)
          (ap (λ t. t + (i + 1)) (cleared-head p j q) ∙ sym (add_assoc q.head i 1))
        ∙ cleared-slots p k n q h) in
    let step = close_loop-step n i out q p e in
    (
      ap (λ t. t.0) step
          ∙ ih.0
          ∙ ap (λ t. (out ++ release p) ++ t) here
          ∙ append_assoc out (release p) _,
      ap (λ t. length t.1) step ∙ ih.1 ∙ l,
    )

-- What closing makes of a queue.
emptied : FrameQueue → List ℕ × FrameQueue
emptied q =
    let (out, buf) = close_loop q.size 0 [] (record q { closed = true }) in
    (out, record q { buf = buf; head = 0; tail = 0; size = 0; closed = true })

close-eq : (q : FrameQueue) → close q ≡ (if q.closed then ([], q) else emptied q)
unfolding close emptied
close-eq q = refl

abbrev pub Closes : FrameQueue → List ℕ × FrameQueue → Type 0
Closes q r =
    (r.0 ≡ frames (view q))
    × (view r.1 ≡ [])
    × IsValid r.1
    × (r.1.closed ≡ true)
    × (length r.1.buf ≡ length q.buf)

Closes-self : (q : FrameQueue) → IsValid q → q.closed ≡ true → Closes q ([], q)
unfolding view slots frames
Closes-self q v c =
    let d : q.size ≡ 0 = subst (λ b. EmptyIf b q.size) c v.drained in
    (sym (ap (λ n. frames (slots q.buf q.head n)) d), ap (slots q.buf q.head) d, v, c, refl)

Closes-emptied : (q : FrameQueue) → IsValid q → Closes q (emptied q)
unfolding emptied view slots frames
Closes-emptied q v =
    let l = close_loop_lem q.size 0 [] (record q { closed = true }) v.fits v.room in
    let valid : IsValid (emptied q).1 = record {
      room = rw l.1 v.room;
      head_in = rw l.1 v.room;
      fits = omega arith;
      tail_at = sym (mod-eq_of_lt (rw l.1 v.room));
      drained = refl;
    } in
    (l.0 ∙ ap (λ k. frames (slots q.buf k q.size)) (add-zero q.head), refl, valid, refl, l.1)

-- `Close` releases the frames held, each once, oldest first, and leaves a valid empty queue that is
-- closed and has its capacity. On a closed queue, which is empty, it releases nothing.
pub close_releases : (q : FrameQueue) → IsValid q → Closes q (close q)
close_releases q v = elim (Bool-cases q.closed) [
  | inl c ↦
      subst (Closes q) (sym (close-eq q ∙ ap (λ b. if b then ([], q) else emptied q) c))
        (Closes-self q v c)
  | inr c ↦
      subst (Closes q) (sym (close-eq q ∙ ap (λ b. if b then ([], q) else emptied q) c))
        (Closes-emptied q v)
]
