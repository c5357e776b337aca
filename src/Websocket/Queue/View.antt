-- ===== src/Websocket/Queue/View.antt =====
-- The frames that a ring buffer holds, oldest first, and the invariant of the ring
-- (libs/shared/websocket/consumer.go, frameQueue).
use go_hft.Prelude.{
  ℕ, zero, suc, ◌+◌, ◌%◌, ◌/◌, ◌≤◌, ◌<◌, ◌≡◌, ◌≢◌, refl, ap, sym, ◌∙◌, Bool, true, false, none,
  List, [], ◌∷◌, ◌++◌, arith, length, get_or, set, length-set, get_or-set_self, get_or-set_ne,
}
use native.Mathlib.Decide.{dec_lt, dec_le}
use native.Mathlib.Nat.{mod-eq_of_lt, mod-lt, div-add-mod, mul-le-mul_left, add-zero}
use go_hft.Websocket.Queue.{FramePtr, FrameQueue}

-- The `n` slots from position `k` on, read round the ring.
unfoldable pub slots : List FramePtr → ℕ → ℕ → List FramePtr
slots buf k zero = []
slots buf k (suc n) = get_or buf (k % length buf) none ∷ slots buf (k + 1) n

unfoldable pub view : FrameQueue → List FramePtr
view q = slots q.buf q.head q.size

-- A closed queue is empty.
abbrev pub EmptyIf : Bool → ℕ → Type 0
EmptyIf true n = n ≡ 0
EmptyIf false n = Unit

pub record IsValid (q : FrameQueue) : Type 0 where
  pub room : 0 < length q.buf
  pub head_in : q.head < length q.buf
  pub fits : q.size ≤ length q.buf
  pub tail_at : q.tail ≡ (q.head + q.size) % length q.buf
  pub drained : EmptyIf q.closed q.size

-- `(k + l) % l` by subtraction.
pub mod-add_self : (k l : ℕ) → 0 < l → (k + l) % l ≡ k % l
mod-add_self k l h = grind arith

pub mod-ne : (k m l : ℕ) → k < m → m < k + l → k % l ≢ m % l
mod-ne k m l h g e =
    let x = div-add-mod k l in
    let y = div-add-mod m l in
    elim (dec_le (m / l) (k / l)) [
      | yes p ↦ let z = mul-le-mul_left l p in absurd (omega arith)
      | no p ↦
          let p' : k / l + 1 ≤ m / l = omega arith in
          let z = mul-le-mul_left l p' in absurd (omega arith)
    ]

pub length-slots : (buf : List FramePtr) (k n : ℕ) → length (slots buf k n) ≡ n
unfolding slots
length-slots buf k zero = refl
length-slots buf k (suc n) = ap suc (length-slots buf (k + 1) n)

pub slots-add_length :
    (buf : List FramePtr) (k n : ℕ) → 0 < length buf → slots buf (k + length buf) n ≡ slots buf k n
unfolding slots
slots-add_length buf k zero h = refl
slots-add_length buf k (suc n) h = rw (
  mod-add_self k (length buf) h,
  let e : k + length buf + 1 ≡ k + 1 + length buf = omega arith in e,
  slots-add_length buf (k + 1) n h,
)

pub slots-set :
    (buf : List FramePtr) (v : FramePtr) (m k n : ℕ)
    → k + n ≤ m
    → m < k + length buf
    → slots (set buf (m % length buf) v) k n ≡ slots buf k n
unfolding slots
slots-set buf v m k zero h g = refl
slots-set buf v m k (suc n) h g =
    let apart : m % length buf ≢ k % length buf =
      λ e. mod-ne k m (length buf) (omega arith) g (sym e) in
    rw (
      length-set buf (m % length buf) v,
      get_or-set_ne buf v none apart,
      slots-set buf v m (k + 1) n (omega arith) (omega arith),
    )

pub slots-snoc :
    (buf : List FramePtr) (k n : ℕ)
    → slots buf k (suc n) ≡ slots buf k n ++ get_or buf ((k + n) % length buf) none ∷ []
unfolding slots
slots-snoc buf k zero = rw (add-zero k)
slots-snoc buf k (suc n) =
    let e : k + suc n ≡ k + 1 + n = omega arith in rw (e, slots-snoc buf (k + 1) n)

-- The slot behind the last one, written, is the new last one.
pub slots-put :
    (buf : List FramePtr) (v : FramePtr) (h n : ℕ)
    → h < length buf
    → n < length buf
    → slots (set buf ((h + n) % length buf) v) h (suc n) ≡ slots buf h n ++ v ∷ []
slots-put buf v h n hin room =
    let inside : (h + n) % length buf < length buf = mod-lt (h + n) (omega arith) in
    rw (
      slots-snoc (set buf ((h + n) % length buf) v) h n,
      length-set buf ((h + n) % length buf) v,
      get_or-set_self buf ((h + n) % length buf) v none inside,
      slots-set buf v (h + n) h n (omega arith) (omega arith),
    )

pub slots-mod :
    (buf : List FramePtr) (k n : ℕ)
    → 0 < length buf
    → k < length buf + length buf
    → slots buf (k % length buf) n ≡ slots buf k n
slots-mod buf k n h f = elim (dec_lt k (length buf)) [
  | yes p ↦ rw (mod-eq_of_lt p)
  | no p ↦
      let e : k ≡ k % length buf + length buf = grind arith in
      sym (ap (λ j. slots buf j n) e ∙ slots-add_length buf (k % length buf) n h)
]

-- Behind a cleared head stand the frames that stood behind it.
pub slots-advance :
    (buf : List FramePtr) (h n : ℕ)
    → h < length buf
    → suc n ≤ length buf
    → slots (set buf h none) ((h + 1) % length buf) n ≡ slots buf (h + 1) n
slots-advance buf h n hin room =
    let e : (h + length buf) % length buf ≡ h =
      mod-add_self h (length buf) (omega arith) ∙ mod-eq_of_lt hin in
    let l = length-set buf h none in
    rw (← l) (
      slots-mod (set buf h none) (h + 1) n (omega arith) (omega arith)
      ∙ ap (λ j. slots (set buf j none) (h + 1) n) (sym e)
      ∙ slots-set buf none (h + length buf) (h + 1) n (omega arith) (omega arith))
