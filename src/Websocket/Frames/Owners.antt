-- ===== src/Websocket/Frames/Owners.antt =====
-- Who holds the references of a frame (libs/shared/websocket/frame.go): the queues of the consumers, once
-- for each place that the frame takes there, and others, as many as `w` says.
use go_hft.Prelude.{
  ℕ, ◌+◌, ◌-◌, ◌^◌, ◌≤◌, ◌<◌, ◌≡◌, refl, ap, List, [], ◌∷◌, ◌==◌, if◌then◌else◌, ◌&&◌, All, All-map,
  Lacks, arith, Bool-cases, ◌⊎◌, inl, inr,
}
use native.Mathlib.Decide.{dec_le}
use go_hft.Websocket.Queue.{FrameQueue}
use go_hft.Websocket.Queue.Fifo.{frames}
use go_hft.Websocket.Queue.View.{view, IsValid}
use go_hft.Websocket.Frames.{Net, recycle, minus_one, release}

abbrev pub one : ℕ → ℕ → ℕ
one f g = if f == g then 1 else 0

abbrev pub occurrences : ℕ → List ℕ → ℕ
occurrences g [] = 0
occurrences g (f ∷ fs) = one f g + occurrences g fs

-- The places that a frame takes in a queue, and in all of them.
unfoldable pub held : ℕ → FrameQueue → ℕ
held g q = occurrences g (frames (view q))

unfoldable pub held_by : ℕ → List FrameQueue → ℕ
unfolding held
held_by g [] = 0
held_by g (q ∷ qs) = held g q + held_by g qs

abbrev pub Distinct : List ℕ → Type 0
Distinct [] = Unit
Distinct (f ∷ fs) = Lacks f fs × Distinct fs

-- A frame has no reference and is no new one.
abbrev pub Idle : Net → ℕ → Type 0
Idle net g = ((net.frames g).ref ≡ 0) × (g < net.fresh)

-- Every reference has its holder; the frames in the pool have none, and each is there once.
pub record IsOwned (w : ℕ → ℕ) (net : Net) : Type 0 where
  pub counts : (g : ℕ) → (net.frames g).ref ≡ w g + held_by g net.consumers
  pub small : (g : ℕ) → (net.frames g).ref < 2 ^ 32
  pub idle : All (Idle net) net.pool
  pub once : Distinct net.pool
  pub unborn : (g : ℕ) → net.fresh ≤ g → (net.frames g).ref ≡ 0
  pub valid : All IsValid net.consumers

-- One holder more.
abbrev pub plus : (ℕ → ℕ) → ℕ → ℕ → ℕ
plus w f g = w g + one f g

minus_one_lem : (n : ℕ) → 0 < n → n < 2 ^ 32 → minus_one n ≡ n - 1
minus_one_lem n h k = ground arith

release-ref :
    (f g : ℕ) (net : Net)
    → ((release f net).frames g).ref
      ≡ (if g == f then minus_one (net.frames f).ref else (net.frames g).ref)
unfolding release recycle
release-ref f g net = ground arith

release-consumers : (f : ℕ) (net : Net) → (release f net).consumers ≡ net.consumers
unfolding release recycle
release-consumers f net = ground arith

release-fresh : (f : ℕ) (net : Net) → (release f net).fresh ≡ net.fresh
unfolding release recycle
release-fresh f net = ground arith

-- The pool keeps what it has, and takes the frame only when its last reference is gone.
release-pool :
    (f : ℕ) (net : Net)
    → ((release f net).pool ≡ net.pool)
      ⊎ (((release f net).pool ≡ f ∷ net.pool) × (minus_one (net.frames f).ref ≡ 0))
unfolding release recycle
release-pool f net =
    elim (Bool-cases (minus_one (net.frames f).ref == 0 && (net.frames f).pooled)) [
      | inl h ↦ inr (rw (h) refl, ground arith)
      | inr h ↦ inl (rw (h) refl)
    ]

release-ref_one :
    (f : ℕ) (net : Net)
    → 0 < (net.frames f).ref
    → (net.frames f).ref < 2 ^ 32
    → (g : ℕ) → ((release f net).frames g).ref + one f g ≡ (net.frames g).ref
release-ref_one f net h k g =
    let r = release-ref f g net in
    let left = minus_one_lem (net.frames f).ref h k in
    elim (Bool-cases (g == f)) [
      | inl e ↦
          let same : g ≡ f = ground arith in
          let ref : (net.frames g).ref ≡ (net.frames f).ref = ap (λ g. (net.frames g).ref) same in
          ground arith
      | inr e ↦ ground arith
    ]

-- A frame with a reference is no new one, and is not in the pool.
pub born : (w : ℕ → ℕ) (f : ℕ) (net : Net) → IsOwned w net → 0 < (net.frames f).ref → f < net.fresh
born w f net o h = elim (dec_le net.fresh f) [
  | yes p ↦ let e = o.unborn f p in absurd (omega arith)
  | no p ↦ omega arith
]

pub not_pooled :
    (w : ℕ → ℕ) (f : ℕ) (net : Net) → IsOwned w net → 0 < (net.frames f).ref → Lacks f net.pool
not_pooled w f net o h =
    All-map net.pool
      (λ g i e.
        let ref : (net.frames g).ref ≡ (net.frames f).ref = ap (λ g. (net.frames g).ref) e in
        let z = i.0 in absurd (omega arith))
      o.idle

-- A holder releases its reference.
pub release-IsOwned :
    (w : ℕ → ℕ) (f : ℕ) (net : Net) → IsOwned (plus w f) net → IsOwned w (release f net)
release-IsOwned w f net o =
    let counted = o.counts f in
    let self : one f f ≡ 1 = ground arith in
    let positive : 0 < (net.frames f).ref = omega arith in
    let refs = release-ref_one f net positive (o.small f) in
    let left = minus_one_lem (net.frames f).ref positive (o.small f) in
    let news = release-fresh f net in
    let below = born (plus w f) f net o positive in
    let idle : All (Idle (release f net)) net.pool =
      All-map net.pool (λ g i. let r = refs g in let (z, b) = i in (omega arith, omega arith))
        o.idle in
    let ref = refs f in
    let cases = release-pool f net in
    record {
      counts = λ g.
          let r = refs g in
          let c = o.counts g in
          let e : held_by g (release f net).consumers ≡ held_by g net.consumers =
            ap (held_by g) (release-consumers f net) in
          omega arith;
      small = λ g. let r = refs g in let s = o.small g in omega arith;
      idle = elim cases [
        | inl e ↦ rw (e) idle
        | inr (e, z) ↦ rw (e) ((omega arith, omega arith), idle)
      ];
      once = elim cases [
        | inl e ↦ rw (e) o.once
        | inr (e, z) ↦ rw (e) (not_pooled (plus w f) f net o positive, o.once)
      ];
      unborn = λ g h. let r = refs g in let u = o.unborn g (omega arith) in omega arith;
      valid = rw (release-consumers f net) o.valid;
    }

-- The holders only need to be counted.
pub same-IsOwned :
    (w w' : ℕ → ℕ) (net : Net) → ((g : ℕ) → w g ≡ w' g) → IsOwned w net → IsOwned w' net
same-IsOwned w w' net h o = record {
  counts = λ g. let e = h g in let c = o.counts g in omega arith;
  small = o.small;
  idle = o.idle;
  once = o.once;
  unborn = o.unborn;
  valid = o.valid;
}
