-- ===== src/Websocket/Frames/Pool.antt =====
-- A frame that the pool hands out (libs/shared/websocket/frame.go, framePool.New).
use go_hft.Prelude.{
  ℕ, zero, suc, ◌+◌, ◌≤◌, ◌<◌, ◌≡◌, ◌≢◌, refl, ap, true, Option, none, some, List, [], ◌∷◌, ◌==◌,
  get_elem?, All, All-map, Lacks, arith, Bool-cases, Option-cases, inl, inr, Bytes, subst, sym,
}
use go_hft.Websocket.Queue.View.{IsValid}
use go_hft.Websocket.Frames.{Frame, Net, write, remove_at, take_frame, new_frame}
use go_hft.Websocket.Frames.Owners.{IsOwned, Idle, Distinct, plus, one, held_by}

remove_at-All : (P : ℕ → Type 0) (i : ℕ) (fs : List ℕ) → All P fs → All P (remove_at i fs)
remove_at-All P i [] h = tt
remove_at-All P zero (f ∷ fs) (p, ps) = ps
remove_at-All P (suc i) (f ∷ fs) (p, ps) = (p, remove_at-All P i fs ps)

remove_at-Distinct : (i : ℕ) (fs : List ℕ) → Distinct fs → Distinct (remove_at i fs)
remove_at-Distinct i [] h = tt
remove_at-Distinct zero (f ∷ fs) (p, ps) = ps
remove_at-Distinct (suc i) (f ∷ fs) (p, ps) = (remove_at-All _ i fs p, remove_at-Distinct i fs ps)

elem-All : (P : ℕ → Type 0) (i : ℕ) (fs : List ℕ) (f : ℕ) → get_elem? fs i ≡ some f → All P fs → P f
elem-All P i [] f e h = cc
elem-All P zero (g ∷ fs) f e (p, ps) = let same : g ≡ f = cc in subst P same p
elem-All P (suc i) (g ∷ fs) f e (p, ps) = elem-All P i fs f e ps

-- What is removed is not there any more.
remove_at-Lacks :
    (i : ℕ) (fs : List ℕ) (f : ℕ) → get_elem? fs i ≡ some f → Distinct fs → Lacks f (remove_at i fs)
remove_at-Lacks i [] f e h = tt
remove_at-Lacks zero (g ∷ fs) f e (p, ps) = let same : g ≡ f = cc in subst (λ f. Lacks f fs) same p
remove_at-Lacks (suc i) (g ∷ fs) f e (p, ps) =
    (λ k. elem-All (λ b. b ≢ g) i fs f e p (sym k), remove_at-Lacks i fs f e ps)

-- The frame that is taken has no reference, is not in the pool any more and is no new one any more.
record Takes (w : ℕ → ℕ) (net : Net) (f : ℕ) (net' : Net) : Type 0 where
  frames : net'.frames ≡ net.frames
  consumers : net'.consumers ≡ net.consumers
  ref : (net.frames f).ref ≡ 0
  out : Lacks f net'.pool
  idle : All (Idle net) net'.pool
  once : Distinct net'.pool
  below : f < net'.fresh
  grown : net.fresh ≤ net'.fresh

fresh-Takes :
    (w : ℕ → ℕ) (net : Net)
    → IsOwned w net
    → Takes w net net.fresh (record net { fresh = net.fresh + 1 })
fresh-Takes w net o = record {
  frames = refl;
  consumers = refl;
  ref = o.unborn net.fresh (omega arith);
  out = All-map net.pool (λ g i e. let b = i.1 in absurd (omega arith)) o.idle;
  idle = o.idle;
  once = o.once;
  below = omega arith;
  grown = omega arith;
}

take_frame-Takes :
    (w : ℕ → ℕ) (pick : Option ℕ) (net : Net)
    → IsOwned w net
    → Takes w net (take_frame pick net).0 (take_frame pick net).1
take_frame-Takes w none net o = fresh-Takes w net o
take_frame-Takes w (some i) net o = elim (Option-cases (get_elem? net.pool i)) [
  | inl e ↦ rw (e) (fresh-Takes w net o)
  | inr (f, e) ↦ rw (e) (record {
    frames = refl;
    consumers = refl;
    ref = (elem-All (Idle net) i net.pool f e o.idle).0;
    out = remove_at-Lacks i net.pool f e o.once;
    idle = remove_at-All (Idle net) i net.pool o.idle;
    once = remove_at-Distinct i net.pool o.once;
    below = (elem-All (Idle net) i net.pool f e o.idle).1;
    grown = omega arith;
  })
]

-- The frame as `New` sets it.
abbrev born_frame : Option Bytes → Frame
born_frame buf = record { buf = buf; topic = 0; meta = 0; ref = 1; pooled = true }

taken-ref :
    (f : ℕ) (buf : Option Bytes) (net net' : Net)
    → net'.frames ≡ net.frames
    → (net.frames f).ref ≡ 0
    → (g : ℕ) → ((write f (born_frame buf) net').frames g).ref ≡ (net.frames g).ref + one f g
taken-ref f buf net net' e z g = elim (Bool-cases (g == f)) [
  | inl h ↦
      let same : g ≡ f = ground arith in
      let ref : (net.frames g).ref ≡ (net.frames f).ref = ap (λ g. (net.frames g).ref) same in
      ground arith
  | inr h ↦ let ref = ap (λ k. (k g).ref) e in ground arith
]

written-Idle :
    (f : ℕ) (buf : Option Bytes) (net net' : Net) (fs : List ℕ)
    → ((g : ℕ) → ((write f (born_frame buf) net').frames g).ref ≡ (net.frames g).ref + one f g)
    → net.fresh ≤ net'.fresh
    → Lacks f fs
    → All (Idle net) fs
    → All (Idle (write f (born_frame buf) net')) fs
written-Idle f buf net net' [] refs grown l i = tt
written-Idle f buf net net' (g ∷ fs) refs grown (n, l) ((z, b), i) =
    let r = refs g in
    let apart : one f g ≡ 0 = elim (Bool-cases (f == g)) [
      | inl e ↦ let same : g ≡ f = ground arith in absurd (n same)
      | inr e ↦ ground arith
    ] in
    ((omega arith, omega arith), written-Idle f buf net net' fs refs grown l i)

written-IsOwned :
    (w : ℕ → ℕ) (f : ℕ) (buf : Option Bytes) (net net' : Net)
    → IsOwned w net
    → Takes w net f net'
    → IsOwned (plus w f) (write f (born_frame buf) net')
written-IsOwned w f buf net net' o t =
    let refs = taken-ref f buf net net' t.frames t.ref in
    let grown = t.grown in
    let below = t.below in
    let zero_ref = t.ref in
    record {
      counts = λ g.
          let r = refs g in
          let c = o.counts g in
          let e : held_by g net'.consumers ≡ held_by g net.consumers = ap (held_by g) t.consumers in
          omega arith;
      small = λ g.
          let r = refs g in
          let s = o.small g in
          elim (Bool-cases (f == g)) [
            | inl e ↦
                let same : g ≡ f = ground arith in
                let ref : (net.frames g).ref ≡ (net.frames f).ref =
                  ap (λ g. (net.frames g).ref) same in
                ground arith
            | inr e ↦ ground arith
          ];
      idle = written-Idle f buf net net' net'.pool refs grown t.out t.idle;
      once = t.once;
      unborn = λ g h.
          let r = refs g in
          let u = o.unborn g (omega arith) in let apart : one f g ≡ 0 = ground arith in omega arith;
      valid = subst (All IsValid) (sym t.consumers) o.valid;
    }

-- A new frame has one reference, its taker's; the references of the other frames keep their holders.
pub new_frame-IsOwned :
    (w : ℕ → ℕ) (pick : Option ℕ) (buf : Option Bytes) (net : Net)
    → IsOwned w net
    → IsOwned (plus w (new_frame pick buf net).0) (new_frame pick buf net).1
unfolding new_frame
new_frame-IsOwned w pick buf net o =
    written-IsOwned w (take_frame pick net).0 buf net (take_frame pick net).1 o
      (take_frame-Takes w pick net o)

pub new_frame-consumers :
    (w : ℕ → ℕ) (pick : Option ℕ) (buf : Option Bytes) (net : Net)
    → IsOwned w net
    → (new_frame pick buf net).1.consumers ≡ net.consumers
unfolding new_frame
new_frame-consumers w pick buf net o = (take_frame-Takes w pick net o).consumers

-- Writing the other fields of a frame leaves the references as they are.
pub write-IsOwned :
    (w : ℕ → ℕ) (f : ℕ) (frame : Frame) (net : Net)
    → frame.ref ≡ (net.frames f).ref
    → IsOwned w net
    → IsOwned w (write f frame net)
write-IsOwned w f frame net e o =
    let refs : (g : ℕ) → ((write f frame net).frames g).ref ≡ (net.frames g).ref = λ g.
      elim (Bool-cases (g == f)) [
        | inl h ↦
            let same : g ≡ f = ground arith in
            let ref : (net.frames g).ref ≡ (net.frames f).ref = ap (λ g. (net.frames g).ref) same in
            ground arith
        | inr h ↦ ground arith
      ] in
    record {
      counts = λ g. let r = refs g in let c = o.counts g in omega arith;
      small = λ g. let r = refs g in let s = o.small g in omega arith;
      idle = All-map net.pool (λ g i. let r = refs g in let (z, b) = i in (omega arith, b)) o.idle;
      once = o.once;
      unborn = λ g h. let r = refs g in let u = o.unborn g h in omega arith;
      valid = o.valid;
    }
