-- ===== src/Websocket/Router/Conserves.antt =====
-- Route of libs/shared/websocket/router.go takes over the reference of its caller, in both modes.
use go_hft.Prelude.{
  ℕ, zero, suc, ◌+◌, ◌%◌, ◌^◌, ◌<◌, ◌≡◌, refl, subst, ◌∙◌, false, List, [], ◌∷◌, ◌==◌, length, All,
  Lacks, ◌≢◌, arith, Bool-cases, inl, inr, Option,
}
use go_hft.Websocket.Types.{FanOutMode, fan_out_copy, fan_out_shared}
use go_hft.Websocket.Frames.{Net, set_ref}
use go_hft.Websocket.Frames.Owners.{
  IsOwned, Idle, plus, one, held_by, release-IsOwned, born, not_pooled,
}
use go_hft.Websocket.Router.{route_shared, copies, by_mode, route, Router, consumers_of}
use go_hft.Websocket.Router.Routes.{
  times, Settles, pending_shared, pending_copy, share-Settles, copies-Settles, then_release-Settles,
}

times-one : (n f : ℕ) → times n f f ≡ n
times-one zero f = refl
times-one (suc n) f = let e = times-one n f in let self : one f f ≡ 1 = ground arith in omega arith

times-other : (n f g : ℕ) → (f == g) ≡ false → times n f g ≡ 0
times-other zero f g h = refl
times-other (suc n) f g h =
    let e = times-other n f g h in let apart : one f g ≡ 0 = ground arith in omega arith

-- A count is set that so far was 1: the one reference becomes so many.
set_ref-counts :
    (w : ℕ → ℕ) (f n : ℕ) (net : Net)
    → IsOwned (plus w f) net
    → (net.frames f).ref ≡ 1
    → (g : ℕ) → ((set_ref f n net).frames g).ref ≡ w g + times n f g + held_by g net.consumers
set_ref-counts w f n net o e g = elim (Bool-cases (f == g)) [
  | inl h ↦
      let same : f ≡ g = ground arith in
      subst (λ g. ((set_ref f n net).frames g).ref ≡ w g + times n f g + held_by g net.consumers)
        same
        (let c = o.counts f in
          let self : one f f ≡ 1 = ground arith in
          let many = times-one n f in
          let set : ((set_ref f n net).frames f).ref ≡ n = ground arith in omega arith)
  | inr h ↦
      let c = o.counts g in
      let apart : one f g ≡ 0 = ground arith in
      let none_there = times-other n f g h in
      let kept : ((set_ref f n net).frames g).ref ≡ (net.frames g).ref = ground arith in omega arith
]

set_ref-small :
    (f n : ℕ) (net : Net)
    → n < 2 ^ 32
    → ((g : ℕ) → (net.frames g).ref < 2 ^ 32)
    → (g : ℕ) → ((set_ref f n net).frames g).ref < 2 ^ 32
set_ref-small f n net h s g = let k = s g in ground arith

set_ref-other :
    (f g n : ℕ) (net : Net) → g ≢ f → ((set_ref f n net).frames g).ref ≡ (net.frames g).ref
set_ref-other f g n net h = elim (Bool-cases (g == f)) [
  | inl e ↦ let same : g ≡ f = ground arith in absurd (h same)
  | inr e ↦ ground arith
]

set_ref-Idle :
    (f n : ℕ) (net : Net) (fs : List ℕ)
    → Lacks f fs
    → All (Idle net) fs
    → All (Idle (set_ref f n net)) fs
set_ref-Idle f n net [] l i = tt
set_ref-Idle f n net (g ∷ fs) (h, l) ((z, b), i) =
    ((set_ref-other f g n net h ∙ z, b), set_ref-Idle f n net fs l i)

set_ref-IsOwned :
    (w : ℕ → ℕ) (f n : ℕ) (net : Net)
    → n < 2 ^ 32
    → (net.frames f).ref ≡ 1
    → IsOwned (plus w f) net
    → IsOwned (λ g. w g + times n f g) (set_ref f n net)
set_ref-IsOwned w f n net h e o =
    let below = born (plus w f) f net o (omega arith) in
    let apart = not_pooled (plus w f) f net o (omega arith) in
    record {
      counts = set_ref-counts w f n net o e;
      small = set_ref-small f n net h o.small;
      idle = set_ref-Idle f n net net.pool apart o.idle;
      once = o.once;
      unborn = λ g k. set_ref-other f g n net (λ e. omega arith) ∙ o.unborn g k;
      valid = o.valid;
    }

route_shared-Settles :
    (w : ℕ → ℕ) (f : ℕ) (ps : List ℕ) (net : Net)
    → length ps < 2 ^ 32
    → (net.frames f).ref ≡ 1
    → IsOwned (plus w f) net
    → Settles w pending_shared (route_shared f ps net)
unfolding route_shared
route_shared-Settles w f ps net h e o =
    let n : length ps % 2 ^ 32 ≡ length ps = ground arith in
    rw (n)
      (share-Settles w f ps (set_ref f (length ps) net) (set_ref-IsOwned w f (length ps) net h e o))

-- What the router still holds where it parks, in its mode.
abbrev pub pending : FanOutMode → ℕ → ℕ → List ℕ → ℕ → ℕ
pending fan_out_copy f = pending_copy f
pending fan_out_shared f = pending_shared

by_mode-Settles :
    (mode : FanOutMode) (w : ℕ → ℕ) (picks : ℕ → Option ℕ) (f : ℕ) (ps : List ℕ) (net : Net)
    → length ps < 2 ^ 32
    → (net.frames f).ref ≡ 1
    → IsOwned (plus w f) net
    → Settles w (pending mode f) (by_mode mode picks f ps net)
unfolding by_mode
by_mode-Settles fan_out_copy w picks f ps net h e o =
    then_release-Settles w f (copies picks f ps net) (copies-Settles w picks f ps net o)
by_mode-Settles fan_out_shared w picks f ps net h e o = route_shared-Settles w f ps net h e o

-- The caller of Route holds the one reference to a frame, and every other reference in the system is held
-- too: by a place in a queue or by one of the others, whom w counts; and the frames in the pool, each there
-- once, have none. A topic has fewer than 2^32 consumers. Then Route never panics; once it is done, the
-- caller's reference has gone over to the queues or is released, and the same holds with w alone; where it
-- parks at a full queue, what the router still holds is known: in shared mode a reference for that consumer
-- and each one behind it, in copy mode the frame and the copy.
pub route-conserves :
    (w : ℕ → ℕ) (picks : ℕ → Option ℕ) (r : Router) (f : ℕ) (net : Net)
    → length (consumers_of (net.frames f).topic r) < 2 ^ 32
    → (net.frames f).ref ≡ 1
    → IsOwned (plus w f) net
    → Settles w (pending r.fan_out f) (route picks r f net)
unfolding route
route-conserves w picks r f net h e o =
    let ps = consumers_of (net.frames f).topic r in
    elim (Bool-cases (length ps == 0)) [
      | inl z ↦ rw (route, z) (release-IsOwned w f net o)
      | inr z ↦ rw (route, z) (by_mode-Settles r.fan_out w picks f ps net h e o)
    ]
