-- ===== src/Websocket/Router/Routes.antt =====
-- The references that Route of libs/shared/websocket/router.go hands out and takes back.
use go_hft.Prelude.{
  ℕ, zero, suc, ◌+◌, ◌≡◌, refl, ap, sym, subst, ◌∙◌, Bool, true, false, Option, some, List, [], ◌∷◌,
  length, get_elem?, set, All, arith, Option-cases, inl, inr,
}
use go_hft.Websocket.Queue
use go_hft.Websocket.Queue.{FrameQueue, Outcome, returns, waits}
use go_hft.Websocket.Queue.View.{IsValid}
use go_hft.Websocket.Frames.{Net, release, new_frame}
use go_hft.Websocket.Frames.Owners.{
  IsOwned, plus, one, occurrences, held, held_by, release-IsOwned, same-IsOwned,
}
use go_hft.Websocket.Frames.Pool.{new_frame-IsOwned, new_frame-consumers, write-IsOwned}
use go_hft.Websocket.Router.{
  Routing, finished, parked, panicked, release_all, with_queue, handed, entered, share_with,
  copy_with, share, copy_frame, copies, then_release,
}
use go_hft.Websocket.Router.Handover.{Hands, push-Hands}

held_by-set :
    (g p : ℕ) (q q' : FrameQueue) (qs : List FrameQueue)
    → get_elem? qs p ≡ some q
    → held_by g (set qs p q') + held g q ≡ held_by g qs + held g q'
unfolding held_by
held_by-set g p q q' [] e = cc
held_by-set g zero q q' (r ∷ qs) e =
    let same : r ≡ q = cc in let h = ap (held g) same in omega arith
held_by-set g (suc p) q q' (r ∷ qs) e = let h = held_by-set g p q q' qs e in omega arith

elem-IsValid :
    (p : ℕ) (q : FrameQueue) (qs : List FrameQueue)
    → get_elem? qs p ≡ some q
    → All IsValid qs
    → IsValid q
elem-IsValid p q [] e h = cc
elem-IsValid zero q (r ∷ qs) e (v, h) = let same : r ≡ q = cc in subst IsValid same v
elem-IsValid (suc p) q (r ∷ qs) e (v, h) = elem-IsValid p q qs e h

set-IsValid :
    (p : ℕ) (q : FrameQueue) (qs : List FrameQueue)
    → IsValid q
    → All IsValid qs
    → All IsValid (set qs p q)
set-IsValid p q [] v h = tt
set-IsValid zero q (r ∷ qs) v (w, h) = (v, h)
set-IsValid (suc p) q (r ∷ qs) v (w, h) = (w, set-IsValid p q qs v h)

-- A queue takes the place of another: the holders change by what it has let go, `out`, and by what it
-- has taken in, `new`.
with_queue-IsOwned :
    (w w' : ℕ → ℕ) (p : ℕ) (q q' : FrameQueue) (net : Net)
    → get_elem? net.consumers p ≡ some q
    → IsValid q'
    → ((g : ℕ) → w' g + held g q' ≡ w g + held g q)
    → IsOwned w net
    → IsOwned w' (with_queue p q' net)
with_queue-IsOwned w w' p q q' net e v h o = record {
  counts = λ g.
      let c = o.counts g in
      let s = held_by-set g p q q' net.consumers e in let k = h g in omega arith;
  small = o.small;
  idle = o.idle;
  once = o.once;
  unborn = o.unborn;
  valid = set-IsValid p q' net.consumers v o.valid;
}

release_all-IsOwned :
    (w : ℕ → ℕ) (out : List ℕ) (net : Net)
    → IsOwned (λ g. w g + occurrences g out) net
    → IsOwned w (release_all out net)
unfolding release_all
release_all-IsOwned w [] net o = same-IsOwned _ w net (λ g. omega arith) o
release_all-IsOwned w (f ∷ out) net o = release_all-IsOwned w out (release f net) (
    release-IsOwned (λ g. w g + occurrences g out) f net
      (same-IsOwned _ _ net (λ g. omega arith) o))

-- A consumer that is handed a frame takes over one reference, or the reference is released.
handed-IsOwned :
    (w : ℕ → ℕ) (f p : ℕ) (ok : Bool) (out : List ℕ) (q q' : FrameQueue) (net : Net)
    → get_elem? net.consumers p ≡ some q
    → Hands f q (returns ok out q')
    → IsOwned (plus w f) net
    → IsOwned w (handed f p ok out q' net)
unfolding handed
handed-IsOwned w f p true out q q' net e (v, h) o =
    release_all-IsOwned w out (with_queue p q' net)
      (with_queue-IsOwned (plus w f) _ p q q' net e v (λ g. let k = h g in omega arith) o)
handed-IsOwned w f p false out q q' net e (v, h) o =
    release-IsOwned w f (release_all out (with_queue p q' net)) (
      release_all-IsOwned (plus w f) out (with_queue p q' net)
        (with_queue-IsOwned (plus w f) _ p q q' net e v (λ g. let k = h g in omega arith) o))

-- So many references to one frame.
abbrev pub times : ℕ → ℕ → ℕ → ℕ
times zero f g = 0
times (suc n) f g = one f g + times n f g

-- The holders once a loop is done are `w`; where it parks, the router still holds what `pending` says.
abbrev pub Settles : (ℕ → ℕ) → (ℕ → List ℕ → ℕ → ℕ) → Routing → Type 0
Settles w pending (finished net) = IsOwned w net
Settles w pending (parked c p ps net) = IsOwned (λ g. w g + pending c ps g) net
Settles w pending panicked = ⊥

abbrev pub pending_shared : ℕ → List ℕ → ℕ → ℕ
pending_shared c ps g = times (suc (length ps)) c g

abbrev pub pending_copy : ℕ → ℕ → List ℕ → ℕ → ℕ
pending_copy f c ps g = one f g + one c g

-- Of the references that are there before a frame is handed over, one goes with it.
entered-Settles :
    (w w' : ℕ → ℕ) (pending : ℕ → List ℕ → ℕ → ℕ) (c p : ℕ) (ps : List ℕ) (next : Net → Routing)
    (net : Net) (q : FrameQueue)
    → get_elem? net.consumers p ≡ some q
    → ((g : ℕ) → plus w' c g ≡ w g + pending c ps g)
    → ((net' : Net) → IsOwned w' net' → Settles w pending (next net'))
    → IsOwned (plus w' c) net
    → Settles w pending (entered c p ps next net (Queue.push (some c) q))
entered-Settles w w' pending c p ps next net q e k go o =
    let (r, e', h) = push-Hands c q (elem-IsValid p q net.consumers e o.valid) in
    subst (λ t. Settles w pending (entered c p ps next net t)) (sym e') (by_outcome r h)
  where
    by_outcome :
        (r : Outcome FrameQueue Bool)
        → Hands c q r
        → Settles w pending (entered c p ps next net (some r))
    by_outcome (waits q') (v, h) =
        with_queue-IsOwned (plus w' c) _ p q q' net e v
          (λ g. let a = h g in let b = k g in omega arith) o
    by_outcome (returns ok out q') h =
        go (handed c p ok out q' net) (handed-IsOwned w' c p ok out q q' net e h o)

pub share-Settles :
    (w : ℕ → ℕ) (f : ℕ) (ps : List ℕ) (net : Net)
    → IsOwned (λ g. w g + times (length ps) f g) net
    → Settles w pending_shared (share f ps net)
unfolding share
share-Settles w f [] net o = same-IsOwned _ w net (λ g. omega arith) o
share-Settles w f (p ∷ ps) net o =
    let mine : IsOwned (plus (λ g. w g + times (length ps) f g) f) net =
      same-IsOwned _ _ net (λ g. omega arith) o in
    let next : (net' : Net)
        → IsOwned (λ g. w g + times (length ps) f g) net'
        → Settles w pending_shared (share f ps net') =
      share-Settles w f ps in
    elim (Option-cases (get_elem? net.consumers p)) [
      | inl e ↦
          subst (λ t. Settles w pending_shared (share_with (share f ps) f p ps net t)) (sym e)
            (next (release f net) (release-IsOwned _ f net mine))
      | inr (q, e) ↦
          subst (λ t. Settles w pending_shared (share_with (share f ps) f p ps net t)) (sym e)
            (entered-Settles w _ pending_shared f p ps (share f ps) net q e (λ g. omega arith) next
              mine)
    ]

copy_frame-IsOwned :
    (w : ℕ → ℕ) (pick : Option ℕ) (f : ℕ) (net : Net)
    → IsOwned w net
    → IsOwned (plus w (copy_frame pick f net).0) (copy_frame pick f net).1
unfolding copy_frame
copy_frame-IsOwned w pick f net o =
    write-IsOwned _ _ _ (new_frame pick (net.frames f).buf net).1 refl
      (new_frame-IsOwned w pick (net.frames f).buf net o)

copy_frame-consumers :
    (w : ℕ → ℕ) (pick : Option ℕ) (f : ℕ) (net : Net)
    → IsOwned w net
    → (copy_frame pick f net).1.consumers ≡ net.consumers
unfolding copy_frame
copy_frame-consumers w pick f net o = new_frame-consumers w pick (net.frames f).buf net o

pub copies-Settles :
    (w : ℕ → ℕ) (picks : ℕ → Option ℕ) (f : ℕ) (ps : List ℕ) (net : Net)
    → IsOwned (plus w f) net
    → Settles (plus w f) (λ c ps g. one c g) (copies picks f ps net)
unfolding copies
copies-Settles w picks f [] net o = o
copies-Settles w picks f (p ∷ ps) net o =
    let goal : Option FrameQueue → Type 0 = λ t.
      Settles (plus w f) (λ c ps g. one c g)
        (copy_with (picks 0) (copies (λ i. picks (suc i)) f ps) (copies picks f ps) f p ps net t) in
    let skip = copies-Settles w picks f ps net o in
    let next : (net' : Net)
        → IsOwned (plus w f) net'
        → Settles (plus w f) (λ c ps g. one c g) (copies (λ i. picks (suc i)) f ps net') =
      copies-Settles w (λ i. picks (suc i)) f ps in
    elim (Option-cases (get_elem? net.consumers p)) [
      | inl e ↦ subst goal (sym e) skip
      | inr (q, e) ↦
          let made = copy_frame-IsOwned (plus w f) (picks 0) f net o in
          let there =
            ap (λ qs. get_elem? qs p) (copy_frame-consumers (plus w f) (picks 0) f net o) ∙ e in
          subst goal (sym e) (
            entered-Settles (plus w f) (plus w f) (λ c ps g. one c g) (copy_frame (picks 0) f net).0
              p ps (copies (λ i. picks (suc i)) f ps) (copy_frame (picks 0) f net).1 q there
              (λ g. refl) next made)
    ]

pub then_release-Settles :
    (w : ℕ → ℕ) (f : ℕ) (r : Routing)
    → Settles (plus w f) (λ c ps g. one c g) r
    → Settles w (pending_copy f) (then_release f r)
unfolding then_release
then_release-Settles w f (finished net) o = release-IsOwned w f net o
then_release-Settles w f (parked c p ps net) o = same-IsOwned _ _ net (λ g. omega arith) o
then_release-Settles w f panicked o = elim o [ ]
