-- ===== src/Tests/Router.antt =====
-- Runs of the router and its frames (libs/shared/websocket/router.go, frame.go).
use go_hft.Prelude.{
  ℕ, ◌-◌, ◌≡◌, max, refl, none, some, [], ◌∷◌, ◌==◌, if◌then◌else◌, arith, codes, true, false,
}
use go_hft.Prelude.Maps.{lookup}
use go_hft.Websocket.Types.{overflow_drop_oldest, fan_out_shared}
use go_hft.Websocket.Queue.{FrameQueue}
use go_hft.Websocket.Queue.View.{IsValid, view, slots}
use go_hft.Websocket.Queue.Fifo.{frames}
use go_hft.Websocket.Frames.{Frame, Net, cleared}
use go_hft.Websocket.Frames.Owners.{IsOwned, plus, one, held_by}
use go_hft.Websocket.Router.{Router, route, consumers_of, add_consumer, remove_consumer}
use go_hft.Websocket.Router.Lists.{IsListed, listed, router_lists}
use go_hft.Websocket.Router.Routes.{Settles}
use go_hft.Websocket.Router.Conserves.{pending, route-conserves}

-- A full queue of one place, which holds the frame 1.
abbrev small_queue : FrameQueue
small_queue = record {
  buf = some 1 ∷ [];
  head = 0;
  tail = 0;
  size = 1;
  closed = false;
  policy = overflow_drop_oldest;
}

small_queue-IsValid : IsValid small_queue
small_queue-IsValid = record {
  room = omega arith;
  head_in = omega arith;
  fits = omega arith;
  tail_at = refl;
  drained = tt;
}

abbrev frame_of : ℕ → Frame
frame_of g =
    if g == 0
    then record { buf = some (codes "hi"); topic = 7; meta = 0; ref = 1; pooled = true }
    else if g == 1
    then record { buf = some (codes "ho"); topic = 7; meta = 0; ref = 1; pooled = true }
    else cleared 0

-- The frame 0 is about to be routed.
abbrev net : Net
net = record {
  frames = frame_of;
  pool = [];
  fresh = 2;
  returned = [];
  consumers = small_queue ∷ [];
}

abbrev nobody : ℕ → ℕ
nobody g = 0

queue_holds : (g : ℕ) → held_by g (small_queue ∷ []) ≡ one 1 g
unfolding held_by view slots frames
queue_holds g = omega arith

net-IsOwned : IsOwned (plus nobody 0) net
net-IsOwned = record {
  counts = λ g. let q = queue_holds g in ground arith;
  small = λ g. ground arith;
  idle = tt;
  once = tt;
  unborn = λ g h. ground arith;
  valid = (small_queue-IsValid, tt);
}

abbrev router : Router
router = record { topics = (7, 0 ∷ []) ∷ []; fan_out = fan_out_shared }

route-conserves_example : Settles nobody (pending fan_out_shared 0) (route (λ i. none) router 0 net)
unfolding consumers_of lookup
route-conserves_example =
    route-conserves nobody (λ i. none) router 0 net (omega arith) refl net-IsOwned

router-IsListed : IsListed router
unfolding consumers_of lookup
router-IsListed topic x = ground arith

router_lists_example :
    IsListed (add_consumer 7 3 router)
    × IsListed (remove_consumer 7 3 router)
    × (listed 7 0 (add_consumer 7 3 router) ≡ max (listed 7 0 router) (one 3 0))
    × (listed 7 0 (remove_consumer 7 3 router) ≡ listed 7 0 router - one 3 0)
    × (consumers_of 8 (add_consumer 7 3 router) ≡ consumers_of 8 router)
    × (consumers_of 8 (remove_consumer 7 3 router) ≡ consumers_of 8 router)
router_lists_example = router_lists 7 8 3 0 router router-IsListed refl
