-- ===== src/Websocket/Router.antt =====
-- libs/shared/websocket/router.go: the consumers of each topic, and what they are sent. A nil router,
-- frame or consumer is not modelled but in routeShared, where an address without consumer is nil.
-- Consumers of a topic are the addresses in its list; a topic that is missing has none.
pub mod Lists
pub mod Handover
pub mod Routes
pub mod Conserves
use go_hft.Prelude.{
  ℕ, zero, suc, ◌+◌, ◌-◌, ◌%◌, ◌^◌, Bool, true, false, Option, none, some, List, [], ◌∷◌, ◌++◌,
  ◌==◌, if◌then◌else◌, length, get_elem?, set, Bytes,
}
use go_hft.Prelude.Maps.{Map, lookup, insert, delete}
use go_hft.Websocket.Types.{TopicId, FanOutMode, fan_out_copy, fan_out_shared}
use go_hft.Websocket.Queue
use go_hft.Websocket.Queue.{FrameQueue, Outcome, returns, waits}
use go_hft.Websocket.Manager.{last_of, all_but_last}
use go_hft.Websocket.Frames.{Frame, Net, write, set_ref, release, new_frame}

pub record Router : Type 0 where
  pub topics : Map (List ℕ)
  pub fan_out : FanOutMode

abbrev pub new_router : FanOutMode → Router
new_router fan_out = record { topics = []; fan_out = fan_out }

-- `r.topics[topic]`, nil where it is missing
abbrev pub or_nil : Option (List ℕ) → List ℕ
or_nil none = []
or_nil (some ps) = ps

unfoldable pub consumers_of : TopicId → Router → List ℕ
consumers_of topic r = or_nil (lookup r.topics topic)

unfoldable pub has : List ℕ → ℕ → Bool
has [] p = false
has (q ∷ ps) p = let later = has ps p in if q == p then true else later

unfoldable pub add_consumer : TopicId → ℕ → Router → Router
unfolding consumers_of has
add_consumer topic p r =
    let ps = consumers_of topic r in
    if has ps p then r else record r { topics = insert r.topics topic (ps ++ p ∷ []) }

-- `list[i] = list[len(list)-1]; list = list[:len(list)-1]` at the first place of the consumer.
unfoldable pub swap_out : ℕ → List ℕ → List ℕ
unfolding last_of all_but_last
swap_out p [] = []
swap_out p (q ∷ ps) =
    let rest = q ∷ swap_out p ps in if q == p then all_but_last (last_of q ps ∷ ps) else rest

unfoldable pub remove_consumer : TopicId → ℕ → Router → Router
unfolding consumers_of has swap_out
remove_consumer topic p r =
    let ps = consumers_of topic r in
    let left = swap_out p ps in
    if has ps p
    then (if length left == 0
        then record r { topics = delete r.topics topic }
        else record r { topics = insert r.topics topic left })
    else r

unfoldable pub remove_topic : TopicId → Router → Router
remove_topic topic r = record r { topics = delete r.topics topic }

-- What routing comes to: it is done, it parks with a frame at a consumer, with the consumers behind it
-- left, or it panics.
pub data Routing : Type 0 where
  finished : Net → Routing
  parked : ℕ → ℕ → List ℕ → Net → Routing
  panicked : Routing

unfoldable pub release_all : List ℕ → Net → Net
unfolding release
release_all [] net = net
release_all (f ∷ fs) net = release_all fs (release f net)

abbrev pub with_queue : ℕ → FrameQueue → Net → Net
with_queue p q net = record net { consumers = set net.consumers p q }

-- A frame that a consumer was handed: what the queue has dropped is released, and a frame that it
-- refuses.
unfoldable pub handed : ℕ → ℕ → Bool → List ℕ → FrameQueue → Net → Net
unfolding release_all release
handed f p true out q net = release_all out (with_queue p q net)
handed f p false out q net = release f (release_all out (with_queue p q net))

-- What follows on `enqueue` of the frame c at the consumer p, before the consumers ps: `next`, unless it
-- parks.
abbrev pub entered :
    ℕ → ℕ → List ℕ → (Net → Routing) → Net → Option (Outcome FrameQueue Bool) → Routing
entered c p ps next net none = panicked
entered c p ps next net (some (waits q)) = parked c p ps (with_queue p q net)
entered c p ps next net (some (returns ok out q)) = next (handed c p ok out q net)

-- `if consumer == nil || !consumer.enqueue(frame)`; an address that has no consumer is nil.
abbrev pub share_with : (Net → Routing) → ℕ → ℕ → List ℕ → Net → Option FrameQueue → Routing
unfolding release
share_with next f p ps net none = next (release f net)
share_with next f p ps net (some q) = entered f p ps next net (Queue.push (some f) q)

-- The loop of `routeShared`.
unfoldable pub share : ℕ → List ℕ → Net → Routing
unfolding share_with
share f [] net = finished net
share f (p ∷ ps) net = share_with (λ net'. share f ps net') f p ps net (get_elem? net.consumers p)

unfoldable pub route_shared : ℕ → List ℕ → Net → Routing
unfolding share
route_shared f ps net = share f ps (set_ref f (length ps % 2 ^ 32) net)

-- A copy of a frame, with its topic and its metadata; `bufferPool.Get` gives a buffer of the length, but
-- nil for none, and the copy of an empty text reads as one.
unfoldable pub copy_frame : Option ℕ → ℕ → Net → ℕ × Net
unfolding new_frame
copy_frame pick f net =
    let frame = net.frames f in
    let (c, net') = new_frame pick frame.buf net in
    (c, write c (record (net'.frames c) { topic = frame.topic; meta = frame.meta }) net')

-- A round of the loop of `routeCopy`: a nil consumer is passed over.
abbrev pub copy_with :
    Option ℕ
    → (Net → Routing)
    → (Net → Routing)
    → ℕ
    → ℕ
    → List ℕ
    → Net
    → Option FrameQueue
    → Routing
unfolding copy_frame
copy_with pick next skip f p ps net none = skip net
copy_with pick next skip f p ps net (some q) =
    let (c, net') = copy_frame pick f net in entered c p ps next net' (Queue.push (some c) q)

-- The loop, with the choices of the pool.
unfoldable pub copies : (ℕ → Option ℕ) → ℕ → List ℕ → Net → Routing
unfolding copy_with
copies picks f [] net = finished net
copies picks f (p ∷ ps) net =
    copy_with (picks 0) (λ net'. copies (λ i. picks (suc i)) f ps net')
      (λ net'. copies picks f ps net') f p ps net (get_elem? net.consumers p)

abbrev pub then_release : ℕ → Routing → Routing
unfolding release
then_release f (finished net) = finished (release f net)
then_release f (parked c p ps net) = parked c p ps net
then_release f panicked = panicked

unfoldable pub by_mode : FanOutMode → (ℕ → Option ℕ) → ℕ → List ℕ → Net → Routing
unfolding copies route_shared then_release
by_mode fan_out_copy picks f ps net = then_release f (copies picks f ps net)
by_mode fan_out_shared picks f ps net = route_shared f ps net

-- `Route`, as far as it goes without parking.
unfoldable pub route : (ℕ → Option ℕ) → Router → ℕ → Net → Routing
unfolding consumers_of release by_mode
route picks r f net =
    let ps = consumers_of (net.frames f).topic r in
    if length ps == 0 then finished (release f net) else by_mode r.fan_out picks f ps net
