-- ===== src/Websocket/Frames.antt =====
-- libs/shared/websocket/frame.go: frames, their reference counts and their pool. Frames and consumers
-- have addresses, those of consumers are places in a list; a frame pool has a buffer pool, and of what
-- it hands to bufferPool.Put this keeps the bytes.
pub mod Owners
pub mod Pool
use go_hft.Prelude.{
  ℕ, zero, suc, ◌+◌, ◌-◌, ◌%◌, ◌^◌, Bool, true, false, Option, none, some, List, [], ◌∷◌, ◌==◌,
  if◌then◌else◌, ◌&&◌, Bytes, get_elem?,
}
use go_hft.Websocket.Types.{TopicId}
use go_hft.Websocket.Queue.{FrameQueue}

-- `pool` is nil or the one frame pool; `ref` is the 32-bit word of the counter.
pub record Frame : Type 0 where
  pub buf : Option Bytes
  pub topic : TopicId
  pub meta : ℕ
  pub ref : ℕ
  pub pooled : Bool

-- The heap of frames, the frames in the pool, the next new address, the buffers handed back and the
-- consumers.
pub record Net : Type 0 where
  pub frames : ℕ → Frame
  pub pool : List ℕ
  pub fresh : ℕ
  pub returned : List Bytes
  pub consumers : List FrameQueue

abbrev pub write : ℕ → Frame → Net → Net
write f frame net = record net { frames = λ g. if g == f then frame else net.frames g }

abbrev pub set_ref : ℕ → ℕ → Net → Net
set_ref f ref net = write f (record (net.frames f) { ref = ref }) net

unfoldable pub retain : ℕ → Net → Net
retain f net = set_ref f ((net.frames f).ref + 1) net

-- `if frame.Buf != nil { p.buffers.Put(frame.Buf) }`
abbrev pub hand_back : Option Bytes → List Bytes → List Bytes
hand_back none returned = returned
hand_back (some buf) returned = buf ∷ returned

abbrev pub cleared : ℕ → Frame
cleared ref = record { buf = none; topic = 0; meta = 0; ref = ref; pooled = false }

unfoldable pub recycle : ℕ → Net → Net
recycle f net =
    let frame = net.frames f in
    write f (cleared frame.ref)
      (record net { pool = f ∷ net.pool; returned = hand_back frame.buf net.returned })

-- `atomic.AddInt32(&f.ref, -1)`
abbrev pub minus_one : ℕ → ℕ
minus_one ref = (ref + (2 ^ 32 - 1)) % 2 ^ 32

unfoldable pub release : ℕ → Net → Net
unfolding recycle
release f net =
    let left = minus_one (net.frames f).ref in
    let counted = set_ref f left net in
    if left == 0 && (net.frames f).pooled then recycle f counted else counted

abbrev pub remove_at : ℕ → List ℕ → List ℕ
remove_at i [] = []
remove_at zero (f ∷ fs) = fs
remove_at (suc i) (f ∷ fs) = f ∷ remove_at i fs

-- `sync.Pool.Get`: any frame of the pool, or a new one.
abbrev pub taken : Option ℕ → ℕ → Net → ℕ × Net
taken none i net = (net.fresh, record net { fresh = net.fresh + 1 })
taken (some f) i net = (f, record net { pool = remove_at i net.pool })

abbrev pub take_frame : Option ℕ → Net → ℕ × Net
take_frame none net = (net.fresh, record net { fresh = net.fresh + 1 })
take_frame (some i) net = taken (get_elem? net.pool i) i net

-- `New`, with the choice of the pool.
unfoldable pub new_frame : Option ℕ → Option Bytes → Net → ℕ × Net
new_frame pick buf net =
    let (f, net') = take_frame pick net in
    (f, write f (record { buf = buf; topic = 0; meta = 0; ref = 1; pooled = true }) net')
