-- ===== src/Websocket/Session/Answers.antt =====
-- libs/shared/websocket/session.go: the buffers of control messages.
use go_hft.Prelude.{ℕ, ◌≤◌, ◌<◌, ◌≡◌, ◌⊎◌, inl, inr, Option, none, some, Bytes, length}
use go_hft.Websocket.Types.{MessageType}
use go_hft.Websocket.BufferPool.{Buffer, BufferPool, get, put, ensure_size}
use go_hft.Websocket.BufferPool.Reuse.{Kept}
use go_hft.Websocket.Session.{Control, encoder_error, frame_too_large}

abbrev pub Answer : Type 0
Answer = Option (MessageType × Bytes)

abbrev Result : Type 0
Result = Option (Control × BufferPool)

-- The call comes to this, and leaves some pool.
abbrev Gives : Control → Result → Type 0
Gives c r = (pool : BufferPool) × (r ≡ some (c, pool))

-- What the second call of the encoder comes to, in the buffer that the pool hands out for the length n.
abbrev pub IsSecond : ℕ → ℕ → ℕ → BufferPool → Answer → Result → Type 0
IsSecond limit pick n pool again r =
    (b : Buffer) × (left : BufferPool) × (get limit pick n pool ≡ some (some b, left))
    × (n ≤ b.cap)
    × ((again ≡ none) × Gives (inl encoder_error) r
        ⊎ ((m : MessageType × Bytes) × (again ≡ some m) × (length m.1 ≤ b.cap) × Gives (inr m) r)
        ⊎ ((m : MessageType × Bytes) × (again ≡ some m)
            × (b.cap < length m.1)
            × Gives (inl frame_too_large) r))

-- What the first call comes to in the buffer b, with the pool that is left.
abbrev pub IsFirst : ℕ → ℕ → Buffer → BufferPool → Answer → Answer → Result → Type 0
IsFirst limit pick b left answer again r =
    (answer ≡ none) × Gives (inl encoder_error) r
    ⊎ ((m : MessageType × Bytes) × (answer ≡ some m) × (length m.1 ≤ b.cap) × Gives (inr m) r)
    ⊎ ((m : MessageType × Bytes) × (answer ≡ some m)
        × (b.cap < length m.1)
        × IsSecond limit pick (length m.1) (put b left) again r)

-- A pool that `Get` serves for the size n.
record IsServing (limit n : ℕ) (pool : BufferPool) : Type 0 where
  buckets : 0 < length pool.sizes
  kept : Kept pool.sizes pool.pools
  small : n ≤ limit
  bucket : ensure_size n pool ≤ limit

abbrev pub size_of : Answer → ℕ
size_of none = 0
size_of (some m) = length m.1
