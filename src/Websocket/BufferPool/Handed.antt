-- ===== src/Websocket/BufferPool/Handed.antt =====
-- What `Get` of libs/shared/websocket/buffer_pool.go hands out, and where it panics.
use go_hft.Prelude.{
  ℕ, ◌-◌, ◌^◌, ◌≤◌, ◌<◌, ◌≡◌, refl, ap, subst, false, ◌||◌, ◌==◌, if◌then◌else◌, leb, ltb, Option,
  none, some, List, [], arith, Bool-cases, inl, inr, length, true,
}
use go_hft.Websocket.BufferPool.{
  Buffer, BufferPool, bucket_index, size_at, pool_at, take_out, make, cut, Got, handed, get_from,
  get_at, get, ensure_size, new_buffer_pool, bucket_sizes,
}
use go_hft.Websocket.BufferPool.Reuse.{Kept, get-Keeps}

-- A buffer of the length asked for, in a capacity that holds it.
abbrev IsCut : ℕ → Option Buffer → Type 0
IsCut size o = (b : Buffer) × (o ≡ some b) × (b.len ≡ size) × (size ≤ b.cap)

make-some :
    (limit size : ℕ) → size ≤ limit → make limit size ≡ some (record { len = size; cap = size })
unfolding make
make-some limit size h = ground arith

cut-IsCut : (limit size : ℕ) (b : Buffer) → size ≤ limit → IsCut size (cut limit size b)
cut-IsCut limit size b h = elim (Bool-cases (ltb b.cap size)) [
  | inl e ↦ rw (e, make-some limit size h) (_, refl, refl, omega arith)
  | inr e ↦ rw (e) (_, refl, refl, ground arith)
]

-- A buffer that is handed out, and the pool behind it.
abbrev IsHanded : ℕ → Got → Type 0
IsHanded size r =
    (b : Buffer) × (p : BufferPool) × (r ≡ some (some b, p)) × (b.len ≡ size) × (size ≤ b.cap)

handed-IsHanded :
    (size : ℕ) (p : BufferPool) (o : Option Buffer) → IsCut size o → IsHanded size (handed p o)
handed-IsHanded size p o (b, e, asked, room) = (b, p, ap (handed p) e, asked, room)

get_from-IsHanded :
    (limit size : ℕ) (p : BufferPool) (i : ℕ) (o : Option (Buffer × List Buffer))
    → size ≤ limit
    → size_at p.sizes i ≤ limit
    → IsHanded size (get_from limit size p i o)
get_from-IsHanded limit size p i none h k =
    let new : Buffer = record { len = size_at p.sizes i; cap = size_at p.sizes i } in
    rw (make-some limit (size_at p.sizes i) k)
      (handed-IsHanded size p (cut limit size new) (cut-IsCut limit size new h))
get_from-IsHanded limit size p i (some (b, rest)) h k =
    handed-IsHanded size _ _ (cut-IsCut limit size b h)

-- The size of the bucket that is found.
abbrev bucket_size : List ℕ → Option ℕ → ℕ
bucket_size sizes o = elim o [ none ↦ 0 | some i ↦ size_at sizes i ]

get_at-IsHanded :
    (limit pick size : ℕ) (p : BufferPool) (o : Option ℕ)
    → size ≤ limit
    → bucket_size p.sizes o ≤ limit
    → IsHanded size (get_at limit pick size p o)
unfolding get_at
get_at-IsHanded limit pick size p none h k =
    rw (make-some limit size h) (_, p, refl, refl, omega arith)
get_at-IsHanded limit pick size p (some i) h k =
    get_from-IsHanded limit size p i (take_out (pool_at p.pools i) pick) h k

-- `Get` has handed out a buffer of the length asked for whose capacity holds it, and has left a pool with
-- the same sizes that keeps buffers of their buckets' capacities.
pub record Hands (size : ℕ) (p : BufferPool) (r : Got) : Type 0 where
  pub buffer : Buffer
  pub left : BufferPool
  pub answers : r ≡ some (some buffer, left)
  pub length_asked : buffer.len ≡ size
  pub room : size ≤ buffer.cap
  pub sizes_kept : left.sizes ≡ p.sizes
  pub kept : Kept left.sizes left.pools

-- In a pool that keeps buffers of their buckets' capacities and has a bucket, when the runtime can allocate
-- the size asked for and its bucket's (that of `EnsureSize`), `Get` of a positive size hands out a buffer of
-- that length whose capacity holds it, whichever buffer sync.Pool picks; the pool keeps its sizes, and
-- still keeps buffers of their buckets' capacities.
pub get-Hands :
    (limit pick size : ℕ) (p : BufferPool)
    → 0 < size
    → 0 < length p.sizes
    → Kept p.sizes p.pools
    → size ≤ limit
    → ensure_size size p ≤ limit
    → Hands size p (get limit pick size p)
unfolding get ensure_size
get-Hands limit pick size p h l k small bucket =
    let solid : (size == 0 || length p.sizes == 0) ≡ false = ground arith in
    let positive : (size == 0) ≡ false = ground arith in
    let found : bucket_size p.sizes (bucket_index p.sizes size) ≤ limit =
      subst (λ b. (if b then 0 else bucket_size p.sizes (bucket_index p.sizes size)) ≤ limit)
        positive bucket in
    let (b, p', e, asked, room) =
      get_at-IsHanded limit pick size p (bucket_index p.sizes size) small found in
    let answers : get limit pick size p ≡ some (some b, p') = rw (get, solid) e in
    let after = get-Keeps limit pick size p p' (some b) k answers in
    record {
      buffer = b;
      left = p';
      answers = answers;
      length_asked = asked;
      room = room;
      sizes_kept = after.0;
      kept = after.1;
    }

-- In the default pool, `Get` of a size above 2^32 panics on any machine that cannot allocate 2^63 - 1
-- bytes at once: there the last bucket makes a buffer of that size, however small the one asked for.
pub get_panics :
    (limit pick size : ℕ)
    → 2 ^ 32 < size
    → size < 2 ^ 63
    → limit < 2 ^ 63 - 1
    → get limit pick size (new_buffer_pool []) ≡ none
unfolding get new_buffer_pool bucket_index bucket_sizes make get_at take_out
get_panics limit pick size h k l =
    let solid : (size == 0) ≡ false = ground arith in
    let above4 : leb size 16 ≡ false = ground arith in
    let above8 : leb size 256 ≡ false = ground arith in
    let above12 : leb size 4096 ≡ false = ground arith in
    let above16 : leb size 65536 ≡ false = ground arith in
    let above32 : leb size 4294967296 ≡ false = ground arith in
    let within : leb size 9223372036854775807 ≡ true = ground arith in
    let large : leb 9223372036854775807 limit ≡ false = ground arith in
    rw (solid, above4, above8, above12, above16, above32, within, large) refl
