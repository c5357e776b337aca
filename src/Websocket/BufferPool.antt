-- ===== src/Websocket/BufferPool.antt =====
-- libs/shared/websocket/buffer_pool.go: buffers kept for reuse, in buckets by capacity. A buffer is its
-- length and its capacity. `sync.Pool` may hand out any buffer that it keeps, or a new one: which one is
-- the argument `pick`. An `int` has 64 bits; a size that is asked for is one that is not negative, since a
-- negative one is answered as 0 is. A nil pool is not modelled.
pub mod Sizes
pub mod Reuse
pub mod Handed
use go_hft.Prelude.{
  ℕ, zero, suc, ◌+◌, ◌-◌, ◌^◌, Bool, true, false, Option, none, some, List, [], ◌∷◌, ◌==◌, ltb, leb,
  if◌then◌else◌, ◌||◌, ◌&&◌, length, get_elem?, set, map,
}
use go_hft.Prelude.Int.{ℤ, pos, negsuc}
use go_hft.Ingest.Decimal.{max_int64}

pub record Buffer : Type 0 where
  pub len : ℕ
  pub cap : ℕ

-- `pools` has a list for each of `sizes`.
pub record BufferPool : Type 0 where
  pub sizes : List ℕ
  pub pools : List (List Buffer)

-- `sort.Ints`
unfoldable pub insert_size : ℕ → List ℕ → List ℕ
insert_size n [] = n ∷ []
insert_size n (m ∷ ms) = let rest = insert_size n ms in if leb n m then n ∷ m ∷ ms else m ∷ rest

unfoldable pub sort_sizes : List ℕ → List ℕ
unfolding insert_size
sort_sizes [] = []
sort_sizes (n ∷ ns) = insert_size n (sort_sizes ns)

-- `size <= 0 || size > int64(maxInt)`
unfoldable pub filter_sizes : List ℤ → List ℕ
filter_sizes [] = []
filter_sizes (negsuc n ∷ sizes) = filter_sizes sizes
filter_sizes (pos n ∷ sizes) =
    let rest = filter_sizes sizes in if n == 0 || ltb max_int64 n then rest else n ∷ rest

-- The last loop, behind its first round: what differs from the size before it.
unfoldable pub distinct_from : ℕ → List ℕ → List ℕ
distinct_from last [] = []
distinct_from last (n ∷ ns) =
    let same = distinct_from last ns in
    let new = n ∷ distinct_from n ns in if n == last then same else new

unfoldable pub distinct_sizes : List ℕ → List ℕ
unfolding distinct_from
distinct_sizes [] = []
distinct_sizes (n ∷ ns) = n ∷ distinct_from n ns

unfoldable pub normalize_bucket_sizes : List ℤ → List ℕ
unfolding filter_sizes sort_sizes distinct_sizes
normalize_bucket_sizes sizes = distinct_sizes (sort_sizes (filter_sizes sizes))

abbrev pub default_buffer_pool_buckets : List ℤ
default_buffer_pool_buckets =
    pos (2 ^ 4) ∷ pos (2 ^ 8) ∷ pos (2 ^ 12) ∷ pos (2 ^ 16) ∷ pos (2 ^ 32) ∷ pos (2 ^ 63 - 1) ∷ []

unfoldable pub bucket_sizes : List ℤ → List ℕ
unfolding normalize_bucket_sizes
bucket_sizes sizes =
    let cleaned = normalize_bucket_sizes sizes in
    if length cleaned == 0 then normalize_bucket_sizes default_buffer_pool_buckets else cleaned

unfoldable pub new_buffer_pool : List ℤ → BufferPool
unfolding bucket_sizes
new_buffer_pool sizes = record {
  sizes = bucket_sizes sizes;
  pools = map (λ _. []) (bucket_sizes sizes);
}

abbrev pub next_index : Option ℕ → Option ℕ
next_index none = none
next_index (some i) = some (suc i)

-- `sort.SearchInts` on sizes in order: the first that is no less. `none` is -1.
unfoldable pub bucket_index : List ℕ → ℕ → Option ℕ
bucket_index [] size = none
bucket_index (n ∷ ns) size =
    let later = next_index (bucket_index ns size) in if leb size n then some zero else later

abbrev pub size_at : List ℕ → ℕ → ℕ
size_at [] i = 0
size_at (n ∷ ns) zero = n
size_at (n ∷ ns) (suc i) = size_at ns i

abbrev pub pool_at : List (List Buffer) → ℕ → List Buffer
pool_at [] i = []
pool_at (p ∷ ps) zero = p
pool_at (p ∷ ps) (suc i) = pool_at ps i

unfoldable pub init_size : BufferPool → ℕ
init_size p = size_at p.sizes 0

unfoldable pub ensure_size : ℕ → BufferPool → ℕ
unfolding bucket_index
ensure_size size p =
    if size == 0
    then 0
    else elim (bucket_index p.sizes size) [ none ↦ 0 | some i ↦ size_at p.sizes i ]

-- The i-th of what a bucket keeps, and the others.
unfoldable pub take_out : List Buffer → ℕ → Option (Buffer × List Buffer)
take_out [] i = none
take_out (b ∷ bs) zero = some (b, bs)
take_out (b ∷ bs) (suc i) = elim (take_out bs i) [
  | none ↦ none
  | some (a, rest) ↦ some (a, b ∷ rest)
]

-- `make([]byte, size)`: `none` is the panic of a size above `limit`, the most that the runtime allocates.
unfoldable pub make : ℕ → ℕ → Option Buffer
make limit size = if leb size limit then some (record { len = size; cap = size }) else none

-- `buf[:size]`, or a buffer of its own if the one handed out is too small.
abbrev pub cut : ℕ → ℕ → Buffer → Option Buffer
cut limit size b =
    if ltb b.cap size then make limit size else some (record { len = size; cap = b.cap })

abbrev pub cut_made : ℕ → ℕ → Option Buffer → Option Buffer
cut_made limit size none = none
cut_made limit size (some b) = cut limit size b

-- What `Get` answers, and the pool that it leaves: a nil slice or a buffer; `none` is a panic.
abbrev pub Got : Type 0
Got = Option (Option Buffer × BufferPool)

abbrev pub handed : BufferPool → Option Buffer → Got
handed p none = none
handed p (some b) = some (some b, p)

-- The i-th bucket hands out a buffer that it keeps, or a new one, which `New` makes.
abbrev pub get_from : ℕ → ℕ → BufferPool → ℕ → Option (Buffer × List Buffer) → Got
get_from limit size p i none = handed p (cut_made limit size (make limit (size_at p.sizes i)))
get_from limit size p i (some (b, rest)) =
    handed (record p { pools = set p.pools i rest }) (cut limit size b)

unfoldable pub get_at : ℕ → ℕ → ℕ → BufferPool → Option ℕ → Got
unfolding take_out
get_at limit pick size p none = handed p (make limit size)
get_at limit pick size p (some i) = get_from limit size p i (take_out (pool_at p.pools i) pick)

-- A pick outside of what is kept stands for a new buffer.
unfoldable pub get : ℕ → ℕ → ℕ → BufferPool → Got
unfolding bucket_index get_at
get limit pick size p =
    if size == 0 || length p.sizes == 0
    then some (none, p)
    else get_at limit pick size p (bucket_index p.sizes size)

abbrev pub put_at : Buffer → BufferPool → Option ℕ → BufferPool
put_at b p none = p
put_at b p (some i) =
    if size_at p.sizes i == b.cap
    then record p { pools = set p.pools i (record b { len = 0 } ∷ pool_at p.pools i) }
    else p

-- `Put`: only a buffer of exactly a bucket's capacity is kept, emptied.
unfoldable pub put : Buffer → BufferPool → BufferPool
unfolding bucket_index
put b p = put_at b p (bucket_index p.sizes b.cap)

-- `NextBucketSize`: the least bucket that is larger.
unfoldable pub next_bucket_size : ℕ → BufferPool → ℕ
unfolding bucket_index
next_bucket_size size p = if size == 0 then 0 else elim (bucket_index p.sizes size) [
  | none ↦ 0
  | some i ↦ if size_at p.sizes i == size then size_at p.sizes (suc i) else size_at p.sizes i
]
