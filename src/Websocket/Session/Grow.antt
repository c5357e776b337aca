-- ===== src/Websocket/Session/Grow.antt =====
-- libs/shared/websocket/session.go: the size of the buffer for reading.
use go_hft.Prelude.{
  ℕ, suc, ◌≤◌, ◌<◌, ◌≡◌, refl, ◌⊎◌, inl, inr, true, Option, none, some, List, [], ◌∷◌, ◌==◌, ltb,
  leb, if◌then◌else◌, ◌||◌, arith, Bool-cases,
}
use go_hft.Websocket.BufferPool.{BufferPool, bucket_index, next_index, size_at, next_bucket_size}
use go_hft.Websocket.BufferPool.Sizes.{Above}
use go_hft.Websocket.Session.{try_grow_read_buffer}

-- The bucket that is found holds the size, and the one behind it, if there is one, is larger.
abbrev IsBucket : List ℕ → ℕ → Option ℕ → Type 0
IsBucket sizes n none = Unit
IsBucket sizes n (some i) =
    (n ≤ size_at sizes i)
    × ((size_at sizes (suc i) ≡ 0) ⊎ (size_at sizes i < size_at sizes (suc i)))

next_index-IsBucket :
    (m : ℕ) (sizes : List ℕ) (n : ℕ) (o : Option ℕ)
    → IsBucket sizes n o
    → IsBucket (m ∷ sizes) n (next_index o)
next_index-IsBucket m sizes n none h = tt
next_index-IsBucket m sizes n (some i) h = h

first-IsBucket :
    (k m n : ℕ) (sizes : List ℕ) → Above k (m ∷ sizes) → n ≤ m → IsBucket (m ∷ sizes) n (some 0)
first-IsBucket k m n [] h l = (l, inl refl)
first-IsBucket k m n (s ∷ sizes) (h, (h', hs)) l = (l, inr h')

bucket_index-IsBucket :
    (k n : ℕ) (sizes : List ℕ) → Above k sizes → IsBucket sizes n (bucket_index sizes n)
unfolding bucket_index
bucket_index-IsBucket k n [] h = tt
bucket_index-IsBucket k n (m ∷ sizes) (h, hs) = elim (Bool-cases (leb n m)) [
  | inl e ↦ rw (e) (first-IsBucket k m n sizes (h, hs) (ground arith))
  | inr e ↦
      rw (e)
        (next_index-IsBucket m sizes n (bucket_index sizes n) (bucket_index-IsBucket m n sizes hs))
]

abbrev larger_than : (sizes : List ℕ) (n : ℕ) (o : Option ℕ) → ℕ
larger_than sizes n o = elim o [
  | none ↦ 0
  | some i ↦ if size_at sizes i == n then size_at sizes (suc i) else size_at sizes i
]

bigger :
    (a b n : ℕ)
    → n ≤ a
    → (b ≡ 0) ⊎ (a < b)
    → ((if a == n then b else a) ≡ 0) ⊎ (n < (if a == n then b else a))
bigger a b n l h = elim (Bool-cases (a == n)) [
  | inl e ↦ rw (e) (elim h [ inl z ↦ inl z | inr k ↦ inr (omega arith) ])
  | inr e ↦ rw (e) (inr (ground arith))
]

-- What `NextBucketSize` gives is 0 or larger.
next_bucket_size-larger :
    (n k : ℕ) (pool : BufferPool)
    → Above k pool.sizes
    → (next_bucket_size n pool ≡ 0) ⊎ (n < next_bucket_size n pool)
unfolding next_bucket_size
next_bucket_size-larger n k pool h = elim (Bool-cases (n == 0)) [
  | inl e ↦ inl (rw (e) refl)
  | inr e ↦ rw (e) (by_bucket (bucket_index pool.sizes n) (bucket_index-IsBucket k n pool.sizes h))
]
  where
    by_bucket :
        (o : Option ℕ)
        → IsBucket pool.sizes n o
        → (larger_than pool.sizes n o ≡ 0) ⊎ (n < larger_than pool.sizes n o)
    by_bucket none h = inl refl
    by_bucket (some i) (l, next) =
        bigger (size_at pool.sizes i) (size_at pool.sizes (suc i)) n l next

-- The frame size that comes out, if any, is larger.
abbrev pub IsLarger : ℕ → Option ℕ → Type 0
IsLarger size none = Unit
IsLarger size (some next) = size < next

abbrev next_of : ℕ → ℕ → ℕ → ℕ
next_of size bucket bigger_bucket = if ltb size bucket then bucket else bigger_bucket

grown-next :
    (size next : ℕ)
    → (next ≡ 0) ⊎ (size < next)
    → IsLarger size
        (if size == 0 || next == 0 then none else some (if ltb size next then next else size))
grown-next size next h = elim (Bool-cases (size == 0 || next == 0)) [
  | inl e ↦ rw (e) tt
  | inr e ↦ elim h [
    | inl z ↦ absurd (ground arith)
    | inr l ↦ let larger : ltb size next ≡ true = ground arith in rw (e, larger) l
  ]
]

grown :
    (size bucket bigger_bucket : ℕ)
    → size ≤ bucket
    → (bigger_bucket ≡ 0) ⊎ (bucket < bigger_bucket)
    → IsLarger size (
        if size == 0 || next_of size bucket bigger_bucket == 0
        then none
        else some (
            if ltb size (next_of size bucket bigger_bucket)
            then next_of size bucket bigger_bucket
            else size))
grown size bucket bigger_bucket l h =
    grown-next size (next_of size bucket bigger_bucket) (elim (Bool-cases (ltb size bucket)) [
      | inl e ↦ rw (e) (inr (ground arith))
      | inr e ↦ rw (e) (elim h [ inl z ↦ inl z | inr k ↦ inr (omega arith) ])
    ])

-- When a frame is too large for a buffer of the session's frame size, in a pool whose sizes rise, growing
-- either fails or gives a larger frame size: reading is never tried again with the same one.
pub try_grow_read_buffer-IsLarger :
    (frame_size bucket_cap k : ℕ) (pool : BufferPool)
    → Above k pool.sizes
    → frame_size ≤ bucket_cap
    → IsLarger frame_size (try_grow_read_buffer frame_size frame_size bucket_cap pool)
unfolding try_grow_read_buffer
try_grow_read_buffer-IsLarger frame_size bucket_cap k pool h l =
    grown frame_size bucket_cap (next_bucket_size bucket_cap pool) l
      (next_bucket_size-larger bucket_cap k pool h)
