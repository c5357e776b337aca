-- ===== src/Websocket/BufferPool/Reuse.antt =====
-- What a bucket keeps and what `Get` hands out (libs/shared/websocket/buffer_pool.go).
use go_hft.Prelude.{
  ℕ, zero, suc, ◌≡◌, refl, ap, sym, ◌∙◌, subst, Bool, ◌||◌, ◌==◌, if◌then◌else◌, Option, none, some,
  List, [], ◌∷◌, arith, Bool-cases, inl, inr, All, length, set, map,
}
use go_hft.Prelude.Int.{ℤ}
use go_hft.Websocket.BufferPool.{
  Buffer, BufferPool, bucket_index, size_at, pool_at, take_out, handed, get_from, get_at, get,
  put_at, put, bucket_sizes, new_buffer_pool,
}

-- Every buffer that a bucket keeps has exactly the bucket's capacity.
abbrev pub Kept : List ℕ → List (List Buffer) → Type 0
Kept [] [] = Unit
Kept [] (p ∷ ps) = ⊥
Kept (n ∷ ns) [] = ⊥
Kept (n ∷ ns) (p ∷ ps) = All (λ b. b.cap ≡ n) p × Kept ns ps

Kept-set :
    (ns : List ℕ) (ps : List (List Buffer)) (i : ℕ) (bs : List Buffer)
    → Kept ns ps
    → All (λ b. b.cap ≡ size_at ns i) bs
    → Kept ns (set ps i bs)
Kept-set [] [] i bs h a = tt
Kept-set [] (p ∷ ps) i bs h a = absurd h
Kept-set (n ∷ ns) [] i bs h a = absurd h
Kept-set (n ∷ ns) (p ∷ ps) zero bs (h, hs) a = (a, hs)
Kept-set (n ∷ ns) (p ∷ ps) (suc i) bs (h, hs) a = (h, Kept-set ns ps i bs hs a)

Kept-pool_at :
    (ns : List ℕ) (ps : List (List Buffer)) (i : ℕ)
    → Kept ns ps
    → All (λ b. b.cap ≡ size_at ns i) (pool_at ps i)
Kept-pool_at [] [] i h = tt
Kept-pool_at [] (p ∷ ps) i h = absurd h
Kept-pool_at (n ∷ ns) [] i h = absurd h
Kept-pool_at (n ∷ ns) (p ∷ ps) zero (h, hs) = h
Kept-pool_at (n ∷ ns) (p ∷ ps) (suc i) (h, hs) = Kept-pool_at ns ps i hs

Kept-map : (ns : List ℕ) → Kept ns (map (λ _. []) ns)
Kept-map [] = tt
Kept-map (n ∷ ns) = (tt, Kept-map ns)

-- Of what is taken out of a bucket, and of what is left.
abbrev Taken : (Buffer → Type 0) → Option (Buffer × List Buffer) → Type 0
Taken P none = Unit
Taken P (some (a, rest)) = P a × All P rest

take_out-Taken :
    (P : Buffer → Type 0) (bs : List Buffer) (i : ℕ) → All P bs → Taken P (take_out bs i)
unfolding take_out
take_out-Taken P [] i h = tt
take_out-Taken P (b ∷ bs) zero (h, hs) = (h, hs)
take_out-Taken P (b ∷ bs) (suc i) (h, hs) =
    (elim (take_out bs i)
        as (λ o.
          Taken P o
          → Taken P (elim o as (λ _. Option (Buffer × List Buffer)) [
            | none ↦ none
            | some (a, rest) ↦ some (a, b ∷ rest)
          ])) [ none ↦ λ t. tt | some (a, rest) ↦ λ t. (t.0, (h, t.1)) ])
      (take_out-Taken P bs i hs)

-- A pool that is handed on.
handed-pool :
    (p p' : BufferPool) (o : Option Buffer) (b : Option Buffer) → handed p o ≡ some (b, p') → p ≡ p'
handed-pool p p' none b e = cc
handed-pool p p' (some a) b e = cc

abbrev pub Keeps : List ℕ → BufferPool → Type 0
Keeps sizes p = (p.sizes ≡ sizes) × Kept p.sizes p.pools

handed-Keeps :
    (p p' : BufferPool) (o : Option Buffer) (b : Option Buffer)
    → Kept p.sizes p.pools
    → handed p o ≡ some (b, p')
    → Keeps p.sizes p'
handed-Keeps p p' o b k e = subst (Keeps p.sizes) (handed-pool p p' o b e) (refl, k)

get_from-Keeps :
    (limit size : ℕ) (p p' : BufferPool) (i : ℕ) (o : Option (Buffer × List Buffer))
    (b : Option Buffer)
    → Kept p.sizes p.pools
    → Taken (λ b. b.cap ≡ size_at p.sizes i) o
    → get_from limit size p i o ≡ some (b, p')
    → Keeps p.sizes p'
get_from-Keeps limit size p p' i none b k t e = handed-Keeps p p' _ b k e
get_from-Keeps limit size p p' i (some (a, rest)) b k (t, ts) e =
    handed-Keeps (record p { pools = set p.pools i rest }) p' _ b
      (Kept-set p.sizes p.pools i rest k ts) e

get_at-Keeps :
    (limit pick size : ℕ) (p p' : BufferPool) (o : Option ℕ) (b : Option Buffer)
    → Kept p.sizes p.pools
    → get_at limit pick size p o ≡ some (b, p')
    → Keeps p.sizes p'
unfolding get_at
get_at-Keeps limit pick size p p' none b k e = handed-Keeps p p' _ b k e
get_at-Keeps limit pick size p p' (some i) b k e =
    get_from-Keeps limit size p p' i (take_out (pool_at p.pools i) pick) b k
      (take_out-Taken _ (pool_at p.pools i) pick (Kept-pool_at p.sizes p.pools i k)) e

-- `Get` keeps the sizes, and buffers of their buckets' capacities.
pub get-Keeps :
    (limit pick size : ℕ) (p p' : BufferPool) (b : Option Buffer)
    → Kept p.sizes p.pools
    → get limit pick size p ≡ some (b, p')
    → Keeps p.sizes p'
unfolding get
get-Keeps limit pick size p p' b k e = elim (Bool-cases (size == 0 || length p.sizes == 0)) [
  | inl z ↦ let same : p ≡ p' = cc in subst (Keeps p.sizes) same (refl, k)
  | inr z ↦ get_at-Keeps limit pick size p p' (bucket_index p.sizes size) b k (
      sym (
        ap (λ c. if c then some (none, p) else get_at limit pick size p (bucket_index p.sizes size))
          z)
      ∙ e)
]

put_at-Keeps :
    (b : Buffer) (p : BufferPool) (o : Option ℕ)
    → Kept p.sizes p.pools
    → Keeps p.sizes (put_at b p o)
put_at-Keeps b p none k = (refl, k)
put_at-Keeps b p (some i) k = elim (Bool-cases (size_at p.sizes i == b.cap)) [
  | inl e ↦
      subst (λ c. Keeps p.sizes (stored c)) (sym e)
        (refl, Kept-set p.sizes p.pools i _ k (ground arith, Kept-pool_at p.sizes p.pools i k))
  | inr e ↦ subst (λ c. Keeps p.sizes (stored c)) (sym e) (refl, k)
]
  where
    stored : Bool → BufferPool
    stored c =
        if c
        then record p { pools = set p.pools i (record b { len = 0 } ∷ pool_at p.pools i) }
        else p

-- `Put` keeps the sizes, and buffers of their buckets' capacities, whatever is put.
pub put-Keeps : (b : Buffer) (p : BufferPool) → Kept p.sizes p.pools → Keeps p.sizes (put b p)
unfolding put
put-Keeps b p k = put_at-Keeps b p (bucket_index p.sizes b.cap) k

-- The pools that calls of `Get` and `Put` lead to.
pub data Reached (limit : ℕ) (sizes : List ℤ) : BufferPool → Type 0 where
  fresh : Reached limit sizes (new_buffer_pool sizes)
  got :
      (pick size : ℕ) (b : Option Buffer) (p p' : BufferPool)
      → Reached limit sizes p
      → get limit pick size p ≡ some (b, p')
      → Reached limit sizes p'
  given_back : (b : Buffer) (p : BufferPool) → Reached limit sizes p → Reached limit sizes (put b p)

new_buffer_pool-Keeps : (sizes : List ℤ) → Keeps (bucket_sizes sizes) (new_buffer_pool sizes)
unfolding new_buffer_pool
new_buffer_pool-Keeps sizes = (refl, Kept-map (bucket_sizes sizes))

Keeps-trans :
    (sizes : List ℕ) (p p' : BufferPool) → Keeps sizes p → Keeps p.sizes p' → Keeps sizes p'
Keeps-trans sizes p p' (e, k) (e', k') = (e' ∙ e, k')

-- Whatever calls of `Get` and `Put` a new pool has gone through, whatever was put and whichever buffers
-- sync.Pool has picked: its buckets have the sizes that it was made with, and each keeps only buffers of
-- exactly its capacity.
pub Reached-Keeps :
    (limit : ℕ) (sizes : List ℤ) (p : BufferPool)
    → Reached limit sizes p
    → Keeps (bucket_sizes sizes) p
Reached-Keeps limit sizes p fresh = new_buffer_pool-Keeps sizes
Reached-Keeps limit sizes p (got pick size b q q' r e) =
    let before = Reached-Keeps limit sizes q r in
    Keeps-trans (bucket_sizes sizes) q q' before (get-Keeps limit pick size q q' b before.1 e)
Reached-Keeps limit sizes p (given_back b q r) =
    let before = Reached-Keeps limit sizes q r in
    Keeps-trans (bucket_sizes sizes) q (put b q) before (put-Keeps b q before.1)
