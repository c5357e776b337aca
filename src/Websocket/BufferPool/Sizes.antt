-- ===== src/Websocket/BufferPool/Sizes.antt =====
-- The bucket sizes of libs/shared/websocket/buffer_pool.go: in order, positive and each once.
use go_hft.Prelude.{
  ℕ, ◌≤◌, ◌<◌, ◌≡◌, refl, ap, ◌∙◌, Bool, false, ◌||◌, ◌&&◌, ltb, ◌^◌, ◌==◌, List, [], ◌∷◌, arith,
}
use go_hft.Prelude.Int.{ℤ, pos, negsuc}
use go_hft.Websocket.BufferPool.{
  insert_size, sort_sizes, filter_sizes, distinct_from, distinct_sizes, normalize_bucket_sizes,
}

-- Each number is less than the next one, the first one more than n.
abbrev pub Above : ℕ → List ℕ → Type 0
Above n [] = Unit
Above n (m ∷ ms) = (n < m) × Above m ms

abbrev From : ℕ → List ℕ → Type 0
From n [] = Unit
From n (m ∷ ms) = (n ≤ m) × From m ms

-- Whether a number is in a list.
unfoldable pub occurs : ℕ → List ℕ → Bool
occurs n [] = false
occurs n (m ∷ ms) = n == m || occurs n ms

insert_size-From : (k n : ℕ) (ns : List ℕ) → k ≤ n → From k ns → From k (insert_size n ns)
unfolding insert_size
insert_size-From k n [] h f = (h, tt)
insert_size-From k n (m ∷ ms) h (l, f) = let rest = insert_size-From m n ms in ground arith

lower-From : (j k : ℕ) (ns : List ℕ) → j ≤ k → From k ns → From j ns
lower-From j k [] h f = tt
lower-From j k (n ∷ ns) h (l, f) = (omega arith, f)

filter_sizes-From : (sizes : List ℤ) → From 1 (sort_sizes (filter_sizes sizes))
unfolding filter_sizes sort_sizes
filter_sizes-From [] = tt
filter_sizes-From (negsuc n ∷ sizes) = filter_sizes-From sizes
filter_sizes-From (pos n ∷ sizes) =
    let rest = filter_sizes-From sizes in
    let put_in = insert_size-From 1 n (sort_sizes (filter_sizes sizes)) in ground arith

distinct_from-Above : (last : ℕ) (ns : List ℕ) → From last ns → Above last (distinct_from last ns)
unfolding distinct_from
distinct_from-Above last [] f = tt
distinct_from-Above last (n ∷ ns) (l, f) =
    let same = distinct_from-Above last ns in
    let new = distinct_from-Above n ns f in let lower = lower-From last n ns l f in ground arith

distinct_sizes-Above : (ns : List ℕ) → From 1 ns → Above 0 (distinct_sizes ns)
unfolding distinct_sizes
distinct_sizes-Above [] f = tt
distinct_sizes-Above (n ∷ ns) (l, f) = (omega arith, distinct_from-Above n ns f)

occurs-insert_size : (k n : ℕ) (ns : List ℕ) → occurs k (insert_size n ns) ≡ (k == n || occurs k ns)
unfolding occurs insert_size
occurs-insert_size k n [] = refl
occurs-insert_size k n (m ∷ ms) = let rest = occurs-insert_size k n ms in ground arith

occurs-sort_sizes : (k : ℕ) (ns : List ℕ) → occurs k (sort_sizes ns) ≡ occurs k ns
unfolding occurs sort_sizes
occurs-sort_sizes k [] = refl
occurs-sort_sizes k (n ∷ ns) =
    occurs-insert_size k n (sort_sizes ns) ∙ ap (λ b. k == n || b) (occurs-sort_sizes k ns)

occurs-distinct_from :
    (k last : ℕ) (ns : List ℕ)
    → (k == last || occurs k (distinct_from last ns)) ≡ (k == last || occurs k ns)
unfolding occurs distinct_from
occurs-distinct_from k last [] = refl
occurs-distinct_from k last (n ∷ ns) =
    let same = occurs-distinct_from k last ns in
    let new = occurs-distinct_from k n ns in ground arith

occurs-distinct_sizes : (k : ℕ) (ns : List ℕ) → occurs k (distinct_sizes ns) ≡ occurs k ns
unfolding occurs distinct_sizes
occurs-distinct_sizes k [] = refl
occurs-distinct_sizes k (n ∷ ns) = occurs-distinct_from k n ns

-- Whether a number is among those given.
abbrev pub is_given : ℕ → List ℤ → Bool
is_given k [] = false
is_given k (pos n ∷ sizes) = k == n || is_given k sizes
is_given k (negsuc n ∷ sizes) = is_given k sizes

-- The sizes that a bucket can have: the positive values of an int of 64 bits.
abbrev pub is_size : ℕ → Bool
is_size k = ltb 0 k && ltb k (2 ^ 63)

occurs-filter_sizes :
    (k : ℕ) (sizes : List ℤ) → occurs k (filter_sizes sizes) ≡ (is_size k && is_given k sizes)
unfolding occurs filter_sizes
occurs-filter_sizes k [] = ground arith
occurs-filter_sizes k (pos n ∷ sizes) = let rest = occurs-filter_sizes k sizes in ground arith
occurs-filter_sizes k (negsuc n ∷ sizes) = occurs-filter_sizes k sizes

-- The normalized sizes are positive and strictly rising, and a size is among them just when it is a
-- positive one in the range of an int of 64 bits that is among those given.
pub normalize_bucket_sizes_lem :
    (sizes : List ℤ) (k : ℕ)
    → Above 0 (normalize_bucket_sizes sizes)
      × (occurs k (normalize_bucket_sizes sizes) ≡ (is_size k && is_given k sizes))
unfolding normalize_bucket_sizes
normalize_bucket_sizes_lem sizes k = (
  distinct_sizes-Above (sort_sizes (filter_sizes sizes)) (filter_sizes-From sizes),
  occurs-distinct_sizes k (sort_sizes (filter_sizes sizes))
      ∙ occurs-sort_sizes k (filter_sizes sizes)
      ∙ occurs-filter_sizes k sizes,
)
