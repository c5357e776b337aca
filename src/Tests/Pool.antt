-- ===== src/Tests/Pool.antt =====
-- Runs of the buffer pool (libs/shared/websocket/buffer_pool.go).
use go_hft.Prelude.{◌^◌, none, ◌≡◌, ◌&&◌, refl, List, [], ◌∷◌, arith}
use go_hft.Prelude.Int.{ℤ, pos, negsuc}
use go_hft.Websocket.BufferPool.{
  Buffer, BufferPool, normalize_bucket_sizes, new_buffer_pool, bucket_sizes, ensure_size, get, put,
}
use go_hft.Websocket.BufferPool.Sizes.{Above, occurs, is_size, is_given, normalize_bucket_sizes_lem}
use go_hft.Websocket.BufferPool.Reuse.{Kept, Keeps, fresh, given_back, Reached-Keeps}
use go_hft.Websocket.BufferPool.Handed.{Hands, get-Hands, get_panics}

abbrev given : List ℤ
given = pos 64 ∷ negsuc 3 ∷ pos 16 ∷ pos 64 ∷ pos 0 ∷ []

normalize_bucket_sizes_lem_example :
    Above 0 (normalize_bucket_sizes given)
    × (occurs 16 (normalize_bucket_sizes given) ≡ (is_size 16 && is_given 16 given))
normalize_bucket_sizes_lem_example = normalize_bucket_sizes_lem given 16

abbrev kept_buffer : Buffer
kept_buffer = record { len = 0; cap = 64 }

abbrev pool : BufferPool
pool = record { sizes = 16 ∷ 64 ∷ []; pools = [] ∷ (kept_buffer ∷ []) ∷ [] }

pool-Kept : Kept pool.sizes pool.pools
pool-Kept = (tt, ((refl, tt), tt))

get-Hands_example : Hands 20 pool (get 4096 0 20 pool)
unfolding ensure_size
get-Hands_example =
    get-Hands 4096 0 20 pool (omega arith) (omega arith) pool-Kept (omega arith) (omega arith)

-- A machine that allocates at most 2^48 bytes at once, and five thousand million bytes asked for.
get_panics_example : get (2 ^ 48) 0 5000000000 (new_buffer_pool []) ≡ none
get_panics_example = get_panics (2 ^ 48) 0 5000000000 (omega arith) (omega arith) (omega arith)

-- A new pool to which a buffer of 64 bytes is given back.
Reached-Keeps_example : Keeps (bucket_sizes given) (put kept_buffer (new_buffer_pool given))
Reached-Keeps_example =
    Reached-Keeps 4096 given (put kept_buffer (new_buffer_pool given))
      (given_back kept_buffer (new_buffer_pool given) fresh)
