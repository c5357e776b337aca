-- ===== src/Ingest/Text.antt =====
-- bundle/internal/ingest/binance/codec.go: the hash and the decimal print that the codecs share.
-- The same two functions stand in btcc/payload.go.
pub mod Print
use go_hft.Prelude.{
  ℕ, zero, suc, ◌+◌, ◌*◌, ◌/◌, ◌%◌, ◌^◌, Option, none, some, [], ◌∷◌, ◌++◌, ◌==◌, if◌then◌else◌,
  Bytes, bit_xor,
}

abbrev offset64 : ℕ
offset64 = 14695981039346656037

abbrev prime64 : ℕ
prime64 = 1099511628211

-- The loop of `hashBytes`, on 64 bits.
unfoldable pub hash_from : ℕ → Bytes → ℕ
hash_from hash [] = hash
hash_from hash (b ∷ bytes) = hash_from (bit_xor hash b * prime64 % 2 ^ 64) bytes

unfoldable pub hash_bytes : Bytes → ℕ
unfolding hash_from
hash_bytes bytes = hash_from offset64 bytes

-- The loop of `appendUint`, with the digits that stand behind `i` in the buffer and the places left in front
-- of it; `none` is the panic of a write in front of the buffer.
unfoldable pub fill : ℕ → ℕ → Bytes → Option Bytes
fill zero v buf = if v == 0 then some buf else none
fill (suc places) v buf =
    let more = fill places (v / 10) ((b'0' + v % 10) ∷ buf) in if v == 0 then some buf else more

-- `append(dst, buf[i:]...)`
abbrev pub printed : Bytes → Option Bytes → Option Bytes
printed dst none = none
printed dst (some digits) = some (dst ++ digits)

-- `var buf [20]byte`
unfoldable pub append_uint : Bytes → ℕ → Option Bytes
unfolding fill
append_uint dst v = if v == 0 then some (dst ++ b'0' ∷ []) else printed dst (fill 20 v [])
