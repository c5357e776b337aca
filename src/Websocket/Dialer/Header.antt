-- ===== src/Websocket/Dialer/Header.antt =====
-- The header of a frame (libs/shared/websocket/dialer.go): readHeader reads what writeFrame and
-- buildLengthHeader write.
use go_hft.Prelude.{
  ℕ, zero, suc, ◌/◌, ◌%◌, ◌^◌, ◌<◌, ◌≤◌, ◌≡◌, refl, [], ◌∷◌, ◌++◌, arith, length, get_or, Bytes,
  ◌==◌, if◌then◌else◌, bit_and, bit_or, Bool, true, false, not, ◌&&◌, ◌||◌, leb, append_assoc,
  length-append, take-append, drop-append,
}
use go_hft.Prelude.Bits.{every, every_at}
use go_hft.Websocket.Dialer.Socket.{WsConn, ok, read_full, be, put_be, max_payload_len}
use go_hft.Websocket.Dialer.Reader.{
  is_control, read_header, read_length, read_length16, read_length64, read_mask_key,
}
use go_hft.Websocket.Dialer.Writer.{build_length_header}

-- A connection that works, with these bytes to come.
abbrev pub live : WsConn → Bytes → WsConn
live c bytes = record c { incoming = bytes; broken = false }

pub read_full-append :
    (n : ℕ) (xs ys : Bytes) (c : WsConn)
    → length xs ≡ n
    → read_full n (live c (xs ++ ys)) ≡ ok xs (live c ys)
unfolding read_full
read_full-append n xs ys c h =
    let l = length-append xs ys in rw (← h, take-append xs ys, drop-append xs ys) (ground arith)

-- The bits of the first byte.
abbrev first_bits_test : ℕ → Bool
first_bits_test op =
    (bit_and (bit_or 0x80 op) 0x70 == 0)
    && not (bit_and (bit_or 0x80 op) 0x80 == 0)
    && (bit_and (bit_or 0x80 op) 0x0f == op)

first_table : every first_bits_test 16 ≡ true
unfolding every
first_table = refl

first_bits :
    (op : ℕ)
    → op < 16
    → (bit_and (bit_or 0x80 op) 0x70 ≡ 0)
      × (not (bit_and (bit_or 0x80 op) 0x80 == 0) ≡ true)
      × (bit_and (bit_or 0x80 op) 0x0f ≡ op)
first_bits op h = let t = every_at first_bits_test 16 op h first_table in ground arith

abbrev second_bits_test : ℕ → Bool
second_bits_test n = (bit_and (bit_or n 0x80) 0x7f == n) && not (bit_and (bit_or n 0x80) 0x80 == 0)

second_table : every second_bits_test 128 ≡ true
unfolding every
second_table = refl

second_bits :
    (n : ℕ)
    → n < 128
    → (bit_and (bit_or n 0x80) 0x7f ≡ n) × (not (bit_and (bit_or n 0x80) 0x80 == 0) ≡ true)
second_bits n h = let t = every_at second_bits_test 128 n h second_table in ground arith

-- The code for the length in the second byte, and the bytes that extend it.
length_code : ℕ → ℕ
length_code n = if leb n 125 then n else if leb n 0xffff then 126 else 127

extension : ℕ → Bytes
extension n = if leb n 125 then [] else if leb n 0xffff then put_be 2 (n % 2 ^ 16) else put_be 8 n

build_length_header_lem :
    (n : ℕ) (key : Bytes)
    → build_length_header n true key ≡ bit_or (length_code n) 0x80 ∷ (extension n ++ key)
unfolding build_length_header length_code extension
build_length_header_lem n key = ground arith

be16 : (n : ℕ) → n < 2 ^ 16 → be 0 (put_be 2 (n % 2 ^ 16)) ≡ n
unfolding be put_be
be16 n h = omega arith

be64 : (n : ℕ) → n ≤ max_payload_len → be 0 (put_be 8 n) ≡ n
unfolding be put_be
be64 n h = omega arith

-- The top bit of the eight bytes is clear.
top_clear : (n : ℕ) → n ≤ max_payload_len → get_or (put_be 8 n) 0 0 ≡ 0
unfolding put_be
top_clear n h = omega arith

length-put_be : (w n : ℕ) → length (put_be w n) ≡ w
unfolding put_be
length-put_be zero n = refl
length-put_be (suc w) n =
    let l = length-append (put_be w (n / 256)) ((n % 256) ∷ []) in
    omega (arith, length-put_be w (n / 256))

read_length16_lem :
    (n : ℕ) (rest : Bytes) (c : WsConn)
    → n < 2 ^ 16
    → read_length16 (live c (put_be 2 (n % 2 ^ 16) ++ rest)) ≡ ok n (live c rest)
unfolding read_length16
read_length16_lem n rest c h =
    rw (read_full-append 2 (put_be 2 (n % 2 ^ 16)) rest c (length-put_be 2 _), be16 n h)

read_length64_lem :
    (n : ℕ) (rest : Bytes) (c : WsConn)
    → n ≤ max_payload_len
    → read_length64 (live c (put_be 8 n ++ rest)) ≡ ok n (live c rest)
unfolding read_length64
read_length64_lem n rest c h =
    rw (read_full-append 8 (put_be 8 n) rest c (length-put_be 8 n), top_clear n h, be64 n h)
      (ground arith)

read_length_lem :
    (n : ℕ) (rest : Bytes) (c : WsConn)
    → n ≤ max_payload_len
    → read_length (length_code n) (live c (extension n ++ rest)) ≡ ok n (live c rest)
unfolding read_length length_code extension
read_length_lem n rest c h = ground (arith, read_length16_lem n rest c, read_length64_lem n rest c)

length_code-lt : (n : ℕ) → length_code n < 128
unfolding length_code
length_code-lt n = ground arith

-- `readHeader` reads back the header of a masked frame of one part whose length is at most 2^31 - 1: its
-- opcode of 4 bits, its length, and its key of 4 bytes; what stands behind it is left. A control frame
-- has at most 125 bytes.
pub read_header-build :
    (op n : ℕ) (key rest : Bytes) (c : WsConn)
    → op < 16
    → n ≤ max_payload_len
    → length key ≡ 4
    → (not (is_control op) || leb n 125) ≡ true
    → read_header (live c ((bit_or 0x80 op ∷ build_length_header n true key) ++ rest))
      ≡ ok
          (record { fin = true; opcode = op; masked = true; mask_key = key; payload_len = n })
          (live c rest)
unfolding read_header read_mask_key
read_header-build op n key rest c h g k ctl =
    let (a0, a1, a2) = first_bits op h in
    let (b0, b1) = second_bits (length_code n) (length_code-lt n) in
    rw (
      build_length_header_lem n key,
      append_assoc (extension n) key rest,
      read_full-append 2 (bit_or 0x80 op ∷ bit_or (length_code n) 0x80 ∷ [])
          (extension n ++ (key ++ rest)) c refl,
      a0,
      b0,
      read_length_lem n (key ++ rest) c g,
      b1,
      read_full-append 4 key rest c k,
      a2,
      a1,
      ctl,
    )
