-- ===== src/Websocket/Dialer/Reader.antt =====
-- libs/shared/websocket/dialer.go: reading the header and the payload of one frame.
use go_hft.Prelude.{
  ℕ, ◌+◌, ◌%◌, Bool, true, false, [], ◌∷◌, leb, ◌==◌, if◌then◌else◌, get_or, Bytes, bit_and,
  bit_xor, not, ◌||◌, ◌&&◌,
}
use go_hft.Websocket.Dialer.Socket.{
  frame_too_large, protocol, M, pure, ◌>>=◌, ◌>>◌, guard, set_deadline, read_full, op_close,
  op_ping, op_pong, max_payload_len, be,
}

pub record Header : Type 0 where
  pub fin : Bool
  pub opcode : ℕ
  pub masked : Bool
  pub mask_key : Bytes
  pub payload_len : ℕ

unfoldable pub is_control : ℕ → Bool
is_control opcode = opcode == op_ping || opcode == op_pong || opcode == op_close

unfoldable pub read_length16 : M ℕ
unfolding read_full be
read_length16 = do ext ← read_full 2; pure (be 0 ext)

unfoldable pub read_length64 : M ℕ
unfolding read_full be
read_length64 = do
  ext ← read_full 8
  guard (bit_and (get_or ext 0 0) 0x80 == 0) protocol
  guard (leb (be 0 ext) max_payload_len) frame_too_large
  pure (be 0 ext)

unfoldable pub read_length : ℕ → M ℕ
unfolding read_length16 read_length64
read_length code =
    if code == 126 then read_length16 else if code == 127 then read_length64 else pure code

-- The key of a frame that is not masked stays zero.
unfoldable pub read_mask_key : Bool → M Bytes
unfolding read_full
read_mask_key true = read_full 4
read_mask_key false = pure (0 ∷ 0 ∷ 0 ∷ 0 ∷ [])

unfoldable pub read_header : M Header
unfolding read_full read_length read_mask_key is_control
read_header = do
  set_deadline
  head ← read_full 2
  let h0 = get_or head 0 0
  let h1 = get_or head 1 0
  guard (bit_and h0 0x70 == 0) protocol
  let fin = not (bit_and h0 0x80 == 0)
  let opcode = bit_and h0 0x0f
  let masked = not (bit_and h1 0x80 == 0)
  payload_len ← read_length (bit_and h1 0x7f)
  mask_key ← read_mask_key masked
  guard (not (is_control opcode) || (fin && leb payload_len 125)) protocol
  pure (record {
    fin = fin;
    opcode = opcode;
    masked = masked;
    mask_key = mask_key;
    payload_len = payload_len;
  })

-- `data[i] ^= maskKey[i&3]` from index i on; `i & 3` is `i % 4`.
unfoldable pub xor_from : Bytes → ℕ → Bytes → Bytes
xor_from key i [] = []
xor_from key i (b ∷ bs) = bit_xor b (get_or key (i % 4) 0) ∷ xor_from key (i + 1) bs

unfoldable pub read_payload : ℕ → Bool → Bytes → M Bytes
unfolding read_full xor_from
read_payload n masked mask_key = do
  set_deadline
  bytes ← read_full n
  pure (if masked then xor_from mask_key 0 bytes else bytes)
