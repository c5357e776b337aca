-- ===== src/Websocket/Dialer/Writer.antt =====
-- libs/shared/websocket/dialer.go: the mask and the header of an outgoing frame, and writing it.
use go_hft.Prelude.{
  ℕ, ◌*◌, ◌/◌, ◌%◌, ◌^◌, Bool, true, [], ◌∷◌, ◌++◌, leb, ◌==◌, if◌then◌else◌, length, Bytes, bit_or,
  bit_xor, not,
}
use go_hft.Websocket.Types.{MessageType}
use go_hft.Websocket.Dialer.Socket.{
  protocol, ok, err, M, pure, ◌>>=◌, ◌>>◌, guard, set_deadline, write, message_type_to_opcode,
  put_be,
}
use go_hft.Websocket.Dialer.Reader.{xor_from}

abbrev pub fallback_mask : ℕ
fallback_mask = 0x9e3779b9

-- `c.mask ^= c.mask << 13; c.mask ^= c.mask >> 17; c.mask ^= c.mask << 5`, on 32 bits
unfoldable pub xorshift : ℕ → ℕ
xorshift x =
    let a = bit_xor x (x * 2 ^ 13 % 2 ^ 32) in
    let b = bit_xor a (a / 2 ^ 17) in bit_xor b (b * 2 ^ 5 % 2 ^ 32)

unfoldable pub next_mask : M ℕ
unfolding xorshift
next_mask c =
    let x = xorshift c.mask in
    let mask = if x == 0 then fallback_mask else x in ok mask (record c { mask = mask })

-- `[4]byte{byte(mask), byte(mask >> 8), byte(mask >> 16), byte(mask >> 24)}`
unfoldable pub key_of : ℕ → Bytes
key_of mask =
    (mask % 256) ∷ (mask / 2 ^ 8 % 256) ∷ (mask / 2 ^ 16 % 256) ∷ (mask / 2 ^ 24 % 256) ∷ []

-- The bytes of `buildLengthHeader` behind the first, for a masked frame or a plain one.
unfoldable pub build_length_header : ℕ → Bool → Bytes → Bytes
unfolding put_be
build_length_header payload_len masked mask_key =
    let flag = λ (b : ℕ). if masked then bit_or b 0x80 else b in
    let key = if masked then mask_key else [] in
    if leb payload_len 125
    then flag payload_len ∷ key
    else if leb payload_len 0xffff
    then flag 126 ∷ (put_be 2 (payload_len % 2 ^ 16) ++ key)
    else flag 127 ∷ (put_be 8 payload_len ++ key)

-- The buffer of the caller is masked in place, which no caller reads afterwards.
unfoldable pub write_frame : ℕ → Bytes → M (Unit {0})
unfolding write next_mask key_of build_length_header xor_from
write_frame opcode payload = do
  set_deadline
  mask ← next_mask
  let key = key_of mask
  write (bit_or 0x80 opcode ∷ build_length_header (length payload) true key)
  if length payload == 0 then pure tt else write (xor_from key 0 payload)

-- `_ = c.writeFrame(…)`: the error is dropped.
unfoldable pub ignore : M (Unit {0}) → M (Unit {0})
ignore m c = elim (m c) [ ok _ c' ↦ ok tt c' | err _ c' ↦ ok tt c' ]

unfoldable pub write_message : MessageType → Bytes → M (Unit {0})
unfolding message_type_to_opcode write_frame
write_message msg_type payload =
    let opcode = message_type_to_opcode msg_type in
    do guard (not (opcode == 0)) protocol; write_frame opcode payload

-- `makeClosePayload`; `code` is a uint16.
pub make_close_payload : ℕ → Bytes → Bytes
make_close_payload code reason = if code == 0 then [] else put_be 2 code ++ reason
