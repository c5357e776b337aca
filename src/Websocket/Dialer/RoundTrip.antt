-- ===== src/Websocket/Dialer/RoundTrip.antt =====
-- A message written by one connection and read by another (libs/shared/websocket/dialer.go, Write
-- and Read).
use go_hft.Prelude.{
  ℕ, suc, ◌+◌, ◌<◌, ◌≤◌, ◌≡◌, ◌⊎◌, inl, inr, refl, ◌∙◌, [], ◌∷◌, ◌++◌, arith, length, Bytes,
  IsBytes, ◌==◌, if◌then◌else◌, bit_or, true, false, not, ◌||◌, leb, ltb, none, append_assoc,
  append-nil,
}
use go_hft.Websocket.Types.{MessageType, message_text, message_binary}
use go_hft.Websocket.Dialer.Socket.{
  WsConn, ok, write, max_payload_len, message_type_to_opcode, opcode_to_message_type,
}
use go_hft.Websocket.Dialer.Reader.{is_control, read_payload, xor_from}
use go_hft.Websocket.Dialer.Writer.{
  build_length_header, write_frame, write_message, next_mask, key_of, xorshift, fallback_mask,
}
use go_hft.Websocket.Dialer.Loop.{read, read_loop, round, read_part, read_data, frame_type, fuel_of}
use go_hft.Websocket.Dialer.Masking.{xor_from_twice, length-xor_from, key_of-IsBytes}
use go_hft.Websocket.Dialer.Resume.{read-fresh}
use go_hft.Websocket.Dialer.Header.{live, read_full-append, read_header-build}

-- The bytes of a frame.
frame_bytes : ℕ → Bytes → Bytes → Bytes
frame_bytes op key payload =
    (bit_or 0x80 op ∷ build_length_header (length payload) true key) ++ xor_from key 0 payload

read_payload_masked :
    (key payload rest : Bytes) (c : WsConn)
    → IsBytes key
    → IsBytes payload
    → read_payload (length payload) true key (live c (xor_from key 0 payload ++ rest))
      ≡ ok payload (live c rest)
unfolding read_payload
read_payload_masked key payload rest c h g =
    rw
      (read_full-append (length payload) (xor_from key 0 payload) rest c
        (length-xor_from key 0 payload))
      (rw (xor_from_twice key 0 payload h g))

-- A frame that holds a whole message is the answer of the loop.
module _ (op : ℕ) (small : op < 16) (is_data : is_control op ≡ false) (type : frame_type 0 op ≡ op)
    (some_type : (op == 0) ≡ false) where
  read_loop-frame :
      (fuel n : ℕ) (key payload rest : Bytes) (c : WsConn)
      → IsBytes key
      → length key ≡ 4
      → IsBytes payload
      → length payload ≤ n
      → length payload ≤ max_payload_len
      → read_loop (suc fuel) n [] 0 (live c (frame_bytes op key payload ++ rest))
        ≡ ok (payload, op) (live c rest)
  unfolding read_loop frame_bytes round read_part read_data
  read_loop-frame fuel n key payload rest c hk lk hp fits max =
      let room : ltb n (0 + length payload) ≡ false = ground arith in
      let ctl : (not (is_control op) || leb (length payload) 125) ≡ true = rw is_data in
      rw (
        append_assoc (build_length_header (length payload) true key) (xor_from key 0 payload) rest,
        read_header-build op (length payload) key (xor_from key 0 payload ++ rest) c small max lk
            ctl,
        is_data,
        type,
        some_type,
        room,
        read_payload_masked key payload rest c hk hp,
      )

-- An open connection that has written nothing yet.
abbrev pub unwritten : WsConn → WsConn
unwritten c = record c { broken = false; written = [] }

mask_after : ℕ → ℕ
mask_after m = if xorshift m == 0 then fallback_mask else xorshift m

length-key_of : (mask : ℕ) → length (key_of mask) ≡ 4
unfolding key_of
length-key_of mask = refl

framed : ℕ → Bytes → WsConn → WsConn
framed op payload c = record c {
  broken = false;
  mask = mask_after c.mask;
  written = frame_bytes op (key_of (mask_after c.mask)) payload;
}

written_frame :
    (op : ℕ) (payload : Bytes) (c : WsConn)
    → write_frame op payload (unwritten c) ≡ ok tt (framed op payload c)
unfolding write_frame frame_bytes next_mask write xor_from framed mask_after
written_frame op [] c = rw append-nil
written_frame op (b ∷ bs) c = ground arith

written_message :
    (t : MessageType) (payload : Bytes) (c : WsConn)
    → (t ≡ message_text) ⊎ (t ≡ message_binary)
    → write_message t payload (unwritten c) ≡ ok tt (framed t payload c)
unfolding write_message message_type_to_opcode
written_message t payload c (inl e) = rw e (written_frame 1 payload c)
written_message t payload c (inr e) = rw e (written_frame 2 payload c)

read-framed :
    (op n : ℕ) (payload rest : Bytes) (c d : WsConn)
    → (op ≡ 1) ⊎ (op ≡ 2)
    → IsBytes payload
    → length payload ≤ n
    → length payload ≤ max_payload_len
    → read_loop
        (suc (length (frame_bytes op (key_of (mask_after c.mask)) payload ++ rest)))
        n
        []
        0
        (live d (frame_bytes op (key_of (mask_after c.mask)) payload ++ rest))
      ≡ ok (payload, op) (live d rest)
unfolding frame_type opcode_to_message_type is_control
read-framed op n payload rest c d (inl e) h fits max = rw e (
    read_loop-frame 1 (omega arith) refl refl refl _ n (key_of (mask_after c.mask)) payload rest d
      (key_of-IsBytes _) (length-key_of _) h fits max)
read-framed op n payload rest c d (inr e) h fits max = rw e (
    read_loop-frame 2 (omega arith) refl refl refl _ n (key_of (mask_after c.mask)) payload rest d
      (key_of-IsBytes _) (length-key_of _) h fits max)

-- A text or binary message that an open connection writes is read back by another as one message of
-- that type and those bytes, the input behind it left as it is: the write succeeds, and the read
-- does, with a buffer of at least that size and a message of at most 2^31 - 1 bytes.
pub read-write_message :
    (t : MessageType) (n : ℕ) (payload rest : Bytes) (c d : WsConn)
    → (t ≡ message_text) ⊎ (t ≡ message_binary)
    → IsBytes payload
    → length payload ≤ n
    → length payload ≤ max_payload_len
    → d.pending ≡ none
    → (c' : WsConn) × (write_message t payload (unwritten c) ≡ ok tt c')
      × (read n (live d (c'.written ++ rest)) ≡ ok (payload, t) (live d rest))
unfolding framed fuel_of
read-write_message t n payload rest c d o h fits max e = (
  framed t payload c,
  written_message t payload c o,
  read-fresh n _ e ∙ read-framed t n payload rest c d o h fits max,
)
