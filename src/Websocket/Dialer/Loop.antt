-- ===== src/Websocket/Dialer/Loop.antt =====
-- libs/shared/websocket/dialer.go, wsConn.Read: the loop that puts a message together, and the
-- frame that it sets aside when `dst` is too small.
use go_hft.Prelude.{
  ℕ, zero, suc, ◌+◌, none, some, [], ◌++◌, ltb, leb, ◌==◌, if◌then◌else◌, length, Bytes, not,
}
use go_hft.Websocket.Types.{MessageType}
use go_hft.Websocket.Dialer.Socket.{
  frame_too_large, protocol, eof, out_of_fuel, PendingRead, WsConn, err, M, pure, bind, ◌>>=◌, ◌>>◌,
  guard, op_continuation, op_close, op_ping, op_pong, opcode_to_message_type,
}
use go_hft.Websocket.Dialer.Reader.{Header, is_control, read_header, read_payload}
use go_hft.Websocket.Dialer.Writer.{write_frame, ignore}

-- A control frame in the read loop: a ping is answered, a close ends the stream.
unfoldable pub read_control : Header → M (Unit {0})
unfolding read_payload write_frame ignore
read_control h = do
  guard (leb h.payload_len 125) protocol
  ctrl ← read_payload h.payload_len h.masked h.mask_key
  if h.opcode == op_ping then ignore (write_frame op_pong ctrl) else pure tt
  guard (not (h.opcode == op_close)) eof

-- The type of the message that a data frame belongs to; a continuation keeps the type so far.
unfoldable pub frame_type : MessageType → ℕ → MessageType
unfolding opcode_to_message_type
frame_type msg_type opcode =
    if opcode == op_continuation then msg_type else opcode_to_message_type opcode

-- `stashPending` and the error that goes with it.
unfoldable pub stash : Bytes → MessageType → Header → M Bytes
stash got msg_type h c = err frame_too_large (record c {
  pending = some (record {
    got = got;
    msg_type = msg_type;
    fin = h.fin;
    masked = h.masked;
    mask_key = h.mask_key;
    payload_len = h.payload_len;
  });
})

-- A data frame: its payload behind what there is, if `dst` has room, else the stash.
unfoldable pub read_data : ℕ → Bytes → MessageType → Header → M Bytes
unfolding read_payload stash
read_data dst_len got msg_type h =
    if ltb dst_len (length got + h.payload_len)
    then stash got msg_type h
    else do bytes ← read_payload h.payload_len h.masked h.mask_key; pure (got ++ bytes)

-- The round of a data frame; `more` is the loop on what has been read, and the type of the message.
unfoldable pub read_part :
    ℕ
    → Bytes
    → MessageType
    → Header
    → (Bytes → MessageType → M (Bytes × MessageType))
    → M (Bytes × MessageType)
unfolding read_data frame_type
read_part dst_len got msg_type h more = do
  let t = frame_type msg_type h.opcode
  guard (not (t == 0)) protocol
  all ← read_data dst_len got t h
  if h.fin then pure (all, t) else more all t

-- The round of a frame whose header is read; `loop` is the rest of the loop.
unfoldable pub round :
    ℕ
    → Bytes
    → MessageType
    → (Bytes → MessageType → M (Bytes × MessageType))
    → Header
    → M (Bytes × MessageType)
round dst_len got msg_type loop h =
    if is_control h.opcode
    then (read_control h >> loop got msg_type)
    else read_part dst_len got msg_type h loop

-- The `for` loop of `Read`.
unfoldable pub read_loop : ℕ → ℕ → Bytes → MessageType → M (Bytes × MessageType)
unfolding round
read_loop zero dst_len got msg_type c = err out_of_fuel c
read_loop (suc fuel) dst_len got msg_type c =
    bind (read_header c) (round dst_len got msg_type (λ all t. read_loop fuel dst_len all t))

-- Every round takes two bytes or more, so the bytes to come are fuel enough.
unfoldable pub fuel_of : WsConn → ℕ
fuel_of c = suc (length c.incoming)

-- Resuming a stashed frame.
unfoldable pub resume : ℕ → PendingRead → M (Bytes × MessageType)
unfolding read_payload read_loop
resume dst_len p = do
  bytes ← read_payload p.payload_len p.masked p.mask_key
  let all = p.got ++ bytes
  if p.fin then pure (all, p.msg_type) else (λ c. read_loop (fuel_of c) dst_len all p.msg_type c)

unfoldable pub read : ℕ → M (Bytes × MessageType)
unfolding read_loop fuel_of resume
read dst_len c = elim c.pending [
  | none ↦ read_loop (fuel_of c) dst_len [] 0 c
  | some p ↦
      if ltb dst_len (length p.got + p.payload_len)
      then err frame_too_large c
      else resume dst_len p (record c { pending = none })
]
