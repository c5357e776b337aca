-- ===== src/Websocket/Dialer/Socket.antt =====
-- libs/shared/websocket/dialer.go: the socket, its errors, opcodes and big-endian numbers, and the
-- monad of the calls on it.
use go_hft.Prelude.{
  ℕ, zero, suc, ◌+◌, ◌-◌, ◌*◌, ◌/◌, ◌%◌, ◌^◌, Bool, true, false, Option, [], ◌∷◌, ◌++◌, leb, ◌==◌,
  if◌then◌else◌, length, take, drop, Bytes,
}
use go_hft.Websocket.Types.{
  MessageType, message_text, message_binary, message_close, message_ping, message_pong,
}

-- `out_of_fuel` is the model's own.
pub data WsError : Type 0 where
  frame_too_large protocol eof unexpected_eof conn_error out_of_fuel : WsError

pub record PendingRead : Type 0 where
  pub got : Bytes
  pub msg_type : MessageType
  pub fin : Bool
  pub masked : Bool
  pub mask_key : Bytes
  pub payload_len : ℕ

pub record WsConn : Type 0 where
  pub incoming : Bytes
  pub written : Bytes
  pub broken : Bool
  pub mask : ℕ
  pub pending : Option PendingRead

pub data Result (A : Type 0) : Type 0 where
  ok : A → WsConn → Result A
  err : WsError → WsConn → Result A

abbrev pub M : Type 0 → Type 0
M A = WsConn → Result A

abbrev pub pure : {A : Type 0} → A → M A
pure a c = ok a c

abbrev pub bind : {A B : Type 0} → Result A → (A → M B) → Result B
bind (ok a c) f = f a c
bind (err e c) f = err e c

infixl 5 ◌>>=◌ ◌>>◌
abbrev pub ◌>>=◌ : {A B : Type 0} → M A → (A → M B) → M B
◌>>=◌ m f c = bind (m c) f

abbrev pub ◌>>◌ : {B : Type 0} → M (Unit {0}) → M B → M B
m >> k = m >>= λ _. k

abbrev pub guard : Bool → WsError → M (Unit {0})
guard true e c = ok tt c
guard false e c = err e c

-- `setReadDeadline` and `setWriteDeadline`
abbrev pub set_deadline : M (Unit {0})
set_deadline c = if c.broken then err conn_error c else ok tt c

-- `io.ReadFull` of n bytes: what there is of a short input is consumed.
unfoldable pub read_full : ℕ → M Bytes
read_full n c =
    if leb n (length c.incoming)
    then ok (take n c.incoming) (record c { incoming = drop n c.incoming })
    else err (if length c.incoming == 0 then eof else unexpected_eof) (record c { incoming = [] })

-- `conn.Write`
unfoldable pub write : Bytes → M (Unit {0})
write bytes c =
    if c.broken then err conn_error c else ok tt (record c { written = c.written ++ bytes })

abbrev pub op_continuation : ℕ
op_continuation = 0x0

abbrev pub op_text : ℕ
op_text = 0x1

abbrev pub op_binary : ℕ
op_binary = 0x2

abbrev pub op_close : ℕ
op_close = 0x8

abbrev pub op_ping : ℕ
op_ping = 0x9

abbrev pub op_pong : ℕ
op_pong = 0xa

-- 0 for a type that has no opcode.
unfoldable pub message_type_to_opcode : MessageType → ℕ
message_type_to_opcode t =
    if t == message_text
    then op_text
    else if t == message_binary
    then op_binary
    else if t == message_ping
    then op_ping
    else if t == message_pong
    then op_pong
    else if t == message_close
    then op_close
    else 0

unfoldable pub opcode_to_message_type : ℕ → MessageType
opcode_to_message_type opcode =
    if opcode == op_text then message_text else if opcode == op_binary then message_binary else 0

abbrev pub max_payload_len : ℕ
max_payload_len = 2 ^ 31 - 1

-- `binary.BigEndian`
unfoldable pub be : ℕ → Bytes → ℕ
be acc [] = acc
be acc (b ∷ bs) = be (acc * 256 + b) bs

unfoldable pub put_be : ℕ → ℕ → Bytes
put_be zero v = []
put_be (suc n) v = put_be n (v / 256) ++ (v % 256) ∷ []
