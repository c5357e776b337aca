-- ===== src/Websocket/Types.antt =====
-- libs/shared/websocket/types.go: the enumerations that the package shares.
use go_hft.Prelude.{ℕ}

-- `TopicID` is a uint32.
abbrev pub TopicId : Type 0
TopicId = ℕ

-- `MessageType` is a uint8 with the opcodes of RFC 6455 for values.
abbrev pub MessageType : Type 0
MessageType = ℕ

abbrev pub message_text : MessageType
message_text = 1

abbrev pub message_binary : MessageType
message_binary = 2

abbrev pub message_close : MessageType
message_close = 8

abbrev pub message_ping : MessageType
message_ping = 9

abbrev pub message_pong : MessageType
message_pong = 10

pub data FanOutMode : Type 0 where
  fan_out_copy fan_out_shared : FanOutMode

pub data OverflowPolicy : Type 0 where
  overflow_block overflow_drop_newest overflow_drop_oldest : OverflowPolicy
