-- ===== src/Tests/Websocket.antt =====
-- Runs of the frame queue (libs/shared/websocket/consumer.go) and of the connection
-- (libs/shared/websocket/dialer.go).
use go_hft.Prelude.{
  ℕ, ◌<◌, ◌^◌, ◌≡◌, ◌≢◌, refl, Bool, true, false, Option, none, some, inl, [], ◌∷◌, ◌++◌, arith,
  codes, Bytes, bit_or,
}
use go_hft.Websocket.Types.{message_text, overflow_drop_oldest}
use go_hft.Websocket.Queue.{FramePtr, FrameQueue, Outcome, push, pop, close}
use go_hft.Websocket.Queue.View.{view, IsValid}
use go_hft.Websocket.Queue.Fifo as Fifo
use go_hft.Websocket.Queue.Steps.{Keeps}
use go_hft.Websocket.Queue.Refine.{push-refines, pop-refines}
use go_hft.Websocket.Queue.Close.{Closes, close_releases}
use go_hft.Websocket.Dialer.Socket.{WsConn, PendingRead, ok, err, frame_too_large, out_of_fuel}
use go_hft.Websocket.Dialer.Reader.{read_header, is_control}
use go_hft.Websocket.Dialer.Writer.{next_mask, build_length_header, write_message}
use go_hft.Websocket.Dialer.Loop.{read, read_part}
use go_hft.Websocket.Dialer.Masking.{next_mask_range}
use go_hft.Websocket.Dialer.Header.{live, read_header-build}
use go_hft.Websocket.Dialer.RoundTrip.{unwritten, read-write_message}
use go_hft.Websocket.Dialer.Resume.{read-resumes}
use go_hft.Websocket.Dialer.Total.{read_total}

-- A full ring that has wrapped around: frame 7 is the oldest.
abbrev full_queue : FrameQueue
full_queue = record {
  buf = some 8 ∷ some 7 ∷ [];
  head = 1;
  tail = 1;
  size = 2;
  closed = false;
  policy = overflow_drop_oldest;
}

full_queue-IsValid : IsValid full_queue
full_queue-IsValid = record {
  room = omega arith;
  head_in = omega arith;
  fits = omega arith;
  tail_at = refl;
  drained = tt;
}

push-refines_example :
    (o : Outcome FrameQueue Bool) × (push (some 9) full_queue ≡ some o)
    × (Fifo.outcome_map view o ≡ Fifo.push overflow_drop_oldest false 2 (some 9) (view full_queue))
    × IsValid (Fifo.state o)
    × Keeps full_queue (Fifo.state o)
push-refines_example = push-refines (some 9) full_queue full_queue-IsValid

pop-refines_example :
    (o : Outcome FrameQueue (Option FramePtr)) × (pop full_queue ≡ some o)
    × (Fifo.outcome_map view o ≡ Fifo.pop false (view full_queue))
    × IsValid (Fifo.state o)
    × Keeps full_queue (Fifo.state o)
pop-refines_example = pop-refines full_queue full_queue-IsValid

close_releases_example : Closes full_queue (close full_queue)
close_releases_example = close_releases full_queue full_queue-IsValid

-- A server's text frame "hi", unmasked.
abbrev hi_frame : Bytes
hi_frame = 0x81 ∷ 2 ∷ codes "hi"

abbrev connection : WsConn
connection = record { incoming = hi_frame; written = []; broken = false; mask = 1; pending = none }

abbrev set_aside : PendingRead
set_aside = record {
  got = [];
  msg_type = message_text;
  fin = true;
  masked = false;
  mask_key = 0 ∷ 0 ∷ 0 ∷ 0 ∷ [];
  payload_len = 2;
}

abbrev stashed : WsConn
stashed = record {
  incoming = codes "hi";
  written = [];
  broken = false;
  mask = 1;
  pending = some set_aside;
}

too_large : read 1 connection ≡ err frame_too_large stashed
unfolding read read_header read_part
too_large = refl

read-resumes_example : read 4 stashed ≡ read 4 connection
read-resumes_example =
    read-resumes 1 4 connection stashed set_aside (omega arith) refl too_large refl

read_total_example : read 4 connection ≢ err out_of_fuel stashed
read_total_example = read_total 4 connection stashed

read-write_message_example :
    (c' : WsConn) × (write_message message_text (codes "hi") (unwritten connection) ≡ ok tt c')
    × (read 8 (live connection (c'.written ++ hi_frame))
        ≡ ok (codes "hi", message_text) (live connection hi_frame))
read-write_message_example =
    read-write_message message_text 8 (codes "hi") hi_frame connection connection (inl refl)
      (ground arith) (omega arith) (omega arith) refl

read_header-build_example :
    read_header (
      live connection
        ((bit_or 0x80 1 ∷ build_length_header 2 true (1 ∷ 2 ∷ 3 ∷ 4 ∷ [])) ++ hi_frame))
    ≡ ok
        (record {
          fin = true;
          opcode = 1;
          masked = true;
          mask_key = 1 ∷ 2 ∷ 3 ∷ 4 ∷ [];
          payload_len = 2;
        })
        (live connection hi_frame)
unfolding is_control
read_header-build_example =
    read_header-build 1 2 (1 ∷ 2 ∷ 3 ∷ 4 ∷ []) hi_frame connection (omega arith) (omega arith) refl
      refl

next_mask_range_example :
    (mask : ℕ) × (next_mask connection ≡ ok mask (record connection { mask = mask }))
    × (0 < mask)
    × (mask < 2 ^ 32)
next_mask_range_example = next_mask_range connection (omega arith)
