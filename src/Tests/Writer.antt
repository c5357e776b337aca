-- ===== src/Tests/Writer.antt =====
-- A run of the outgoing queue (libs/shared/websocket/writer.go).
use go_hft.Prelude.{◌≡◌, true, false, some, [], ◌∷◌, arith}
use go_hft.Websocket.Types.{overflow_drop_oldest}
use go_hft.Websocket.Queue.Fifo as Fifo
use go_hft.Websocket.Writer.{Writer, enqueue}
use go_hft.Websocket.Writer.Refine.{enqueue-refines}

abbrev full_writer : Writer
full_writer = record {
  queue = some 1 ∷ some 2 ∷ [];
  capacity = 2;
  policy = overflow_drop_oldest;
  connected = true;
}

enqueue-refines_example :
    Fifo.outcome_map (λ v. v.queue) (enqueue (some 3) full_writer)
    ≡ Fifo.push overflow_drop_oldest false 2 (some 3) (some 1 ∷ some 2 ∷ [])
enqueue-refines_example = enqueue-refines 3 full_writer (omega arith) (omega arith)
