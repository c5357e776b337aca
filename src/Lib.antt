-- ===== src/Lib.antt =====
-- go-hft: a model of the trading system's own logic, and what is proved about it.
--
-- The system ingests market data from exchanges over websockets, turns it into fixed-size records, and
-- sends orders. libs/shared/websocket is the client: a Manager keeps sessions, a session dials and reads
-- a connection, finds the topic of a message by a codec, and routes it as a frame to the queues of its
-- consumers. bundle/internal/ingest holds the codecs and the decoders of two exchanges, libs/adapter the
-- records that they fill, libs/shared/scanner the search for fields in a JSON text.
--
-- Prelude: natural numbers with Boolean tests, lists with Go's indexing, byte strings, decimal digits,
--   bits, signed integers, and maps as association lists.
-- Websocket.Queue: libs/shared/websocket/consumer.go. `FrameQueue` is frameQueue; new_frame_queue, push,
--   pop, close and len are its methods; Queue.Consumer is Consumer. Queue.Fifo is what the queue
--   promises, a bounded list; Queue.View reads that list off the ring.
-- Websocket.Dialer: libs/shared/websocket/dialer.go. Socket has the connection and the monad of calls on
--   it, Reader is readHeader and readPayload, Writer is writeFrame, nextMask, buildLengthHeader and
--   Write, Loop is Read with stashPending. The other modules hold proofs.
-- Websocket.BufferPool: libs/shared/websocket/buffer_pool.go, with sync.Pool as an argument that picks a
--   buffer, and the most that the runtime allocates as another. Sizes, Reuse and Handed hold proofs.
-- Websocket.Writer: writer.go there, the queue of outgoing frames, against the same bounded list.
-- Websocket.Frames, Websocket.Router: frame.go and router.go there: the frames with their reference counts
--   and their pool, the consumers of each topic, and Route. Frames.Owners says who holds a reference;
--   Router.Handover is what the router needs of the queue.
-- Websocket.Session: session.go there: control messages, resubscribing, the rounds of run, and the size of
--   the read buffer. Grow, Answers and Resubscribe hold proofs.
-- Websocket.Subscriptions, Websocket.Manager: subscriptions.go and manager.go there; of Subscribe and
--   Unsubscribe what runs under the manager's mutex, on a heap of sessions. Bounded, Sessions and
--   Calls hold proofs.
-- Scanner: libs/shared/scanner/bytes.go.
-- Adapter: libs/adapter, one module for each of common.go, enum, symbol.go, str64.go, ingest.go and
--   orders.
-- Ingest.Decimal, Ingest.Text: numbers in bundle/internal/ingest/binance (payload.go and codec.go).
-- Ingest.Binance: Payload and Decode are payload.go; Codec is codec.go.
-- Ingest.Btcc: Skip, Params, Fields and Decode are payload.go of bundle/internal/ingest/btcc, Codec is its
--   codec.go. Skip.Json has JSON values and their text, against which skipping is proved.
-- Ingest.Usecase: bundle/internal/ingest/usecase.go. Topics is what a call does in a group, Calls has the
--   groups and the calls themselves, over the codecs, the manager and the router.
-- Tests: runs on concrete inputs.
-- Order.Btcc: bundle/internal/order/delegator/btcc: placing and cancelling orders, with the HTTP client, the
--   JSON encoder and MD5 as arguments. Answers and Sorted hold proofs.
--
-- State is passed explicitly. A call under a mutex is one step, and a call that parks on a condition
-- variable is an outcome of its own. Bytes and unsigned words are natural numbers, with the wrap-around
-- written out where the source does not exclude it. A position in a text is the text from there on.
--
-- Fuel: a push takes two rounds, since one drop makes room. Read takes a round for each frame, and a
-- frame has two bytes or more, so that the length of the input is enough. The searches for a field
-- consume their key in each round, so that the length of the text is enough; the rows of a depth message
-- and the skipping of an object or an array likewise.
--
-- Not modelled: the goroutines, timers and contexts of libs/shared/websocket, the handshake of a connection
-- and the backoff; the order use case and the two services; sockets, HTTP, MD5, SHA-1, SHA-256, float64, the
-- clock and `strings.ToLower` are arguments or left out; generated encoders copy memory and are left out.
pub mod Adapter
pub mod Ingest
pub mod Order
pub mod Prelude
pub mod Scanner
pub mod Tests
pub mod Websocket
