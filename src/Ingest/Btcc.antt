-- ===== src/Ingest/Btcc.antt =====
-- bundle/internal/ingest/btcc: the reader of its JSON messages, the decoder of market data and the
-- codec of topics.
pub mod Skip
pub mod Params
pub mod Elements
pub mod Fields
pub mod Decode
pub mod Codec
pub mod Unclosed
