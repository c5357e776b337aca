-- ===== src/Ingest/Binance.antt =====
-- bundle/internal/ingest/binance: the codec of topics and the decoder of market data.
pub mod Payload
pub mod Decode
pub mod Codec
