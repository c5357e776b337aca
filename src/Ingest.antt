-- ===== src/Ingest.antt =====
-- bundle/internal/ingest: the market data service.
pub mod Decimal
pub mod Text
pub mod Binance
pub mod Btcc
pub mod Usecase
