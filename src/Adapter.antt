-- ===== src/Adapter.antt =====
-- libs/adapter: the data that the services exchange.
pub mod Common
pub mod Enum
pub mod Symbol
pub mod Str64
pub mod Order
pub mod Ingest
