-- ===== src/Adapter/Ingest.antt =====
-- libs/adapter/ingest.go: what a client of the ingest service asks for.
use go_hft.Prelude.{ℕ, Bytes}
use go_hft.Adapter.Symbol.{Symbol}

pub record IngestRequest : Type 0 where
  pub platform : ℕ
  pub topic : ℕ
  pub symbol : Symbol
  pub api_key : Bytes
