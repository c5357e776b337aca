-- ===== src/Tests.antt =====
-- Runs of the model on concrete inputs, one for each theorem that takes arguments.
pub mod Websocket
pub mod Ingest
pub mod Adapter
pub mod Pool
mod Orders
pub mod Manager
pub mod Writer
pub mod Router
pub mod Btcc
pub mod Usecase
pub mod Session
