-- ===== src/Websocket.antt =====
-- libs/shared/websocket: the pieces of the websocket client, one module each.
pub mod Types
pub mod BufferPool
pub mod Subscriptions
pub mod Frames
pub mod Router
pub mod Manager
pub mod Queue
pub mod Dialer
pub mod Writer
pub mod Session
