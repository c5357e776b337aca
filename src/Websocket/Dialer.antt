-- ===== src/Websocket/Dialer.antt =====
-- libs/shared/websocket/dialer.go, wsConn: the RFC 6455 framing of the client.
-- The socket is the bytes still to be read, the bytes written so far, and whether it still takes
-- calls: on a broken one every deadline call and every write fails, and a stream that ends answers
-- with EOF. A call runs to its end in one step; `Read` returns the payload read in place of the
-- prefix of `dst` that it fills, and takes the length of `dst`.
pub mod Socket
pub mod Reader
pub mod Writer
pub mod Loop
pub mod Masking
pub mod Header
pub mod RoundTrip
pub mod Quiet
pub mod Fuel
pub mod Total
pub mod Stash
pub mod Resume
