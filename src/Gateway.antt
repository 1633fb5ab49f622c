-- ===== src/Gateway.antt =====
-- src/net/gateway.c.
pub mod Bytes
pub mod State
pub mod Orders
pub mod Parse
pub mod Frames
pub mod Send
pub mod Pool
pub mod Loop
pub mod Life
mod Tests
