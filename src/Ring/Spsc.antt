-- ===== src/Ring/Spsc.antt =====
-- One producer and one consumer on a BT_SPSC ring: every load and store is a step of its own, in
-- any interleaving. Acquire and release order the buffer's accesses, so memory is taken as
-- sequentially consistent.
mod Steps
mod Safety
unfoldable pub use Steps.*
pub use Safety.*
