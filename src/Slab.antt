-- ===== src/Slab.antt =====
-- src/utils/slab_allocator.c: blocks of one size out of a given memory, the free ones linked through
-- their first words. A pointer is its address, and `words` is what the first words of the blocks
-- hold. The compare-and-exchange of a call succeeds at once, as it does for the single owner that
-- the header of the allocator asks for.
pub mod Defs
pub mod Blocks
pub mod Trace
pub mod Template
mod Tests
unfoldable pub use Defs.*
