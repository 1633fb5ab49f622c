-- ===== src/Memory.antt =====
-- src/utils/memory_tier.c and src/utils/hugepage.c: the tiers of memory and the arena of huge pages.
pub mod Tiers
pub mod HugePages
mod Tests
