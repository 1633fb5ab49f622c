-- ===== src/Memory/Tests.antt =====
-- Runs of the tiers and of the arena of huge pages, and the instances of their theorems.
use aspira_broker.Prelude.{ℕ, ◌*◌, ◌%◌, ◌≡◌, refl, arith, false, none, some, [], ◌∷◌}
use aspira_broker.Slab.{Slab}
use aspira_broker.Slab
use aspira_broker.Slab.Blocks.{IsPlaced, reset-IsSlab, addresses}
use aspira_broker.Slab.Trace.{Valid}
use aspira_broker.Memory.HugePages.{
  HugePage, huge_page, page_aligned, pieces, IsArena, AllPaged, pieces-Between,
}
use aspira_broker.Memory.HugePages
use aspira_broker.Memory.Tiers.{
  hot, warm, Tiers, alloc, alloc_warm, alloc_cold, alloc_hot, classify,
}
use aspira_broker.Memory.Tiers.Bounds.{alloc_hot-classify}

-- Four huge pages.
abbrev four_pages : HugePage
four_pages = record { base = 64 * 2097152; total_size = 4 * 2097152; offset = 0; use_1gb = false }

four_pages-IsArena : IsArena four_pages
four_pages-IsArena = record {
  whole = omega arith;
  paged = omega arith;
  within = omega arith;
  ends = omega arith;
  based = omega arith;
}

-- One byte takes a page, and a page and a byte take two.
two_pieces :
    pieces four_pages (1 ∷ 2097153 ∷ 4194304 ∷ []) ≡ (134217728, 1) ∷ (136314880, 2097153) ∷ []
unfolding pieces HugePages.alloc
two_pieces = refl

-- A hot slab of two blocks.
abbrev raw : Slab
raw = record {
  base = 4096;
  block_size = 64;
  num_blocks = 2;
  aligned_size = 64;
  free_list = 0;
  alloc_count = 0;
  free_count = 0;
  words = λ _. 0;
}

raw-IsPlaced : IsPlaced raw
raw-IsPlaced = record {
  base_pos = omega arith;
  size_pos = omega arith;
  ends = omega arith;
  count_32 = omega arith;
}

tiers : Tiers
tiers = record {
  hot_slabs = λ _. Slab.reset raw;
  num_hot = 2;
  hot_next = 5;
  warm_pool = 65536;
  warm_size = 128;
  warm_offset = 0;
  hot_allocs = 0;
  warm_allocs = 0;
  cold_allocs = 0;
  hot_bytes = 0;
  warm_bytes = 0;
  cold_bytes = 0;
}

fresh-Valid : Valid (tiers.hot_slabs (tiers.hot_next % tiers.num_hot)) []
unfolding tiers
fresh-Valid = record { frees = addresses 4096 64 2; valid = reset-IsSlab raw raw-IsPlaced }

-- A hot allocation of 1000 bytes gets a block of 64 bytes.
short_block : (alloc tiers hot 1000 none).0 ≡ some 4160
unfolding tiers alloc alloc_hot Slab.alloc Slab.reset Slab.link_blocks
short_block = refl

-- After a warm allocation that does not fit, not even one byte is left.
warm_gone : (alloc (alloc tiers warm 129 none).1 warm 1 (some 7)).0 ≡ some 7
unfolding tiers alloc alloc_warm alloc_cold
warm_gone = refl

alloc_hot-classify_example :
    (p : ℕ) × ((alloc tiers hot 64 none).0 ≡ some p)
    × (classify (alloc tiers hot 64 none).1 p ≡ hot)
unfolding tiers Slab.reset Slab.link_blocks
alloc_hot-classify_example =
    alloc_hot-classify tiers 64 none [] (omega arith) (omega arith) fresh-Valid (omega arith)
