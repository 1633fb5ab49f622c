-- ===== src/Arena/Tests.antt =====
-- Runs of an arena, and its theorem at a concrete input.
use aspira_broker.Prelude.{◌+◌, ◌*◌, ◌≡◌, refl, arith, true, none, some, [], ◌∷◌, length}
use aspira_broker.Arena.Carving
use aspira_broker.Arena.Carving.{MemPool, arena_bytes, unmaps, carve}
use aspira_broker.Arena.Carving.Partition.{spans, AllEmpty, init-Between}
use aspira_broker.Arena.{Arena, alloc, alloc_order, free_order, arena_reset, arena_stats}
use aspira_broker.Arena.Blocks.{blocks, Between, blocks-Between}

abbrev arena : Arena
arena = record {
  base = 4096;
  size = 256;
  offset = 0;
  free_orders = [];
  alloc_count = 0;
  free_count = 0;
}

-- A freed node is handed out again.
reused : (alloc_order (free_order (alloc_order arena).1 4096)).0 ≡ some 4096
unfolding alloc alloc_order free_order
reused = refl

counted : arena_stats (alloc arena 70).1 ≡ (128, 256, 1, 0)
unfolding alloc arena_stats
counted = refl

-- A size near 2 ^ 64 wraps to nothing and is granted.
wrapped : (alloc arena 18446744073709551615).0 ≡ some 4096
unfolding alloc
wrapped = refl

reset-fresh : arena_reset (alloc_order arena).1 ≡ arena
unfolding alloc alloc_order arena_reset
reset-fresh = refl

-- The third call does not fit any more.
blocks-Between_example : Between 4096 4352 (blocks arena (100 ∷ 60 ∷ 80 ∷ 10 ∷ []))
blocks-Between_example =
    blocks-Between arena (100 ∷ 60 ∷ 80 ∷ 10 ∷ []) (omega arith) (omega arith)
      (omega arith, (omega arith, (omega arith, (omega arith, tt))))

-- A pool of three arenas in four pages: an arena has one page, and the array is at the end.
three_arenas :
    (pool : MemPool) × (Carving.init (some 8192) none 16384 3 true ≡ some pool)
    × (spans pool.arenas ≡ (8192, 4096) ∷ (12288, 4096) ∷ (16384, 4096) ∷ [])
    × (pool.arenas_at ≡ 24384)
    × ((Carving.destroy pool).0 ≡ unmaps 8192 16384)
unfolding Carving.init carve Carving.destroy
three_arenas = (_, refl, refl, refl, refl)

init-Between_example :
    (pool : MemPool) × (Carving.init (some 8192) none 16384 3 true ≡ some pool)
    × Between 8192 pool.arenas_at (spans pool.arenas)
    × (pool.arenas_at + 3 * arena_bytes ≡ 8192 + 16384)
    × (length pool.arenas ≡ 3)
    × AllEmpty pool.arenas
init-Between_example =
    init-Between (some 8192) none 8192 16384 3 true refl (omega arith) (omega arith) (omega arith)

abbrev pool : MemPool
pool = record {
  base = 8192;
  total_size = 16384;
  arena_counter = 0;
  num_arenas = 3;
  arenas_at = 24384;
  arenas = [];
  hugepage = true;
}

-- A thread that has an arena keeps it.
cached : (Carving.get_arena (some 2) pool).0 ≡ 2
unfolding Carving.get_arena
cached = refl
