-- ===== src/Arena.antt =====
-- src/utils/memory_pool.c: the arenas of the memory pool. A pointer is its address, and the list of
-- freed order nodes, which the nodes link themselves, is the list of their addresses. `x & ~63` is
-- written as `x / 64 * 64`.
pub mod Blocks
pub mod Carving
mod Tests
use aspira_broker.Prelude.{
  ℕ, ◌+◌, ◌-◌, ◌*◌, ◌/◌, ◌%◌, ◌^◌, Option, none, some, List, [], ◌∷◌, ltb, if◌then◌else◌, size_add,
}

abbrev pub cache_line_size : ℕ
cache_line_size = 64

-- sizeof(bt_order_node_t).
abbrev pub order_node_size : ℕ
order_node_size = 80

-- bt_mempool_arena_t. The two counters are 32 bits wide.
pub record Arena : Type 0 where
  pub base : ℕ
  pub size : ℕ
  pub offset : ℕ
  pub free_orders : List ℕ
  pub alloc_count : ℕ
  pub free_count : ℕ

abbrev pub add_32 : ℕ → ℕ → ℕ
add_32 a b = (a + b) % 2 ^ 32

-- A size rounded up to whole cache lines.
abbrev pub cache_aligned : ℕ → ℕ
cache_aligned size = size_add size (cache_line_size - 1) / cache_line_size * cache_line_size

-- bt_mempool_alloc.
unfoldable pub alloc : Arena → ℕ → Option ℕ × Arena
alloc arena size =
    let rounded = cache_aligned size in
    if ltb arena.size (size_add arena.offset rounded) then (none, arena) else (
      some (size_add arena.base arena.offset),
      record arena {
        offset = size_add arena.offset rounded;
        alloc_count = add_32 arena.alloc_count 1;
      },
    )

-- bt_mempool_alloc_order; the node that it returns is zeroed.
unfoldable pub alloc_order : Arena → Option ℕ × Arena
unfolding alloc
alloc_order arena = elim arena.free_orders [
  | [] ↦ alloc arena order_node_size
  | node ∷ rest ↦ (
    some node,
    record arena {
      free_orders = rest;
      alloc_count = add_32 arena.alloc_count 1;
      free_count = add_32 arena.free_count (2 ^ 32 - 1);
    },
  )
]

-- bt_mempool_free_order.
unfoldable pub free_order : Arena → ℕ → Arena
free_order arena node = record arena {
  free_orders = node ∷ arena.free_orders;
  free_count = add_32 arena.free_count 1;
}

-- bt_mempool_arena_reset.
unfoldable pub arena_reset : Arena → Arena
arena_reset arena = record arena { offset = 0; free_orders = []; alloc_count = 0; free_count = 0 }

-- bt_mempool_arena_stats: what is in use, the size, and the two counters.
unfoldable pub arena_stats : Arena → ℕ × ℕ × ℕ × ℕ
arena_stats arena = (arena.offset, arena.size, arena.alloc_count, arena.free_count)
