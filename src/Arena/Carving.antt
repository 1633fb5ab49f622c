-- ===== src/Arena/Carving.antt =====
-- src/utils/memory_pool.c: the pool, which is cut into arenas, and how they are handed out.
pub mod Partition
use aspira_broker.Prelude.{
  ℕ, zero, suc, ◌+◌, ◌-◌, ◌*◌, ◌/◌, ◌%◌, Bool, true, false, ◌||◌, Option, none, some, List, [], ◌∷◌,
  ltb, ◌==◌, if◌then◌else◌, size_add, size_sub, size_mod,
}
use aspira_broker.Arena.{Arena}

-- sizeof(bt_mempool_arena_t).
abbrev pub arena_bytes : ℕ
arena_bytes = 64

-- bt_mempool_t, less `offset`, which nothing reads; `arenas` is the array that `arenas_at` points to.
pub record MemPool : Type 0 where
  pub base : ℕ
  pub total_size : ℕ
  pub arena_counter : ℕ
  pub num_arenas : ℕ
  pub arenas_at : ℕ
  pub arenas : List Arena
  pub hugepage : Bool

-- The loop that sets up the arenas, from number `i` on with `n` left.
unfoldable pub carve : ℕ → ℕ → ℕ → ℕ → List Arena
carve base arena_size i zero = []
carve base arena_size i (suc n) =
    record {
      base = size_add base (i * arena_size % size_mod);
      size = arena_size;
      offset = 0;
      free_orders = [];
      alloc_count = 0;
      free_count = 0;
    }
    ∷ carve base arena_size (i + 1) n

-- bt_mempool_init, where none stands for -1; the first two arguments are what
-- bt_cpu_alloc_hugepages and posix_memalign give. A negative number of arenas is refused as 0 is.
unfoldable pub init : Option ℕ → Option ℕ → ℕ → ℕ → Bool → Option MemPool
init huge usual total num use_hugepages =
    let memory = if use_hugepages then huge else usual in
    let usable = size_sub total (num * arena_bytes % size_mod) in
    let arena_size = usable / num / 4096 * 4096 in
    if total == 0 || ltb num 1 then none else (elim memory [
      | none ↦ none
      | some base ↦ some (record {
        base = base;
        total_size = total;
        arena_counter = 0;
        num_arenas = num;
        arenas_at = size_add base usable;
        arenas = carve base arena_size 0 num;
        hugepage = use_hugepages;
      })
    ])

-- How the memory of a pool is given back: bt_cpu_free_hugepages or free.
pub data Release : Type 0 where
  unmaps : ℕ → ℕ → Release
  frees : ℕ → Release

-- bt_mempool_destroy, on a pool that is set up.
unfoldable pub destroy : MemPool → Release × MemPool
destroy pool = (
  if pool.hugepage then unmaps pool.base pool.total_size else frees pool.base,
  record {
    base = 0;
    total_size = 0;
    arena_counter = 0;
    num_arenas = 0;
    arenas_at = 0;
    arenas = [];
    hugepage = false;
  },
)

-- bt_mempool_assign_arena: the number of the arena.
unfoldable pub assign_arena : MemPool → ℕ × MemPool
assign_arena pool = (
  pool.arena_counter % pool.num_arenas,
  record pool { arena_counter = size_add pool.arena_counter 1 },
)

-- bt_mempool_get_arena, with the calling thread's tls_arena.
unfoldable pub get_arena : Option ℕ → MemPool → ℕ × Option ℕ × MemPool
get_arena tls pool = elim tls [
  | some id ↦ (id, some id, pool)
  | none ↦ let (id, pool') = assign_arena pool in (id, some id, pool')
]
