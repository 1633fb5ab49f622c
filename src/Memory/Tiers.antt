-- ===== src/Memory/Tiers.antt =====
-- src/utils/memory_tier.c: memory from the hot slabs, the warm pool or the heap. What calloc and
-- bt_numa_alloc_local answer is a parameter. An int is
-- its 32 bits. The array of slabs gives the slab that stands at any 64-bit index, which outside of
-- the array is whatever memory holds there.
pub mod Bounds
use aspira_broker.Prelude.{
  ℕ, zero, suc, ◌+◌, ◌-◌, ◌*◌, ◌/◌, ◌%◌, ◌^◌, Bool, true, false, ◌&&◌, ◌||◌, not, Option, none,
  some, leb, ltb, ◌==◌, if◌then◌else◌, size_add, size_mod, Buffer, write,
}
use aspira_broker.Arena.{cache_aligned}
use aspira_broker.Slab.{Slab}
use aspira_broker.Slab

-- bt_tier_t.
pub data Tier : Type 0 where
  hot : Tier
  warm : Tier
  cold : Tier

-- The static variables of the file: the slabs, the warm pool and the statistics.
pub record Tiers : Type 0 where
  pub hot_slabs : Buffer Slab
  pub num_hot : ℕ
  pub hot_next : ℕ
  pub warm_pool : ℕ
  pub warm_size : ℕ
  pub warm_offset : ℕ
  pub hot_allocs : ℕ
  pub warm_allocs : ℕ
  pub cold_allocs : ℕ
  pub hot_bytes : ℕ
  pub warm_bytes : ℕ
  pub cold_bytes : ℕ

-- The last case of bt_tier_alloc; `heap` is what calloc answers.
unfoldable pub alloc_cold : Tiers → ℕ → Option ℕ → Option ℕ × Tiers
alloc_cold t size heap = (
  heap,
  record t { cold_allocs = size_add t.cold_allocs 1; cold_bytes = size_add t.cold_bytes size },
)

-- The case before, which falls through. The offset moves whether the block fits or not.
unfoldable pub alloc_warm : Tiers → ℕ → Option ℕ → Option ℕ × Tiers
alloc_warm t size heap =
    let aligned = cache_aligned size in
    let my_offset = t.warm_offset in
    let moved = record t { warm_offset = size_add my_offset aligned } in
    if t.warm_pool == 0
    then alloc_cold t size heap
    else if leb (size_add my_offset aligned) t.warm_size
    then (
      some (size_add t.warm_pool my_offset),
      record moved {
        warm_allocs = size_add t.warm_allocs 1;
        warm_bytes = size_add t.warm_bytes size;
      },
    )
    else alloc_cold moved size heap

-- The remainder of the counter, an int, as an index: where the counter is negative, so is the
-- remainder, unless it is 0.
abbrev pub hot_index : Tiers → ℕ
hot_index t =
    if ltb t.hot_next (2 ^ 31)
    then t.hot_next % t.num_hot
    else (size_mod - (2 ^ 32 - t.hot_next) % t.num_hot) % size_mod

-- The first case, which falls through where the slab whose turn it is has no block.
unfoldable pub alloc_hot : Tiers → ℕ → Option ℕ → Option ℕ × Tiers
alloc_hot t size heap =
    let idx = hot_index t in
    let (ptr, slab) = Slab.alloc (t.hot_slabs idx) in
    let turned = record t {
      hot_next = (t.hot_next + 1) % 2 ^ 32;
      hot_slabs = write t.hot_slabs idx slab;
    } in
    if t.num_hot == 0 then alloc_warm t size heap else elim ptr [
      | none ↦ alloc_warm turned size heap
      | some p ↦ (
        some p,
        record turned {
          hot_allocs = size_add t.hot_allocs 1;
          hot_bytes = size_add t.hot_bytes size;
        },
      )
    ]

-- bt_tier_alloc.
unfoldable pub alloc : Tiers → Tier → ℕ → Option ℕ → Option ℕ × Tiers
alloc t hot size heap = alloc_hot t size heap
alloc t warm size heap = alloc_warm t size heap
alloc t cold size heap = alloc_cold t size heap

-- Whether a slab's memory has the address.
abbrev pub is_in_slab : Slab → ℕ → Bool
is_in_slab slab p =
    leb slab.base p && ltb p (size_add slab.base (slab.num_blocks * slab.aligned_size % size_mod))

-- The first slab from `i` on that has the address, of `n` more.
unfoldable pub find_slab : Tiers → ℕ → ℕ → ℕ → Option ℕ
find_slab t p i zero = none
find_slab t p i (suc n) =
    let rest = find_slab t p (i + 1) n in if is_in_slab (t.hot_slabs i) p then some i else rest

-- bt_tier_free, with the pointer that it passes to free().
unfoldable pub free : Tiers → Tier → ℕ → Option ℕ × Tiers
free t tier ptr = if ptr == 0 then (none, t) else elim tier [
  | hot ↦ elim (find_slab t ptr 0 t.num_hot) [
    | none ↦ (none, t)
    | some i ↦ (none, record t { hot_slabs = write t.hot_slabs i (Slab.free (t.hot_slabs i) ptr) })
  ]
  | warm ↦ (none, t)
  | cold ↦ (some ptr, t)
]

-- bt_tier_classify.
unfoldable pub classify : Tiers → ℕ → Tier
classify t ptr = if ptr == 0 then cold else elim (find_slab t ptr 0 t.num_hot) [
  | some i ↦ hot
  | none ↦
      if not (t.warm_pool == 0) && leb t.warm_pool ptr && ltb ptr (size_add t.warm_pool t.warm_size)
      then warm
      else cold
]

-- The loop of bt_tier_init: the first `n` slabs, over what bt_numa_alloc_local answers for each.
unfoldable pub init_hot : (ℕ → Option ℕ) → Buffer ℕ → ℕ → Buffer Slab → ℕ → Option (Buffer Slab)
init_hot answers words per_slab slabs zero = some slabs
init_hot answers words per_slab slabs (suc n) = elim (init_hot answers words per_slab slabs n) [
  | none ↦ none
  | some before ↦ elim (answers n) [
    | none ↦ none
    | some mem ↦ elim (Slab.init words mem per_slab 64) [
      | none ↦ none
      | some slab ↦ some (write before n slab)
    ]
  ]
]

-- bt_tier_init once calloc has given room for the slabs, where none stands for -1. `answers 8` is the
-- answer for the warm pool.
unfoldable pub init : (ℕ → Option ℕ) → Buffer ℕ → Buffer Slab → ℕ → ℕ → ℕ → Option Tiers
init answers words slabs hot_next hot_pool_mb warm_pool_mb =
    let per_slab = hot_pool_mb * 1024 * 1024 % size_mod / 8 in
    elim (init_hot answers words per_slab slabs 8) [
      | none ↦ none
      | some ready ↦ elim (answers 8) [
        | none ↦ none
        | some pool ↦ some record {
          hot_slabs = ready;
          num_hot = 8;
          hot_next = hot_next;
          warm_pool = pool;
          warm_size = warm_pool_mb * 1024 * 1024 % size_mod;
          warm_offset = 0;
          hot_allocs = 0;
          warm_allocs = 0;
          cold_allocs = 0;
          hot_bytes = 0;
          warm_bytes = 0;
          cold_bytes = 0;
        }
      ]
    ]
