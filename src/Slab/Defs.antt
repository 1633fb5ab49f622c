-- ===== src/Slab/Defs.antt =====
-- The functions bt_slab_* of src/utils/slab_allocator.c.
use aspira_broker.Prelude.{
  ℕ, zero, suc, ◌-◌, ◌*◌, ◌/◌, ◌%◌, ◌^◌, Bool, ◌||◌, Option, none, some, ltb, leb, ◌==◌,
  if◌then◌else◌, size_add, size_mod, Buffer, write,
}
use aspira_broker.Arena.{cache_aligned, add_32}

-- sizeof(void *).
abbrev pub pointer_size : ℕ
pointer_size = 8

-- bt_slab_t. The two counters are 32 bits wide.
pub record Slab : Type 0 where
  pub base : ℕ
  pub block_size : ℕ
  pub num_blocks : ℕ
  pub aligned_size : ℕ
  pub free_list : ℕ
  pub alloc_count : ℕ
  pub free_count : ℕ
  pub words : Buffer ℕ

-- The size of a block that bt_slab_init computes.
unfoldable pub aligned_block : ℕ → ℕ
aligned_block block_size =
    let rounded = cache_aligned block_size in
    if ltb rounded pointer_size then pointer_size else rounded

-- The address of a block.
abbrev pub block : Slab → ℕ → ℕ
block slab i = size_add slab.base (i * slab.aligned_size % size_mod)

-- One round of the loops that link the blocks.
abbrev pub link_block : ℕ → Slab → Slab
link_block i slab = record slab {
  words = write slab.words (block slab i) slab.free_list;
  free_list = block slab i;
  free_count = add_32 slab.free_count 1;
}

-- The first `n` rounds of these loops.
unfoldable pub link_blocks : ℕ → Slab → Slab
link_blocks zero slab = slab
link_blocks (suc i) slab = link_block i (link_blocks i slab)

-- bt_slab_init over a memory with the given words, where none stands for -1.
unfoldable pub init : Buffer ℕ → ℕ → ℕ → ℕ → Option Slab
init words memory memory_size block_size =
    let aligned_size = aligned_block block_size in
    let num_blocks = memory_size / aligned_size in
    if memory == 0 || memory_size == 0 || block_size == 0
    then none
    else if num_blocks == 0
    then none
    else some (
        link_blocks num_blocks record {
          base = memory;
          block_size = block_size;
          num_blocks = num_blocks;
          aligned_size = aligned_size;
          free_list = 0;
          alloc_count = 0;
          free_count = 0;
          words = words;
        })

-- bt_slab_alloc.
unfoldable pub alloc : Slab → Option ℕ × Slab
alloc slab = if slab.free_list == 0 then (none, slab) else (
  some slab.free_list,
  record slab {
    free_list = slab.words slab.free_list;
    alloc_count = add_32 slab.alloc_count 1;
    free_count = add_32 slab.free_count (2 ^ 32 - 1);
  },
)

-- The sanity check of bt_slab_free.
abbrev pub is_outside : Slab → ℕ → Bool
is_outside slab ptr =
    ltb ptr slab.base
    || leb (size_add slab.base (slab.num_blocks * slab.aligned_size % size_mod)) ptr

-- bt_slab_free.
unfoldable pub free : Slab → ℕ → Slab
free slab ptr = if ptr == 0 || is_outside slab ptr then slab else record slab {
  words = write slab.words ptr slab.free_list;
  free_list = ptr;
  free_count = add_32 slab.free_count 1;
  alloc_count =
      if ltb 0 slab.alloc_count then add_32 slab.alloc_count (2 ^ 32 - 1) else slab.alloc_count;
}

-- bt_slab_reset.
unfoldable pub reset : Slab → Slab
reset slab =
    link_blocks slab.num_blocks record slab { free_list = 0; alloc_count = 0; free_count = 0 }

-- The two sizes of bt_slab_stats, and the counters, which it also stores.
unfoldable pub stats : Slab → ℕ × ℕ × ℕ × ℕ
stats slab = (
  slab.alloc_count * slab.aligned_size % size_mod,
  slab.num_blocks * slab.aligned_size % size_mod,
  slab.alloc_count,
  slab.free_count,
)
