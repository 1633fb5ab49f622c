-- ===== src/Slab/Tests.antt =====
-- Runs of the slab allocator, and the instances of its theorems.
use aspira_broker.Prelude.{
  ℕ, ◌+◌, ◌*◌, ◌≤◌, ◌≡◌, ◌⊎◌, refl, arith, none, some, List, [], ◌∷◌, length, All, Buffer,
}
use aspira_broker.Slab.Defs.{Slab, aligned_block, init, alloc, free, reset, link_blocks}
use aspira_broker.Slab.Blocks.{IsPlaced, reset-IsSlab}
use aspira_broker.Slab.Trace.{
  Call, take_block, give_block, call, run, Valid, IsDisjoint, alloc-IsDisjoint,
}
use aspira_broker.Slab.Template

abbrev zeros : Buffer ℕ
zeros i = 0

-- Two blocks of 128 bytes at 4096.
abbrev raw : Slab
raw = record {
  base = 4096;
  block_size = 100;
  num_blocks = 2;
  aligned_size = 128;
  free_list = 0;
  alloc_count = 0;
  free_count = 0;
  words = zeros;
}

raw-IsPlaced : IsPlaced raw
raw-IsPlaced = record {
  base_pos = omega arith;
  size_pos = omega arith;
  ends = omega arith;
  count_32 = omega arith;
}

fresh-Valid : Valid (reset raw) []
fresh-Valid = record { frees = 4224 ∷ 4096 ∷ []; valid = reset-IsSlab raw raw-IsPlaced }

-- 256 bytes hold two blocks of 100 bytes each, and 127 bytes none.
init_two : init zeros 4096 256 100 ≡ some (link_blocks 2 raw)
unfolding init aligned_block
init_two = refl

init_small : init zeros 4096 127 100 ≡ none
unfolding init aligned_block
init_small = refl

-- Both blocks are taken, the first is given back and taken again.
take_give_take :
    (run (take_block ∷ take_block ∷ give_block 1 ∷ take_block ∷ []) (reset raw) []).1
    ≡ 4224 ∷ 4096 ∷ []
unfolding run call alloc free reset link_blocks
take_give_take = refl

-- A block that is given back twice is handed out twice.
double_free :
    let again = free (free (alloc (reset raw)).1 4224) 4224 in
    ((alloc again).0 ≡ some 4224) × ((alloc (alloc again).1).0 ≡ some 4224)
unfolding alloc free reset link_blocks
double_free = (refl, refl)

-- An address inside a block passes for a block.
interior_free : (alloc (free (reset raw) 4100)).0 ≡ some 4100
unfolding alloc free reset link_blocks
interior_free = refl

abbrev two_calls : List Call
two_calls = take_block ∷ give_block 0 ∷ []

alloc-IsDisjoint_example :
    let (now, held) = run two_calls (reset raw) [] in
    ((alloc now ≡ (none, now)) × (length held ≡ now.num_blocks))
    ⊎ ((p : ℕ) × ((alloc now).0 ≡ some p)
        × (now.base ≤ p)
        × (p + now.aligned_size ≤ now.base + now.num_blocks * now.aligned_size)
        × All (IsDisjoint now.aligned_size p) held)
alloc-IsDisjoint_example = alloc-IsDisjoint (reset raw) [] two_calls fresh-Valid

-- Three blocks of 64 bytes.
abbrev three : Template.SlabAllocator
three = record {
  pool = 4096;
  count = 3;
  aligned_size = 64;
  free_count = 0;
  free_list = 0;
  words = zeros;
}
