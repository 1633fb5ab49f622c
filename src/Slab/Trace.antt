-- ===== src/Slab/Trace.antt =====
-- A slab from its initialisation on, through any calls of its owner.
use native.Mathlib.Nat.{mul-le-mul_left, mul-le-mul_right, mul-zero, div-add-mod, mod-lt}
use mathlib.Core.Path.{subst}
use aspira_broker.Prelude.{
  false, ℕ, ◌+◌, ◌-◌, size_mod, ◌*◌, ◌/◌, ◌%◌, ◌^◌, ◌≤◌, ◌<◌, ◌≡◌, ◌≢◌, ◌⊎◌, inl, inr, refl, sym,
  ap, arith, none, some, List, [], ◌∷◌, length, ◌==◌, ◌||◌, ltb, ne→==, ge→ltb, ==→eq, Bool-cases,
  Option-cases, All, All-mono, Apart-All, All-both, take_out, Buffer,
}
use aspira_broker.Arena.{cache_aligned}
use aspira_broker.Slab.Defs.{Slab, aligned_block, link_blocks, init, alloc, free, reset, stats}
use aspira_broker.Slab.Blocks.{
  IsPlaced, IsBlock, IsSlab, addresses, blocks_disjoint, reset-IsSlab, alloc-IsSlab, free-IsSlab,
  link_blocks-IsSlab, link_blocks-Linked, block_end,
}

-- The owner takes a block, gives back the block at an index of those it holds, or resets the slab.
pub data Call : Type 0 where
  take_block : Call
  give_block : ℕ → Call
  reset_all : Call

-- A slab and the blocks that the owner holds.
pub Held : Type 0
Held = Slab × List ℕ

unfoldable pub call : Call → Slab → List ℕ → Slab × List ℕ
call take_block slab live =
    let (ptr, slab') = alloc slab in (slab', elim ptr [ none ↦ live | some p ↦ p ∷ live ])
call (give_block i) slab live = elim (take_out i live) [
  | none ↦ (slab, live)
  | some (p, rest) ↦ (free slab p, rest)
]
call reset_all slab live = (reset slab, [])

unfoldable pub run : List Call → Slab → List ℕ → Slab × List ℕ
run [] slab live = (slab, live)
run (c ∷ cs) slab live = let (slab', live') = call c slab live in run cs slab' live'

-- A slab that is well-formed with some free blocks.
pub record Valid (slab : Slab) (live : List ℕ) : Type 0 where
  pub frees : List ℕ
  pub valid : IsSlab slab frees live

call-Valid :
    (c : Call) (slab : Slab) (live : List ℕ)
    → Valid slab live
    → Valid (call c slab live).0 (call c slab live).1
unfolding call
call-Valid take_block slab live v = elim (alloc-IsSlab slab v.frees live v.valid) [
  | inl (e, all) ↦
      let same : call take_block slab live ≡ (slab, live) = rw e refl in
      subst (λ (h : Slab × List ℕ). Valid h.0 h.1) (sym same) v
  | inr (p, rest, e, f, w) ↦
      let same : call take_block slab live ≡ ((alloc slab).1, p ∷ live) = rw (call, e) refl in
      subst (λ (h : Slab × List ℕ). Valid h.0 h.1) (sym same) record { frees = rest; valid = w }
]
call-Valid (give_block i) slab live v = elim (Option-cases (take_out i live)) [
  | inl e ↦
      let same : call (give_block i) slab live ≡ (slab, live) = rw (e, call) refl in
      subst (λ (h : Slab × List ℕ). Valid h.0 h.1) (sym same) v
  | inr ((p, rest), e) ↦
      let same : call (give_block i) slab live ≡ (free slab p, rest) = rw (e, call) refl in
      subst (λ (h : Slab × List ℕ). Valid h.0 h.1) (sym same)
        record { frees = p ∷ v.frees; valid = free-IsSlab slab v.frees live i v.valid e }
]
call-Valid reset_all slab live v = record {
  frees = addresses slab.base slab.aligned_size slab.num_blocks;
  valid = reset-IsSlab slab v.valid.placed;
}

pub run-Valid :
    (cs : List Call) (slab : Slab) (live : List ℕ)
    → Valid slab live
    → Valid (run cs slab live).0 (run cs slab live).1
unfolding run
run-Valid [] slab live v = v
run-Valid (c ∷ cs) slab live v =
    run-Valid cs (call c slab live).0 (call c slab live).1 (call-Valid c slab live v)

-- The size of a block covers what was asked for.
pub aligned_block-bounds :
    (size : ℕ)
    → 0 < size
    → size ≤ 2 ^ 62
    → (size ≤ aligned_block size) × (aligned_block size % 64 ≡ 0) × (0 < aligned_block size)
unfolding aligned_block
aligned_block-bounds size pos small =
    let rounded : cache_aligned size ≡ (size + 63) / 64 * 64 = omega arith in
    let large : ltb (cache_aligned size) 8 ≡ false = ge→ltb (cache_aligned size) 8 (omega arith) in
    rw large (omega arith, omega arith, omega arith)

-- bt_slab_init over memory that does not wrap gives -1 exactly when no block fits, and else a slab
-- with all blocks free.
pub init-Valid :
    (words : Buffer ℕ) (memory memory_size block_size : ℕ)
    → 0 < memory
    → memory + memory_size < 2 ^ 64
    → 0 < memory_size
    → memory_size < 2 ^ 38
    → 0 < block_size
    → block_size ≤ 2 ^ 62
    → ((init words memory memory_size block_size ≡ none) × (memory_size < aligned_block block_size))
      ⊎ ((slab : Slab) × (init words memory memory_size block_size ≡ some slab)
          × (slab.base ≡ memory)
          × (slab.aligned_size ≡ aligned_block block_size)
          × (slab.num_blocks ≡ memory_size / aligned_block block_size)
          × Valid slab [])
unfolding init
init-Valid words memory memory_size block_size m ends s s32 b small =
    let size = aligned_block block_size in
    let bounds = aligned_block-bounds block_size b small in
    let split = div-add-mod memory_size size in
    let rest = mod-lt memory_size bounds.2 in
    let zero_args : (memory == 0 || memory_size == 0 || block_size == 0) ≡ false =
      rw
        (
          ne→== memory 0 (omega arith),
          ne→== memory_size 0 (omega arith),
          ne→== block_size 0 (omega arith),
        )
        refl in
    elim (Bool-cases (memory_size / size == 0)) [
      | inl e ↦ inl (
        rw (zero_args, e) refl,
        let none_fits = ap (λ q. size * q) (==→eq (memory_size / size) 0 e) in
            omega (arith, split, rest, none_fits, mul-zero size),
      )
      | inr e ↦
          let start : Slab = record {
            base = memory;
            block_size = block_size;
            num_blocks = memory_size / size;
            aligned_size = size;
            free_list = 0;
            alloc_count = 0;
            free_count = 0;
            words = words;
          } in
          let whole : 64 ≤ size = omega (arith, bounds) in
          let few = mul-le-mul_left {m = 64} {n = size} (memory_size / size) whole in
          let placed : IsPlaced start = record {
            base_pos = m;
            size_pos = bounds.2;
            ends = omega (arith, split, ends);
            count_32 = omega (arith, few, split, s32);
          } in
          let done = link_blocks-Linked start (memory_size / size) placed refl refl (omega arith) in
          inr (
            link_blocks (memory_size / size) start,
            rw (zero_args, e) refl,
            done.base,
            done.aligned_size,
            done.num_blocks,
            record {
              frees = addresses memory size (memory_size / size);
              valid = link_blocks-IsSlab start placed refl refl refl;
            },
          )
    ]

-- A block and the blocks in use do not overlap.
abbrev pub IsDisjoint : ℕ → ℕ → ℕ → Type 0
IsDisjoint size p q = (p + size ≤ q) ⊎ (q + size ≤ p)

-- After any calls on a well-formed slab, bt_slab_alloc hands out a block inside the memory of the slab
-- that overlaps no block in use, and fails only when all blocks are in use.
pub alloc-IsDisjoint :
    (slab : Slab) (live : List ℕ) (cs : List Call)
    → Valid slab live
    → let (now, held) = run cs slab live in
      ((alloc now ≡ (none, now)) × (length held ≡ now.num_blocks))
      ⊎ ((p : ℕ) × ((alloc now).0 ≡ some p)
          × (now.base ≤ p)
          × (p + now.aligned_size ≤ now.base + now.num_blocks * now.aligned_size)
          × All (IsDisjoint now.aligned_size p) held)
alloc-IsDisjoint slab live cs v =
    let now = (run cs slab live).0 in
    let held = (run cs slab live).1 in
    let w = run-Valid cs slab live v in
    elim (alloc-IsSlab now w.frees held w.valid) [
      | inl e ↦ inl e
      | inr (p, rest, e, f, after) ↦
          let here : IsBlock now p =
            (subst (λ (xs : List ℕ). All (IsBlock now) xs) f w.valid.free_blocks).0 in
          let apart = Apart-All p held after.owns.live_Distinct.0 in
          inr (
            p,
            e,
            omega (arith, here.2),
            omega (arith, here.2, block_end now here.0 now.num_blocks here.1),
            All-mono (λ q. (q ≢ p) × IsBlock now q) (IsDisjoint now.aligned_size p) held
                (λ q b. blocks_disjoint now p q here b.1 (λ same. b.0 (sym same)))
                (All-both (λ q. q ≢ p) (IsBlock now) held apart w.valid.live_blocks),
          )
    ]

-- What bt_slab_stats reports of a well-formed slab: the bytes in use and in all, and how many blocks
-- are in use and free.
pub stats_lem :
    (slab : Slab) (live : List ℕ)
    → Valid slab live
    → stats slab ≡ (
      length live * slab.aligned_size,
      slab.num_blocks * slab.aligned_size,
      length live,
      slab.num_blocks - length live,
    )
unfolding stats
stats_lem slab live v =
    let ends = v.valid.placed.ends in
    let few : length live ≤ slab.num_blocks = omega (arith, v.valid.total) in
    let used = mul-le-mul_right {m = length live} {n = slab.num_blocks} slab.aligned_size few in
    let in_use : slab.alloc_count * slab.aligned_size % size_mod ≡ length live * slab.aligned_size =
      rw v.valid.allocs (omega (arith, used, ends)) in
    let all_bytes : slab.num_blocks * slab.aligned_size % size_mod
        ≡ slab.num_blocks * slab.aligned_size =
      omega (arith, ends) in
    let left : slab.free_count ≡ slab.num_blocks - length live =
      omega (arith, v.valid.total, v.valid.frees) in
    rw (in_use, all_bytes, v.valid.allocs, left) refl
