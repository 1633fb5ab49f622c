-- ===== src/Slab/Blocks.antt =====
-- The well-formedness of a slab, and that its calls keep it.
use native.Mathlib.Nat.{mul-le-mul_right}
use native.Mathlib.Decide.{dec_lt}
use aspira_broker.Prelude.{
  ◌∙◌, ℕ, zero, suc, ◌+◌, ◌*◌, ◌^◌, ◌≤◌, ◌<◌, ◌≡◌, ◌≢◌, ◌⊎◌, inl, inr, refl, sym, ap, arith, none,
  some, List, [], ◌∷◌, length, ltb, ◌==◌, eq→==, ne→==, ge→ltb, lt→ltb, false, true, Apart, All,
  All-mono, take_out, take_out-All, length-take_out, Owns, Owns-pop, Owns-push, Owns-give,
}
use aspira_broker.Slab.Defs.{Slab, block, link_blocks, alloc, is_outside, free, reset}

-- The layout of a slab: its blocks lie in memory that does not wrap, and not at 0.
pub record IsPlaced (slab : Slab) : Type 0 where
  pub base_pos : 0 < slab.base
  pub size_pos : 0 < slab.aligned_size
  pub ends : slab.base + slab.num_blocks * slab.aligned_size < 2 ^ 64
  pub count_32 : slab.num_blocks < 2 ^ 32

-- The address of a block of the slab.
abbrev pub IsBlock : Slab → ℕ → Type 0
IsBlock slab p = (i : ℕ) × (i < slab.num_blocks) × (p ≡ slab.base + i * slab.aligned_size)

-- A slab with the free blocks `free`, in the order of its list, and the blocks `live` in use.
pub record IsSlab (slab : Slab) (free live : List ℕ) : Type 0 where
  pub placed : IsPlaced slab
  pub owns : Owns slab.words slab.free_list free live
  pub free_blocks : All (IsBlock slab) free
  pub live_blocks : All (IsBlock slab) live
  pub total : length free + length live ≡ slab.num_blocks
  pub allocs : slab.alloc_count ≡ length live
  pub frees : slab.free_count ≡ length free

-- The end of a block that is not the last lies in the slab.
pub block_end :
    (slab : Slab) (i n : ℕ)
    → i < n
    → slab.base + i * slab.aligned_size + slab.aligned_size ≤ slab.base + n * slab.aligned_size
block_end slab i n h =
    omega (arith, mul-le-mul_right {m = i + 1} {n = n} slab.aligned_size (omega arith))

-- No sum on the way to a block wraps.
block_lem :
    (slab : Slab) (i : ℕ)
    → IsPlaced slab
    → i ≤ slab.num_blocks
    → block slab i ≡ slab.base + i * slab.aligned_size
block_lem slab i p h =
    let below = mul-le-mul_right {m = i} {n = slab.num_blocks} slab.aligned_size h in
    let bound : slab.base + i * slab.aligned_size < 2 ^ 64 = omega (arith, below, p.ends) in
    omega arith

-- Two blocks are one or do not overlap.
pub blocks_disjoint :
    (slab : Slab) (p q : ℕ)
    → IsBlock slab p
    → IsBlock slab q
    → p ≢ q
    → (p + slab.aligned_size ≤ q) ⊎ (q + slab.aligned_size ≤ p)
blocks_disjoint slab p q (i, h, e) (j, k, f) ne = elim (dec_lt i j) [
  | yes l ↦ inl (omega (arith, block_end slab i j l))
  | no g ↦ elim (dec_lt j i) [
    | yes l ↦ inr (omega (arith, block_end slab j i l))
    | no m ↦ absurd (ne (let same : i ≡ j = omega arith in e ∙ rw same (sym f)))
  ]
]

-- The addresses of the first `n` blocks of `size` bytes from `base` on, the last one first.
abbrev pub addresses : ℕ → ℕ → ℕ → List ℕ
addresses base size zero = []
addresses base size (suc i) = (base + i * size) ∷ addresses base size i

pub length-addresses : (base size n : ℕ) → length (addresses base size n) ≡ n
length-addresses base size zero = refl
length-addresses base size (suc n) = ap suc (length-addresses base size n)

addresses-below :
    (slab : Slab) (i n : ℕ)
    → 0 < slab.aligned_size
    → i ≤ n
    → Apart (slab.base + n * slab.aligned_size) (addresses slab.base slab.aligned_size i)
addresses-below slab zero n pos h = tt
addresses-below slab (suc i) n pos h = (
  λ e. omega (arith, block_end slab i n (omega arith)),
  addresses-below slab i n pos (omega arith),
)

addresses-IsBlock :
    (slab : Slab) (n : ℕ)
    → n ≤ slab.num_blocks
    → All (IsBlock slab) (addresses slab.base slab.aligned_size n)
addresses-IsBlock slab zero h = tt
addresses-IsBlock slab (suc n) h = ((n, omega arith, refl), addresses-IsBlock slab n (omega arith))

-- What linking the first `n` blocks of an empty list gives.
pub record Linked (start slab : Slab) (n : ℕ) : Type 0 where
  pub base : slab.base ≡ start.base
  pub num_blocks : slab.num_blocks ≡ start.num_blocks
  pub aligned_size : slab.aligned_size ≡ start.aligned_size
  pub alloc_count : slab.alloc_count ≡ start.alloc_count
  pub free_count : slab.free_count ≡ n
  pub owns : Owns slab.words slab.free_list (addresses start.base start.aligned_size n) []

pub link_blocks-Linked :
    (start : Slab) (n : ℕ)
    → IsPlaced start
    → start.free_list ≡ 0
    → start.free_count ≡ 0
    → n ≤ start.num_blocks
    → Linked start (link_blocks n start) n
unfolding link_blocks
link_blocks-Linked start zero p head count h = record {
  base = refl;
  num_blocks = refl;
  aligned_size = refl;
  alloc_count = refl;
  free_count = count;
  owns = record { chain = head; free_Distinct = tt; live_Distinct = tt; separate = tt };
}
link_blocks-Linked start (suc n) p head count h =
    let before = link_blocks-Linked start n p head count (omega arith) in
    let at_block : block (link_blocks n start) n ≡ start.base + n * start.aligned_size =
      rw (before.base, before.aligned_size) (block_lem start n p (omega arith)) in
    record {
      base = before.base;
      num_blocks = before.num_blocks;
      aligned_size = before.aligned_size;
      alloc_count = before.alloc_count;
      free_count = omega (arith, before.free_count, p.count_32);
      owns = rw at_block (
          Owns-push (start.base + n * start.aligned_size) (omega (arith, p.base_pos))
            (addresses-below start n n p.size_pos (omega arith)) tt before.owns);
    }

-- A placed slab with an empty list has all its blocks free once they are linked.
pub link_blocks-IsSlab :
    (start : Slab)
    → IsPlaced start
    → start.free_list ≡ 0
    → start.free_count ≡ 0
    → start.alloc_count ≡ 0
    → IsSlab
        (link_blocks start.num_blocks start)
        (addresses start.base start.aligned_size start.num_blocks)
        []
link_blocks-IsSlab start p head count allocs =
    let done = link_blocks-Linked start start.num_blocks p head count (omega arith) in
    record {
      placed = record {
        base_pos = omega (arith, done.base, p.base_pos);
        size_pos = omega (arith, done.aligned_size, p.size_pos);
        ends = rw (done.base, done.num_blocks, done.aligned_size) p.ends;
        count_32 = omega (arith, done.num_blocks, p.count_32);
      };
      owns = done.owns;
      free_blocks =
          All-mono (IsBlock start) (IsBlock (link_blocks start.num_blocks start))
            (addresses start.base start.aligned_size start.num_blocks)
            (λ q b.
              (b.0, omega (arith, b.1, done.num_blocks), rw (done.base, done.aligned_size) b.2))
            (addresses-IsBlock start start.num_blocks (omega arith));
      live_blocks = tt;
      total =
          rw done.num_blocks
            (omega (arith, length-addresses start.base start.aligned_size start.num_blocks));
      allocs = done.alloc_count ∙ allocs;
      frees =
          done.free_count ∙ sym (length-addresses start.base start.aligned_size start.num_blocks);
    }

-- bt_slab_reset makes every block free, whatever the list held.
pub reset-IsSlab :
    (slab : Slab)
    → IsPlaced slab
    → IsSlab (reset slab) (addresses slab.base slab.aligned_size slab.num_blocks) []
unfolding reset
reset-IsSlab slab p =
    let empty = record slab { free_list = 0; alloc_count = 0; free_count = 0 } in
    let placed : IsPlaced empty = record {
      base_pos = p.base_pos;
      size_pos = p.size_pos;
      ends = p.ends;
      count_32 = p.count_32;
    } in
    link_blocks-IsSlab empty placed refl refl refl

-- bt_slab_alloc hands out the first free block, or nothing when all blocks are in use.
pub alloc-IsSlab :
    (slab : Slab) (free live : List ℕ)
    → IsSlab slab free live
    → ((alloc slab ≡ (none, slab)) × (length live ≡ slab.num_blocks))
      ⊎ ((p : ℕ) × (rest : List ℕ) × ((alloc slab).0 ≡ some p)
          × (free ≡ p ∷ rest)
          × IsSlab (alloc slab).1 rest (p ∷ live))
unfolding alloc
alloc-IsSlab slab [] live v =
    inl (rw (eq→== slab.free_list 0 v.owns.chain) refl, omega (arith, v.total))
alloc-IsSlab slab (p ∷ rest) live v =
    let head : slab.free_list ≡ p = v.owns.chain.0 in
    let some_free : (slab.free_list == 0) ≡ false =
      ne→== slab.free_list 0 (λ e. v.owns.chain.1 (sym head ∙ e)) in
    let owned : Owns slab.words (slab.words slab.free_list) rest (p ∷ live) =
      rw head (Owns-pop v.owns) in
    inr (
      p,
      rest,
      rw some_free (ap some head),
      refl,
      rw some_free record {
        placed = record {
          base_pos = v.placed.base_pos;
          size_pos = v.placed.size_pos;
          ends = v.placed.ends;
          count_32 = v.placed.count_32;
        };
        owns = owned;
        free_blocks = v.free_blocks.1;
        live_blocks = (v.free_blocks.0, v.live_blocks);
        total = omega (arith, v.total);
        allocs = omega (arith, v.allocs, v.total, v.placed.count_32);
        frees = omega (arith, v.frees, v.total, v.placed.count_32);
      },
    )

-- A block passes the check of bt_slab_free.
pub is_outside-block :
    (slab : Slab) (p : ℕ) → IsPlaced slab → IsBlock slab p → is_outside slab p ≡ false
is_outside-block slab p v (i, h, e) =
    let stop = block_lem slab slab.num_blocks v (omega arith) in
    let low : ltb p slab.base ≡ false = ge→ltb p slab.base (omega arith) in
    let below : p < block slab slab.num_blocks =
      omega (arith, stop, block_end slab i slab.num_blocks h, v.size_pos) in
    ground (arith, low, below)

-- bt_slab_free of a block in use puts it at the head of the list.
pub free-IsSlab :
    (slab : Slab) (frees live : List ℕ) (i : ℕ) {p : ℕ} {rest : List ℕ}
    → IsSlab slab frees live
    → take_out i live ≡ some (p, rest)
    → IsSlab (free slab p) (p ∷ frees) rest
unfolding free
free-IsSlab slab frees live i {p} {rest} v h =
    let blocks = take_out-All (IsBlock slab) i live h v.live_blocks in
    let count = length-take_out i live h in
    let nz : p ≢ 0 = (λ e. omega (arith, blocks.0.2, v.placed.base_pos)) in
    let used : ltb 0 slab.alloc_count ≡ true =
      lt→ltb 0 slab.alloc_count (omega (arith, v.allocs)) in
    rw (ne→== p 0 nz, is_outside-block slab p v.placed blocks.0, used)
      record {
        placed = record {
          base_pos = v.placed.base_pos;
          size_pos = v.placed.size_pos;
          ends = v.placed.ends;
          count_32 = v.placed.count_32;
        };
        owns = Owns-give i h nz v.owns;
        free_blocks = (blocks.0, v.free_blocks);
        live_blocks = blocks.1;
        total = omega (arith, v.total, count);
        allocs = omega (arith, v.allocs, v.total, v.placed.count_32, count);
        frees = omega (arith, v.frees, v.total, v.placed.count_32, count);
      }
