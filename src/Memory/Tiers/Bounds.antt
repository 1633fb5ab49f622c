-- ===== src/Memory/Tiers/Bounds.antt =====
-- src/utils/memory_tier.c: what an allocation gives, and what becomes of it when it is freed.
use aspira_broker.Prelude.{
  ℕ, zero, suc, ◌+◌, ◌%◌, ◌^◌, ◌≤◌, ◌<◌, ◌≡◌, ◌≢◌, ◌⊎◌, inl, inr, refl, sym, ap, arith, true, false,
  Option, none, some, leb, lt→ltb, ◌==◌, Bool-cases, Option-cases, ne→==, eq→==, gt→leb, List,
  length, size_add, write,
}
use aspira_broker.Arena.{cache_aligned}
use native.Mathlib.Decide.{ℕ_discrete}
use aspira_broker.Slab.{Slab}
use aspira_broker.Slab.Trace.{Valid}
use aspira_broker.Slab.Blocks.{IsPlaced, IsBlock, alloc-IsSlab, is_outside-block}
use aspira_broker.Slab
use mathlib.Core.Path.{subst}
use native.Mathlib.Nat.{mod-lt}
use aspira_broker.Memory.Tiers.{
  hot, warm, Tiers, alloc_cold, alloc_warm, alloc_hot, hot_index, alloc, is_in_slab, find_slab,
  free, classify,
}

-- A warm allocation that does not fit uses up the pool: from then on every warm allocation comes from
-- the heap, however small it is and however much room there was.
pub alloc_warm_exhausts :
    (t : Tiers) (size later : ℕ) (heap heap' : Option ℕ)
    → t.warm_pool ≢ 0
    → t.warm_size ≤ 2 ^ 62
    → t.warm_offset ≤ 2 ^ 62
    → size ≤ 2 ^ 61
    → later ≤ 2 ^ 61
    → t.warm_size < t.warm_offset + size
    → ((alloc t warm size heap).0 ≡ heap)
      × ((alloc (alloc t warm size heap).1 warm later heap').0 ≡ heap')
unfolding alloc alloc_warm alloc_cold
alloc_warm_exhausts t size later heap heap' pool ws wo s l over =
    let aligned = cache_aligned size in
    let up : (size ≤ aligned) × (aligned ≤ size + 63) = omega arith in
    let moved : size_add t.warm_offset aligned ≡ t.warm_offset + aligned = omega (arith, up) in
    let pooled = ne→== t.warm_pool 0 pool in
    let first : leb (size_add t.warm_offset aligned) t.warm_size ≡ false =
      gt→leb (size_add t.warm_offset aligned) t.warm_size (omega (arith, moved, up, over)) in
    let small : cache_aligned later ≤ later + 63 = omega arith in
    let second : leb (size_add (size_add t.warm_offset aligned) (cache_aligned later)) t.warm_size
        ≡ false =
      gt→leb (size_add (size_add t.warm_offset aligned) (cache_aligned later)) t.warm_size
        (omega (arith, moved, up, over, small)) in
    rw (pooled, first, second, pooled) (refl, refl)

-- bt_tier_free of a hot block that bt_tier_classify does not take for hot does nothing.
pub free_hot-classify :
    (t : Tiers) (ptr : ℕ) → (classify t ptr ≡ hot) ⊎ (free t hot ptr ≡ (none, t))
unfolding classify free
free_hot-classify t ptr = elim (Bool-cases (ptr == 0)) [
  | inl z ↦ rw z (inr refl)
  | inr z ↦ elim (Option-cases (find_slab t ptr 0 t.num_hot)) [
    | inl e ↦ rw (z, e) (inr refl)
    | inr (i, e) ↦ rw (z, e) (inl refl)
  ]
]

-- A slab that the search finds has the address.
find_slab-has :
    (t : Tiers) (p i n : ℕ) {j : ℕ}
    → find_slab t p i n ≡ some j
    → is_in_slab (t.hot_slabs j) p ≡ true
unfolding find_slab
find_slab-has t p i zero h = absurd (ground (arith, h))
find_slab-has t p i (suc n) {j} h = elim (Bool-cases (is_in_slab (t.hot_slabs i) p)) [
  | inl e ↦ let same : i ≡ j = ground (arith, (rw (e, find_slab) at h)) in rw (sym same) e
  | inr e ↦ find_slab-has t p (i + 1) n (rw (e, find_slab) at h)
]

-- An address in a slab is found.
find_slab-finds :
    (t : Tiers) (p i n k : ℕ)
    → i ≤ k
    → k < i + n
    → is_in_slab (t.hot_slabs k) p ≡ true
    → find_slab t p i n ≢ none
unfolding find_slab
find_slab-finds t p i zero k low high inside = λ h. omega arith
find_slab-finds t p i (suc n) k low high inside = λ h.
    elim (Bool-cases (is_in_slab (t.hot_slabs i) p)) [
      | inl e ↦ ground (arith, (rw (e, find_slab) at h))
      | inr e ↦ elim (ℕ_discrete i k) [
        | yes same ↦ ground (arith, e, (rw (sym same) at inside))
        | no off ↦
            find_slab-finds t p (i + 1) n k (omega (arith, off)) (omega arith) inside
              (rw (e, find_slab) at h)
      ]
    ]

-- The block of a slab is inside of it and not null.
block-inside :
    (slab : Slab) (p : ℕ)
    → IsPlaced slab
    → IsBlock slab p
    → (is_in_slab slab p ≡ true) × ((p == 0) ≡ false)
block-inside slab p v b =
    let outside = is_outside-block slab p v b in
    let low : slab.base ≤ p = omega (arith, b.2) in
    (ground (arith, outside, low), ne→== p 0 (omega (arith, low, v.base_pos)))

classify-hot :
    (t : Tiers) (p k : ℕ)
    → k < t.num_hot
    → is_in_slab (t.hot_slabs k) p ≡ true
    → (p == 0) ≡ false
    → classify t p ≡ hot
unfolding classify
classify-hot t p k small inside nz = elim (Option-cases (find_slab t p 0 t.num_hot)) [
  | inl e ↦ absurd (find_slab-finds t p 0 t.num_hot k (omega arith) (omega arith) inside e)
  | inr (i, e) ↦ rw (nz, e) refl
]

-- A hot allocation while the counter of the slabs is below 2^31 and the slab whose turn it is has a
-- free block gives a block that bt_tier_classify takes for hot.
pub alloc_hot-classify :
    (t : Tiers) (size : ℕ) (heap : Option ℕ) (live : List ℕ)
    → 0 < t.num_hot
    → t.hot_next < 2 ^ 31
    → Valid (t.hot_slabs (t.hot_next % t.num_hot)) live
    → length live < (t.hot_slabs (t.hot_next % t.num_hot)).num_blocks
    → (p : ℕ) × ((alloc t hot size heap).0 ≡ some p) × (classify (alloc t hot size heap).1 p ≡ hot)
unfolding alloc alloc_hot
alloc_hot-classify t size heap live some_slabs young v room =
    let idx = hot_index t in
    let turn : t.hot_next % t.num_hot ≡ idx = rw (lt→ltb t.hot_next (2 ^ 31) young) refl in
    let slab = t.hot_slabs idx in
    let v' : Valid slab live = subst (λ (i : ℕ). Valid (t.hot_slabs i) live) turn v in
    let room' : length live < slab.num_blocks =
      subst (λ (i : ℕ). length live < (t.hot_slabs i).num_blocks) turn room in
    let inside_table : idx < t.num_hot =
      subst (λ (i : ℕ). i < t.num_hot) turn (mod-lt t.hot_next some_slabs) in
    elim (alloc-IsSlab slab v'.frees live v'.valid) [
      | inl (e, full) ↦ absurd (omega (arith, full, room'))
      | inr (p, rest, e, f, w) ↦
          let (inside, nz) = block-inside (Slab.alloc slab).1 p w.placed w.live_blocks.0 in
          let counted = ne→== t.num_hot 0 (omega arith) in
          let t' = record t {
            hot_next = (t.hot_next + 1) % 2 ^ 32;
            hot_slabs = write t.hot_slabs idx (Slab.alloc slab).1;
            hot_allocs = size_add t.hot_allocs 1;
            hot_bytes = size_add t.hot_bytes size;
          } in
          let result : alloc t hot size heap ≡ (some p, t') =
            rw (counted, e, alloc, alloc_hot) refl in
          let there : is_in_slab (t'.hot_slabs idx) p ≡ true = rw (eq→== idx idx refl) inside in
          (
            p,
            ap (λ r. r.0) result,
            subst (λ (r : Option ℕ × Tiers). classify r.1 p ≡ hot) (sym result)
                (classify-hot t' p idx inside_table there nz),
          )
    ]
