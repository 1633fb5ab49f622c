-- ===== src/Slab/Template.antt =====
-- src/include/bt_slab_allocator.h: the class template SlabAllocator<BlockSize, N>, which links all
-- blocks like the C allocator and can also hand out blocks by a counter.
use aspira_broker.Prelude.{
  ℕ, zero, suc, ◌+◌, ◌-◌, ◌*◌, ◌%◌, ◌^◌, ◌≤◌, ◌<◌, ◌≡◌, ◌≢◌, refl, sym, ap, ◌∙◌, arith, ◌||◌,
  Option, none, some, List, [], ◌∷◌, ltb, ◌==◌, if◌then◌else◌, size_add, size_sub, size_mod, Buffer,
  write, ne→==, eq→==, ge→ltb, Chain, Chain-write, Apart, length,
}
use mathlib.Core.Path.{subst}
use native.Mathlib.Nat.{mul-le-mul_right}
use aspira_broker.Slab.Blocks.{addresses, length-addresses}

-- SlabAllocator: `pool` is the address of `pool_`, `count` is N.
pub record SlabAllocator : Type 0 where
  pub pool : ℕ
  pub count : ℕ
  pub aligned_size : ℕ
  pub free_count : ℕ
  pub free_list : ℕ
  pub words : Buffer ℕ

unfoldable pub deallocate : SlabAllocator → ℕ → SlabAllocator
deallocate slab ptr = if ptr == 0 then slab else record slab {
  words = write slab.words ptr slab.free_list;
  free_list = ptr;
  free_count = size_add slab.free_count 1;
}

-- The first `n` rounds of the loop of reset.
unfoldable pub deallocate_blocks : ℕ → SlabAllocator → SlabAllocator
deallocate_blocks zero slab = slab
deallocate_blocks (suc i) slab =
    deallocate (deallocate_blocks i slab) (size_add slab.pool (i * slab.aligned_size % size_mod))

-- reset, which the constructor calls.
unfoldable pub reset : SlabAllocator → SlabAllocator
reset slab = deallocate_blocks slab.count record slab { free_count = slab.count; free_list = 0 }

unfoldable pub allocate : SlabAllocator → Option ℕ × SlabAllocator
allocate slab =
    if slab.free_list == 0
    then (let idx = slab.free_count in
        let bumped = record slab { free_count = size_sub slab.free_count 1 } in
        if idx == 0 || ltb slab.count idx
        then (none, bumped)
        else (some (size_add slab.pool ((idx - 1) * slab.aligned_size % size_mod)), bumped))
    else (
      some slab.free_list,
      record slab {
        free_list = slab.words slab.free_list;
        free_count = size_sub slab.free_count 1;
      },
    )

-- The allocator after `n` calls of allocate.
unfoldable pub allocate_times : ℕ → SlabAllocator → SlabAllocator
allocate_times zero slab = slab
allocate_times (suc n) slab = allocate_times n (allocate slab).1

pub record IsPlaced (slab : SlabAllocator) : Type 0 where
  pub pool_pos : 0 < slab.pool
  pub size_pos : 0 < slab.aligned_size
  pub ends : slab.pool + slab.count * slab.aligned_size < 2 ^ 64
  pub count_63 : slab.count < 2 ^ 63

-- What linking the first `n` blocks gives.
record Linked (start slab : SlabAllocator) (n : ℕ) : Type 0 where
  pool : slab.pool ≡ start.pool
  count : slab.count ≡ start.count
  aligned_size : slab.aligned_size ≡ start.aligned_size
  free_count : slab.free_count ≡ start.free_count + n
  chain : Chain slab.words slab.free_list (addresses start.pool start.aligned_size n)

addresses-below :
    (pool size i n : ℕ) → 0 < size → i ≤ n → Apart (pool + n * size) (addresses pool size i)
addresses-below pool size zero n pos h = tt
addresses-below pool size (suc i) n pos h = (
  λ e. omega (arith, mul-le-mul_right {m = i + 1} {n = n} size (omega arith)),
  addresses-below pool size i n pos (omega arith),
)

deallocate_blocks-Linked :
    (start : SlabAllocator) (n : ℕ)
    → IsPlaced start
    → start.free_list ≡ 0
    → start.free_count ≡ start.count
    → n ≤ start.count
    → Linked start (deallocate_blocks n start) n
unfolding deallocate_blocks deallocate
deallocate_blocks-Linked start zero p head total h = record {
  pool = refl;
  count = refl;
  aligned_size = refl;
  free_count = omega arith;
  chain = head;
}
deallocate_blocks-Linked start (suc n) p head total h =
    let before = deallocate_blocks-Linked start n p head total (omega arith) in
    let below = mul-le-mul_right {m = n} {n = start.count} start.aligned_size (omega arith) in
    let here = start.pool + n * start.aligned_size in
    let at_block : size_add start.pool (n * start.aligned_size % size_mod) ≡ here =
      omega (arith, below, p.ends) in
    let slab = deallocate_blocks n start in
    let link =
      Chain-write slab.words here slab.free_list slab.free_list
        (addresses start.pool start.aligned_size n)
        (addresses-below start.pool start.aligned_size n n p.size_pos (omega arith)) before.chain in
    rw (at_block, ne→== here 0 (λ e. omega (arith, p.pool_pos)))
      record {
        pool = before.pool;
        count = before.count;
        aligned_size = before.aligned_size;
        free_count = omega (arith, before.free_count, p.count_63);
        chain = (refl, (λ e. omega (arith, p.pool_pos)), rw (eq→== here here refl) link);
      }

-- Calls of allocate that take the whole list.
record Drained (before after : SlabAllocator) (n : ℕ) : Type 0 where
  pool : after.pool ≡ before.pool
  count : after.count ≡ before.count
  aligned_size : after.aligned_size ≡ before.aligned_size
  free_count : after.free_count + n ≡ before.free_count
  free_list : after.free_list ≡ 0

allocate_times-Drained :
    (slab : SlabAllocator) (ps : List ℕ)
    → Chain slab.words slab.free_list ps
    → length ps ≤ slab.free_count
    → slab.free_count < 2 ^ 64
    → Drained slab (allocate_times (length ps) slab) (length ps)
unfolding allocate_times allocate
allocate_times-Drained slab [] c h small = record {
  pool = refl;
  count = refl;
  aligned_size = refl;
  free_count = omega arith;
  free_list = c;
}
allocate_times-Drained slab (p ∷ ps) c h small =
    let next = record slab {
      free_list = slab.words slab.free_list;
      free_count = size_sub slab.free_count 1;
    } in
    let some_free = ne→== slab.free_list 0 (λ e. c.1 (sym c.0 ∙ e)) in
    let same : (allocate slab).1 ≡ next = rw some_free refl in
    let one_less : size_sub slab.free_count 1 + 1 ≡ slab.free_count = omega arith in
    let rest =
      allocate_times-Drained next ps (rw c.0 c.2) (omega (arith, one_less, h)) (omega arith) in
    subst (λ (s : SlabAllocator). Drained slab (allocate_times (length ps) s) (suc (length ps)))
      (sym same)
      record {
        pool = rest.pool;
        count = rest.count;
        aligned_size = rest.aligned_size;
        free_count = omega (arith, rest.free_count, one_less);
        free_list = rest.free_list;
      }

-- A list of all blocks starts with the last one.
Chain-head :
    (words : Buffer ℕ) (head base size n : ℕ)
    → 0 < n
    → Chain words head (addresses base size n)
    → (head ≡ base + (n - 1) * size) × (head ≢ 0)
Chain-head words head base size zero pos c = absurd (omega arith)
Chain-head words head base size (suc n) pos c =
    (rw (let less : suc n - 1 ≡ n = omega arith in less) c.0, λ e. c.1 (sym c.0 ∙ e))

allocate_listed :
    (slab : SlabAllocator) → slab.free_list ≢ 0 → (allocate slab).0 ≡ some slab.free_list
unfolding allocate
allocate_listed slab h = rw (ne→== slab.free_list 0 h) refl

allocate_bumped :
    (slab : SlabAllocator)
    → slab.free_list ≡ 0
    → 0 < slab.free_count
    → slab.free_count ≤ slab.count
    → (allocate slab).0
      ≡ some (size_add slab.pool ((slab.free_count - 1) * slab.aligned_size % size_mod))
unfolding allocate
allocate_bumped slab e pos h =
    rw
      (
        eq→== slab.free_list 0 e,
        ne→== slab.free_count 0 (omega arith),
        ge→ltb slab.count slab.free_count h,
      )
      refl

-- After reset the first N calls of allocate hand out the N blocks and empty the list, and then the
-- counter still shows N: one more call hands out the block of the first call again.
pub allocate_repeats :
    (slab : SlabAllocator)
    → IsPlaced slab
    → 0 < slab.count
    → ((allocate_times slab.count (reset slab)).free_list ≡ 0)
      × ((allocate_times slab.count (reset slab)).free_count ≡ slab.count)
      × ((allocate (allocate_times slab.count (reset slab))).0 ≡ (allocate (reset slab)).0)
unfolding reset
allocate_repeats slab p pos =
    let start = record slab { free_count = slab.count; free_list = 0 } in
    let placed : IsPlaced start = record {
      pool_pos = p.pool_pos;
      size_pos = p.size_pos;
      ends = p.ends;
      count_63 = p.count_63;
    } in
    let linked = deallocate_blocks-Linked start slab.count placed refl refl (omega arith) in
    let n = length-addresses slab.pool slab.aligned_size slab.count in
    let drained =
      allocate_times-Drained (deallocate_blocks slab.count start)
        (addresses slab.pool slab.aligned_size slab.count) linked.chain
        (omega (arith, linked.free_count, n)) (omega (arith, linked.free_count, p.count_63)) in
    let full = deallocate_blocks slab.count start in
    let empty = allocate_times slab.count full in
    let drained' : Drained full empty slab.count =
      subst (λ (k : ℕ). Drained full (allocate_times k full) k) n drained in
    let count : empty.free_count ≡ slab.count =
      omega (arith, drained'.free_count, linked.free_count) in
    let first =
      Chain-head full.words full.free_list slab.pool slab.aligned_size slab.count pos
        linked.chain in
    let below =
      mul-le-mul_right {m = slab.count - 1} {n = slab.count} slab.aligned_size (omega arith) in
    let bumped =
      allocate_bumped empty drained'.free_list (omega (arith, count))
        (omega (arith, count, drained'.count, linked.count)) in
    let pool : empty.pool ≡ slab.pool = drained'.pool ∙ linked.pool in
    let size : empty.aligned_size ≡ slab.aligned_size =
      drained'.aligned_size ∙ linked.aligned_size in
    let again : size_add empty.pool ((empty.free_count - 1) * empty.aligned_size % size_mod)
        ≡ full.free_list =
      rw (count, pool, size, first.0) (omega (arith, below, p.ends)) in
    (drained'.free_list, count, bumped ∙ ap some again ∙ sym (allocate_listed full first.1))
