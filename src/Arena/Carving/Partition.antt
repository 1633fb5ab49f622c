-- ===== src/Arena/Carving/Partition.antt =====
-- The arenas of a pool, their order and whom they go to.
use native.Mathlib.Nat.{
  mod-eq_of_lt, add-mod_right, zero-mod, add-mul, one-mul, zero-mul, mul_comm, mul-le-mul_left,
  div-mul-le_self,
}
use mathlib.Core.Path.{subst}
use aspira_broker.Prelude.{
  ℕ, zero, suc, ◌+◌, ◌-◌, ◌*◌, ◌/◌, ◌%◌, ◌^◌, ◌≤◌, ◌<◌, ◌≡◌, ◌≢◌, refl, ap, ◌∙◌, arith, Bool, false,
  Option, some, List, [], ◌∷◌, length, ltb, ne→==, ge→ltb, if◌then◌else◌, size_add, size_sub,
  size_mod,
}
use aspira_broker.Arena.{Arena}
use aspira_broker.Arena.Blocks.{Between}
use aspira_broker.Arena.Carving.{arena_bytes, MemPool, carve, init, assign_arena}

-- The memory of each arena.
abbrev pub spans : List Arena → List (ℕ × ℕ)
spans [] = []
spans (arena ∷ arenas) = (arena.base, arena.size) ∷ spans arenas

abbrev pub AllEmpty : List Arena → Type 0
AllEmpty [] = Unit
AllEmpty (arena ∷ arenas) = (arena.offset ≡ 0) × (arena.free_orders ≡ []) × AllEmpty arenas

next_start : (i a : ℕ) → (i + 1) * a ≡ i * a + a
next_start i a = add-mul i 1 a ∙ ap (λ k. i * a + k) (one-mul a)

carve-Between :
    (base arena_size i n high : ℕ)
    → base + (i + n) * arena_size ≤ high
    → high ≤ 2 ^ 62
    → Between (base + i * arena_size) high (spans (carve base arena_size i n))
      × (length (carve base arena_size i n) ≡ n)
      × AllEmpty (carve base arena_size i n)
unfolding carve
carve-Between base arena_size i zero high h small =
    let same : i + 0 ≡ i = omega arith in (omega (arith, ap (λ k. k * arena_size) same), refl, tt)
carve-Between base arena_size i (suc n) high h small =
    let shift : i + suc n ≡ i + 1 + n = omega arith in
    let moved = ap (λ k. k * arena_size) shift in
    let start = next_start i arena_size in
    let rest = add-mul (i + 1) n arena_size in
    let (inside, count, empty) =
      carve-Between base arena_size (i + 1) n high (omega (arith, moved)) small in
    let whole : i * arena_size % size_mod ≡ i * arena_size = omega (arith, moved, start, rest) in
    let place : size_add base (i * arena_size % size_mod) ≡ base + i * arena_size =
      omega (arith, whole, moved, start, rest) in
    let behind : size_add base (i * arena_size % size_mod) + arena_size
        ≡ base + (i + 1) * arena_size =
      omega (arith, place, start) in
    ((omega (arith, place), rw behind inside), ap suc count, (refl, refl, empty))

-- Memory below 2^62 that has room for the array of arenas is cut into as many arenas as are asked for,
-- all empty, one behind the other from the start of the memory and without overlap, and all end
-- before the array, which ends with the memory.
pub init-Between :
    (huge usual : Option ℕ) (base total num : ℕ) (use_hugepages : Bool)
    → (if use_hugepages then huge else usual) ≡ some base
    → 0 < num
    → num * arena_bytes ≤ total
    → base + total ≤ 2 ^ 62
    → (pool : MemPool) × (init huge usual total num use_hugepages ≡ some pool)
      × Between base pool.arenas_at (spans pool.arenas)
      × (pool.arenas_at + num * arena_bytes ≡ base + total)
      × (length pool.arenas ≡ num)
      × AllEmpty pool.arenas
unfolding init
init-Between huge usual base total num use_hugepages e pos room small =
    let usable = size_sub total (num * arena_bytes % size_mod) in
    let arena_size = usable / num / 4096 * 4096 in
    let exact : usable ≡ total - num * arena_bytes = omega arith in
    let fits : num * arena_size ≤ usable = omega (
      arith,
      mul-le-mul_left {m = arena_size} {n = usable / num} num (omega arith),
      mul_comm num (usable / num),
      div-mul-le_self usable num,
    ) in
    let same : 0 + num ≡ num = omega arith in
    let nonzero : total ≢ 0 = λ z. absurd (omega (arith, z)) in
    let some_arenas : ltb num 1 ≡ false = ge→ltb num 1 (omega arith) in
    let start : base + 0 * arena_size ≡ base = omega (arith, zero-mul arena_size) in
    let place : size_add base usable ≡ base + usable = omega (arith, exact) in
    let (inside, count, empty) =
      carve-Between base arena_size 0 num (base + usable)
        (omega (arith, fits, ap (λ k. k * arena_size) same)) (omega (arith, exact)) in
    (
      record {
        base = base;
        total_size = total;
        arena_counter = 0;
        num_arenas = num;
        arenas_at = size_add base usable;
        arenas = carve base arena_size 0 num;
        hugepage = use_hugepages;
      },
      rw (e, ne→== total 0 nonzero, some_arenas) refl,
      subst (λ (x : ℕ). Between x (size_add base usable) (spans (carve base arena_size 0 num)))
          start (rw place inside),
      omega (arith, place, exact),
      count,
      empty,
    )

-- The arenas that some calls of bt_mempool_assign_arena give, and the pool after them.
unfoldable pub assign_times : ℕ → MemPool → List ℕ × MemPool
assign_times zero pool = ([], pool)
assign_times (suc n) pool =
    let (id, pool') = assign_arena pool in
    let (ids, pool'') = assign_times n pool' in (id ∷ ids, pool'')

abbrev pub numbers : ℕ → ℕ → List ℕ
numbers i zero = []
numbers i (suc n) = i ∷ numbers (i + 1) n

assign_times-numbers :
    (n : ℕ) (pool : MemPool)
    → pool.arena_counter + n ≤ pool.num_arenas
    → pool.num_arenas < size_mod
    → assign_times n pool
      ≡ (numbers pool.arena_counter n, record pool { arena_counter = pool.arena_counter + n })
unfolding assign_times assign_arena
assign_times-numbers zero pool h small =
    ap (λ c. ([], record pool { arena_counter = c })) (omega arith)
assign_times-numbers (suc n) pool h small =
    let next : size_add pool.arena_counter 1 ≡ pool.arena_counter + 1 = omega arith in
    let later =
      assign_times-numbers n (record pool { arena_counter = pool.arena_counter + 1 }) (omega arith)
        small in
    let shift : pool.arena_counter + 1 + n ≡ pool.arena_counter + suc n = omega arith in
    rw
      (
        mod-eq_of_lt {n = pool.arena_counter} {m = pool.num_arenas} (omega arith),
        next,
        later,
        shift,
      )
      refl

-- On a pool as bt_mempool_init leaves it, as many calls of bt_mempool_assign_arena as there are arenas
-- give each arena once, in order, and the call after them gives the first arena again.
pub assign_times_round :
    (pool : MemPool)
    → pool.arena_counter ≡ 0
    → 0 < pool.num_arenas
    → pool.num_arenas < size_mod
    → let (ids, pool') = assign_times pool.num_arenas pool in
      (ids ≡ numbers 0 pool.num_arenas) × ((assign_arena pool').0 ≡ 0)
unfolding assign_arena
assign_times_round pool fresh pos small =
    let run = assign_times-numbers pool.num_arenas pool (omega (arith, fresh)) small in
    let again : (pool.arena_counter + pool.num_arenas) % pool.num_arenas ≡ 0 =
      rw fresh (add-mod_right 0 pool.num_arenas ∙ zero-mod pool.num_arenas) in
    rw run (ap (λ c. numbers c pool.num_arenas) fresh, again)
