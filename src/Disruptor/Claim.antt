-- ===== src/Disruptor/Claim.antt =====
-- What bt_disruptor_claim_c and bt_disruptor_commit_c hand out to one producer.
use native.Mathlib.Nat.{mod-eq_of_lt, add-mul-mod_self_right, pow-suc, pow-le-pow_right}
use native.Mathlib.Decide.{dec_lt}
use aspira_broker.Prelude.{
  ℕ, zero, suc, ◌+◌, ◌-◌, ◌*◌, ◌%◌, ◌^◌, ◌≤◌, ◌<◌, ◌≡◌, ◌⊎◌, inl, inr, refl, sym, ap, ◌∙◌, arith,
  false, bit_and, ◌==◌, if◌then◌else◌, ne→==, size_add, size_sub, bit_and_mask, pow2_pos, Buffer,
  write,
}
use aspira_broker.Disruptor.{Disruptor, unset, init, claim_c, commit_c}

module _ {A : Type 0} where
  -- The producer claims a number and commits it, unless the claim says that the ring is full.
  unfoldable pub round : Disruptor A → ℕ → Disruptor A
  round q capacity =
      let (seq, q') = claim_c q capacity in if seq == unset then q' else commit_c q' seq capacity

  unfoldable pub rounds : Disruptor A → ℕ → ℕ → Disruptor A
  rounds q capacity zero = q
  rounds q capacity (suc n) = round (rounds q capacity n) capacity

  -- The numbers below `n` are claimed and committed, each in a slot of its own.
  pub record Claimed (q : Disruptor A) (n : ℕ) : Type 0 where
    pub cursor : q.cursor ≡ n
    pub done : (i : ℕ) → i < n → q.committed i ≡ i
    pub rest : (i : ℕ) → n ≤ i → q.committed i ≡ unset

pow2_parts : (k j : ℕ) → 2 ^ (j + k) ≡ 2 ^ j * 2 ^ k
pow2_parts k zero = let same : 0 + k ≡ k = omega arith in rw same (omega arith)
pow2_parts k (suc j) =
    let step : suc j + k ≡ suc (j + k) = omega arith in
    rw (step, pow-suc 2 (j + k), pow-suc 2 j) (omega (arith, pow2_parts k j))

sub-mul_self : (laps cap : ℕ) → 0 < laps → (laps - 1) * cap + cap ≡ laps * cap
sub-mul_self zero cap h = absurd (omega arith)
sub-mul_self (suc m) cap h = let less : suc m - 1 ≡ m = omega arith in rw less (omega arith)

-- The slot that the claim of `seq` looks at is the next one.
wrap-slot :
    (k seq : ℕ)
    → k ≤ 63
    → seq + 1 < 2 ^ k
    → bit_and (size_sub (size_add seq 1) (2 ^ k)) (2 ^ k - 1) ≡ seq + 1
wrap-slot k seq small h =
    let cap = 2 ^ k in
    let laps = 2 ^ (64 - k) in
    let exponent : 64 - k + k ≡ 64 = omega arith in
    let whole : 2 ^ 64 ≡ laps * cap = ap (λ n. 2 ^ n) (sym exponent) ∙ pow2_parts k (64 - k) in
    let some_laps = pow2_pos (64 - k) in
    let rest : (laps - 1) * cap + cap ≡ laps * cap = sub-mul_self laps cap some_laps in
    let point : size_sub (size_add seq 1) cap ≡ (seq + 1) + (laps - 1) * cap =
      omega (arith, whole, rest, some_laps) in
    bit_and_mask k (size_sub (size_add seq 1) cap)
    ∙ ap (λ x. x % cap) point
    ∙ add-mul-mod_self_right (seq + 1) (laps - 1) cap
    ∙ mod-eq_of_lt h

module _ {A : Type 0} where
  -- A claim where a slot is free.
  claim_c-free :
      (q : Disruptor A) (k n : ℕ)
      → k ≤ 63
      → n + 1 < 2 ^ k
      → Claimed q n
      → claim_c q (2 ^ k) ≡ (n, record q { cursor = n + 1 })
  unfolding claim_c
  claim_c-free q k n small h c =
      let bound = pow-le-pow_right {n = 2} (omega arith) {i = k} {j = 63} small in
      let next : size_add n 1 ≡ n + 1 = omega (arith, bound) in
      rw (c.cursor, wrap-slot k n small h, c.rest (n + 1) (omega arith), next) refl

  -- A claim at the last slot: the slot of number 0 looks like that of an element not yet read.
  claim_c-full :
      (q : Disruptor A) (k n : ℕ)
      → k ≤ 63
      → 0 < n
      → n + 1 ≡ 2 ^ k
      → Claimed q n
      → claim_c q (2 ^ k) ≡ (unset, q)
  unfolding claim_c
  claim_c-full q k n small pos h c =
      let bound = pow-le-pow_right {n = 2} (omega arith) {i = k} {j = 63} small in
      let point : size_sub (size_add n 1) (2 ^ k) ≡ 0 = omega (arith, bound) in
      let slot : bit_and 0 (2 ^ k - 1) ≡ 0 = bit_and_mask k 0 ∙ mod-eq_of_lt (pow2_pos k) in
      rw (c.cursor, point, slot, c.done 0 pos) refl

  round-Claimed :
      (q : Disruptor A) (k n : ℕ)
      → k ≤ 63
      → n + 1 < 2 ^ k
      → Claimed q n
      → Claimed (round q (2 ^ k)) (suc n)
  unfolding round commit_c
  round-Claimed q k n small h c =
      let bound = pow-le-pow_right {n = 2} (omega arith) {i = k} {j = 63} small in
      let own : bit_and n (2 ^ k - 1) ≡ n = bit_and_mask k n ∙ mod-eq_of_lt (omega arith) in
      let fresh : (n == unset) ≡ false = ne→== n unset (omega (arith, bound)) in
      let claimed = claim_c-free q k n small h c in
      let result : round q (2 ^ k)
          ≡ record q { cursor = n + 1; committed = write q.committed n n } =
        rw (ap (λ r. r.0) claimed, round, ap (λ r. r.1) claimed, fresh, own) refl in
      rw result record {
        cursor = omega arith;
        done = λ i l. ground (arith, c.done i);
        rest = λ i l. rw (ne→== i n (omega arith)) (c.rest i (omega arith));
      }

  rounds-Claimed :
      (buf : Buffer A) (k n : ℕ)
      → k ≤ 63
      → n < 2 ^ k
      → Claimed (rounds (init buf (2 ^ k)) (2 ^ k) n) n
  unfolding rounds init
  rounds-Claimed buf k zero small h = record {
    cursor = refl;
    done = λ i l. absurd (omega arith);
    rest = λ i l. refl;
  }
  rounds-Claimed buf k (suc n) small h =
      round-Claimed (rounds (init buf (2 ^ k)) (2 ^ k) n) k n small (omega arith)
        (rounds-Claimed buf k n small (omega arith))

  -- A ring of `2 ^ k` slots, at least two, hands out the numbers below `2 ^ k - 1` in order; then a
  -- claim says that the ring is full and changes nothing, and no other call frees a slot.
  pub claim_c_stuck :
      (buf : Buffer A) (k n : ℕ)
      → 1 ≤ k
      → k ≤ 63
      → n < 2 ^ k
      → let q = rounds (init buf (2 ^ k)) (2 ^ k) n in
        ((n + 1 < 2 ^ k) × ((claim_c q (2 ^ k)).0 ≡ n))
        ⊎ ((n + 1 ≡ 2 ^ k) × (claim_c q (2 ^ k) ≡ (unset, q)))
  claim_c_stuck buf k n two small h =
      let q = rounds (init buf (2 ^ k)) (2 ^ k) n in
      let c = rounds-Claimed buf k n small h in
      let large = pow-le-pow_right {n = 2} (omega arith) {i = 1} {j = k} two in
      elim (dec_lt (n + 1) (2 ^ k)) [
        | yes l ↦ inl (l, ap (λ r. r.0) (claim_c-free q k n small l c))
        | no g ↦ inr (omega arith, claim_c-full q k n small (omega (arith, large)) (omega arith) c)
      ]
