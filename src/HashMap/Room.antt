-- ===== src/HashMap/Room.antt =====
-- A table that is not full has room: the probing of an absent key meets every slot.
use native.Mathlib.Decide.{ℕ_discrete, dec_lt}
use native.Mathlib.Nat.{
  dvd-mul_right, mul_assoc, pow-suc, pow-le-pow_right, mod-mod_of_dvd, mod-lt, mod-add-div,
  add-mod-mod, mul-add-mod_self_left, mod-eq_of_lt, add-mod_right,
}
use aspira_broker.Prelude.{
  ℕ, zero, suc, ◌+◌, ◌-◌, ◌*◌, ◌/◌, ◌%◌, ◌^◌, ◌≤◌, ◌<◌, ◌≡◌, ◌⊎◌, inl, inr, refl, ap, sym, ◌∙◌,
  arith, true, false, ne→==, Bool-cases, IsPow2, bit_and-mod, size_add, size_mod,
}
use aspira_broker.HashMap.{HashMap, probe, is_open, fill, put_from}
use aspira_broker.HashMap.Lookup.{Absent}
use aspira_broker.HashMap.Counts.{IsCounted, tally, is_live}

-- A power of two divides every later one.
pow2_split : (k d : ℕ) → (c : ℕ) × (2 ^ (d + k) ≡ 2 ^ k * c)
pow2_split k zero =
    let same : zero + k ≡ k = omega arith in
    let power : 2 ^ (zero + k) ≡ 2 ^ k = ap (λ n. 2 ^ n) same in (1, omega (arith, power))
pow2_split k (suc d) =
    let (c, e) = pow2_split k d in
    let same : suc d + k ≡ suc (d + k) = omega arith in
    (c * 2, ap (λ n. 2 ^ n) same ∙ pow-suc 2 (d + k) ∙ ap (λ n. n * 2) e ∙ mul_assoc (2 ^ k) c 2)

module _ (cap : ℕ) (pow : IsPow2 cap) (pos : 0 < cap) (fits : cap < size_mod) where
  -- The capacity divides the modulus of `size_t`.
  wrapped_mod : (x : ℕ) → x % size_mod % cap ≡ x % cap
  wrapped_mod x =
      let (k, e) = pow in
      let small : k ≤ 64 = elim (dec_lt 64 k) [
        | yes far ↦ absurd (
            omega (
              arith,
              e,
              fits,
              pow-le-pow_right {n = 2} (omega arith) {i = 64} {j = k} (omega arith),
            ))
        | no near ↦ omega arith
      ] in
      let (c, f) = pow2_split k (64 - k) in
      let same : 64 - k + k ≡ 64 = omega arith in
      let whole : size_mod ≡ cap * c = ap (λ n. 2 ^ n) (sym same) ∙ f ∙ ap (λ n. n * c) (sym e) in
      mod-mod_of_dvd cap {b = size_mod} x (rw whole (dvd-mul_right cap c))

  probe-mod : (key i : ℕ) → probe key i cap ≡ (key + i) % cap
  unfolding probe
  probe-mod key i =
      let e : cap - 1 + 1 ≡ cap = omega arith in
      bit_and-mod (size_add key i) (cap - 1) (pow.0, e ∙ pow.1)
      ∙ ap (λ c. size_add key i % c) e
      ∙ wrapped_mod (key + i)

  -- The round in which a key's walk is at slot `p`.
  probe_meets : (key p : ℕ) → p < cap → (i : ℕ) × (i < cap) × (probe key i cap ≡ p)
  probe_meets key p h =
      let r = key % cap in
      let r_lt = mod-lt key {m = cap} pos in
      let q : key + (p + cap - r) ≡ cap * (key / cap) + (p + cap) =
        omega (arith, mod-add-div key cap, r_lt) in
      (
        (p + cap - r) % cap,
        mod-lt (p + cap - r) pos,
        probe-mod key ((p + cap - r) % cap)
            ∙ add-mod-mod key (p + cap - r) cap
            ∙ ap (λ n. n % cap) q
            ∙ mul-add-mod_self_left cap (key / cap) (p + cap)
            ∙ add-mod_right p cap
            ∙ mod-eq_of_lt h,
      )

module _ (m : HashMap) (key value : ℕ) (absent : Absent m key) where
  -- A put of an absent key fails only where every slot that it meets is in use.
  put_from_or_full :
      (i n : ℕ)
      → ((m' : HashMap) × (put_from m key value i n ≡ (true, m')))
        ⊎ ((j : ℕ) → i ≤ j → j < i + n → is_open (m.entries (probe key j m.capacity)) ≡ false)
  unfolding put_from
  put_from_or_full i zero = inr (λ j a b. absurd (omega arith))
  put_from_or_full i (suc n) =
      let idx = probe key i m.capacity in
      elim (Bool-cases (is_open (m.entries idx))) [
        | inl free ↦ inl (fill m idx key value, rw free refl)
        | inr used ↦ elim (put_from_or_full (i + 1) n) [
          | inl (m', e) ↦ inl (m', rw (used, ne→== _ _ (absent idx used)) e)
          | inr full ↦ inr (λ j a b. elim (ℕ_discrete i j) [
            | yes here ↦ rw (← here) used
            | no later ↦ full j (omega arith) (omega arith)
          ])
        ]
      ]

tally_full :
    (m : HashMap) (n : ℕ)
    → ((p : ℕ) → p < n → is_open (m.entries p) ≡ false)
    → tally is_live m n ≡ n
unfolding tally
tally_full m zero h = refl
tally_full m (suc n) h =
    rw (h n (omega arith), tally_full m n (λ p l. h p (omega arith))) (omega arith)

-- A put of an absent key into a table with a free slot succeeds, where the table does not grow.
pub put_from_total :
    (m : HashMap) (key value : ℕ)
    → IsPow2 m.capacity
    → IsCounted m
    → m.count < m.capacity
    → Absent m key
    → (m' : HashMap) × (put_from m key value 0 m.capacity ≡ (true, m'))
put_from_total m key value pow c room absent =
    elim (put_from_or_full m key value absent 0 m.capacity) [
      | inl done ↦ done
      | inr full ↦
          let every : (p : ℕ) → p < m.capacity → is_open (m.entries p) ≡ false = λ p l.
            (let (i, b, e) = probe_meets m.capacity pow (omega arith) c.fits key p l in
              rw e at (full i (omega arith) (omega arith))) in
          absurd (omega (arith, c.live, tally_full m m.capacity every))
    ]
