-- ===== src/Timer/Record.antt =====
-- src/utils/timer.c: the statistics of a list of latencies.
use mathlib.Core.Path.{subst}
use native.Mathlib.Decide.{dec_lt}
use native.Mathlib.Nat.{pow-suc, pow-le-pow_right}
use aspira_broker.Prelude.{
  ℕ, zero, suc, ◌+◌, ◌-◌, ◌*◌, ◌/◌, ◌%◌, ◌^◌, ◌≤◌, ◌<◌, ◌≡◌, inl, inr, refl, sym, ap, ◌∙◌, arith,
  Bool, true, ◌&&◌, leb, leb→le, le→leb, ltb→lt, pow2_pos, min, max, List, [], ◌∷◌, length, ltb,
  ◌==◌, if◌then◌else◌, lt→ltb, ge→ltb, ==→eq, ==→ne, Bool-cases, size_add, Buffer, write,
}
use aspira_broker.Timer.{LatencyStats, init, shift_bin, bin_of, stats_record}

-- A number stands in the bin of its highest bit.
abbrev pub HasTop : ℕ → ℕ → Type 0
HasTop us bin = (2 ^ bin ≤ us) × (us < 2 ^ (bin + 1))

shift_bin-HasTop :
    (fuel us bin : ℕ)
    → 0 < us
    → us < 2 ^ fuel
    → (b : ℕ) × (shift_bin fuel us bin ≡ bin + b) × HasTop us b
unfolding shift_bin
shift_bin-HasTop zero us bin pos small = absurd (omega arith)
shift_bin-HasTop (suc fuel) us bin pos small = elim (Bool-cases (us / 2 == 0)) [
  | inl e ↦
      let half = ==→eq (us / 2) 0 e in
      rw e (0, omega arith, (omega (arith, half), omega (arith, half)))
  | inr e ↦
      let half = ==→ne (us / 2) 0 e in
      let (b, f, (low, high)) =
        shift_bin-HasTop fuel (us / 2) (bin + 1) (omega (arith, half))
          (omega (arith, pow-suc 2 fuel)) in
      let next : suc b + 1 ≡ suc (b + 1) = omega arith in
      let top : 2 ^ (suc b + 1) ≡ 2 ^ (b + 1) * 2 = ap (λ k. 2 ^ k) next ∙ pow-suc 2 (b + 1) in
      rw e (suc b, omega (arith, f), (omega (arith, pow-suc 2 b, low), omega (arith, top, high)))
]

-- A latency of less than 2 µs stands in bin 0, any other in the bin of its highest bit of µs.
unfoldable pub stands_in : ℕ → ℕ → Bool
stands_in bin latency_ns =
    let us = latency_ns / 1000 in
    if ltb us 2 then bin == 0 else leb (2 ^ bin) us && ltb us (2 ^ (bin + 1))

top_unique : (us a b : ℕ) → HasTop us a → HasTop us b → a ≡ b
top_unique us a b p q = elim (dec_lt a b) [
  | yes l ↦
      let far = pow-le-pow_right {n = 2} (omega arith) {i = a + 1} {j = b} (omega arith) in
      absurd (omega (arith, far, p.1, q.0))
  | no g ↦ elim (dec_lt b a) [
    | yes l ↦
        let far = pow-le-pow_right {n = 2} (omega arith) {i = b + 1} {j = a} (omega arith) in
        absurd (omega (arith, far, q.1, p.0))
    | no h ↦ omega arith
  ]
]

-- The two tests of a bin say that its number is that of the highest bit.
top-test : (us b : ℕ) → HasTop us b → (leb (2 ^ b) us && ltb us (2 ^ (b + 1))) ≡ true
top-test us b h = rw (le→leb (2 ^ b) us h.0, lt→ltb us (2 ^ (b + 1)) h.1) refl

test-top : (us b : ℕ) → (leb (2 ^ b) us && ltb us (2 ^ (b + 1))) ≡ true → HasTop us b
test-top us b h = elim (Bool-cases (leb (2 ^ b) us)) [
  | inl e ↦ (leb→le (2 ^ b) us e, ltb→lt us (2 ^ (b + 1)) (rw e at h))
  | inr e ↦ absurd (ground (arith, (rw e at h)))
]

-- The bin of a number that is not 0.
same_test :
    (us b k : ℕ)
    → HasTop us k
    → (b == k) ≡ (if ltb us 2 then b == 0 else leb (2 ^ b) us && ltb us (2 ^ (b + 1)))
same_test us b k top = elim (Bool-cases (ltb us 2)) [
  | inl e ↦
      let low : HasTop us 0 =
        (omega (arith, ltb→lt us 2 e, top, pow2_pos k), omega (arith, ltb→lt us 2 e)) in
      rw (e, top_unique us k 0 top low) refl
  | inr e ↦ elim (Bool-cases (b == k)) [
    | inl f ↦
        let here : HasTop us b = subst (HasTop us) (sym (==→eq b k f)) top in
        rw (e, f) (sym (top-test us b here))
    | inr f ↦ elim (Bool-cases (leb (2 ^ b) us && ltb us (2 ^ (b + 1)))) [
      | inl g ↦ absurd (==→ne b k f (top_unique us b k (test-top us b g) top))
      | inr g ↦ rw (e, f, g) refl
    ]
  ]
]

bin_of-stands_in :
    (latency_ns b : ℕ) → latency_ns < 2 ^ 64 → (b == bin_of latency_ns) ≡ stands_in b latency_ns
unfolding bin_of stands_in
bin_of-stands_in latency_ns b small =
    let us = latency_ns / 1000 in
    elim (dec_lt 0 us) [
      | yes pos ↦
          let (k, f, top) = shift_bin-HasTop 64 us 0 pos (omega arith) in
          let bin : shift_bin 64 us 0 ≡ k = omega (arith, f) in
          rw (lt→ltb 0 us pos, bin) (same_test us b k top)
      | no none_at_all ↦
          let empty : us ≡ 0 = omega arith in
          rw (ge→ltb 0 us (omega arith), lt→ltb us 2 (omega arith)) refl
    ]

-- What the statistics of some latencies are, the latest first.
abbrev pub least : List ℕ → ℕ
least [] = 2 ^ 64 - 1
least (x ∷ xs) = min x (least xs)

abbrev pub greatest : List ℕ → ℕ
greatest [] = 0
greatest (x ∷ xs) = max x (greatest xs)

abbrev pub total : List ℕ → ℕ
total [] = 0
total (x ∷ xs) = total xs + x

abbrev pub tally : ℕ → List ℕ → ℕ
tally bin [] = 0
tally bin (x ∷ xs) = let rest = tally bin xs in if stands_in bin x then rest + 1 else rest

abbrev pub AllBelow : ℕ → List ℕ → Type 0
AllBelow limit [] = Unit
AllBelow limit (x ∷ xs) = (x < limit) × AllBelow limit xs

unfoldable pub record_all : List ℕ → LatencyStats
record_all [] = init
record_all (x ∷ xs) = stats_record (record_all xs) x

tally-length : (bin : ℕ) (xs : List ℕ) → tally bin xs ≤ length xs
tally-length bin [] = omega arith
tally-length bin (x ∷ xs) = ground (arith, tally-length bin xs)

-- One more latency in the histogram.
histogram-step :
    (h : Buffer ℕ) (bin k n : ℕ)
    → bin < 16
    → h bin ≡ n
    → n + 1 < 2 ^ 64
    → (if ltb k 16 then write h k (size_add (h k) 1) else h) bin ≡ (if bin == k then n + 1 else n)
histogram-step h bin k n b16 e small = elim (Bool-cases (bin == k)) [
  | inl f ↦
      let same : k ≡ bin = sym (==→eq bin k f) in
      rw (lt→ltb k 16 (omega (arith, same, b16)), f, same, e) (omega (arith, small))
  | inr f ↦ elim (Bool-cases (ltb k 16)) [ inl g ↦ rw (g, f) e | inr g ↦ rw (g, f) e ]
]

-- After fewer than 2 ^ 64 latencies the statistics hold their least and greatest, their sum, which may
-- have wrapped, their number, and for each of the 16 bins how many stand in it.
pub record_all_correct :
    (xs : List ℕ) (bin : ℕ)
    → AllBelow (2 ^ 64) xs
    → length xs < 2 ^ 64
    → bin < 16
    → let s = record_all xs in
      (s.min_ns ≡ least xs)
      × (s.max_ns ≡ greatest xs)
      × (s.sum_ns ≡ total xs % 2 ^ 64)
      × (s.count ≡ length xs)
      × (s.histogram bin ≡ tally bin xs)
unfolding record_all init stats_record
record_all_correct [] bin all few b16 = (refl, refl, refl, refl, refl)
record_all_correct (x ∷ xs) bin all few b16 =
    let (least', greatest', sum, count, inside) =
      record_all_correct xs bin all.1 (omega arith) b16 in
    let s = record_all xs in
    (
      ground (arith, least'),
      ground (arith, greatest'),
      omega (arith, sum),
      omega (arith, count),
      histogram-step s.histogram bin (bin_of x) (tally bin xs) b16 inside
            (omega (arith, tally-length bin xs))
          ∙ ap (λ t. if t then tally bin xs + 1 else tally bin xs) (bin_of-stands_in x bin all.0),
    )
