-- ===== src/HashMap/Counts.antt =====
-- The counters of the table: `count` against the entries, `tombstones` against the slots.
use aspira_broker.Prelude.{
  ℕ, zero, suc, ◌+◌, ◌≤◌, ◌<◌, ◌≡◌, ◌≢◌, refl, sym, ◌∙◌, arith, Bool, true, false, not, ◌==◌, ne→==,
  eq→==, write, IsPow2, if◌then◌else◌, size_mod,
}
use native.Mathlib.Decide.{ℕ_discrete}
use aspira_broker.HashMap.{Entry, HashMap, tombstone, is_open, fill, put_from, remove}
use aspira_broker.HashMap.Inv.{Reaches-lt, probe-lt, put_from_fills, bury, remove_from_buries}

-- How many of the slots below `n` satisfy a test.
unfoldable pub tally : (Entry → Bool) → HashMap → ℕ → ℕ
tally test m zero = 0
tally test m (suc n) = tally test m n + (if test (m.entries n) then 1 else 0)

abbrev pub is_live : Entry → Bool
is_live e = not (is_open e)

abbrev pub is_dead : Entry → Bool
is_dead e = e.value == tombstone

-- `count` is the number of entries, and `tombstones` at least the number of tombstones.
pub record IsCounted (m : HashMap) : Type 0 where
  pub live : m.count ≡ tally is_live m m.capacity
  pub dead : tally is_dead m m.capacity ≤ m.tombstones
  pub fits : m.capacity < size_mod

-- Tables that agree below `n`.
tally_same :
    (test : Entry → Bool) (m t : HashMap) (idx n : ℕ)
    → ((p : ℕ) → p ≢ idx → t.entries p ≡ m.entries p)
    → n ≤ idx
    → tally test t n ≡ tally test m n
unfolding tally
tally_same test m t idx zero same h = refl
tally_same test m t idx (suc n) same h =
    rw (same n (omega arith), tally_same test m t idx n same (omega arith))

-- Two tables that differ in one slot below `n`.
tally_change :
    (test : Entry → Bool) (m t : HashMap) (idx n : ℕ)
    → ((p : ℕ) → p ≢ idx → t.entries p ≡ m.entries p)
    → idx < n
    → tally test t n + (if test (m.entries idx) then 1 else 0)
      ≡ tally test m n + (if test (t.entries idx) then 1 else 0)
unfolding tally
tally_change test m t idx zero same h = absurd (omega arith)
tally_change test m t idx (suc n) same h = elim (ℕ_discrete idx n) [
  | yes e ↦
      rw (e, tally_same test m t n n (λ p ne. same p (λ q. ne (q ∙ e))) (omega arith)) (omega arith)
  | no ne ↦
      rw (same n (λ q. ne (sym q))) (omega (arith, tally_change test m t idx n same (omega arith)))
]

tally-le : (test : Entry → Bool) (m : HashMap) (n : ℕ) → tally test m n ≤ n
unfolding tally
tally-le test m zero = omega arith
tally-le test m (suc n) = ground (arith, tally-le test m n)

tally_pos :
    (test : Entry → Bool) (m : HashMap) (idx n : ℕ)
    → idx < n
    → test (m.entries idx) ≡ true
    → 0 < tally test m n
unfolding tally
tally_pos test m idx zero h e = absurd (omega arith)
tally_pos test m idx (suc n) h e = elim (ℕ_discrete idx n) [
  | yes q ↦ rw (← q, e) (omega arith)
  | no ne ↦ omega (arith, tally_pos test m idx n (omega arith) e)
]

module _ (m : HashMap) (idx : ℕ) (lt : idx < m.capacity) (c : IsCounted m) where
  other_slots : (e : Entry) (p : ℕ) → p ≢ idx → write m.entries idx e p ≡ m.entries p
  other_slots e p ne = rw (ne→== p idx ne)

  fill-IsCounted :
      (key value : ℕ)
      → 1 < value
      → is_open (m.entries idx) ≡ true
      → IsCounted (fill m idx key value)
  fill-IsCounted key value v free =
      let t = fill m idx key value in
      let e : Entry = record { key = key; value = value } in
      let live = tally_change is_live m t idx m.capacity (other_slots e) lt in
      let dead = tally_change is_dead m t idx m.capacity (other_slots e) lt in
      let here = eq→== idx idx refl in
      let live' = rw (here, free) at live in
      let dead' = rw here at dead in
      record { live = ground (arith, live'); dead = ground (arith, dead'); fits = c.fits }

  bury-IsCounted : is_open (m.entries idx) ≡ false → IsCounted (bury m idx)
  bury-IsCounted used =
      let t = bury m idx in
      let e : Entry = record (m.entries idx) { value = tombstone } in
      let live = tally_change is_live m t idx m.capacity (other_slots e) lt in
      let dead = tally_change is_dead m t idx m.capacity (other_slots e) lt in
      let here = eq→== idx idx refl in
      let live' = rw (here, used) at live in
      let dead' = rw here at dead in
      let some_live = tally_pos is_live m idx m.capacity lt (rw used) in
      let bound = tally-le is_live m m.capacity in
      record { live = ground (arith, live'); dead = ground (arith, dead'); fits = c.fits }

module _ (m : HashMap) (pow : IsPow2 m.capacity) (pos : 0 < m.capacity) where
  -- A put that succeeds without growing keeps `count` the number of entries, and `tombstones` at
  -- least the number of tombstones.
  pub put_from-IsCounted :
      (key value : ℕ) {m' : HashMap}
      → 1 < value
      → put_from m key value 0 m.capacity ≡ (true, m')
      → IsCounted m
      → IsCounted m'
  put_from-IsCounted key value {m'} v h c =
      let (idx, q, free, r) = put_from_fills m key value 0 m.capacity h in
      let lt = Reaches-lt m key idx 0 m.capacity pow pos r in
      rw q (fill-IsCounted m idx lt c key value v free)

  -- A removal that succeeds keeps them too.
  pub remove-IsCounted :
      (key : ℕ) {m' : HashMap} → remove m key ≡ (true, m') → IsCounted m → IsCounted m'
  unfolding remove
  remove-IsCounted key {m'} h c =
      let (idx, q, used, _, (r, e)) = remove_from_buries m key 0 m.capacity h in
      let lt : idx < m.capacity = rw (← e) (probe-lt key r m.capacity pow pos) in
      rw q (bury-IsCounted m idx lt c used)
