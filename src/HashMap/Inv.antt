-- ===== src/HashMap/Inv.antt =====
-- The probing invariant: no empty slot stands on the way from a key's home to its entry.
use aspira_broker.Prelude.{
  ℕ, zero, suc, ◌+◌, ◌<◌, ◌≡◌, ◌≢◌, ◌⊎◌, inl, inr, refl, ap, sym, ◌∙◌, ==→eq, arith, true, false,
  not, ◌&&◌, ◌==◌, size_sub, size_add, IsPow2, bit_and-mod, ◌-◌, ◌%◌, Bool-cases, write,
}
use native.Mathlib.Nat.{mod-lt}
use aspira_broker.HashMap.{
  Entry, HashMap, null, tombstone, cleared, probe, is_open, fill, put_from, remove_from, remove,
}

-- A walk for `key` from round `i` on meets slot `p` before an empty slot.
abbrev pub Reaches : HashMap → ℕ → ℕ → ℕ → ℕ → Type 0
Reaches m key p i zero = ⊥
Reaches m key p i (suc n) =
    (probe key i m.capacity ≡ p)
    ⊎ ((m.entries (probe key i m.capacity)).value ≢ null) × Reaches m key p (i + 1) n

-- Every entry is reached from its key's home.
abbrev pub NoGap : HashMap → Type 0
NoGap m = (p : ℕ) → is_open (m.entries p) ≡ false → Reaches m (m.entries p).key p 0 m.capacity

-- No slot that was in use becomes empty.
abbrev pub Keeps : HashMap → HashMap → Type 0
Keeps m m' = (p : ℕ) → (m.entries p).value ≢ null → (m'.entries p).value ≢ null

Reaches-mono :
    (m m' : HashMap) (key p i n : ℕ)
    → m'.capacity ≡ m.capacity
    → Keeps m m'
    → Reaches m key p i n
    → Reaches m' key p i n
Reaches-mono m m' key p i zero c k r = r
Reaches-mono m m' key p i (suc n) c k (inl e) = inl (ap (probe key i) c ∙ e)
Reaches-mono m m' key p i (suc n) c k (inr (u, r)) =
    inr (rw c (k (probe key i m.capacity) u), Reaches-mono m m' key p (i + 1) n c k r)

pub in_use : (e : Entry) → is_open e ≡ false → (e.value ≢ null) × (e.value ≢ tombstone)
in_use e h = ground arith

module _ (m : HashMap) (key value : ℕ) where
  -- A put that succeeds fills a slot that was open and that a walk for the key reaches.
  pub put_from_fills :
      (i n : ℕ) {m' : HashMap}
      → put_from m key value i n ≡ (true, m')
      → (idx : ℕ) × (m' ≡ fill m idx key value)
        × (is_open (m.entries idx) ≡ true)
        × Reaches m key idx i n
  unfolding put_from
  put_from_fills i zero h = cc
  put_from_fills i (suc n) {m'} h =
      let idx = probe key i m.capacity in
      let e = m.entries idx in
      elim (Bool-cases (is_open e)) [
        | inl free ↦ (idx, sym (ap (λ r. r.1) (rw free at h)), free, inl refl)
        | inr used ↦ elim (Bool-cases (e.key == key)) [
          | inl same ↦ cc (rw (used, same) at h)
          | inr other ↦
              let (j, q, free, r) = put_from_fills (i + 1) n (rw (used, other) at h) in
              (j, q, free, inr ((in_use e used).0, r))
        ]
      ]

  fill-Keeps : (idx : ℕ) → value ≢ null → Keeps m (fill m idx key value)
  fill-Keeps idx v p u = elim (Bool-cases (p == idx)) [
    | inl here ↦ rw here v
    | inr there ↦ rw there u
  ]

  fill-NoGap :
      (idx : ℕ)
      → value ≢ null
      → Reaches m key idx 0 m.capacity
      → NoGap m
      → NoGap (fill m idx key value)
  fill-NoGap idx v r g p u =
      let keeps = fill-Keeps idx v in
      let m' = fill m idx key value in
      elim (Bool-cases (p == idx)) [
        | inl here ↦
            let e = ==→eq p idx here in
            rw (here, e) (Reaches-mono m m' key idx 0 m.capacity refl keeps r)
        | inr there ↦
            let old = g p (rw there at u) in
            rw there (Reaches-mono m m' (m.entries p).key p 0 m.capacity refl keeps old)
      ]

  -- Where no empty slot stands on the way from a key's home to its entry, none does after a put of
  -- a value other than NULL that succeeds without growing.
  pub put_from-NoGap :
      {m' : HashMap}
      → value ≢ null
      → put_from m key value 0 m.capacity ≡ (true, m')
      → NoGap m
      → NoGap m'
  put_from-NoGap v h g =
      let (idx, e, _, r) = put_from_fills 0 m.capacity h in rw e (fill-NoGap idx v r g)

-- What bt_hashmap_remove leaves at the slot that it clears.
abbrev pub bury : HashMap → ℕ → HashMap
bury m idx = record m {
  entries = write m.entries idx (record (m.entries idx) { value = tombstone });
  count = size_sub m.count 1;
  tombstones = m.tombstones + 1;
}

pub remove_from_buries :
    (m : HashMap) (key i n : ℕ) {m' : HashMap}
    → remove_from m key i n ≡ (true, m')
    → (idx : ℕ) × (m' ≡ bury m idx)
      × (is_open (m.entries idx) ≡ false)
      × ((m.entries idx).key ≡ key)
      × ((r : ℕ) × (probe key r m.capacity ≡ idx))
unfolding remove_from
remove_from_buries m key i zero h = cc
remove_from_buries m key i (suc n) {m'} h =
    let idx = probe key i m.capacity in
    let e = m.entries idx in
    elim (Bool-cases (e.value == null)) [
      | inl empty ↦ cc (rw empty at h)
      | inr full ↦ elim (Bool-cases (not (e.value == tombstone) && e.key == key)) [
        | inl hit ↦
            (idx, sym (ap (λ r. r.1) (rw (full, hit) at h)), ground arith, ground arith, (i, refl))
        | inr miss ↦ remove_from_buries m key (i + 1) n (rw (full, miss) at h)
      ]
    ]

bury-Keeps : (m : HashMap) (idx : ℕ) → Keeps m (bury m idx)
bury-Keeps m idx p u = ground arith

bury-NoGap : (m : HashMap) (idx : ℕ) → NoGap m → NoGap (bury m idx)
bury-NoGap m idx g p u = elim (Bool-cases (p == idx)) [
  | inl here ↦ cc (rw here at u)
  | inr there ↦ rw there (
      Reaches-mono m (bury m idx) (m.entries p).key p 0 m.capacity refl (bury-Keeps m idx)
        (g p (rw there at u)))
]

-- Where no empty slot stands on the way from a key's home to its entry, none does after a removal
-- that succeeds.
pub remove-NoGap :
    (m : HashMap) (key : ℕ) {m' : HashMap} → remove m key ≡ (true, m') → NoGap m → NoGap m'
unfolding remove
remove-NoGap m key h g =
    let (idx, e, _, _, _) = remove_from_buries m key 0 m.capacity h in rw e (bury-NoGap m idx g)

-- An empty table.
pub cleared-NoGap : (m : HashMap) → m.entries ≡ cleared → NoGap m
cleared-NoGap m e p u = cc (rw e at u)

-- Probing stays inside the table.
pub probe-lt : (key i cap : ℕ) → IsPow2 cap → 0 < cap → probe key i cap < cap
unfolding probe
probe-lt key i cap p pos =
    let e : cap - 1 + 1 ≡ cap = omega arith in
    omega (
      arith,
      bit_and-mod (size_add key i) (cap - 1) (p.0, e ∙ p.1),
      ap (λ k. size_add key i % k) e,
      mod-lt (size_add key i) pos,
    )

pub Reaches-lt :
    (m : HashMap) (key p i n : ℕ)
    → IsPow2 m.capacity
    → 0 < m.capacity
    → Reaches m key p i n
    → p < m.capacity
Reaches-lt m key p i zero w pos r = absurd r
Reaches-lt m key p i (suc n) w pos (inl e) = rw (← e) (probe-lt key i m.capacity w pos)
Reaches-lt m key p i (suc n) w pos (inr (_, r)) = Reaches-lt m key p (i + 1) n w pos r
