-- ===== src/HashMap/Lookup.antt =====
-- What bt_hashmap_get finds after bt_hashmap_put and bt_hashmap_remove.
pub mod Removal
pub mod Duplicates
use aspira_broker.Prelude.{
  ℕ, zero, suc, ◌+◌, ◌≤◌, ◌<◌, ◌≡◌, ◌≢◌, inl, inr, refl, ap, sym, ==→ne, eq→==, ne→==, ◌∙◌, arith,
  Bool, true, false, not, ◌&&◌, Option, none, some, ◌==◌, if◌then◌else◌, Bool-cases, Option-cases,
  ==→eq,
}
use mathlib.Core.Path.{subst}
use aspira_broker.HashMap.{
  Entry, HashMap, null, tombstone, probe, is_open, fill, put_from, get_from, get, remove_from,
  remove,
}
use aspira_broker.HashMap.Inv.{Reaches, NoGap, put_from_fills, in_use, bury, remove_from_buries}

-- No two entries have the same key.
abbrev pub Unique : HashMap → Type 0
Unique m =
    (p q : ℕ)
    → is_open (m.entries p) ≡ false
    → is_open (m.entries q) ≡ false
    → (m.entries p).key ≡ (m.entries q).key
    → p ≡ q

-- The key stands in no slot.
abbrev pub Absent : HashMap → ℕ → Type 0
Absent m key = (p : ℕ) → is_open (m.entries p) ≡ false → (m.entries p).key ≢ key

pub get_from-Absent : (m : HashMap) (key i n : ℕ) → Absent m key → get_from m key i n ≡ none
unfolding get_from
get_from-Absent m key i zero h = refl
get_from-Absent m key i (suc n) h =
    ground (arith, h (probe key i m.capacity), get_from-Absent m key (i + 1) n h)

pub get_from_reached :
    (m : HashMap) (key p i n : ℕ)
    → Reaches m key p i n
    → is_open (m.entries p) ≡ false
    → (m.entries p).key ≡ key
    → get_from m key i n ≢ none
unfolding get_from
get_from_reached m key p i zero r u k = absurd r
get_from_reached m key p i (suc n) (inl e) u k = rw e (ground (arith, in_use (m.entries p) u))
get_from_reached m key p i (suc n) (inr (full, r)) u k =
    ground (arith, get_from_reached m key p (i + 1) n r u k)

-- Where no gap hides an entry, a failed search means that the key stands nowhere.
pub Absent-of_get : (m : HashMap) (key : ℕ) → NoGap m → get m key ≡ none → Absent m key
unfolding get
Absent-of_get m key g h p u e = get_from_reached m key p 0 m.capacity (rw e at (g p u)) u e h

-- What a search makes of one slot, where `rest` is what the slots after it give.
abbrev pub look : Entry → ℕ → Option ℕ → Option ℕ
look e key rest =
    if e.value == null
    then none
    else if not (e.value == tombstone) && e.key == key
    then some e.value
    else rest

pub look_pass :
    (e : Entry) (key : ℕ) (rest : Option ℕ)
    → is_open e ≡ false
    → e.key ≢ key
    → look e key rest ≡ rest
look_pass e key rest u ne = ground arith

pub look-tombstone :
    (e : Entry) (key : ℕ) (rest : Option ℕ) → e.value ≡ tombstone → look e key rest ≡ rest
look-tombstone e key rest u = ground arith

pub look_mono :
    (e : Entry) (key w : ℕ) (rest rest' : Option ℕ)
    → (rest ≡ some w → rest' ≡ some w)
    → look e key rest ≡ some w
    → look e key rest' ≡ some w
look_mono e key w rest rest' f h = ground (arith, f)

pub look_open :
    (e : Entry) (key w : ℕ) (rest : Option ℕ)
    → is_open e ≡ true
    → look e key rest ≡ some w
    → rest ≡ some w
look_open e key w rest u h = ground arith

module _ (m : HashMap) (key value : ℕ) (pointer : 1 < value) where
  entry : Entry
  entry = record { key = key; value = value }

  look-entry : (k : ℕ) (rest : Option ℕ) → k ≢ key → look entry k rest ≡ rest
  unfolding entry
  look-entry k rest ne = ground arith

  -- The put's own key.
  get_from-put :
      (i n : ℕ) {m' : HashMap}
      → put_from m key value i n ≡ (true, m')
      → get_from m' key i n ≡ some value
  unfolding put_from get_from
  get_from-put i zero h = cc
  get_from-put i (suc n) {m'} h =
      let idx = probe key i m.capacity in
      elim (Bool-cases (is_open (m.entries idx))) [
        | inl free ↦
            subst (λ t. get_from t key i (suc n) ≡ some value) (ap (λ r. r.1) (rw free at h))
              (rw (eq→== idx idx refl) (ground arith))
        | inr used ↦ elim (Bool-cases ((m.entries idx).key == key)) [
          | inl same ↦ cc (rw (used, same) at h)
          | inr other ↦
              let h' = rw (used, other) at h in
              let (j, q, free, _) = put_from_fills m key value (i + 1) n h' in
              let rest = get_from-put (i + 1) n h' in
              let apart : (idx == j) ≡ false = ne→== idx j (λ e. cc) in
              subst (λ t. get_from t key i (suc n) ≡ some value) (sym q)
                (rw apart (
                  look_pass (m.entries idx) key _ used (==→ne _ _ other)
                  ∙ subst (λ t. get_from t key (i + 1) n ≡ some value) q rest))
        ]
      ]

  -- Another key's search that succeeded still does.
  get_from-fill :
      (idx k i n w : ℕ)
      → k ≢ key
      → is_open (m.entries idx) ≡ true
      → get_from m k i n ≡ some w
      → get_from (fill m idx key value) k i n ≡ some w
  unfolding get_from entry
  get_from-fill idx k i zero w ne free h = cc
  get_from-fill idx k i (suc n) w ne free h =
      let p = probe k i m.capacity in
      let ih = get_from-fill idx k (i + 1) n w ne free in
      elim (Bool-cases (p == idx)) [
        | inl here ↦
            let old : is_open (m.entries p) ≡ true = rw (==→eq p idx here) free in
            rw here (look-entry k _ ne ∙ ih (look_open (m.entries p) k w _ old h))
        | inr there ↦ rw there (look_mono (m.entries p) k w _ _ ih h)
      ]

  fill-Absent : (idx k : ℕ) → k ≢ key → Absent m k → Absent (fill m idx key value) k
  fill-Absent idx k ne h p u = elim (Bool-cases (p == idx)) [
    | inl here ↦ rw here (λ e. ne (sym e))
    | inr there ↦ rw there (h p (rw there at u))
  ]

  -- A search for another key finds what it found before.
  get-fill :
      (idx k : ℕ)
      → k ≢ key
      → is_open (m.entries idx) ≡ true
      → NoGap m
      → get (fill m idx key value) k ≡ get m k
  get-fill idx k ne free g = elim (Option-cases (get m k)) [
    | inl missing ↦ rw missing (
        unfold get in
        get_from-Absent (fill m idx key value) k 0 m.capacity
          (fill-Absent idx k ne (Absent-of_get m k g missing)))
    | inr (w, found) ↦
        rw found (unfold get in get_from-fill idx k 0 m.capacity w ne free (unfold get in found))
  ]

  -- After a put that succeeds without growing the table, the key has the new value and every other
  -- key has the value it had, on a table with no gap.
  pub put_from-get :
      {m' : HashMap}
      → put_from m key value 0 m.capacity ≡ (true, m')
      → NoGap m
      → (k : ℕ) → get m' k ≡ (if k == key then some value else get m k)
  put_from-get {m'} h g k =
      let (idx, q, free, _) = put_from_fills m key value 0 m.capacity h in
      elim (Bool-cases (k == key)) [
        | inl same ↦
            let found = get_from-put 0 m.capacity h in
            rw (same, ==→eq k key same, q) (unfold get in (rw q at found))
        | inr other ↦ rw (other, q) (get-fill idx k (==→ne k key other) free g)
      ]
