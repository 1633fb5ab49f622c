-- ===== src/HashMap/Lookup/Removal.antt =====
-- What bt_hashmap_remove answers, and what searches find after it.
use aspira_broker.Prelude.{
  ℕ, zero, suc, ◌+◌, ◌≡◌, ◌≢◌, inl, inr, refl, sym, ◌∙◌, arith, Bool, true, false, Option, none,
  some, ◌==◌, if◌then◌else◌, Bool-cases, ==→eq, ==→ne,
}
use aspira_broker.HashMap.{HashMap, probe, is_open, get_from, get, remove_from, remove}
use aspira_broker.HashMap.Inv.{bury, remove_from_buries}
use aspira_broker.HashMap.Lookup.{Unique, Absent, get_from-Absent, look_pass}

abbrev pub is_some {ℓ} : {A : Type ℓ} → Option A → Bool
is_some none = false
is_some (some _) = true

remove_from-get :
    (m : HashMap) (key i n : ℕ) → (remove_from m key i n).0 ≡ is_some (get_from m key i n)
unfolding remove_from get_from
remove_from-get m key i zero = refl
remove_from-get m key i (suc n) = ground (arith, remove_from-get m key (i + 1) n)

module _ (m : HashMap) (key : ℕ) where
  get_from-bury :
      (idx k i n : ℕ)
      → k ≢ key
      → is_open (m.entries idx) ≡ false
      → (m.entries idx).key ≡ key
      → get_from (bury m idx) k i n ≡ get_from m k i n
  unfolding get_from
  get_from-bury idx k i zero ne used e = refl
  get_from-bury idx k i (suc n) ne used e =
      let p = probe k i m.capacity in
      let ih = get_from-bury idx k (i + 1) n ne used e in
      elim (Bool-cases (p == idx)) [
        | inl here ↦
            let same = ==→eq p idx here in
            rw (here, ih)
              (sym (
                look_pass (m.entries p) k (get_from m k (i + 1) n) (rw same used)
                  (λ w. ne (sym w ∙ rw same e))))
        | inr there ↦ rw (there, ih) refl
      ]

  bury-Absent :
      (idx : ℕ)
      → Unique m
      → is_open (m.entries idx) ≡ false
      → (m.entries idx).key ≡ key
      → Absent (bury m idx) key
  bury-Absent idx unique used e p u = elim (Bool-cases (p == idx)) [
    | inl here ↦ cc (rw here at u)
    | inr there ↦
        rw there (λ same. ground (arith, unique p idx (rw there at u) used (same ∙ sym e)))
  ]

  -- A removal leaves every other key with the value it had, on any table.
  pub remove-get_ne :
      {m' : HashMap} (k : ℕ) → remove m key ≡ (true, m') → k ≢ key → get m' k ≡ get m k
  unfolding remove get
  remove-get_ne k h ne =
      let (idx, q, used, e, _) = remove_from_buries m key 0 m.capacity h in
      rw q (get_from-bury idx k 0 m.capacity ne used e)

  -- Where no key is held twice, a removal that succeeds takes the key away and changes no other.
  pub remove-get :
      {m' : HashMap}
      → Unique m
      → remove m key ≡ (true, m')
      → (k : ℕ) → get m' k ≡ (if k == key then none else get m k)
  remove-get {m'} unique h k =
      let (idx, q, used, e, _) =
        remove_from_buries m key 0 m.capacity {m' = m'} (unfold remove in h) in
      elim (Bool-cases (k == key)) [
        | inl same ↦
            rw (same, ==→eq k key same, q)
              (unfold get in
                get_from-Absent (bury m idx) key 0 m.capacity (bury-Absent idx unique used e))
        | inr other ↦ rw other (remove-get_ne k h (==→ne k key other))
      ]

  -- A removal answers 0 exactly when a search finds the key.
  pub remove_status : (remove m key).0 ≡ is_some (get m key)
  unfolding remove get
  remove_status = remove_from-get m key 0 m.capacity
