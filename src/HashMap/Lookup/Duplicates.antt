-- ===== src/HashMap/Lookup/Duplicates.antt =====
-- When bt_hashmap_put rejects a key that is already there, and when it does not.
use aspira_broker.Prelude.{
  ℕ, zero, suc, ◌+◌, ◌<◌, ◌≡◌, ◌≢◌, inl, inr, refl, sym, ◌∙◌, arith, Bool, true, false, some, ◌==◌,
  Bool-cases, ==→eq, eq→==, ne→==,
}
use aspira_broker.HashMap.{
  HashMap, null, tombstone, probe, is_loaded, fill, put_from, put_deep, put, get_from, get,
  remove_from, remove,
}
use aspira_broker.HashMap.Inv.{bury}
use aspira_broker.HashMap.Lookup.{look-tombstone}

put_from_duplicate :
    (m : HashMap) (key value w i n : ℕ)
    → ((p : ℕ) → (m.entries p).value ≢ tombstone)
    → get_from m key i n ≡ some w
    → put_from m key value i n ≡ (false, m)
unfolding put_from get_from
put_from_duplicate m key value w i zero none_dead h = cc
put_from_duplicate m key value w i (suc n) none_dead h = ground (
  arith,
  none_dead (probe key i m.capacity),
  put_from_duplicate m key value w (i + 1) n none_dead,
)

-- What `put` does where it does not grow the table.
pub put-steady :
    (grants : Bool) (m : HashMap) (key value : ℕ)
    → value ≢ null
    → is_loaded m ≡ false
    → put grants m key value ≡ put_from m key value 0 m.capacity
unfolding put put_deep
put-steady grants m key value v l = ground (arith, ne→== value null v)

-- On a table that holds no tombstone and need not grow, a put of a key that a search finds is
-- rejected and changes nothing.
pub put_duplicate :
    (grants : Bool) (m : HashMap) (key value w : ℕ)
    → value ≢ null
    → is_loaded m ≡ false
    → ((p : ℕ) → (m.entries p).value ≢ tombstone)
    → get m key ≡ some w
    → put grants m key value ≡ (false, m)
unfolding get
put_duplicate grants m key value w v l none_dead h =
    put-steady grants m key value v l ∙ put_from_duplicate m key value w 0 m.capacity none_dead h

-- The slot where a key's search begins.
abbrev pub home : HashMap → ℕ → ℕ
home m key = probe key 0 m.capacity

module _ (m : HashMap) (key value : ℕ) (dead : (m.entries (home m key)).value ≡ tombstone) where
  put_home :
      (c n : ℕ) → c ≡ suc n → put_from m key value 0 c ≡ (true, fill m (home m key) key value)
  unfolding put_from
  put_home c n e = rw e (ground arith)

  get_home :
      (c n : ℕ)
      → 1 < value
      → c ≡ suc n
      → get_from (fill m (home m key) key value) key 0 c ≡ some value
  unfolding get_from
  get_home c n v e = rw (e, eq→== (home m key) (home m key) refl) (ground arith)

  remove_home :
      (c n : ℕ)
      → 1 < value
      → c ≡ suc n
      → let t = fill m (home m key) key value in remove_from t key 0 c ≡ (true, bury t (home m key))
  unfolding remove_from
  remove_home c n v e = rw (e, eq→== (home m key) (home m key) refl) (ground arith)

  -- With the tombstone back in its place the older entry is found again.
  get_again :
      (i n : ℕ)
      → get_from (bury (fill m (home m key) key value) (home m key)) key i n ≡ get_from m key i n
  unfolding get_from
  get_again i zero = refl
  get_again i (suc n) =
      let p = probe key i m.capacity in
      elim (Bool-cases (p == home m key)) [
        | inl here ↦
            rw (here, get_again (i + 1) n)
              (sym (look-tombstone (m.entries p) key _ (rw (==→eq p (home m key) here) dead)))
        | inr there ↦ rw (there, get_again (i + 1) n) refl
      ]

capacity_of_get : (m : HashMap) (key w c : ℕ) → get_from m key 0 c ≡ some w → (n : ℕ) × (c ≡ suc n)
unfolding get_from
capacity_of_get m key w zero h = cc
capacity_of_get m key w (suc n) h = (n, refl)

-- Where a table need not grow and a key's home holds a tombstone, a put of the key with a value other
-- than NULL and the tombstone succeeds though a search finds the key further on: it is not rejected as
-- a duplicate. The table then holds the key twice: a removal, which succeeds, gives back the old value
-- to the next search.
pub put_over_tombstone :
    (grants : Bool) (m : HashMap) (key value w : ℕ)
    → 1 < value
    → is_loaded m ≡ false
    → (m.entries (home m key)).value ≡ tombstone
    → get m key ≡ some w
    → ((put grants m key value).0 ≡ true)
      × (get (put grants m key value).1 key ≡ some value)
      × ((remove (put grants m key value).1 key).0 ≡ true)
      × (get (remove (put grants m key value).1 key).1 key ≡ some w)
unfolding get remove
put_over_tombstone grants m key value w v l dead h =
    let (n, e) = capacity_of_get m key w m.capacity h in
    rw
      (
        put-steady grants m key value (omega arith) l,
        put_home m key value dead m.capacity n e,
        remove_home m key value dead m.capacity n v e,
      )
      (
        refl,
        get_home m key value dead m.capacity n v e,
        refl,
        get_again m key value dead 0 m.capacity ∙ h,
      )
