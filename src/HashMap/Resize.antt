-- ===== src/HashMap/Resize.antt =====
-- bt_hashmap_put where the table grows: what the new table holds, and that the put succeeds.
use mathlib.Core.Path.{subst}
use native.Mathlib.Decide.{ℕ_discrete}
use native.Mathlib.Nat.{pow-suc}
use aspira_broker.Prelude.{
  ℕ, zero, suc, ◌+◌, ◌*◌, ◌≤◌, ◌<◌, ◌≡◌, ◌≢◌, inl, inr, refl, ap, sym, ◌∙◌, arith, Bool, true,
  false, not, ◌&&◌, none, some, ◌==◌, ==→eq, eq→==, ne→==, if◌then◌else◌, Bool-cases, Option-cases,
  IsPow2, size_mod,
}
use aspira_broker.HashMap.{
  Entry, HashMap, null, tombstone, cleared, probe, is_open, is_loaded, put_from, reinsert, put_deep,
  put, get_from, get,
}
use aspira_broker.HashMap.Inv.{
  NoGap, cleared-NoGap, put_from_fills, put_from-NoGap, in_use, Reaches-lt,
}
use aspira_broker.HashMap.Lookup.{Unique, Absent, Absent-of_get, get_from-Absent, put_from-get}
use aspira_broker.HashMap.Counts.{IsCounted, tally, is_live, is_dead, put_from-IsCounted}
use aspira_broker.HashMap.Room.{put_from_total}

-- What a search finds stands in a slot.
get_from_found :
    (m : HashMap) (key i n w : ℕ)
    → get_from m key i n ≡ some w
    → (p : ℕ) × (is_open (m.entries p) ≡ false)
      × ((m.entries p).key ≡ key)
      × ((m.entries p).value ≡ w)
unfolding get_from
get_from_found m key i zero w h = cc
get_from_found m key i (suc n) w h =
    let p = probe key i m.capacity in
    let e = m.entries p in
    elim (Bool-cases (e.value == null)) [
      | inl empty ↦ cc (rw empty at h)
      | inr full ↦ elim (Bool-cases (not (e.value == tombstone) && e.key == key)) [
        | inl hit ↦ (p, ground arith, ground arith, ground arith)
        | inr miss ↦ get_from_found m key (i + 1) n w (rw (full, miss) at h)
      ]
    ]

-- A table that is well formed: its capacity is a power of two, no gap hides an entry, no key stands
-- twice and the counters are right.
pub record IsTable (m : HashMap) : Type 0 where
  pub pow : IsPow2 m.capacity
  pub gap : NoGap m
  pub unique : Unique m
  pub counted : IsCounted m

-- A put of an absent key leaves no key twice.
put_from-Unique :
    (m : HashMap) (key value : ℕ) {m' : HashMap}
    → put_from m key value 0 m.capacity ≡ (true, m')
    → Absent m key
    → Unique m
    → Unique m'
put_from-Unique m key value h absent unique =
    let (idx, e, _, _) = put_from_fills m key value 0 m.capacity h in
    rw e (λ p q u w same. elim (Bool-cases (p == idx)) [
      | inl here ↦ elim (Bool-cases (q == idx)) [
        | inl both ↦ ==→eq p idx here ∙ sym (==→eq q idx both)
        | inr apart ↦ absurd (absent q (rw apart at w) (sym (rw (here, apart) at same)))
      ]
      | inr there ↦ elim (Bool-cases (q == idx)) [
        | inl here ↦ absurd (absent p (rw there at u) (rw (there, here) at same))
        | inr apart ↦ unique p q (rw there at u) (rw apart at w) (rw (there, apart) at same)
      ]
    ])

-- A put of an absent key where the table has room and does not grow.
put_from-IsTable :
    (m : HashMap) (v : IsTable m) (key value : ℕ)
    → 0 < m.capacity
    → 1 < value
    → get m key ≡ none
    → m.count < m.capacity
    → (m' : HashMap) × (put_from m key value 0 m.capacity ≡ (true, m'))
      × IsTable m'
      × ((k : ℕ) → get m' k ≡ (if k == key then some value else get m k))
put_from-IsTable m v key value pos pointer missing room =
    let absent = Absent-of_get m key v.gap missing in
    let (m', done) = put_from_total m key value v.pow v.counted room absent in
    let (_, e, _, _) = put_from_fills m key value 0 m.capacity done in
    (
      m',
      done,
      record {
        pow = rw e v.pow;
        gap = put_from-NoGap m key value (omega arith) done v.gap;
        unique = put_from-Unique m key value done absent v.unique;
        counted = put_from-IsCounted m v.pow pos key value pointer done v.counted;
      },
      put_from-get m key value pointer done v.gap,
    )

module _ (m : HashMap) (v : IsTable m) (pos : 0 < m.capacity)
    (fits : m.capacity * 2 < size_mod) where
  -- The new table holds the entries of the slots below `i`, and nothing else.
  record Grown (i : ℕ) (t : HashMap) : Type 0 where
    wide : t.capacity ≡ m.capacity * 2
    gap : NoGap t
    unique : Unique t
    counted : IsCounted t
    few : t.count ≤ i
    clean : t.tombstones ≡ 0
    holds :
        (p : ℕ)
        → p < i
        → is_open (m.entries p) ≡ false
        → get t (m.entries p).key ≡ some (m.entries p).value
    only :
        (k : ℕ)
        → ((p : ℕ) → p < i → is_open (m.entries p) ≡ false → (m.entries p).key ≢ k)
        → get t k ≡ none

  wide_pow : IsPow2 (m.capacity * 2)
  wide_pow = (suc v.pow.0, ap (λ n. n * 2) v.pow.1 ∙ sym (pow-suc 2 v.pow.0))

  Grown-open : {i : ℕ} {t : HashMap} → is_open (m.entries i) ≡ true → Grown i t → Grown (i + 1) t
  Grown-open {i} free g = record {
    wide = g.wide;
    gap = g.gap;
    unique = g.unique;
    counted = g.counted;
    few = omega (arith, g.few);
    clean = g.clean;
    holds = λ p h u. elim (ℕ_discrete p i) [
      | yes here ↦ absurd (ground (arith, (rw here at u)))
      | no other ↦ g.holds p (omega arith) u
    ];
    only = λ k h. g.only k (λ p l u. h p (omega arith) u);
  }

  -- One entry more.
  Grown-after :
      {i : ℕ} {t t' : HashMap}
      → is_open (m.entries i) ≡ false
      → put_from t (m.entries i).key (m.entries i).value 0 t.capacity ≡ (true, t')
      → Grown i t
      → Grown (i + 1) t'
  Grown-after {i} {t} {t'} used done g =
      let e = m.entries i in
      let (full, alive) = in_use e used in
      let value_ok : 1 < e.value = omega arith in
      let missing =
        g.only e.key (λ p l u same. absurd (omega (arith, v.unique p i u used same, l))) in
      let tpos : 0 < t.capacity = omega (arith, g.wide) in
      let tpow : IsPow2 t.capacity = rw g.wide wide_pow in
      let (idx, filled, _, _) = put_from_fills t e.key e.value 0 t.capacity done in
      let found = put_from-get t e.key e.value value_ok done g.gap in
      record {
        wide = rw filled g.wide;
        gap = put_from-NoGap t e.key e.value full done g.gap;
        unique =
            put_from-Unique t e.key e.value done (Absent-of_get t e.key g.gap missing) g.unique;
        counted = put_from-IsCounted t tpow tpos e.key e.value value_ok done g.counted;
        few = rw filled (omega (arith, g.few));
        clean = rw (filled, ne→== e.value tombstone alive) g.clean;
        holds = λ p h u. elim (ℕ_discrete p i) [
          | yes here ↦ rw here (found e.key ∙ rw (eq→== e.key e.key refl) refl)
          | no other ↦
              let apart =
                ne→== (m.entries p).key e.key (λ same. other (v.unique p i u used same)) in
              found (m.entries p).key ∙ rw apart (g.holds p (omega arith) u)
        ];
        only = λ k h.
            (let apart = ne→== k e.key (λ same. h i (omega arith) used (sym same)) in
              found k ∙ rw apart (g.only k (λ p l u. h p (omega arith) u)));
      }

  -- The put of one entry into the new table is made, and does not grow it.
  Grown-put :
      (grants : Bool) {i : ℕ} {t : HashMap}
      → i < m.capacity
      → is_open (m.entries i) ≡ false
      → Grown i t
      → Grown (i + 1) (put_deep 0 grants t (m.entries i).key (m.entries i).value).1
  unfolding put_deep
  Grown-put grants {i} {t} lt used g =
      let e = m.entries i in
      let missing =
        g.only e.key (λ p l u same. absurd (omega (arith, v.unique p i u used same, l))) in
      let (t', done) =
        put_from_total t e.key e.value (rw g.wide wide_pow) g.counted (omega (arith, g.wide, g.few))
          (Absent-of_get t e.key g.gap missing) in
      let free : is_loaded t ≡ false = ground (arith, g.wide, g.few, g.clean) in
      rw (ne→== e.value null (in_use e used).0, free, done) (Grown-after used done g)

  Grown-reinsert :
      (grants : Bool) (i n : ℕ) {t : HashMap}
      → i + n ≡ m.capacity
      → Grown i t
      → Grown m.capacity (reinsert (put_deep 0 grants) m.entries i n t)
  unfolding reinsert
  Grown-reinsert grants i zero {t} e g = subst (λ k. Grown k t) (omega arith) g
  Grown-reinsert grants i (suc n) {t} e g = elim (Bool-cases (is_open (m.entries i))) [
    | inl free ↦ rw free (Grown-reinsert grants (i + 1) n (omega arith) (Grown-open free g))
    | inr used ↦
        rw used
          (Grown-reinsert grants (i + 1) n (omega arith) (Grown-put grants (omega arith) used g))
  ]

  fresh : HashMap
  fresh = record { entries = cleared; capacity = m.capacity * 2; count = 0; tombstones = 0 }

  -- The table that _hm_resize makes.
  bigger : Bool → HashMap
  unfolding fresh
  bigger grants = reinsert (put_deep 0 grants) m.entries 0 m.capacity fresh

  tally-cleared :
      (test : Entry → Bool)
      → test (record { key = 0; value = 0 }) ≡ false
      → (n : ℕ) → tally test fresh n ≡ 0
  unfolding tally fresh
  tally-cleared test e zero = refl
  tally-cleared test e (suc n) = rw e (omega (arith, tally-cleared test e n))

  Grown-bigger : (grants : Bool) → Grown m.capacity (bigger grants)
  unfolding bigger fresh
  Grown-bigger grants = Grown-reinsert grants 0 m.capacity (omega arith) (record {
    wide = refl;
    gap = cleared-NoGap fresh refl;
    unique = λ p q u w same. cc;
    counted = record {
      live = sym (tally-cleared is_live refl (m.capacity * 2));
      dead = omega (arith, tally-cleared is_dead refl (m.capacity * 2));
      fits = fits;
    };
    few = omega arith;
    clean = refl;
    holds = λ p l u. absurd (omega arith);
    only = λ k h. (unfold get in get_from-Absent fresh k 0 (m.capacity * 2) (λ p u. cc));
  })

  -- A search in the new table finds what it found in the old one.
  bigger-get : (grants : Bool) (k : ℕ) → get (bigger grants) k ≡ get m k
  bigger-get grants k =
      let g = Grown-bigger grants in
      elim (Option-cases (get m k)) [
        | inl missing ↦ rw missing (g.only k (λ p l u. Absent-of_get m k v.gap missing p u))
        | inr (w, found) ↦
            let (p, u, same, value) = get_from_found m k 0 m.capacity w (unfold get in found) in
            let inside = Reaches-lt m (m.entries p).key p 0 m.capacity v.pow pos (v.gap p u) in
            rw found (ap (get (bigger grants)) (sym same) ∙ g.holds p inside u ∙ ap some value)
      ]

  -- A table that is not loaded has a free slot.
  not_loaded : is_loaded m ≡ false → m.count < m.capacity
  not_loaded h = ground (arith, h)

  -- A put of a pointer under a key that is absent into a well-formed table of less than 2^63 slots
  -- succeeds where calloc returns memory, growing the table or not; the table stays well formed,
  -- the key has the pointer, and every other key what it had.
  pub put-get :
      (key value : ℕ)
      → 1 < value
      → get m key ≡ none
      → (m' : HashMap) × (put true m key value ≡ (true, m'))
        × IsTable m'
        × ((k : ℕ) → get m' k ≡ (if k == key then some value else get m k))
  unfolding put put_deep bigger fresh
  put-get key value pointer missing =
      let nonnull : (value == null) ≡ false = ne→== value null (omega arith) in
      elim (Bool-cases (is_loaded m)) [
        | inl loaded ↦
            let g = Grown-bigger true in
            let t : IsTable (bigger true) = record {
              pow = rw g.wide wide_pow;
              gap = g.gap;
              unique = g.unique;
              counted = g.counted;
            } in
            let (m', done, w, found) =
              put_from-IsTable (bigger true) t key value (omega (arith, g.wide)) pointer
                (bigger-get true key ∙ missing) (omega (arith, g.wide, g.few)) in
            (
              m',
              rw (nonnull, loaded) done,
              w,
              λ k. (found k ∙ ap (λ o. if k == key then some value else o) (bigger-get true k)),
            )
        | inr room ↦
            let (m', done, w, found) =
              put_from-IsTable m v key value pos pointer missing (not_loaded room) in
            (m', rw (nonnull, room) done, w, found)
      ]
