-- ===== src/Disruptor/Publish.antt =====
-- What a consumer sees of the elements that one producer publishes.
use native.Mathlib.Nat.{mod-lt, mod-eq-sub-mod}
use native.Mathlib.Decide.{dec_lt}
use aspira_broker.Prelude.{
  ℕ, zero, suc, ◌+◌, ◌-◌, ◌%◌, ◌≤◌, ◌<◌, ◌≡◌, ◌≢◌, ◌⊎◌, inl, inr, refl, sym, ap, ◌∙◌, arith, true,
  false, bit_and, ◌==◌, eq→==, ne→==, ==→eq, ==→ne, Bool-cases, size_add, IsPow2, bit_and-mod,
  slot_ne, Buffer, write,
}
use aspira_broker.Disruptor.{Disruptor, unset, init, commit, publish, get, is_committed}

module _ {A : Type 0} where
  -- The elements 0 to `n - 1` are published one after the other.
  unfoldable pub publish_all : Disruptor A → (ℕ → A) → ℕ → Disruptor A
  publish_all q items zero = q
  publish_all q items (suc n) = (publish (publish_all q items n) (items n)).1

  module _ (cap : ℕ) (items : ℕ → A) where
    -- After `n` elements: the cursor stands at `n`, the slots hold the last `cap` of them, and no slot
    -- carries an older number.
    pub record Published (q : Disruptor A) (n : ℕ) : Type 0 where
      pub masked : q.mask + 1 ≡ cap
      pub cursor : q.cursor ≡ n
      pub number : (i : ℕ) → i < n → n ≤ i + cap → q.committed (i % cap) ≡ i
      pub element : (i : ℕ) → i < n → n ≤ i + cap → q.buffer (i % cap) ≡ items i
      pub recent :
          (s : ℕ)
          → s < cap
          → (q.committed s ≡ unset) ⊎ ((q.committed s % cap ≡ s) × (n ≤ q.committed s + cap))

    slot-mod :
        (q : Disruptor A) (i : ℕ) → q.mask + 1 ≡ cap → IsPow2 cap → bit_and i q.mask ≡ i % cap
    slot-mod q i m (k, e) = bit_and-mod i q.mask (k, m ∙ e) ∙ ap (λ c. i % c) m

    -- One more element.
    publish-step :
        (q : Disruptor A) (n : ℕ)
        → IsPow2 cap
        → 0 < cap
        → n < unset
        → Published q n
        → (publish q (items n) ≡ (
          true,
          record {
            cursor = n + 1;
            committed = write q.committed (n % cap) n;
            buffer = write q.buffer (n % cap) (items n);
            mask = q.mask;
          },
        ))
    unfolding publish commit
    publish-step q n pow pos small p =
        let slot : bit_and q.cursor q.mask ≡ n % cap =
          ap (λ i. bit_and i q.mask) p.cursor ∙ slot-mod q n p.masked pow in
        let fresh : (q.cursor == unset) ≡ false = ne→== q.cursor unset (omega (arith, p.cursor)) in
        let next : size_add n 1 ≡ n + 1 = omega arith in rw (fresh, slot, p.cursor, next) refl

    next_element :
        (q : Disruptor A) (n : ℕ)
        → Published q n
        → (i : ℕ) → i < suc n
        → suc n ≤ i + cap
        → write q.buffer (n % cap) (items n) (i % cap) ≡ items i
    next_element q n p i h k = elim (dec_lt i n) [
      | yes l ↦
          rw (ne→== (i % cap) (n % cap) (slot_ne cap i n l (omega arith)))
            (p.element i l (omega arith))
      | no g ↦
          let same : i ≡ n = omega arith in
          rw (eq→== (i % cap) (n % cap) (ap (λ j. j % cap) same)) (ap items (sym same))
    ]

    next_recent :
        (q : Disruptor A) (n : ℕ)
        → Published q n
        → (s : ℕ) → s < cap
        → let seen = write q.committed (n % cap) n s in
          (seen ≡ unset) ⊎ ((seen % cap ≡ s) × (suc n ≤ seen + cap))
    next_recent q n p s h = elim (Bool-cases (s == n % cap)) [
      | inl e ↦ rw e (inr (sym (==→eq s (n % cap) e), omega arith))
      | inr e ↦ elim (p.recent s h) [
        | inl u ↦ rw e (inl u)
        | inr (r, l) ↦
            let off : s ≢ n % cap = ==→ne s (n % cap) e in
            let newer : q.committed s + cap ≢ n = (λ same.
              let back : n - cap ≡ q.committed s = omega arith in
              off (
                sym r
                ∙ ap (λ c. c % cap) (sym back)
                ∙ sym (mod-eq-sub-mod {n = n} {m = cap} (omega arith)))) in
            rw e (inr (r, omega (arith, newer)))
      ]
    ]

    publish-Published :
        (q : Disruptor A) (n : ℕ)
        → IsPow2 cap
        → 0 < cap
        → n < unset
        → Published q n
        → Published (publish q (items n)).1 (suc n)
    publish-Published q n pow pos small p =
        rw (ap (λ r. r.1) (publish-step q n pow pos small p)) record {
          masked = p.masked;
          cursor = omega arith;
          number = λ i h k. ground (arith, p.number i, slot_ne cap i n);
          element = λ i h k. next_element q n p i h k;
          recent = λ s h. next_recent q n p s h;
        }

    -- The disruptor after `n` elements, from its initialisation on.
    publish_all-Published :
        (buf : Buffer A) (n : ℕ)
        → IsPow2 cap
        → 0 < cap
        → n ≤ unset
        → Published (publish_all (init buf cap) items n) n
    unfolding publish_all init
    publish_all-Published buf zero pow pos small = record {
      masked = omega arith;
      cursor = refl;
      number = λ i h k. absurd (omega arith);
      element = λ i h k. absurd (omega arith);
      recent = λ s h. inl refl;
    }
    publish_all-Published buf (suc n) pow pos small =
        publish-Published (publish_all (init buf cap) items n) n pow pos (omega arith)
          (publish_all-Published buf n pow pos (omega arith))

    -- After `n` elements were published, none of which the producer was refused, each of the last
    -- `cap` of them is committed and can be read, and every older one is lost: its number is not
    -- committed any more.
    pub publish_all-get :
        (buf : Buffer A) (n i : ℕ)
        → IsPow2 cap
        → 0 < cap
        → n < unset
        → i < n
        → let q = publish_all (init buf cap) items n in
          ((publish q (items n)).0 ≡ true)
          × ((n ≤ i + cap) × (is_committed q i ≡ true) × (get q i ≡ items i)
              ⊎ (i + cap < n) × (is_committed q i ≡ false))
    unfolding is_committed get
    publish_all-get buf n i pow pos small h =
        let q = publish_all (init buf cap) items n in
        let p = publish_all-Published buf n pow pos (omega arith) in
        let slot = slot-mod q i p.masked pow in
        let told = ap (λ r. r.0) (publish-step q n pow pos small p) in
        elim (dec_lt (i + cap) n) [
          | no k ↦ (
            told,
            inl (
              omega arith,
              rw slot (eq→== (q.committed (i % cap)) i (p.number i h (omega arith))),
              ap q.buffer slot ∙ p.element i h (omega arith),
            ),
          )
          | yes k ↦
              let older : q.committed (i % cap) ≢ i = (λ same.
                elim (p.recent (i % cap) (mod-lt i pos)) [
                  | inl u ↦ omega arith
                  | inr (r, l) ↦ omega arith
                ]) in
              (told, inr (k, rw slot (ne→== (q.committed (i % cap)) i older)))
        ]
