-- ===== src/Ring/Template/Stale.antt =====
-- A round of the ring between the loads and the exchange of a push.
use aspira_broker.Prelude.{
  ℕ, ◌+◌, ◌-◌, ◌%◌, ◌≤◌, ◌<◌, ◌≡◌, inl, inr, refl, ap, sym, ◌∙◌, arith, Bool, true, false, some,
  List, [], ◌∷◌, ◌++◌, append_assoc, append-nil, length, length-append, length-slots, bit_and,
  size_add, ◌==◌, ne→==, eq→==, lt→ltb, write, mod_wrap, slots_empty, Bool-cases,
}
use aspira_broker.Ring.{RingQueue, next, spsc_pop}
use aspira_broker.Ring.Fifo.{Op, push, pop, enqueue, dequeue}
use aspira_broker.Ring.Inv.{IsRing, next-mod, spsc_pop-IsRing}
use aspira_broker.Ring.Refine.{contents, used, pop_refines, mask-pop}
use aspira_broker.Ring.Template.{push_one, pop_one, others, claim, push_among}
use aspira_broker.Ring.Template.Retry.{
  pushes, enqueue_all, others-pushes, others-contents, push_one-contents,
}

module _ {A : Type 0} where
  -- One push and one pop, and pushes until the ring is full.
  abbrev pub round_trip : A → List A → List (Op A)
  round_trip y ys = push y ∷ pop ∷ pushes ys

  enqueue_all-append :
      (limit : ℕ) (held xs : List A)
      → length held + length xs ≤ limit
      → enqueue_all limit held xs ≡ held ++ xs
  unfolding enqueue
  enqueue_all-append limit held [] h = sym (append-nil held)
  enqueue_all-append limit held (x ∷ xs) h =
      let room = lt→ltb (length held) limit (omega arith) in
      rw room (
        enqueue_all-append limit (held ++ x ∷ []) xs (omega (arith, length-append held (x ∷ [])))
        ∙ append_assoc held (x ∷ []) xs)

  pop_one-eq : (q : RingQueue A) → pop_one q ≡ spsc_pop q
  unfolding pop_one spsc_pop
  pop_one-eq q = refl

  -- The head after a pop that gives an element.
  pop-head :
      (q : RingQueue A) (y : A) (rest : List A)
      → IsRing q
      → contents q ≡ y ∷ rest
      → (pop_one q).1.head ≡ next q q.head
  unfolding pop_one dequeue
  pop-head q y rest v held =
      let answer : (pop_one q).0 ≡ some y =
        ap (λ r. r.0) (ap (λ f. f) (pop_one-eq q))
        ∙ ap (λ r. r.0) (pop_refines v)
        ∙ ap (λ xs. (dequeue xs).0) held in
      elim (Bool-cases (q.head == q.tail)) [
        | inl empty ↦ cc (rw empty at answer)
        | inr more ↦ rw more refl
      ]

  -- What the ring holds after the round, and where its indices are.
  round_trip-contents :
      {q : RingQueue A} (y : A) (ys : List A)
      → IsRing q
      → contents q ≡ []
      → length ys ≡ q.mask
      → 0 < q.mask
      → let q' = others (round_trip y ys) q in
        IsRing q' × (q'.mask ≡ q.mask) × (contents q' ≡ ys) × (q'.head ≡ next q q.head)
  unfolding others dequeue
  round_trip-contents {q} y ys v none_held full pos =
      let (v1, m1, e1) = push_one-contents y v in
      let q1 = (push_one q y).1 in
      let one : contents q1 ≡ y ∷ [] =
        (others-contents (y ∷ []) {q = q} q.mask v refl).2
        ∙ ap (λ held. enqueue_all q.mask held (y ∷ [])) none_held
        ∙ enqueue_all-append q.mask [] (y ∷ []) (omega arith) in
      let q2 = (pop_one q1).1 in
      let v2 : IsRing q2 = rw (pop_one-eq q1) (spsc_pop-IsRing v1) in
      let m2 : q2.mask ≡ q.mask = rw (pop_one-eq q1) (mask-pop q1) ∙ m1 in
      let two : contents q2 ≡ [] =
        rw (pop_one-eq q1) (ap (λ r. r.1) (pop_refines v1) ∙ ap (λ held. (dequeue held).1) one) in
      let (v3, m3, e3) = others-contents ys {q = q2} q.mask v2 m2 in
      (
        v3,
        m3,
        e3
            ∙ ap (λ held. enqueue_all q.mask held ys) two
            ∙ enqueue_all-append q.mask [] ys (omega (arith, full)),
        ((others-pushes ys q2).0
            ∙ pop-head q1 y [] v1 one
            ∙ ap (λ h. bit_and (size_add h 1) q1.mask) (others-pushes (y ∷ []) q).0
            ∙ ap (λ m. bit_and (size_add q.head 1) m) m1),
      )

  -- Where the ring is sound and empty, and has at least two slots, the others may go once round it
  -- between the loads and the exchange of MPSCQueue::push: one push and one pop, and then as many
  -- pushes as fit. The exchange succeeds, since the tail is where it was; the push answers true, and the
  -- ring is then empty, so that all the elements that waited in it are lost.
  pub push_among_stale :
      {q : RingQueue A} (x y : A) (ys : List A) (rounds : List (List (Op A) × Bool))
      → IsRing q
      → contents q ≡ []
      → length ys ≡ q.mask
      → 0 < q.mask
      → (contents (others (round_trip y ys) q) ≡ ys)
        × ((q' : RingQueue A) × (push_among ((round_trip y ys, false) ∷ rounds) q x
              ≡ some (true, q'))
            × (contents q' ≡ []))
  unfolding push_among
  push_among_stale {q} x y ys rounds v none_held full pos =
      let cap = q.mask + 1 in
      let p = others (round_trip y ys) q in
      let (w, mask, held, head) = round_trip-contents y ys v none_held full pos in
      let cap' = p.mask + 1 in
      let none_used : used q ≡ 0 =
        sym (length-slots cap q.buffer q.head (used q)) ∙ ap (λ xs. length xs) none_held in
      let all_used : used p ≡ q.mask =
        sym (length-slots cap' p.buffer p.head (used p)) ∙ ap (λ xs. length xs) held ∙ full in
      let start : q.tail ≡ q.head = omega (arith, mod_wrap (q.tail + cap - q.head) cap) in
      let after : next q q.head ≡ (q.head + 1) % cap = next-mod q.head v v.head_in in
      let back : p.tail ≡ q.tail = omega (
        arith,
        mod_wrap (p.tail + cap' - p.head) cap',
        mod_wrap (q.head + 1) cap,
        w.tail_in,
        w.head_in,
      ) in
      let full_now : next p q.tail ≡ (q.tail + 1) % cap' = next-mod q.tail w (omega arith) in
      let onto : next p q.tail ≡ p.head =
        full_now
        ∙ ap (λ m. (q.tail + 1) % (m + 1)) mask
        ∙ ap (λ t. (t + 1) % cap) start
        ∙ sym after
        ∙ sym head in
      let looked : (next q q.tail == q.head) ≡ false =
        ne→== (next q q.tail) q.head (λ e.
          absurd (omega (arith, next-mod q.tail v v.tail_in, mod_wrap (q.tail + 1) cap, e))) in
      (
        held,
        (
          claim p q.tail x,
          rw (looked, eq→== p.tail q.tail back) refl,
          slots_empty cap' (write p.buffer q.tail x) p.head ((next p q.tail + cap' - p.head) % cap')
              (omega (arith, onto, mod_wrap (next p q.tail + cap' - p.head) cap', w.head_in)),
        ),
      )
