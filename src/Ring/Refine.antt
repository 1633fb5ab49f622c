-- ===== src/Ring/Refine.antt =====
-- A ring in sequence behaves as the bounded queue of Fifo, one slot short of its capacity.
use native.Mathlib.Nat.{mod-eq_of_lt, mod-mod}
use aspira_broker.Prelude.{
  ℕ, ◌+◌, ◌-◌, ◌%◌, ◌<◌, ◌≡◌, refl, ap, ◌∙◌, arith, Bool, Option, List, [], ◌∷◌, length, slots,
  slots_mod, slots_last, slots_first, slots_empty, length-slots, ◌≢◌, ◌↔◌, mod_wrap,
}
use aspira_broker.Ring.{RingQueue, next, spsc_push, spsc_pop, mpsc_push, mpsc_pop}
use aspira_broker.Ring.Fifo.{Op, push, pop, Reply, pushed, popped, enqueue, dequeue}
use aspira_broker.Ring.Fifo
use aspira_broker.Ring.Inv.{IsRing, next-mod, next-lt, spsc_push-IsRing, spsc_pop-IsRing}

-- How many elements stand between the indices.
abbrev pub used : {A : Type 0} → RingQueue A → ℕ
used q = (q.tail + (q.mask + 1) - q.head) % (q.mask + 1)

-- The elements of a ring, oldest first.
abbrev pub contents : {A : Type 0} → RingQueue A → List A
contents q = slots (q.mask + 1) q.buffer q.head (used q)

-- The distance from `h` up to `t` round a ring of `cap` slots, and how it moves with the indices.
module _ (cap h t : ℕ) (hh : h < cap) (ht : t < cap) where
  unfoldable pub distance : ℕ
  distance = (t + cap - h) % cap

  pub tail-slot : (h + distance) % cap ≡ t
  unfolding distance
  tail-slot = omega (arith, mod_wrap (t + cap - h) cap, mod_wrap (h + (t + cap - h) % cap) cap)

  -- The indices meet after a push exactly when one slot is left.
  distance-full : ((t + 1) % cap ≡ h) ↔ (distance + 1 ≡ cap)
  unfolding distance
  distance-full = omega (arith, mod_wrap (t + cap - h) cap, mod_wrap (t + 1) cap)

  pub distance-lt : distance < cap
  unfolding distance
  distance-lt = omega (arith, mod_wrap (t + cap - h) cap)

  distance-empty : (h ≡ t) ↔ (distance ≡ 0)
  unfolding distance
  distance-empty = omega (arith, mod_wrap (t + cap - h) cap)

  distance-push : (t + 1) % cap ≢ h → ((t + 1) % cap + cap - h) % cap ≡ distance + 1
  unfolding distance
  distance-push ne = omega (
    arith,
    mod_wrap (t + cap - h) cap,
    mod_wrap (t + 1) cap,
    mod_wrap ((t + 1) % cap + cap - h) cap,
  )

  distance-pop : h ≢ t → distance ≡ (t + cap - (h + 1) % cap) % cap + 1
  unfolding distance
  distance-pop ne = omega (
    arith,
    mod_wrap (t + cap - h) cap,
    mod_wrap (h + 1) cap,
    mod_wrap (t + cap - (h + 1) % cap) cap,
  )

module _ {A : Type 0} where
  length-contents : (q : RingQueue A) → length (contents q) ≡ used q
  length-contents q = length-slots (q.mask + 1) q.buffer q.head (used q)

  -- A push answers as the bounded queue of `mask` elements does, and leaves its contents.
  pub push_refines :
      {q : RingQueue A} (x : A)
      → IsRing q
      → let (s, r) = spsc_push q x in (s, contents r) ≡ enqueue q.mask (contents q) x
  unfolding spsc_push enqueue distance
  push_refines {q} x v =
      let cap = q.mask + 1 in
      let n = distance cap q.head q.tail v.head_in v.tail_in in
      ground (
        arith,
        next-mod q.tail v,
        length-contents q,
        distance-full cap q.head q.tail v.head_in v.tail_in,
        distance-lt cap q.head q.tail v.head_in v.tail_in,
        distance-push cap q.head q.tail v.head_in v.tail_in,
        tail-slot cap q.head q.tail v.head_in v.tail_in,
        slots_last cap q.buffer q.head (q.head + n) n x,
      )

  -- A pop answers as the bounded queue does, and leaves its contents.
  pub pop_refines :
      {q : RingQueue A}
      → IsRing q
      → let (o, r) = spsc_pop q in (o, contents r) ≡ dequeue (contents q)
  unfolding spsc_pop dequeue distance
  pop_refines {q} v =
      let cap = q.mask + 1 in
      let m = distance cap (next q q.head) q.tail (next-lt q.head v v.head_in) v.tail_in in
      ground (
        arith,
        next-mod q.head v v.head_in,
        mod-eq_of_lt v.head_in,
        distance-empty cap q.head q.tail v.head_in v.tail_in,
        distance-pop cap q.head q.tail v.head_in v.tail_in,
        slots_empty cap q.buffer q.head (used q),
        slots_first cap q.buffer q.head (used q) m,
        slots_mod cap q.buffer ((q.head + 1) % cap) (q.head + 1) m,
        mod-mod (q.head + 1) cap,
      )

  -- The ring's own answers to a sequence of calls.
  unfoldable pub run : RingQueue A → List (Op A) → List (Reply A)
  run q [] = []
  run q (push x ∷ ops) = let (s, r) = spsc_push q x in pushed s ∷ run r ops
  run q (pop ∷ ops) = let (o, r) = spsc_pop q in popped o ∷ run r ops

  mask-push : (q : RingQueue A) (x : A) → (spsc_push q x).1.mask ≡ q.mask
  unfolding spsc_push
  mask-push q x = ground arith

  pub mask-pop : (q : RingQueue A) → (spsc_pop q).1.mask ≡ q.mask
  unfolding spsc_pop
  mask-pop q = ground arith

  run_at :
      (ops : List (Op A)) (limit : ℕ) {q : RingQueue A}
      → IsRing q
      → q.mask ≡ limit
      → run q ops ≡ Fifo.run limit (contents q) ops
  unfolding run Fifo.run
  run_at [] limit v e = refl
  run_at (push x ∷ ops) limit {q} v e =
      let step = push_refines x v ∙ ap (λ m. enqueue m (contents q) x) e in
      rw (run_at ops limit (spsc_push-IsRing x v) (mask-push q x ∙ e))
        (ap (λ (r : Bool × List A). pushed r.0 ∷ Fifo.run limit r.1 ops) step)
  run_at (pop ∷ ops) limit {q} v e =
      rw (run_at ops limit (spsc_pop-IsRing v) (mask-pop q ∙ e))
        (ap (λ (r : Option A × List A). popped r.0 ∷ Fifo.run limit r.1 ops) (pop_refines v))

  -- No sequence of pushes and pops on a valid ring can be told from the same calls on a
  -- first-in first-out list that holds at most `mask` elements, one less than the capacity.
  pub run_refines :
      (ops : List (Op A)) {q : RingQueue A}
      → IsRing q
      → run q ops ≡ Fifo.run q.mask (contents q) ops
  run_refines ops {q} v = run_at ops q.mask v refl

  -- Without contention the multi-producer ring is the single-producer one.
  pub mpsc_push-eq : (q : RingQueue A) (x : A) → mpsc_push q x ≡ spsc_push q x
  unfolding mpsc_push spsc_push
  mpsc_push-eq q x = refl

  pub mpsc_pop-eq : (q : RingQueue A) → mpsc_pop q ≡ spsc_pop q
  unfolding mpsc_pop spsc_pop
  mpsc_pop-eq q = refl
