-- ===== src/Ring/Inv.antt =====
-- The representation invariant of a ring: its capacity is a power of two and its indices are slots.
use aspira_broker.Prelude.{
  ℕ, ◌+◌, ◌%◌, ◌^◌, ◌≤◌, ◌<◌, ◌≡◌, ap, ◌∙◌, arith, IsPow2, bit_and-mod, Buffer, size_add, bit_and,
}
use aspira_broker.Ring.{RingQueue, init, next, spsc_push, spsc_pop}

pub record IsRing {A : Type 0} (q : RingQueue A) : Type 0 where
  pub pow : IsPow2 (q.mask + 1)
  pub small : q.mask + 1 ≤ 2 ^ 63
  pub head_in : q.head < q.mask + 1
  pub tail_in : q.tail < q.mask + 1

-- The mask takes the remainder by the capacity, and the sum does not wrap.
pub advance-mod :
    (mask i : ℕ)
    → IsPow2 (mask + 1)
    → mask + 1 ≤ 2 ^ 63
    → i < mask + 1
    → bit_and (size_add i 1) mask ≡ (i + 1) % (mask + 1)
advance-mod mask i p s h =
    let e : size_add i 1 ≡ i + 1 = omega arith in
    bit_and-mod (size_add i 1) mask p ∙ ap (λ k. k % (mask + 1)) e

module _ {A : Type 0} where
  pub next-mod :
      {q : RingQueue A} (i : ℕ) → IsRing q → i < q.mask + 1 → next q i ≡ (i + 1) % (q.mask + 1)
  next-mod {q} i v h = advance-mod q.mask i v.pow v.small h

  pub next-lt : {q : RingQueue A} (i : ℕ) → IsRing q → i < q.mask + 1 → next q i < q.mask + 1
  next-lt {q} i v h = omega (arith, next-mod i v h)

  pub init-IsRing : (buf : Buffer A) (n : ℕ) → IsPow2 n → 0 < n → n ≤ 2 ^ 63 → IsRing (init buf n)
  unfolding init
  init-IsRing buf n p pos small = record {
    pow = (p.0, omega (arith, p.1));
    small = omega arith;
    head_in = omega arith;
    tail_in = omega arith;
  }

  pub spsc_push-IsRing : {q : RingQueue A} (x : A) → IsRing q → IsRing (spsc_push q x).1
  unfolding spsc_push
  spsc_push-IsRing {q} x v = ground (arith, next-lt q.tail v)

  pub spsc_pop-IsRing : {q : RingQueue A} → IsRing q → IsRing (spsc_pop q).1
  unfolding spsc_pop
  spsc_pop-IsRing {q} v = ground (arith, next-lt q.head v)
