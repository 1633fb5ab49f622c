-- ===== src/Ring/Spsc/Safety.antt =====
-- What holds of every interleaving of the two threads: order, capacity, and no shared slot.
use native.Mathlib.Nat.{mod-add-mod, add-mod_right, mod-lt, mod-eq_of_lt}
use aspira_broker.Prelude.{
  ℕ, ◌+◌, ◌-◌, ◌%◌, ◌^◌, ◌≤◌, ◌<◌, ◌≡◌, ◌≢◌, refl, sym, ap, ◌∙◌, arith, List, [], ◌∷◌, ◌++◌, length,
  append_assoc, Buffer, write, IsPow2, slots, slots_snoc, slots-write_ne, slots_first, slot_ne,
  slots_empty, length-slots,
}
use aspira_broker.Ring.{RingQueue, next}
use aspira_broker.Ring.Inv.{advance-mod}
use aspira_broker.Ring.Spsc.Steps.{
  Producer, Consumer, System, start, Step, push_load_head, push_load_tail, push_full, push_store,
  push_publish, pop_load_head, pop_load_tail, pop_empty, pop_fetch, pop_publish, Reach, here, after,
}

module _ {A : Type 0} (n : ℕ) where
  -- What each thread knows at each step, where `hc` elements have been popped and `c` are held.
  abbrev ProducerKnows : ℕ → ℕ → Buffer A → Producer A → Type 0
  ProducerKnows hc c buf Producer.resting = Unit
  ProducerKnows hc c buf (Producer.saw_head x h) =
      (p : ℕ) × (h ≡ p % n) × (p ≤ hc) × (hc + c < p + n)
  ProducerKnows hc c buf (Producer.saw_both x h t) =
      (p : ℕ) × (h ≡ p % n) × (p ≤ hc) × (hc + c < p + n) × (t ≡ (hc + c) % n)
  ProducerKnows hc c buf (Producer.stored x m) =
      (m ≡ (hc + c + 1) % n) × (buf ((hc + c) % n) ≡ x) × (c + 1 < n)

  abbrev ConsumerKnows : ℕ → ℕ → Buffer A → Consumer A → Type 0
  ConsumerKnows hc c buf Consumer.resting = Unit
  ConsumerKnows hc c buf (Consumer.saw_head h) = h ≡ hc % n
  ConsumerKnows hc c buf (Consumer.saw_both h t) =
      (p : ℕ) × (h ≡ hc % n) × (t ≡ p % n) × (hc ≤ p) × (p ≤ hc + c)
  ConsumerKnows hc c buf (Consumer.fetched x h) = (h ≡ hc % n) × (0 < c) × (buf (hc % n) ≡ x)

  record Coherent (s : System A) : Type 0 where
    hc : ℕ
    c : ℕ
    room : c < n
    mask : s.ring.mask + 1 ≡ n
    head : s.ring.head ≡ hc % n
    tail : s.ring.tail ≡ (hc + c) % n
    order : s.pushed ≡ s.popped ++ slots n s.ring.buffer hc c
    producer : ProducerKnows hc c s.ring.buffer s.producer
    consumer : ConsumerKnows hc c s.ring.buffer s.consumer

  -- The slot after a counter's slot is the next counter's.
  next-counter :
      (q : RingQueue A) (i : ℕ)
      → IsPow2 n
      → n ≤ 2 ^ 63
      → q.mask + 1 ≡ n
      → 0 < n
      → next q (i % n) ≡ (i + 1) % n
  next-counter q i p small e pos =
      let m : i % n < q.mask + 1 = omega (arith, mod-lt i pos) in
      advance-mod q.mask (i % n) (rw e p) (omega arith) m
      ∙ ap (λ k. (i % n + 1) % k) e
      ∙ mod-add-mod i n 1

  producer_moves :
      {s : System A} (v : Coherent s) (pc : Producer A)
      → ProducerKnows v.hc v.c s.ring.buffer pc
      → Coherent (record s { producer = pc })
  producer_moves v pc k = record {
    hc = v.hc;
    c = v.c;
    room = v.room;
    mask = v.mask;
    head = v.head;
    tail = v.tail;
    order = v.order;
    producer = k;
    consumer = v.consumer;
  }

  consumer_moves :
      {s : System A} (v : Coherent s) (pc : Consumer A)
      → ConsumerKnows v.hc v.c s.ring.buffer pc
      → Coherent (record s { consumer = pc })
  consumer_moves v pc k = record {
    hc = v.hc;
    c = v.c;
    room = v.room;
    mask = v.mask;
    head = v.head;
    tail = v.tail;
    order = v.order;
    producer = v.producer;
    consumer = k;
  }

  -- The slot past the held elements is none that the consumer has still to read.
  consumer_keeps :
      (hc c : ℕ) (buf : Buffer A) (x : A) (pc : Consumer A)
      → c < n
      → ConsumerKnows hc c buf pc
      → ConsumerKnows hc c (write buf ((hc + c) % n) x) pc
  consumer_keeps hc c buf x Consumer.resting h k = k
  consumer_keeps hc c buf x (Consumer.saw_head _) h k = k
  consumer_keeps hc c buf x (Consumer.saw_both _ _) h k = k
  consumer_keeps hc c buf x (Consumer.fetched y i) h k =
      ground (arith, slot_ne n hc (hc + c) (omega arith) (omega arith))

  -- One more element held takes nothing from what the consumer knows.
  consumer_grows :
      (hc c : ℕ) (buf : Buffer A) (pc : Consumer A)
      → ConsumerKnows hc c buf pc
      → ConsumerKnows hc (c + 1) buf pc
  consumer_grows hc c buf Consumer.resting k = k
  consumer_grows hc c buf (Consumer.saw_head _) k = k
  consumer_grows hc c buf (Consumer.saw_both _ _) k = (k.0, k.1, k.2, k.3, omega arith)
  consumer_grows hc c buf (Consumer.fetched y i) k = (k.0, omega arith, k.2)

  -- One element less leaves the producer right in what it still takes for held.
  producer_keeps :
      (hc c d : ℕ) (buf : Buffer A) (pc : Producer A)
      → c ≡ d + 1
      → ProducerKnows hc c buf pc
      → ProducerKnows (hc + 1) d buf pc
  producer_keeps hc c d buf Producer.resting e k = k
  producer_keeps hc c d buf (Producer.saw_head x h) e k = (k.0, k.1, omega arith, omega arith)
  producer_keeps hc c d buf (Producer.saw_both x h t) e k =
      (k.0, k.1, omega arith, omega arith, k.4 ∙ ap (λ i. i % n) (omega arith))
  producer_keeps hc c d buf (Producer.stored x m) e k =
      (k.0 ∙ ap (λ i. i % n) (omega arith), ap (λ i. buf (i % n)) (omega arith) ∙ k.1, omega arith)

  module _ (pow : IsPow2 n) (small : n ≤ 2 ^ 63) where
    -- What the test `__next != __h` tells the producer, though its `__h` may be out of date.
    room_seen :
        {s : System A} (v : Coherent s) (p t : ℕ)
        → p ≤ v.hc
        → v.hc + v.c < p + n
        → t ≡ (v.hc + v.c) % n
        → next s.ring t ≢ p % n
        → (next s.ring t ≡ (v.hc + v.c + 1) % n) × (v.c + 1 < n)
    room_seen {s} v p t a b e ne =
        let step : next s.ring t ≡ (v.hc + v.c + 1) % n =
          rw e (next-counter s.ring (v.hc + v.c) pow small v.mask (omega arith)) in
        let wrap : v.hc + v.c + 1 ≢ p + n =
          λ w. ne (step ∙ ap (λ k. k % n) w ∙ add-mod_right p n) in
        (step, omega arith)

    Step-Coherent : {s t : System A} → Step s t → Coherent s → Coherent t
    Step-Coherent {s} (push_load_head x e) v =
        producer_moves v _ (v.hc, v.head, omega arith, omega arith)
    Step-Coherent {s} (push_load_tail x h e) v =
        let k = rw e at v.producer in producer_moves v _ (k.0, k.1, k.2, k.3, v.tail)
    Step-Coherent {s} (push_full x h t e full) v = producer_moves v _ tt
    Step-Coherent {s} (push_store x h t e room) v =
        let k = rw e at v.producer in
        let seen = room_seen v k.0 t k.2 k.3 k.4 (rw k.1 at room) in
        let j = v.hc + v.c in
        record {
          hc = v.hc;
          c = v.c;
          room = v.room;
          mask = v.mask;
          head = v.head;
          tail = v.tail;
          order =
              rw (k.4, slots-write_ne n s.ring.buffer v.hc j v.c x (omega arith) (omega arith))
                v.order;
          producer = (seen.0, ground (arith, k.4), seen.1);
          consumer = rw k.4 (consumer_keeps v.hc v.c s.ring.buffer x s.consumer v.room v.consumer);
        }
    Step-Coherent {s} (push_publish x m e) v =
        let k = rw e at v.producer in
        let l = slots n s.ring.buffer v.hc v.c in
        record {
          hc = v.hc;
          c = v.c + 1;
          room = k.2;
          mask = v.mask;
          head = v.head;
          tail = k.0 ∙ ap (λ i. i % n) (omega arith);
          order =
              ap (λ r. r ++ x ∷ []) v.order
              ∙ append_assoc s.popped l (x ∷ [])
              ∙ ap (λ r. s.popped ++ r)
                  (sym (slots_snoc n s.ring.buffer v.hc v.c ∙ ap (λ y. l ++ y ∷ []) k.1));
          producer = tt;
          consumer = consumer_grows v.hc v.c s.ring.buffer s.consumer v.consumer;
        }
    Step-Coherent {s} (pop_load_head e) v = consumer_moves v _ v.head
    Step-Coherent {s} (pop_load_tail h e) v =
        let k = rw e at v.consumer in
        consumer_moves v _ (v.hc + v.c, k, v.tail, omega arith, omega arith)
    Step-Coherent {s} (pop_empty h t e empty) v = consumer_moves v _ tt
    Step-Coherent {s} (pop_fetch h t e full) v =
        let k = rw e at v.consumer in
        let held : v.hc ≢ k.0 = λ w. full (k.1 ∙ ap (λ i. i % n) w ∙ sym k.2) in
        consumer_moves v _ (k.1, omega arith, ap s.ring.buffer (sym k.1))
    Step-Coherent {s} (pop_publish x h e) v =
        let k = rw e at v.consumer in
        let d = v.c - 1 in
        let less : v.c ≡ d + 1 = omega arith in
        record {
          hc = v.hc + 1;
          c = d;
          room = omega arith;
          mask = v.mask;
          head = rw k.0 (next-counter s.ring v.hc pow small v.mask (omega arith));
          tail = v.tail ∙ ap (λ i. i % n) (omega arith);
          order =
              v.order
              ∙ ap (λ r. s.popped ++ r)
                  (slots_first n s.ring.buffer v.hc v.c d less
                    ∙ ap (λ y. y ∷ slots n s.ring.buffer (v.hc + 1) d) k.2)
              ∙ sym (append_assoc s.popped (x ∷ []) (slots n s.ring.buffer (v.hc + 1) d));
          producer = producer_keeps v.hc v.c d s.ring.buffer s.producer less v.producer;
          consumer = tt;
        }

    start-Coherent : (buf : Buffer A) → 0 < n → Coherent (start buf n)
    unfolding start
    start-Coherent buf pos = record {
      hc = 0;
      c = 0;
      room = pos;
      mask = omega arith;
      head = omega (arith, mod-eq_of_lt pos);
      tail = omega (arith, mod-eq_of_lt pos);
      order = sym (slots_empty n buf 0 0 refl);
      producer = tt;
      consumer = tt;
    }

    Reach-Coherent : {s t : System A} → Reach s t → Coherent s → Coherent t
    Reach-Coherent here v = v
    Reach-Coherent (after r st) v = Step-Coherent st (Reach-Coherent r v)

    -- In every interleaving of one producer and one consumer on a ring whose capacity is a power
    -- of two, the elements popped are the first ones pushed, in order and without loss, and fewer
    -- than `n` are left between the two.
    pub spsc_fifo :
        (buf : Buffer A) {s : System A}
        → 0 < n
        → Reach (start buf n) s
        → (rest : List A) × (s.pushed ≡ s.popped ++ rest) × (length rest < n)
    spsc_fifo buf {s} pos r =
        let v = Reach-Coherent r (start-Coherent buf pos) in
        (slots n s.ring.buffer v.hc v.c, v.order, rw (length-slots n s.ring.buffer v.hc v.c) v.room)

    -- Where the producer is about to store and the consumer about to fetch, they touch different
    -- slots, and both slots lie in the buffer.
    pub spsc_no_race :
        (buf : Buffer A) {s : System A} (x : A) (h t i j : ℕ)
        → 0 < n
        → Reach (start buf n) s
        → s.producer ≡ Producer.saw_both x h t
        → next s.ring t ≢ h
        → s.consumer ≡ Consumer.saw_both i j
        → i ≢ j
        → (t ≢ i) × (t < n) × (i < n)
    spsc_no_race buf {s} x h t i j pos r ep room ec full =
        let v = Reach-Coherent r (start-Coherent buf pos) in
        let kp = rw ep at v.producer in
        let kc = rw ec at v.consumer in
        let seen = room_seen v kp.0 t kp.2 kp.3 kp.4 (rw kp.1 at room) in
        let held : v.hc ≢ kc.0 = λ w. full (kc.1 ∙ ap (λ k. k % n) w ∙ sym kc.2) in
        let apart = slot_ne n v.hc (v.hc + v.c) (omega arith) (omega arith) in
        (
          λ e. apart (sym kc.1 ∙ sym e ∙ kp.4),
          rw kp.4 (mod-lt (v.hc + v.c) pos),
          rw kc.1 (mod-lt v.hc pos),
        )
