-- ===== src/Logger/Oldest.antt =====
-- src/utils/logger.c: what is in the ring, and what is printed.
use mathlib.Core.Path.{subst}
use native.Mathlib.Nat.{mod-eq_of_lt, mod-add-mod}
use aspira_broker.Prelude.{
  ℕ, zero, suc, ◌+◌, ◌%◌, ◌≤◌, ◌<◌, ◌≡◌, ◌≢◌, ◌⊎◌, inl, inr, refl, sym, ap, ◌∙◌, arith, true, false,
  List, [], ◌∷◌, ◌++◌, length, drop, ltb, ◌==◌, if◌then◌else◌, eq→==, ne→==, ==→eq, ge→ltb,
  Bool-cases, slots, slots_empty, slot_ne, Buffer,
}
use aspira_broker.Ring.{RingQueue, next, spsc_push, spsc_pop}
use aspira_broker.Ring.Inv.{IsRing, next-mod, spsc_push-IsRing, spsc_pop-IsRing}
use aspira_broker.Ring.Fifo.{enqueue, dequeue}
use aspira_broker.Ring.Refine.{
  contents, used, push_refines, pop_refines, mask-pop, distance, tail-slot, distance-lt,
}
use aspira_broker.Logger.{LogEntry, Logger, log, flush_from, flush}

-- The logger's ring as the queues of the pipeline are.
abbrev pub as_ring : Logger → RingQueue LogEntry
as_ring l = record { head = l.log_head; tail = l.log_tail; buffer = l.log_ring; mask = 4095 }

abbrev pub messages : Logger → List LogEntry
messages l = contents (as_ring l)

-- A list of at most `limit` elements forgets its first one for a new one.
abbrev pub remember : ℕ → List LogEntry → LogEntry → List LogEntry
remember limit xs x = if ltb (length xs) limit then xs ++ x ∷ [] else drop 1 xs ++ x ∷ []

abbrev pub entry : ℕ → List ℕ → LogEntry
entry level msg = record { msg = msg; level = level }

-- Logging where a slot is free is a push, and else a pop and a push.
log-push :
    (l : Logger) (level : ℕ) (msg : List ℕ)
    → IsRing (as_ring l)
    → level ≤ l.log_level
    → let q = as_ring l in
      ((spsc_push q (entry level msg) ≡ (true, as_ring (log l level msg)))
        ⊎ ((spsc_push q (entry level msg) ≡ (false, q))
            × (spsc_push (spsc_pop q).1 (entry level msg) ≡ (true, as_ring (log l level msg)))))
unfolding log spsc_push spsc_pop
log-push l level msg v h =
    let q = as_ring l in
    let shown : ltb l.log_level level ≡ false = ge→ltb l.log_level level h in
    let after : next q l.log_tail ≡ (l.log_tail + 1) % 4096 = next-mod l.log_tail v v.tail_in in
    let behind : next q l.log_head ≡ (l.log_head + 1) % 4096 = next-mod l.log_head v v.head_in in
    elim (Bool-cases ((l.log_tail + 1) % 4096 == l.log_head)) [
      | inr free ↦ inl (rw (shown, after, free) refl)
      | inl full ↦
          let head : (l.log_tail + 1) % 4096 ≡ l.log_head = ==→eq _ _ full in
          let some_there : (l.log_head == l.log_tail) ≡ false =
            ne→== l.log_head l.log_tail (λ e. omega (arith, head, v.tail_in)) in
          let room : ((l.log_tail + 1) % 4096 == (l.log_head + 1) % 4096) ≡ false =
            ne→== ((l.log_tail + 1) % 4096) ((l.log_head + 1) % 4096)
              (λ e. omega (arith, head, v.tail_in)) in
          inr (rw (after, full) refl, rw (some_there, behind, after, room, shown, full) refl)
    ]

tail-drop : (xs : List LogEntry) → (dequeue xs).1 ≡ drop 1 xs
unfolding dequeue
tail-drop [] = refl
tail-drop (x ∷ xs) = refl

-- What the answers of the bounded queue say of the lists.
kept :
    (xs : List LogEntry) (x : LogEntry) (ys : List LogEntry)
    → (true, ys) ≡ enqueue 4095 xs x
    → ys ≡ remember 4095 xs x
unfolding enqueue
kept xs x ys h = elim (Bool-cases (ltb (length xs) 4095)) [
  | inl e ↦ rw e (ap (λ r. r.1) (rw (e, enqueue) at h))
  | inr e ↦ absurd (ground (arith, (ap (λ r. r.0) (rw (e, enqueue) at h))))
]

forgot :
    (xs : List LogEntry) (x : LogEntry) (ys zs : List LogEntry)
    → (false, xs) ≡ enqueue 4095 xs x
    → ys ≡ (dequeue xs).1
    → (true, zs) ≡ enqueue 4095 ys x
    → zs ≡ remember 4095 xs x
unfolding enqueue dequeue
forgot xs x ys zs full less more = elim (Bool-cases (ltb (length xs) 4095)) [
  | inl e ↦ absurd (ground (arith, (ap (λ r. r.0) (rw (e, enqueue) at full))))
  | inr e ↦ elim (Bool-cases (ltb (length ys) 4095)) [
    | inl f ↦
        let appended : zs ≡ ys ++ x ∷ [] = ap (λ r. r.1) (rw (f, enqueue) at more) in
        rw e (appended ∙ ap (λ us. us ++ x ∷ []) (less ∙ tail-drop xs))
    | inr f ↦ absurd (ground (arith, (ap (λ r. r.0) (rw (f, enqueue) at more))))
  ]
]

-- bt_log keeps the ring well-formed, and puts the message behind those that are there, of which it
-- forgets the oldest when there are 4,095.
pub log-messages :
    (l : Logger) (level : ℕ) (msg : List ℕ)
    → IsRing (as_ring l)
    → level ≤ l.log_level
    → IsRing (as_ring (log l level msg))
      × (messages (log l level msg) ≡ remember 4095 (messages l) (entry level msg))
log-messages l level msg v h =
    let q = as_ring l in
    let x = entry level msg in
    let pushed = push_refines x v in
    let popped = pop_refines v in
    elim (log-push l level msg v h) [
      | inl e ↦
          let r = spsc_push-IsRing x v in
          (
            subst IsRing (ap (λ p. p.1) e) r,
            kept (messages l) x (messages (log l level msg))
                (ap (λ p. (p.0, contents p.1)) (sym e) ∙ pushed),
          )
      | inr (f, e) ↦
          let w = spsc_pop-IsRing v in
          let r = spsc_push-IsRing x w in
          (
            subst IsRing (ap (λ p. p.1) e) r,
            forgot (messages l) x (contents (spsc_pop q).1) (messages (log l level msg))
                (ap (λ p. (p.0, contents p.1)) (sym f) ∙ pushed) (ap (λ p. p.1) popped)
                (ap (λ p. (p.0, contents p.1)) (sym e)
                  ∙ push_refines x w
                  ∙ ap (λ m. enqueue m (contents (spsc_pop q).1) x) (mask-pop q)),
          )
    ]

-- The slots from counter `i` on are printed up to the tail.
flush_from-slots :
    (ring : Buffer LogEntry) (i n fuel tail : ℕ)
    → n < 4096
    → n < fuel
    → tail ≡ (i + n) % 4096
    → flush_from ring tail fuel (i % 4096) ≡ slots 4096 ring i n
unfolding flush_from slots
flush_from-slots ring i n zero tail small enough e = absurd (omega arith)
flush_from-slots ring i zero (suc fuel) tail small enough e =
    rw (eq→== (i % 4096) tail (omega (arith, e))) refl
flush_from-slots ring i (suc n) (suc fuel) tail small enough e =
    let apart : i % 4096 ≢ tail =
      (λ same. slot_ne 4096 i (i + suc n) (omega arith) (omega arith) (same ∙ e)) in
    rw (ne→== (i % 4096) tail apart, mod-add-mod i 4096 1)
      (ap (λ r. ring (i % 4096) ∷ r)
        (flush_from-slots ring (i + 1) n fuel tail (omega arith) (omega arith)
          (e ∙ ap (λ k. k % 4096) (omega arith))))

-- bt_log_flush prints all messages, oldest first, and leaves none.
pub flush-messages :
    (l : Logger) → IsRing (as_ring l) → ((flush l).0 ≡ messages l) × (messages (flush l).1 ≡ [])
unfolding flush distance
flush-messages l v =
    let n = used (as_ring l) in
    let stop : (l.log_head + n) % 4096 ≡ l.log_tail =
      tail-slot 4096 l.log_head l.log_tail v.head_in v.tail_in in
    let first : l.log_head % 4096 ≡ l.log_head = mod-eq_of_lt v.head_in in
    let small : n < 4096 = distance-lt 4096 l.log_head l.log_tail v.head_in v.tail_in in
    (
      rw first at (flush_from-slots l.log_ring l.log_head n 4096 l.log_tail small small (sym stop)),
      slots_empty 4096 l.log_ring l.log_tail (used (as_ring (flush l).1)) (omega arith),
    )
