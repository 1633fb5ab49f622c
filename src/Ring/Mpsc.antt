-- ===== src/Ring/Mpsc.antt =====
-- BT_MPSC_PUSH and BT_MPSC_POP between threads: producers claim a slot by exchanging the tail and
-- store into it afterwards, one consumer reads.
use aspira_broker.Prelude.{
  ℕ, ◌≡◌, ◌≢◌, ◌<◌, ◌≤◌, ◌^◌, ◌+◌, ◌-◌, ◌%◌, bit_and, size_add, ◌∙◌, ap, refl, arith, List, [], ◌∷◌,
  ◌++◌, Buffer, write, IsPow2, if◌then◌else◌, ◌==◌,
}
use native.Mathlib.Nat.{mod-eq_of_lt}
use aspira_broker.Ring.{RingQueue, init, next}
use aspira_broker.Ring.Inv.{advance-mod}

-- Where a producer stands in BT_MPSC_PUSH.
pub data Producer (A : Type 0) : Type 0 where
  resting : Producer A
  saw_tail : A → ℕ → Producer A
  saw_room : A → ℕ → Producer A
  claimed : A → ℕ → Producer A

-- Producers are numbered. `stored` and `popped` list the elements written and read so far.
pub record System (A : Type 0) : Type 0 where
  pub ring : RingQueue A
  pub producer : ℕ → Producer A
  pub stored : List A
  pub popped : List A

unfoldable pub start : {A : Type 0} → Buffer A → ℕ → System A
unfolding init
start buf n = record {
  ring = init buf n;
  producer = λ _. Producer.resting;
  stored = [];
  popped = [];
}

-- The program counter of one producer moves.
abbrev pub moves : {A : Type 0} → System A → ℕ → Producer A → ℕ → Producer A
moves s i pc j = if j == i then pc else s.producer j

module _ {A : Type 0} where
  pub data Step (s : System A) : System A → Type 0 where
    -- `__t = load(tail, relaxed)`
    push_load_tail :
        (i : ℕ) (x : A)
        → s.producer i ≡ Producer.resting
        → Step s (record s { producer = moves s i (Producer.saw_tail x s.ring.tail) })
    -- `__next == load(head, acquire)`: the call returns 0.
    push_full :
        (i : ℕ) (x : A) (t : ℕ)
        → s.producer i ≡ Producer.saw_tail x t
        → next s.ring t ≡ s.ring.head
        → Step s (record s { producer = moves s i Producer.resting })
    push_room :
        (i : ℕ) (x : A) (t : ℕ)
        → s.producer i ≡ Producer.saw_tail x t
        → next s.ring t ≢ s.ring.head
        → Step s (record s { producer = moves s i (Producer.saw_room x t) })
    -- The weak exchange of the tail succeeds only where the tail is still `__t`.
    push_claim :
        (i : ℕ) (x : A) (t : ℕ)
        → s.producer i ≡ Producer.saw_room x t
        → s.ring.tail ≡ t
        → Step s (record s {
          ring = record s.ring { tail = next s.ring t };
          producer = moves s i (Producer.claimed x t);
        })
    -- It may fail in any state, and the loop starts again.
    push_retry :
        (i : ℕ) (x : A) (t : ℕ)
        → s.producer i ≡ Producer.saw_room x t
        → Step s (record s { producer = moves s i (Producer.saw_tail x s.ring.tail) })
    -- `buffer[__t] = item`, after the tail has moved.
    push_store :
        (i : ℕ) (x : A) (t : ℕ)
        → s.producer i ≡ Producer.claimed x t
        → Step s (record s {
          ring = record s.ring { buffer = write s.ring.buffer t x };
          producer = moves s i Producer.resting;
          stored = s.stored ++ x ∷ [];
        })
    -- BT_MPSC_POP of the only consumer, whole.
    pop :
        s.ring.head ≢ s.ring.tail
        → Step s (record s {
          ring = record s.ring { head = next s.ring s.ring.head };
          popped = s.popped ++ s.ring.buffer s.ring.head ∷ [];
        })

  pub data Reach (s : System A) : System A → Type 0 where
    here : Reach s s
    after : {t u : System A} → Reach s t → Step t u → Reach s u

  -- A multi-producer ring can hand out an element that nobody stored: on every ring of at least
  -- two slots there is a run in which the consumer pops the initial content of slot 0 while the
  -- only push, of `x`, has claimed the slot and has not stored.
  pub pop_before_store :
      (buf : Buffer A) (n : ℕ) (x : A)
      → IsPow2 n
      → 1 < n
      → n ≤ 2 ^ 63
      → (s : System A) × Reach (start buf n) s
        × (s.popped ≡ buf 0 ∷ [])
        × (s.stored ≡ [])
        × (s.producer 0 ≡ Producer.claimed x 0)
  unfolding start
  pop_before_store buf n x p big small =
      let e : n - 1 + 1 ≡ n = omega arith in
      let one : bit_and (size_add 0 1) (n - 1) ≡ 1 =
        advance-mod (n - 1) 0 (p.0, e ∙ p.1) (omega arith) (omega arith)
        ∙ ap (λ k. 1 % k) e
        ∙ mod-eq_of_lt big in
      (
        _,
        after
            (after
              (after (after here (push_load_tail 0 x refl))
                (push_room 0 x 0 refl (omega (arith, one))))
              (push_claim 0 x 0 refl refl))
            (pop (omega (arith, one))),
        refl,
        refl,
        refl,
      )
