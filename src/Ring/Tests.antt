-- ===== src/Ring/Tests.antt =====
-- Runs of the rings, and their theorems at concrete inputs.
use aspira_broker.Prelude.{
  ℕ, ◌≡◌, ◌≢◌, ◌<◌, refl, arith, true, false, none, some, List, [], ◌∷◌, ◌++◌, length, Buffer,
  write, slots,
}
use aspira_broker.Ring.{RingQueue, init, spsc_push, spsc_pop}
use aspira_broker.Ring.Fifo
use aspira_broker.Ring.Fifo.{Op, push, pop, pushed, popped, enqueue, dequeue}
use aspira_broker.Ring.Inv.{IsRing, init-IsRing}
use aspira_broker.Ring.Refine.{run, run_refines}
use aspira_broker.Ring.Spsc
use aspira_broker.Ring.Spsc.{
  System, start, Reach, here, after, push_load_head, push_load_tail, push_store, push_publish,
  pop_load_head, pop_load_tail, pop_fetch, pop_publish, spsc_fifo, spsc_no_race,
}
use aspira_broker.Ring.Mpsc
use aspira_broker.Ring.Mpsc.{pop_before_store}

abbrev zeros : Buffer ℕ
zeros _ = 0

abbrev four : RingQueue ℕ
unfolding init slots
four = init zeros 4

abbrev script : List (Op ℕ)
script = push 5 ∷ push 6 ∷ push 7 ∷ push 8 ∷ pop ∷ push 9 ∷ pop ∷ pop ∷ pop ∷ pop ∷ []

run-four :
    run four script
    ≡ pushed true
      ∷ pushed true
      ∷ pushed true
      ∷ pushed false
      ∷ popped (some 5)
      ∷ pushed true
      ∷ popped (some 6)
      ∷ popped (some 7)
      ∷ popped (some 9)
      ∷ popped none
      ∷ []
unfolding run spsc_push spsc_pop four
run-four = refl

four-IsRing : IsRing four
unfolding init slots
four-IsRing = init-IsRing zeros 4 (2, refl) (omega arith) (omega arith)

run_refines_example : run four script ≡ Fifo.run 3 [] script
unfolding init slots
run_refines_example = run_refines script four-IsRing

-- The producer has pushed 7 and is about to store 8; the consumer is about to fetch.
abbrev halfway : System ℕ
halfway = record {
  ring = record { head = 0; tail = 1; buffer = write zeros 0 7; mask = 3 };
  producer = Spsc.Producer.saw_both 8 0 1;
  consumer = Spsc.Consumer.saw_both 0 1;
  pushed = 7 ∷ [];
  popped = [];
}

halfway-Reach : Reach (start zeros 4) halfway
unfolding start init
halfway-Reach =
    after
      (after
        (after
          (after
            (after
              (after (after (after here (push_load_head 7 refl)) (push_load_tail 7 0 refl))
                (push_store 7 0 0 refl (omega arith)))
              (push_publish 7 1 refl))
            (push_load_head 8 refl))
          (push_load_tail 8 0 refl))
        (pop_load_head refl))
      (pop_load_tail 0 refl)

spsc_fifo_example : (rest : List ℕ) × (7 ∷ [] ≡ [] ++ rest) × (length rest < 4)
spsc_fifo_example = spsc_fifo 4 (2, refl) (omega arith) zeros (omega arith) halfway-Reach

spsc_no_race_example : (◌≢◌ {A = ℕ} 1 0) × (1 < 4) × (0 < 4)
spsc_no_race_example =
    spsc_no_race 4 (2, refl) (omega arith) zeros 8 0 1 0 1 (omega arith) halfway-Reach refl
      (omega arith) refl (omega arith)

pop_before_store_example :
    (s : Mpsc.System ℕ) × Mpsc.Reach (Mpsc.start zeros 4) s
    × (s.popped ≡ 0 ∷ [])
    × (s.stored ≡ [])
    × (s.producer 0 ≡ Mpsc.Producer.claimed 9 0)
pop_before_store_example = pop_before_store zeros 4 9 (2, refl) (omega arith) (omega arith)
