-- ===== src/Ring/Template/Tests.antt =====
-- Runs of the class templates, and the instances of their theorems.
use aspira_broker.Prelude.{ℕ, ◌≡◌, refl, arith, Bool, true, false, some, List, [], ◌∷◌, ◌++◌, slots}
use aspira_broker.Ring.{RingQueue}
use aspira_broker.Ring.Inv.{IsRing}
use aspira_broker.Ring.Fifo.{enqueue}
use aspira_broker.Ring.Refine.{contents}
use aspira_broker.Ring.Template.{constructed, push_one, pop_one, empty, others, push_among}
use aspira_broker.Ring.Template.Retry.{produced, pushed, enqueue_all, push_among_refines}
use aspira_broker.Ring.Template.Stale.{round_trip, push_among_stale}

program : Unit {0}
unfolding constructed push_one pop_one others push_among slots enqueue
program = tt

abbrev queue : RingQueue ℕ
unfolding constructed
queue = constructed (λ _. 0) 4

queue-IsRing : IsRing queue
unfolding constructed
queue-IsRing = record {
  pow = (2, refl);
  small = omega arith;
  head_in = omega arith;
  tail_in = omega arith;
}

first_in : (pop_one (push_one (push_one queue 7).1 8).1).0 ≡ some 7
unfolding program
first_in = refl

emptied : (empty queue ≡ true) × (empty (push_one queue 7).1 ≡ false)
unfolding program
emptied = (refl, refl)

-- Two others come first, and one exchange fails for no reason.
abbrev rounds : List (List ℕ × Bool)
rounds = (1 ∷ 2 ∷ [], false) ∷ ([], true) ∷ []

push_among_refines_example :
    (s : Bool) × (q' : RingQueue ℕ) × (n : ℕ) × (push_among
        (produced (rounds ++ ([], false) ∷ []))
        queue
        7
      ≡ some (s, q'))
    × ((s, contents q')
        ≡ enqueue queue.mask
            (enqueue_all queue.mask (contents queue) (pushed n (rounds ++ ([], false) ∷ [])))
            7)
push_among_refines_example = push_among_refines rounds 7 queue-IsRing

last_of_three :
    (q' : RingQueue ℕ) × (push_among (produced (rounds ++ ([], false) ∷ [])) queue 7
      ≡ some (true, q'))
    × (contents q' ≡ 1 ∷ 2 ∷ 7 ∷ [])
unfolding program
last_of_three = (_, refl, refl)

push_among_stale_example :
    (contents (others (round_trip 1 (2 ∷ 3 ∷ 4 ∷ [])) queue) ≡ 2 ∷ 3 ∷ 4 ∷ [])
    × ((q' : RingQueue ℕ) × (push_among ((round_trip 1 (2 ∷ 3 ∷ 4 ∷ []), false) ∷ []) queue 7
          ≡ some (true, q'))
        × (contents q' ≡ []))
unfolding program
push_among_stale_example =
    push_among_stale 7 1 (2 ∷ 3 ∷ 4 ∷ []) [] queue-IsRing refl refl (omega arith)
