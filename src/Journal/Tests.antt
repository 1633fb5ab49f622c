-- ===== src/Journal/Tests.antt =====
-- Runs of the journal, and its theorems at concrete inputs.
use aspira_broker.Prelude.{
  ℕ, zero, suc, ◌≡◌, refl, arith, true, some, List, [], ◌∷◌, ◌++◌, length, Buffer,
}
use aspira_broker.Ring.{init, spsc_push, spsc_pop}
use aspira_broker.Ring.Inv.{IsRing, init-IsRing}
use aspira_broker.Journal.{
  Bytes, Outcome, Journal, entry_size, opened, append, write_out, settle, do_flush, make_room,
  buffer_entry, drain, idle, round, finish,
}
use aspira_broker.Journal.Total.{round_total}
use aspira_broker.Journal.Flush.{answers}
use aspira_broker.Journal.Room.{IsRoomy, round_fits}
use aspira_broker.Journal.Order.{Event, Holds, log, flat, run, run_appends}

fill : ℕ → ℕ → Bytes
fill zero b = []
fill (suc n) b = b ∷ fill n b

program : Unit {0}
unfolding fill init spsc_push spsc_pop opened append write_out settle do_flush make_room
    buffer_entry drain idle round finish run
program = tt

length-fill : (n b : ℕ) → length (fill n b) ≡ n
unfolding fill
length-fill zero b = refl
length-fill (suc n) b = omega (arith, length-fill n b)

abbrev blank : Buffer Bytes
blank _ = fill entry_size 0

-- The second write takes two bytes, the third is interrupted, the fourth takes the rest.
abbrev outcomes : List Outcome
outcomes = Outcome.takes 2 ∷ Outcome.interrupted ∷ Outcome.takes 500 ∷ []

abbrev fresh : Journal
unfolding program
fresh = opened blank 1 0 [] outcomes

abbrev holding : Journal
holding = record fresh { write_buf = 5 ∷ 6 ∷ 7 ∷ [] }

flushed : Journal
unfolding program
flushed = record holding {
  written = 1;
  flushed = 3;
  write_buf = [];
  file = 5 ∷ 6 ∷ 7 ∷ [];
  synced = 3;
  outcomes = [];
}

flush_run : do_flush true holding ≡ some flushed
unfolding program flushed
flush_run = refl

-- A journal whose writes fail at once and then take two bytes.
abbrev failing : Journal
failing = record fresh { write_buf = 5 ∷ 6 ∷ []; outcomes = Outcome.fails ∷ Outcome.takes 2 ∷ [] }

fresh-IsRing : IsRing fresh.ring
unfolding program
fresh-IsRing = init-IsRing blank 262144 (18, refl) (omega arith) (omega arith)

abbrev first : Bytes
first = fill entry_size 1

abbrev second : Bytes
second = fill entry_size 2

-- Two entries are appended around a round of the worker.
abbrev events : List Event
events = Event.appends first ∷ Event.works (λ _. 9) ∷ Event.appends second ∷ []

-- The journal after them.
abbrev busy : Journal
unfolding program
busy =
    (append (record fresh { ring = (spsc_pop (append fresh first).1.ring).1; write_buf = first })
      second).1

events-run : run fresh events ≡ some (first ∷ second ∷ [], busy)
unfolding program
events-run = refl

run_appends_example : Holds (log fresh ++ flat (first ∷ second ∷ [])) busy
unfolding busy
run_appends_example = run_appends events fresh fresh-IsRing events-run refl

fresh-IsRoomy : IsRoomy fresh
unfolding program
fresh-IsRoomy = record {
  slot_size = λ i. length-fill 104 0;
  fits = omega arith;
  intact = refl;
  sound = (omega arith, (omega arith, tt));
}

round_run : round (λ _. 9) fresh ≡ some (record fresh { idle_spins = 1 })
unfolding program
round_run = refl

round_fits_example : IsRoomy (record fresh { idle_spins = 1 })
round_fits_example = round_fits (λ _. 9) fresh fresh-IsRoomy round_run

-- A buffer with room for 50 bytes.
nearly_full : Bytes
nearly_full = fill 16777166 0

length-nearly_full : length nearly_full ≡ 16777166
unfolding nearly_full
length-nearly_full = length-fill 16777166 0

abbrev full : Journal
full = record failing { write_buf = nearly_full }

-- So many answers of write(2).
many : ℕ → List Outcome
many zero = []
many (suc n) = Outcome.takes 1 ∷ many n

answers-many : (n : ℕ) → answers (many n) ≡ n
unfolding many
answers-many zero = refl
answers-many (suc n) = omega (arith, answers-many n)

round_total_example :
    (k : Journal) × (round (λ _. 9) (record fresh { outcomes = many 6720 }) ≡ some k)
unfolding fresh
round_total_example =
    round_total (λ _. 9) (record fresh { outcomes = many 6720 }) (λ i. length-fill 104 0)
      (omega (arith, answers-many 6720))
