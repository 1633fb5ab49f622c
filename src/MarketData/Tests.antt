-- ===== src/MarketData/Tests.antt =====
-- Runs of the market data thread, and the instance of its theorem.
use aspira_broker.Prelude.{ℕ, ◌+◌, ◌≡◌, refl, arith, true, some, List, [], ◌∷◌, slots}
use aspira_broker.Ring.{RingQueue, spsc_push, spsc_pop}
use aspira_broker.Ring.Inv.{IsRing}
use aspira_broker.MarketData.{
  MdTick, MarketData, create, turn, stop, destroy, Move, publishes, turns, stops, move,
}
use aspira_broker.MarketData.Ticks.{play, queued, play_counts, play_stopped}

program : Unit {0}
unfolding spsc_push spsc_pop create turn stop destroy move play slots
program = tt

abbrev tick : ℕ → MdTick
tick id = record {
  tick_type = 0;
  symbol = [];
  price = 5;
  quantity = 1;
  timestamp = 9;
  trade_id = id;
  side = 0;
}

-- A ring with three places.
abbrev queue : RingQueue MdTick
queue = record { head = 0; tail = 0; buffer = λ _. tick 0; mask = 3 }

abbrev md : MarketData
md = record {
  thread_id = 0;
  cpu_core = 10;
  sched_id = 3;
  running = true;
  in_queue = queue;
  tick_count = 0;
}

created : create true 0 10 queue 3 ≡ some md
unfolding program
created = refl

queue-IsRing : IsRing queue
queue-IsRing = record {
  pow = (2, refl);
  small = omega arith;
  head_in = omega arith;
  tail_in = omega arith;
}

abbrev moves : List Move
moves =
    publishes (tick 1)
    ∷ turns
    ∷ publishes (tick 2)
    ∷ publishes (tick 3)
    ∷ turns
    ∷ stops
    ∷ turns
    ∷ []

-- Three ticks are accepted, two counted, and one is left when the thread stops.
stopped_early : ((play moves md).0 ≡ 3) × ((play moves md).1.tick_count ≡ 2)
unfolding program
stopped_early = (refl, refl)

stopped_for_good : (play moves (destroy md)).1.tick_count ≡ 0
unfolding destroy stop
stopped_for_good = play_stopped moves (stop md) refl

play_counts_example :
    let (accepted, md') = play moves md in md'.tick_count + queued md' ≡ 0 + queued md + accepted
unfolding slots
play_counts_example = play_counts moves md queue-IsRing (omega arith)
