-- ===== src/MarketData.antt =====
-- src/md/market_data.c: the market data thread, which takes the ticks of a matching engine from its
-- queue and counts them.
pub mod Ticks
mod Tests
use aspira_broker.Prelude.{
  ℕ, ◌+◌, Bool, true, false, Option, none, some, List, if◌then◌else◌, size_add,
}
use aspira_broker.Ring.{RingQueue, spsc_push, spsc_pop}

-- bt_md_tick_t of src/include/bt_types.h. A symbol is its 16 bytes.
pub record MdTick : Type 0 where
  pub tick_type : ℕ
  pub symbol : List ℕ
  pub price : ℕ
  pub quantity : ℕ
  pub timestamp : ℕ
  pub trade_id : ℕ
  pub side : ℕ

-- bt_md_ctx_t, with the queue that it points to.
pub record MarketData : Type 0 where
  pub thread_id : ℕ
  pub cpu_core : ℕ
  pub sched_id : ℕ
  pub running : Bool
  pub in_queue : RingQueue MdTick
  pub tick_count : ℕ

-- bt_md_create; the first argument says whether calloc gives memory.
unfoldable pub create : Bool → ℕ → ℕ → RingQueue MdTick → ℕ → Option MarketData
create grants tid cpu queue sched_id =
    if grants
    then some (record {
      thread_id = tid;
      cpu_core = cpu;
      sched_id = sched_id;
      running = true;
      in_queue = queue;
      tick_count = 0;
    })
    else none

-- One round of the loop of md_thread: whether it goes on, and what it leaves.
unfoldable pub turn : MarketData → Bool × MarketData
turn md =
    if md.running
    then (let (tick, queue) = spsc_pop md.in_queue in
        let taken = record md { in_queue = queue } in
        elim tick [
          | none ↦ (true, taken)
          | some _ ↦ (true, record taken { tick_count = size_add md.tick_count 1 })
        ])
    else (false, md)

-- What bt_md_stop stores before it waits for the thread.
unfoldable pub stop : MarketData → MarketData
stop md = record md { running = false }

-- bt_md_destroy, up to the call of free: a thread that still runs is stopped.
unfoldable pub destroy : MarketData → MarketData
destroy md = if md.running then stop md else md

-- What happens around the thread: the engine publishes a tick, the thread takes a turn, and somebody
-- calls bt_md_stop.
pub data Move : Type 0 where
  publishes : MdTick → Move
  turns : Move
  stops : Move

-- A move, and whether it put a tick into the queue.
unfoldable pub move : Move → MarketData → Bool × MarketData
move (publishes tick) md =
    let (accepted, queue) = spsc_push md.in_queue tick in (accepted, record md { in_queue = queue })
move turns md = (false, (turn md).1)
move stops md = (false, stop md)
