-- ===== src/Lib.antt =====
-- Aspira Broker: the rings, the hash map, the gateway, the journal, the allocators and the
-- parts around them, against their C sources.
--
-- The program is a pipeline of threads. The gateway (src/net/gateway.c) reads frames from its TCP
-- connections, parses orders and cancels and pushes them into a multi-producer ring; the order
-- gate, the risk check, the sequencer and the matching engine pop from one ring and push into the
-- next. Of the stages behind the gateway the repository has the headers only.
--
--   * Ring models src/include/bt_lockfree_queue.h. `spsc_push`, `spsc_pop`, `mpsc_push` and `mpsc_pop`
--     are BT_SPSC_PUSH, BT_SPSC_POP, BT_MPSC_PUSH and BT_MPSC_POP as one thread runs them.
--     Ring.Spsc and Ring.Mpsc split the calls into their loads and stores and interleave these
--     between threads, with the program counter of each thread in its state; the loads and stores
--     are taken in program order and are seen at once, as the acquire and release pairs of the
--     source promise for the indices. Ring.Fifo is what a client of a queue sees. Ring.Template has the
--     class templates SPSCQueue and MPSCQueue; what other threads do between the loads and the
--     exchange of MPSCQueue::push is a list with one entry for each round of its loop.
--   * HashMap models src/include/bt_hashmap.h: `init`, `put`, `get`, `remove`, `size`, `clear` are the
--     functions bt_hashmap_*, and `probe` is _hm_probe. The entries are a function from slots to
--     entries. `put_deep` bounds how often bt_hashmap_put and _hm_resize call one another by one,
--     because the table that a growth fills is at most half full; `round_up` has 64 rounds, because
--     a doubled 64-bit capacity reaches its goal in fewer or never. HashMap.Room and HashMap.Resize are
--     about free slots and growing.
--   * Messages has the structs of src/include/bt_types.h and src/include/bt_queues.h that the gateway uses.
--   * Gateway models src/net/gateway.c. Gateway.Bytes has the helpers gw_ring_*, Gateway.Parse the key
--     check and the two parsers, Gateway.Orders gw_push_order, Gateway.Frames
--     gw_process_data, Gateway.Send gw_send_to_conn and gw_flush_send, and Gateway.Pool
--     gw_drain_responses, gw_accept and the idle scan of gw_thread_core. Gateway.Loop has the loop of
--     gw_thread_core: `round` is one turn of it and `handle_event` what it does for one reported event.
--     What read(2), send(2), epoll_wait and accept4 answer are parameters.
--     Gateway.Life has bt_gateway_create, bt_gateway_stop and bt_gateway_destroy; a call gives the list of
--     the memory and the descriptors that it gets and gives back.
--     A connection (gw_conn_t) and the gateway (gw_ctx_t) are records that the handlers take and
--     give back. The loop of gw_process_data has one round more than the ring has bytes, each round
--     taking at least five; the loop of the text parser has one more than the payload has bytes.
--     The clock, malloc, strtoull, strtoul and strtod are parameters, and so is what a buffer on
--     the stack holds before it is written.
--   * Journal models src/persistence/journal.c. `append` is bt_journal_append, `do_flush` is
--     journal_do_flush, `round` is one turn of the loop of bt_journal_thread_core and `finish` its
--     last flush. The results of write(2) are a list of outcomes that the journal's state carries;
--     a run that needs more of them gives none. The record holds the file's bytes as well, and whether a
--     memcpy has written behind the end of the buffer, after which its other fields mean nothing.
--     Journal.Worker carries a property of the journal through a round.
--   * Arena models src/utils/memory_pool.c: `alloc`, `alloc_order`, `free_order` and `arena_reset` are the
--     functions bt_mempool_alloc and so on, on one arena. Arena.Carving has bt_mempool_init, which cuts
--     memory into arenas, bt_mempool_assign_arena and bt_mempool_get_arena.
--   * Slab models src/utils/slab_allocator.c: `init`, `alloc`, `free`, `reset` and `stats` are the
--     functions bt_slab_*. A block is its address, and the slab carries what the first words of the
--     blocks hold. Slab.Template models the class template of src/include/bt_slab_allocator.h.
--   * Pool models src/include/bt_lockfree_pool.h: `init`, `alloc`, `free`, `bulk_free` and `stats` are the
--     functions bt_lfpool_* as one thread runs them, and Pool.Threads has the loads, stores and
--     exchanges of bt_lfpool_alloc and bt_lfpool_free as steps of any number of threads. Pool.Template
--     has the class template LockFreePool as one thread runs it, on the words of memory.
--   * Main models src/main.c and src/include/bt_config.h. Main.Config has the configuration, the loop over
--     the arguments, with atoi as a parameter, and the checks; Main.Cores the cores of the threads
--     and what is registered with the scheduler; Main.Pipeline the sequence of what main sets up,
--     starts, stops and destroys, where what the calls answer are parameters; Main.Queues the
--     capacities of src/include/bt_queues.h.
--   * SharedMemory models src/ipc/shmem.c: `create`, `attach`, `detach` and `destroy` are the functions
--     bt_shmem_*. What the system calls answer is a parameter; a call gives the list of the system
--     calls that took effect, and SharedMemory.Balance reads off what is then held.
--   * Disruptor models src/include/bt_disruptor.h: `claim_c` and `commit_c` are bt_disruptor_claim_c and
--     bt_disruptor_commit_c, `claim`, `commit`, `publish`, `get`, `is_committed` and
--     `get_highest_committed` the methods of the class template.
--   * Memory models src/utils/memory_tier.c and src/utils/hugepage.c: Memory.Tiers has bt_tier_alloc,
--     bt_tier_free, bt_tier_classify and bt_tier_init over the slabs of Slab, with what calloc and
--     bt_numa_alloc_local answer as parameters; Memory.HugePages has the functions bt_hugepage_*.
--   * Logger models src/utils/logger.c: `log`, `set_level` and `flush` are bt_log, bt_log_set_level and
--     bt_log_flush, as one thread calls them. A message is the text that snprintf leaves; the loop
--     of the flush has as many rounds as the ring has slots, of which one is always free.
--   * Timer models the clock's conversions of src/include/bt_timer.h and the latency statistics of
--     src/utils/timer.c: `init` and `stats_record` are bt_latency_stats_init and
--     bt_latency_stats_record. The loop that shifts a 64-bit number has 64 rounds, after which it is 0.
--   * MarketData models src/md/market_data.c: `turn` is one round of the loop of md_thread, which pops a
--     tick of a ring of Ring and counts it.
--   * Placement models src/utils/numa.c and what src/utils/cpu_affinity.c does to memory: `numa_alloc` is
--     bt_numa_alloc and `alloc_hugepages` bt_cpu_alloc_hugepages. A call gives the list of what happened
--     to memory. The loop that touches pages has one round more than the memory has bytes.
--
-- Integers are natural numbers that wrap at 2 ^ 64 where the source's do and a bound does not rule
-- it out: counters of table slots stay below 2 ^ 60 and are not wrapped upwards. Memory is a
-- function from indices to values.
--
-- Not modelled: what computes with doubles, as the percentiles and the calibration of the clock;
-- pinning threads, their priorities and locking memory, which are single system calls; what main and
-- the logger print; starting and joining threads; and the stages of the pipeline, the events and the
-- scheduler functions that have headers only.
pub mod Prelude
pub mod Ring
pub mod HashMap
pub mod Messages
pub mod Gateway
pub mod Journal
pub mod Arena
pub mod Slab
pub mod Pool
pub mod Main
pub mod SharedMemory
pub mod Disruptor
pub mod Memory
pub mod Logger
pub mod Timer
pub mod MarketData
pub mod Placement
