-- ===== src/Ring.antt =====
-- src/include/bt_lockfree_queue.h: the ring behind every queue of the pipeline.
-- A macro that changes the ring returns the new ring beside its result. The loads and stores of
-- one call stand here in program order; Spsc and Mpsc interleave them between threads.
pub mod Fifo
pub mod Inv
pub mod Refine
pub mod Spsc
pub mod Mpsc
pub mod Template
mod Tests
use aspira_broker.Prelude.{
  ℕ, ◌+◌, ◌-◌, Bool, true, false, Option, none, some, bit_and, size_add, ◌==◌, if◌then◌else◌,
  Buffer, write,
}

-- BT_SPSC_QUEUE_DEF, whose fields BT_MPSC_QUEUE_DEF repeats.
pub record RingQueue (A : Type 0) : Type 0 where
  pub head : ℕ
  pub tail : ℕ
  pub buffer : Buffer A
  pub mask : ℕ

-- BT_SPSC_QUEUE_INIT over a buffer of `capacity` elements.
unfoldable pub init : {A : Type 0} → Buffer A → ℕ → RingQueue A
init buf capacity = record { head = 0; tail = 0; buffer = buf; mask = capacity - 1 }

-- The slot after `i`.
abbrev pub next : {A : Type 0} → RingQueue A → ℕ → ℕ
next q i = bit_and (size_add i 1) q.mask

unfoldable pub capacity : {A : Type 0} → RingQueue A → ℕ
capacity q = q.mask + 1

-- BT_SPSC_PUSH.
unfoldable pub spsc_push : {A : Type 0} → RingQueue A → A → Bool × RingQueue A
spsc_push q item =
    let h = q.head in
    let t = q.tail in
    let n = next q t in
    if n == h then (false, q) else (true, record q { buffer = write q.buffer t item; tail = n })

-- BT_SPSC_POP, with what it stores through `out`.
unfoldable pub spsc_pop : {A : Type 0} → RingQueue A → Option A × RingQueue A
spsc_pop q =
    let h = q.head in
    let t = q.tail in
    if h == t then (none, q) else (some (q.buffer h), record q { head = next q h })

-- BT_MPSC_PUSH where no other producer moves the tail, so the first exchange succeeds.
unfoldable pub mpsc_push : {A : Type 0} → RingQueue A → A → Bool × RingQueue A
mpsc_push q item =
    let t = q.tail in
    let n = next q t in
    if n == q.head
    then (false, q)
    else (let claimed = record q { tail = n } in
        (true, record claimed { buffer = write q.buffer t item }))

-- BT_MPSC_POP.
unfoldable pub mpsc_pop : {A : Type 0} → RingQueue A → Option A × RingQueue A
mpsc_pop q =
    let h = q.head in
    let t = q.tail in
    if h == t then (none, q) else (some (q.buffer h), record q { head = next q h })
