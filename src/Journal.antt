-- ===== src/Journal.antt =====
-- src/persistence/journal.c: the append-only journal. An entry is its 104 bytes, and the write buffer
-- its first `offset` bytes; the sync interval is not negative. A memcpy behind the end of the buffer is
-- undefined behaviour: `overflowed` says that it has happened, and from then on no other field means
-- anything. Every call of write(2) takes its
-- result from a list of outcomes to come; a run that would need more outcomes than the list has
-- gives none.
pub mod Flush
pub mod Order
pub mod Worker
pub mod Room
pub mod Total
mod Tests
use aspira_broker.Prelude.{
  ℕ, zero, suc, ◌+◌, ◌-◌, ◌*◌, ◌%◌, Bool, true, false, ◌&&◌, Option, none, some, List, [], ◌∷◌,
  ◌++◌, length, take, drop, leb, ltb, ◌==◌, if◌then◌else◌, size_add, size_sub, size_mod, Buffer,
}
use aspira_broker.Ring.{RingQueue, init, spsc_push, spsc_pop}

-- BT_CFG_JOURNAL_BUF_SIZE, sizeof(bt_journal_entry_t), JOURNAL_RING_SIZE and JOURNAL_BATCH_DRAIN.
abbrev pub buf_size : ℕ
buf_size = 16 * 1024 * 1024

abbrev pub entry_size : ℕ
entry_size = 104

abbrev pub ring_size : ℕ
ring_size = 262144

abbrev pub batch_drain : ℕ
batch_drain = 64

abbrev pub Bytes : Type 0
Bytes = List ℕ

-- What a call of write(2) does: take some bytes, fail with EINTR, or fail otherwise or take nothing.
pub data Outcome : Type 0 where
  takes : ℕ → Outcome
  interrupted : Outcome
  fails : Outcome

-- struct bt_journal with the worker's locals. `file` is what the file holds, and `synced` how many of
-- its bytes it held at the last fdatasync.
pub record Journal : Type 0 where
  pub sync_interval_ms : ℕ
  pub ring : RingQueue Bytes
  pub written : ℕ
  pub dropped : ℕ
  pub flushed : ℕ
  pub write_buf : Bytes
  pub overflowed : Bool
  pub last_sync : ℕ
  pub idle_spins : ℕ
  pub file : Bytes
  pub synced : ℕ
  pub outcomes : List Outcome

-- bt_journal_open, once the file, the ring and the thread are there.
unfoldable pub opened : Buffer Bytes → ℕ → ℕ → Bytes → List Outcome → Journal
unfolding init
opened buf interval now file outcomes = record {
  sync_interval_ms = interval;
  ring = init buf ring_size;
  written = 0;
  dropped = 0;
  flushed = 0;
  write_buf = [];
  overflowed = false;
  last_sync = now;
  idle_spins = 0;
  file = file;
  synced = 0;
  outcomes = outcomes;
}

-- bt_journal_append: whether it returned 0.
unfoldable pub append : Journal → Bytes → Bool × Journal
append j entry =
    let (ok, ring) = spsc_push j.ring entry in
    if ok
    then (true, record j { ring = ring })
    else (false, record j { dropped = size_add j.dropped 1 })

-- The writing loop of journal_do_flush: the bytes left, the file, and the outcomes left. write(2)
-- takes at most the bytes that it is given.
unfoldable pub write_out : List Outcome → Bytes → Bytes → Option (Bytes × Bytes × List Outcome)
write_out outcomes [] file = some ([], file, outcomes)
write_out [] (b ∷ bs) file = none
write_out (Outcome.takes n ∷ outcomes) (b ∷ bs) file =
    if n == 0
    then some (b ∷ bs, file, outcomes)
    else write_out outcomes (drop n (b ∷ bs)) (file ++ take n (b ∷ bs))
write_out (Outcome.interrupted ∷ outcomes) (b ∷ bs) file = write_out outcomes (b ∷ bs) file
write_out (Outcome.fails ∷ outcomes) (b ∷ bs) file = some (b ∷ bs, file, outcomes)

-- What journal_do_flush does after its loop, with `left` of the buffer not written.
unfoldable pub settle : Bool → Journal → Bytes → Bytes → List Outcome → Journal
settle do_sync j left file outcomes =
    let total = length j.write_buf - length left in
    let moved = record j { write_buf = left; file = file; outcomes = outcomes } in
    if ltb 0 total
    then record moved {
      written = size_add j.written 1;
      flushed = size_add j.flushed total;
      synced = if do_sync && ltb 0 j.sync_interval_ms then length file else j.synced;
    }
    else moved

-- journal_do_flush.
unfoldable pub do_flush : Bool → Journal → Option Journal
do_flush do_sync j =
    if length j.write_buf == 0 then some j else (elim (write_out j.outcomes j.write_buf j.file) [
      | none ↦ none
      | some (left, file, outcomes) ↦ some (settle do_sync j left file outcomes)
    ])

-- The flush of the worker before an entry that would not fit, at time `now`.
unfoldable pub make_room : ℕ → Journal → Option Journal
make_room now j =
    if ltb buf_size (length j.write_buf + entry_size)
    then (elim (do_flush true j) [
      | none ↦ none
      | some flushed ↦ some (record flushed { last_sync = now })
    ])
    else some j

-- The memcpy of an entry behind the first `offset` bytes of the buffer, which has 16 MiB.
unfoldable pub buffer_entry : Journal → Bytes → Journal
buffer_entry j entry =
    if leb (length j.write_buf + length entry) buf_size
    then record j { write_buf = j.write_buf ++ entry; idle_spins = 0 }
    else record j { overflowed = true; idle_spins = 0 }

-- The draining loop of one round of the worker, with `n` entries to go, and how many it took.
unfoldable pub drain : (ℕ → ℕ) → ℕ → ℕ → Journal → Option (ℕ × Journal)
drain now zero drained j = some (drained, j)
drain now (suc n) drained j =
    let (item, ring) = spsc_pop j.ring in
    elim item [
      | none ↦ some (drained, j)
      | some entry ↦ elim (make_room (now drained) (record j { ring = ring })) [
        | none ↦ none
        | some j' ↦ drain now n (drained + 1) (buffer_entry j' entry)
      ]
    ]

-- The backoff of a round that found nothing.
abbrev pub spin : Journal → Journal
spin j = record j { idle_spins = if ltb 100 (j.idle_spins + 1) then 0 else j.idle_spins + 1 }

-- A round of the worker that found no entry, at time `now`.
unfoldable pub idle : ℕ → Journal → Option Journal
idle now j =
    let sync_ns = j.sync_interval_ms * 1000000 % size_mod in
    if ltb 0 (length j.write_buf) && leb sync_ns (size_sub now j.last_sync)
    then (elim (do_flush (ltb 0 j.sync_interval_ms) j) [
      | none ↦ none
      | some flushed ↦ some (spin (record flushed { last_sync = now }))
    ])
    else some (spin j)

-- One round of the worker's loop; `now` gives the times that it reads.
unfoldable pub round : (ℕ → ℕ) → Journal → Option Journal
round now j = elim (drain now batch_drain 0 j) [
  | none ↦ none
  | some (drained, j') ↦ if drained == 0 then idle (now 0) j' else some j'
]

-- What the worker does once `running` is 0.
unfoldable pub finish : Journal → Option Journal
finish j = do_flush true j
