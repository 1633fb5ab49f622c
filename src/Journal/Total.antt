-- ===== src/Journal/Total.antt =====
-- The worker's round ends: write(2) has to answer only so often.
use aspira_broker.Prelude.{
  ℕ, zero, suc, ◌+◌, ◌*◌, ◌%◌, ◌≤◌, ◌<◌, ◌≡◌, ◌⊎◌, inl, inr, refl, ap, ◌∙◌, arith, Bool, true,
  false, ◌&&◌, some, List, [], ◌∷◌, ◌++◌, length, take, drop, leb, ltb, ◌==◌, size_sub, size_mod,
  length-append, length-drop, Bool-cases, Option-cases, ==→ne,
}
use aspira_broker.Ring.{RingQueue, spsc_pop}
use aspira_broker.Journal.{
  Bytes, Outcome, Journal, buf_size, entry_size, batch_drain, write_out, settle, do_flush,
  make_room, buffer_entry, drain, spin, idle, round,
}
use aspira_broker.Journal.Flush.{answers, do_flush_total}

-- Every slot of the ring has the size of an entry.
abbrev pub Sized : Journal → Type 0
Sized j = (i : ℕ) → length (j.ring.buffer i) ≡ entry_size

-- Each answer but the last takes a byte at least.
write_out_cost :
    (outcomes : List Outcome) (bs file : Bytes) {left file' : Bytes} {rest : List Outcome}
    → write_out outcomes bs file ≡ some (left, file', rest)
    → answers outcomes + length left ≤ answers rest + length bs + 1
unfolding write_out
write_out_cost outcomes [] file h = ground arith
write_out_cost [] (b ∷ bs) file h = cc
write_out_cost (Outcome.takes n ∷ outcomes) (b ∷ bs) file {left} {file'} {rest} h =
    elim (Bool-cases (n == 0)) [
      | inl e ↦ ground arith
      | inr e ↦
          let ih =
            write_out_cost outcomes (drop n (b ∷ bs)) (file ++ take n (b ∷ bs)) {left = left}
              {file' = file'} {rest = rest} (rw e at h) in
          omega (arith, ih, length-drop n (b ∷ bs), ==→ne n 0 e)
    ]
write_out_cost (Outcome.interrupted ∷ outcomes) (b ∷ bs) file h =
    write_out_cost outcomes (b ∷ bs) file h
write_out_cost (Outcome.fails ∷ outcomes) (b ∷ bs) file h = ground arith

do_flush_cost :
    (do_sync : Bool) (j : Journal) {j' : Journal}
    → do_flush do_sync j ≡ some j'
    → (answers j.outcomes + length j'.write_buf ≤ answers j'.outcomes + length j.write_buf + 1)
      × (j'.ring ≡ j.ring)
unfolding do_flush settle
do_flush_cost do_sync j h = elim (Option-cases (write_out j.outcomes j.write_buf j.file)) [
  | inl e ↦ ground arith
  | inr ((left, file, outcomes), e) ↦ ground (arith, write_out_cost j.outcomes j.write_buf j.file e)
]

make_room_total :
    (now : ℕ) (j : Journal)
    → length j.write_buf ≤ answers j.outcomes
    → (k : Journal) × (make_room now j ≡ some k)
      × (answers j.outcomes + length k.write_buf ≤ answers k.outcomes + length j.write_buf + 1)
      × (k.ring ≡ j.ring)
unfolding make_room
make_room_total now j h = elim (Bool-cases (ltb buf_size (length j.write_buf + entry_size))) [
  | inl full ↦
      let (k, e) = do_flush_total true j h in
      let (cost, same) = do_flush_cost true j e in
      (record k { last_sync = now }, rw (full, make_room, e) refl, cost, same)
  | inr room ↦ (j, rw room refl, omega arith, refl)
]

pop-Sized :
    (j : Journal) (entry : Bytes)
    → Sized j
    → (spsc_pop j.ring).0 ≡ some entry
    → (length entry ≡ entry_size) × Sized (record j { ring = (spsc_pop j.ring).1 })
unfolding spsc_pop
pop-Sized j entry v h = (ground (arith, v j.ring.head), λ i. ground (arith, v i))

buffer_entry-size :
    (j : Journal) (entry : Bytes)
    → let j' = buffer_entry j entry in
      (length j'.write_buf ≤ length j.write_buf + length entry)
      × (j'.ring ≡ j.ring)
      × (j'.outcomes ≡ j.outcomes)
unfolding buffer_entry
buffer_entry-size j entry = elim (Bool-cases (leb (length j.write_buf + length entry) buf_size)) [
  | inl room ↦ rw room (omega (arith, length-append j.write_buf entry), refl, refl)
  | inr over ↦ rw over (omega arith, refl, refl)
]

drain_total :
    (now : ℕ → ℕ) (n drained : ℕ) (j : Journal)
    → Sized j
    → length j.write_buf + n * 105 ≤ answers j.outcomes
    → (r : ℕ × Journal) × (drain now n drained j ≡ some r)
      × ((r.1 ≡ j) × (r.0 ≡ drained) ⊎ (drained < r.0))
unfolding drain
drain_total now zero drained j v h = ((drained, j), refl, inl (refl, refl))
drain_total now (suc n) drained j v h =
    let popped = record j { ring = (spsc_pop j.ring).1 } in
    elim (Option-cases (spsc_pop j.ring).0) [
      | inl e ↦ ((drained, j), rw (e, drain) refl, inl (refl, refl))
      | inr (entry, e) ↦
          let (size, v') = pop-Sized j entry v e in
          let (k, f, cost, same) = make_room_total (now drained) popped (omega arith) in
          let (grown, kept, left) = buffer_entry-size k entry in
          let (r, run, took) =
            drain_total now n (drained + 1) (buffer_entry k entry)
              (λ i. ap (λ (q : RingQueue Bytes). length (q.buffer i)) (kept ∙ same) ∙ v' i)
              (omega (arith, cost, size, grown, ap answers left)) in
          (r, rw (e, drain, f) run, inr (ground (arith, took)))
    ]

idle_total :
    (now : ℕ) (j : Journal)
    → length j.write_buf ≤ answers j.outcomes
    → (k : Journal) × (idle now j ≡ some k)
unfolding idle
idle_total now j h =
    let sync_ns = j.sync_interval_ms * 1000000 % size_mod in
    let due = ltb 0 (length j.write_buf) && leb sync_ns (size_sub now j.last_sync) in
    elim (Bool-cases due) [
      | inl ready ↦
          let (k, e) = do_flush_total (ltb 0 j.sync_interval_ms) j h in
          (spin (record k { last_sync = now }), rw (ready, idle, e) refl)
      | inr early ↦ (spin j, rw (early, idle) refl)
    ]

-- Where every slot of the ring has the size of an entry, a round of the worker returns once write(2)
-- has answers other than EINTR for each byte of the buffer and 105 for each of 64 entries.
pub round_total :
    (now : ℕ → ℕ) (j : Journal)
    → Sized j
    → length j.write_buf + 6720 ≤ answers j.outcomes
    → (k : Journal) × (round now j ≡ some k)
unfolding round
round_total now j v h =
    let ((d, j'), run, took) = drain_total now batch_drain 0 j v h in
    elim took [
      | inl (same, zero_taken) ↦
          let bound : length j'.write_buf ≤ answers j'.outcomes = rw same (omega arith) in
          let (k, e) = idle_total (now 0) j' bound in (k, rw (run, round, zero_taken) e)
      | inr some_taken ↦ let e : (d == 0) ≡ false = ground arith in (j', rw (run, round, e) refl)
    ]
