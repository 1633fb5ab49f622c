-- ===== src/Journal/Room.antt =====
-- The worker's buffer of 16 MiB: it never overflows where no write fails, and may where one does.
use aspira_broker.Prelude.{
  ℕ, ◌+◌, ◌≤◌, ◌<◌, ◌≡◌, ◌≢◌, inl, inr, refl, ap, ◌∙◌, arith, Bool, true, some, List, [], ◌∷◌,
  length, ltb, le→leb, gt→leb, false, length-append, Bool-cases, Option-cases, lt→ltb, ltb→ge,
}
use aspira_broker.Ring.{RingQueue, spsc_pop}
use aspira_broker.Journal.{
  Bytes, Outcome, Journal, buf_size, entry_size, do_flush, settle, write_out, make_room,
  buffer_entry, round,
}
use mathlib.Core.Path.{subst}
use aspira_broker.Journal.Worker.{Steady, round-Steady}
use aspira_broker.Journal.Flush.{Sound, write_out_empties, length-pos}

-- Every slot of the ring has the size of an entry, the buffer is not overfull and has not overflowed,
-- and no write fails.
pub record IsRoomy (j : Journal) : Type 0 where
  pub slot_size : (i : ℕ) → length (j.ring.buffer i) ≡ entry_size
  pub fits : length j.write_buf ≤ buf_size
  pub intact : j.overflowed ≡ false
  pub sound : Sound j.outcomes

flush_empties :
    (do_sync : Bool) (j : Journal) {j' : Journal}
    → Sound j.outcomes
    → do_flush do_sync j ≡ some j'
    → (length j'.write_buf ≡ 0)
      × (j'.ring ≡ j.ring)
      × (j'.overflowed ≡ j.overflowed)
      × Sound j'.outcomes
unfolding do_flush settle
flush_empties do_sync j v h = elim (Option-cases (write_out j.outcomes j.write_buf j.file)) [
  | inl e ↦ ground (arith, v)
  | inr ((left, file, outcomes), e) ↦
      let (empty, sound) = write_out_empties j.outcomes j.write_buf j.file v e in
      ground (arith, ap length empty, sound, v)
]

flush-IsRoomy :
    (do_sync : Bool) (j : Journal) {j' : Journal}
    → IsRoomy j
    → do_flush do_sync j ≡ some j'
    → IsRoomy j' × (length j'.write_buf ≡ 0)
flush-IsRoomy do_sync j v h =
    let (empty, same, calm, sound) = flush_empties do_sync j v.sound h in
    (
      record {
        slot_size = λ i. ap (λ (r : RingQueue Bytes). length (r.buffer i)) same ∙ v.slot_size i;
        fits = omega (arith, empty);
        intact = calm ∙ v.intact;
        sound = sound;
      },
      empty,
    )

make_room-IsRoomy :
    (now : ℕ) (j : Journal) {j' : Journal}
    → IsRoomy j
    → make_room now j ≡ some j'
    → IsRoomy j' × (length j'.write_buf + entry_size ≤ buf_size)
unfolding make_room
make_room-IsRoomy now j {j'} v h =
    elim (Bool-cases (ltb buf_size (length j.write_buf + entry_size))) [
      | inl full ↦ elim (Option-cases (do_flush true j)) [
        | inl e ↦ ground arith
        | inr (k, e) ↦
            let (w, empty) = flush-IsRoomy true j v e in
            let same : record k { last_sync = now } ≡ j' = ground arith in
            subst (λ (t : Journal). IsRoomy t × (length t.write_buf + entry_size ≤ buf_size)) same
              (
                record {
                  slot_size = w.slot_size;
                  fits = w.fits;
                  intact = w.intact;
                  sound = w.sound;
                },
                omega (arith, empty),
              )
      ]
      | inr room ↦
          let same : j ≡ j' = ground arith in
          subst (λ (t : Journal). IsRoomy t × (length t.write_buf + entry_size ≤ buf_size)) same
            (v, ltb→ge _ _ room)
    ]

buffer_entry-IsRoomy :
    (j : Journal) (entry : Bytes)
    → length entry ≡ entry_size
    → length j.write_buf + entry_size ≤ buf_size
    → IsRoomy j
    → IsRoomy (buffer_entry j entry)
unfolding buffer_entry
buffer_entry-IsRoomy j entry e room v =
    rw (le→leb (length j.write_buf + length entry) buf_size (omega arith)) (record {
      slot_size = v.slot_size;
      fits = omega (arith, length-append j.write_buf entry);
      intact = v.intact;
      sound = v.sound;
    })

-- What the ring hands out has the size of an entry.
pop_size :
    (j : Journal) (entry : Bytes)
    → IsRoomy j
    → (spsc_pop j.ring).0 ≡ some entry
    → length entry ≡ entry_size
unfolding spsc_pop
pop_size j entry v h = ground (arith, v.slot_size j.ring.head)

pop-IsRoomy : (j : Journal) → IsRoomy j → IsRoomy (record j { ring = (spsc_pop j.ring).1 })
unfolding spsc_pop
pop-IsRoomy j v = record {
  slot_size = λ i. ground (arith, v.slot_size i);
  fits = v.fits;
  intact = v.intact;
  sound = v.sound;
}

IsRoomy-Steady : Steady IsRoomy
IsRoomy-Steady = record {
  takes = λ t j entry k v e f.
      let (w, room) =
        make_room-IsRoomy t (record j { ring = (spsc_pop j.ring).1 }) (pop-IsRoomy j v) f in
      buffer_entry-IsRoomy k entry (pop_size j entry v e) room w;
  flushes = λ do_sync j k now v e.
      let w = (flush-IsRoomy do_sync j v e).0 in
      record { slot_size = w.slot_size; fits = w.fits; intact = w.intact; sound = w.sound };
  spins =
      λ j v. record { slot_size = v.slot_size; fits = v.fits; intact = v.intact; sound = v.sound };
}

-- Where every slot of the ring has the size of an entry, the buffer holds at most 16 MiB and has
-- not overflowed, and no write fails, the same is so after a round of the worker that returns.
pub round_fits :
    (now : ℕ → ℕ) (j : Journal) {j' : Journal} → IsRoomy j → round now j ≡ some j' → IsRoomy j'
round_fits now j v h = round-Steady IsRoomy-Steady now j v h

write_fails :
    (rest : List Outcome) (bs file : Bytes)
    → bs ≢ []
    → write_out (Outcome.fails ∷ rest) bs file ≡ some (bs, file, rest)
unfolding write_out
write_fails rest [] file n = absurd (n refl)
write_fails rest (b ∷ bs) file n = refl

failed_flush :
    (j : Journal) (rest : List Outcome)
    → j.write_buf ≢ []
    → j.outcomes ≡ Outcome.fails ∷ rest
    → do_flush true j ≡ some (record j { outcomes = rest })
unfolding do_flush settle
failed_flush j rest n o =
    let run : write_out j.outcomes j.write_buf j.file ≡ some (j.write_buf, j.file, rest) =
      rw o (write_fails rest j.write_buf j.file n) in
    ground (arith, run, length-pos j.write_buf n)

-- Where the buffer has no room for an entry and the write of the flush fails, the worker goes on
-- with the buffer as it was and copies the entry behind its end.
pub make_room_overflows :
    (now : ℕ) (j : Journal) (entry : Bytes) (rest : List Outcome)
    → buf_size < length j.write_buf + entry_size
    → length entry ≡ entry_size
    → j.outcomes ≡ Outcome.fails ∷ rest
    → (j' : Journal) × (make_room now j ≡ some j')
      × (j'.write_buf ≡ j.write_buf)
      × ((buffer_entry j' entry).overflowed ≡ true)
unfolding make_room buffer_entry
make_room_overflows now j entry rest full e o =
    let some_bytes : j.write_buf ≢ [] = λ q. absurd (omega (arith, ap length q)) in
    (
      record j { last_sync = now; outcomes = rest },
      rw (lt→ltb _ _ full, failed_flush j rest some_bytes o) refl,
      refl,
      rw (gt→leb (length j.write_buf + length entry) buf_size (omega arith)) refl,
    )
