-- ===== src/Journal/Flush.antt =====
-- journal_do_flush: it loses no byte, it ends, and it empties the buffer where no write fails.
use aspira_broker.Prelude.{
  ℕ, suc, ◌≤◌, ◌<◌, ◌≡◌, ◌≢◌, inl, inr, refl, sym, ap, ◌∙◌, arith, Bool, true, some, List, [], ◌∷◌,
  ◌++◌, length, take, drop, ◌==◌, append-nil, append_assoc, take-append-drop, length-drop,
  Bool-cases, Option-cases, ==→eq, ==→ne,
}
use aspira_broker.Journal.{Bytes, Outcome, Journal, write_out, settle, do_flush}

-- All bytes that have left the ring, in order: those of the file and those of the buffer.
abbrev pub taken : Journal → Bytes
taken j = j.file ++ j.write_buf

write_out_keeps :
    (outcomes : List Outcome) (bs file : Bytes) {left file' : Bytes} {rest : List Outcome}
    → write_out outcomes bs file ≡ some (left, file', rest)
    → file' ++ left ≡ file ++ bs
unfolding write_out
write_out_keeps outcomes [] file h = ground arith
write_out_keeps [] (b ∷ bs) file h = cc
write_out_keeps (Outcome.takes n ∷ outcomes) (b ∷ bs) file {left} {file'} {rest} h =
    elim (Bool-cases (n == 0)) [
      | inl e ↦ ground arith
      | inr e ↦
          write_out_keeps outcomes (drop n (b ∷ bs)) (file ++ take n (b ∷ bs)) {left = left}
            {file' = file'} {rest = rest} (rw e at h)
          ∙ append_assoc file (take n (b ∷ bs)) (drop n (b ∷ bs))
          ∙ ap (λ (l : Bytes). file ++ l) (take-append-drop n (b ∷ bs))
    ]
write_out_keeps (Outcome.interrupted ∷ outcomes) (b ∷ bs) file h =
    write_out_keeps outcomes (b ∷ bs) file h
write_out_keeps (Outcome.fails ∷ outcomes) (b ∷ bs) file h = ground arith

-- A flush that returns, in full, in part or not at all written, moves bytes from the front of the
-- buffer to the end of the file: the two together stay what they were, and so does the ring. It copies nothing into the buffer.
pub do_flush_keeps :
    (do_sync : Bool) (j : Journal) {j' : Journal}
    → do_flush do_sync j ≡ some j'
    → (taken j' ≡ taken j)
      × (j'.ring ≡ j.ring)
      × (j'.dropped ≡ j.dropped)
      × (j'.overflowed ≡ j.overflowed)
unfolding do_flush settle
do_flush_keeps do_sync j h = elim (Option-cases (write_out j.outcomes j.write_buf j.file)) [
  | inl e ↦ ground arith
  | inr ((left, file, outcomes), e) ↦
      let keeps = write_out_keeps j.outcomes j.write_buf j.file e in ground (arith, keeps)
]

-- The outcomes other than EINTR.
abbrev pub answers : List Outcome → ℕ
answers [] = 0
answers (Outcome.takes n ∷ os) = suc (answers os)
answers (Outcome.interrupted ∷ os) = answers os
answers (Outcome.fails ∷ os) = suc (answers os)

write_out_total :
    (outcomes : List Outcome) (bs file : Bytes)
    → length bs ≤ answers outcomes
    → (r : Bytes × Bytes × List Outcome) × (write_out outcomes bs file ≡ some r)
unfolding write_out
write_out_total outcomes [] file h = (_, refl)
write_out_total [] (b ∷ bs) file h = absurd (omega arith)
write_out_total (Outcome.takes n ∷ outcomes) (b ∷ bs) file h = elim (Bool-cases (n == 0)) [
  | inl e ↦ ((b ∷ bs, file, outcomes), rw e refl)
  | inr e ↦ rw e (
      write_out_total outcomes (drop n (b ∷ bs)) (file ++ take n (b ∷ bs))
        (omega (arith, length-drop n (b ∷ bs), ==→ne n 0 e)))
]
write_out_total (Outcome.interrupted ∷ outcomes) (b ∷ bs) file h =
    write_out_total outcomes (b ∷ bs) file h
write_out_total (Outcome.fails ∷ outcomes) (b ∷ bs) file h = (_, refl)

-- A flush returns as soon as write(2) has answered with something else than EINTR once for each byte
-- of the buffer, or earlier.
pub do_flush_total :
    (do_sync : Bool) (j : Journal)
    → length j.write_buf ≤ answers j.outcomes
    → (j' : Journal) × (do_flush do_sync j ≡ some j')
unfolding do_flush
do_flush_total do_sync j h = elim (Bool-cases (length j.write_buf == 0)) [
  | inl e ↦ (j, rw e refl)
  | inr e ↦
      let (r, run) = write_out_total j.outcomes j.write_buf j.file h in
      (settle do_sync j r.0 r.1 r.2, rw (e, do_flush, run) refl)
]

-- No call of write(2) fails or takes nothing.
abbrev pub Sound : List Outcome → Type 0
Sound [] = Unit
Sound (Outcome.takes n ∷ os) = (n ≢ 0) × Sound os
Sound (Outcome.interrupted ∷ os) = Sound os
Sound (Outcome.fails ∷ os) = ⊥

pub write_out_empties :
    (outcomes : List Outcome) (bs file : Bytes) {left file' : Bytes} {rest : List Outcome}
    → Sound outcomes
    → write_out outcomes bs file ≡ some (left, file', rest)
    → (left ≡ []) × Sound rest
unfolding write_out
write_out_empties outcomes [] file v h = ground arith
write_out_empties [] (b ∷ bs) file v h = cc
write_out_empties (Outcome.takes n ∷ outcomes) (b ∷ bs) file {left} {file'} {rest} v h =
    elim (Bool-cases (n == 0)) [
      | inl e ↦ absurd (v.0 (==→eq n 0 e))
      | inr e ↦
          write_out_empties outcomes (drop n (b ∷ bs)) (file ++ take n (b ∷ bs)) {left = left}
            {file' = file'} {rest = rest} v.1 (rw e at h)
    ]
write_out_empties (Outcome.interrupted ∷ outcomes) (b ∷ bs) file v h =
    write_out_empties outcomes (b ∷ bs) file v h
write_out_empties (Outcome.fails ∷ outcomes) (b ∷ bs) file v h = absurd v

pub length-pos : (bs : Bytes) → bs ≢ [] → 0 < length bs
length-pos [] n = absurd (n refl)
length-pos (b ∷ bs) n = omega arith

-- Where no write fails, a flush that returns has written the whole buffer, and a flush of a buffer
-- that was not empty that was asked to sync, with an interval other than 0, has synced the file.
pub do_flush_durable :
    (j : Journal) {j' : Journal}
    → Sound j.outcomes
    → j.sync_interval_ms ≢ 0
    → j.write_buf ≢ []
    → do_flush true j ≡ some j'
    → (j'.write_buf ≡ []) × (j'.file ≡ taken j) × (j'.synced ≡ length j'.file) × Sound j'.outcomes
unfolding do_flush settle
do_flush_durable j {j'} v i n h = elim (Option-cases (write_out j.outcomes j.write_buf j.file)) [
  | inl e ↦ ground (arith, length-pos j.write_buf n)
  | inr ((left, file, outcomes), e) ↦
      let keeps = write_out_keeps j.outcomes j.write_buf j.file e in
      let (empty, sound) = write_out_empties j.outcomes j.write_buf j.file v e in
      let whole : file ≡ taken j =
        sym (append-nil file) ∙ ap (λ (l : Bytes). file ++ l) (sym empty) ∙ keeps in
      ground (arith, length-pos j.write_buf n, whole, sound, empty)
]
