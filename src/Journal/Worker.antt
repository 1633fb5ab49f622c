-- ===== src/Journal/Worker.antt =====
-- A property of the journal that every piece of the worker's round keeps holds after the round.
use mathlib.Core.Path.{subst}
use aspira_broker.Prelude.{
  ℕ, zero, suc, ◌+◌, ◌*◌, ◌%◌, ◌≡◌, inl, inr, arith, Bool, ◌&&◌, some, length, leb, ltb, ◌==◌,
  size_sub, size_mod, Bool-cases, Option-cases,
}
use aspira_broker.Ring.{spsc_pop}
use aspira_broker.Journal.{
  Bytes, Journal, batch_drain, do_flush, make_room, buffer_entry, drain, spin, idle, round,
}

-- The pieces: taking an entry from the ring to the buffer, a flush that a clock reading follows, and
-- the backoff.
pub record Steady (P : Journal → Type 0) : Type 0 where
  pub takes :
      (t : ℕ) (j : Journal) (entry : Bytes) (k : Journal)
      → P j
      → (spsc_pop j.ring).0 ≡ some entry
      → make_room t (record j { ring = (spsc_pop j.ring).1 }) ≡ some k
      → P (buffer_entry k entry)
  pub flushes :
      (do_sync : Bool) (j k : Journal) (now : ℕ)
      → P j
      → do_flush do_sync j ≡ some k
      → P (record k { last_sync = now })
  pub spins : (j : Journal) → P j → P (spin j)

module _ {P : Journal → Type 0} (keeps : Steady P) where
  drain-Steady :
      (now : ℕ → ℕ) (n drained : ℕ) (j : Journal) {d : ℕ} {j' : Journal}
      → P j
      → drain now n drained j ≡ some (d, j')
      → P j'
  unfolding drain
  drain-Steady now zero drained j {d} {j'} v h =
      let same : j ≡ j' = ground (arith, h) in subst P same v
  drain-Steady now (suc n) drained j {d} {j'} v h =
      let popped = record j { ring = (spsc_pop j.ring).1 } in
      elim (Option-cases (spsc_pop j.ring).0) [
        | inl e ↦
            let h' = rw (e, drain) at h in let same : j ≡ j' = ground (arith, h') in subst P same v
        | inr (entry, e) ↦ elim (Option-cases (make_room (now drained) popped)) [
          | inl f ↦ absurd (ground (arith, (rw (e, drain, f) at h)))
          | inr (k, f) ↦
              drain-Steady now n (drained + 1) (buffer_entry k entry) {d = d} {j' = j'}
                (keeps.takes (now drained) j entry k v e f) (rw (e, drain, f) at h)
        ]
      ]

  idle-Steady : (now : ℕ) (j : Journal) {j' : Journal} → P j → idle now j ≡ some j' → P j'
  unfolding idle
  idle-Steady now j {j'} v h =
      let sync_ns = j.sync_interval_ms * 1000000 % size_mod in
      let due = ltb 0 (length j.write_buf) && leb sync_ns (size_sub now j.last_sync) in
      elim (Bool-cases due) [
        | inl ready ↦ elim (Option-cases (do_flush (ltb 0 j.sync_interval_ms) j)) [
          | inl e ↦ absurd (ground (arith, (rw (ready, idle, e) at h)))
          | inr (k, e) ↦
              let flushed = record k { last_sync = now } in
              let same : spin flushed ≡ j' = ground (arith, (rw (ready, idle, e) at h)) in
              subst P same
                (keeps.spins flushed (keeps.flushes (ltb 0 j.sync_interval_ms) j k now v e))
        ]
        | inr early ↦
            let same : spin j ≡ j' = ground (arith, (rw (early, idle) at h)) in
            subst P same (keeps.spins j v)
      ]

  -- Hence the whole round keeps it.
  pub round-Steady : (now : ℕ → ℕ) (j : Journal) {j' : Journal} → P j → round now j ≡ some j' → P j'
  unfolding round
  round-Steady now j {j'} v h = elim (Option-cases (drain now batch_drain 0 j)) [
    | inl e ↦ absurd (ground (arith, (rw (e, round) at h)))
    | inr ((d, k), e) ↦
        let w = drain-Steady now batch_drain 0 j {d = d} {j' = k} v e in
        let h' = rw (e, round) at h in
        elim (Bool-cases (d == 0)) [
          | inl none_taken ↦ idle-Steady (now 0) k w (rw none_taken at h')
          | inr some_taken ↦
              let same : k ≡ j' = ground (arith, (rw some_taken at h')) in subst P same w
        ]
  ]
