-- ===== src/Logger/Tests.antt =====
-- Runs of the logger, and the instance of its theorem.
use aspira_broker.Prelude.{◌≡◌, refl, arith, [], ◌∷◌, Buffer, slots}
use aspira_broker.Ring.Inv.{IsRing}
use aspira_broker.Logger.{LogEntry, Logger, set_level, log, flush, flush_from}
use aspira_broker.Logger.Oldest.{as_ring, entry}
use aspira_broker.Logger.Last.{log_all, entries, last, log_all-flush}

abbrev blank : Buffer LogEntry
blank _ = record { msg = []; level = 0 }

-- The logger of the file, one slot before the end of the ring.
abbrev quiet : Logger
quiet = record { log_ring = blank; log_head = 4095; log_tail = 4095; log_level = 2 }

quiet-IsRing : IsRing (as_ring quiet)
quiet-IsRing = record {
  pow = (12, refl);
  small = omega arith;
  head_in = omega arith;
  tail_in = omega arith;
}

-- A message of a level that is not shown is dropped.
debug_dropped : log quiet 3 (1 ∷ []) ≡ quiet
unfolding log
debug_dropped = refl

debug_shown : (flush (log (set_level quiet 3) 3 (1 ∷ []))).0 ≡ entry 3 (1 ∷ []) ∷ []
unfolding log set_level flush flush_from
debug_shown = refl

log_all-flush_example :
    (flush (log_all quiet 1 ((1 ∷ []) ∷ (2 ∷ []) ∷ []))).0
    ≡ last 4095 (entries 1 ((1 ∷ []) ∷ (2 ∷ []) ∷ []))
unfolding slots
log_all-flush_example =
    log_all-flush quiet 1 ((1 ∷ []) ∷ (2 ∷ []) ∷ []) quiet-IsRing refl (omega arith)
