-- ===== src/Logger.antt =====
-- src/utils/logger.c: the ring of messages that bt_log fills, dropping the oldest, and bt_log_flush
-- prints. A message is the text that the two calls of snprintf leave in the entry. One thread logs.
pub mod Oldest
pub mod Last
mod Tests
use aspira_broker.Prelude.{
  ℕ, zero, suc, ◌+◌, ◌%◌, List, [], ◌∷◌, ltb, ◌==◌, if◌then◌else◌, Buffer, write,
}

-- LOG_RING_SIZE.
abbrev pub log_ring_size : ℕ
log_ring_size = 4096

-- log_entry_t.
pub record LogEntry : Type 0 where
  pub msg : List ℕ
  pub level : ℕ

-- The static variables of the file.
pub record Logger : Type 0 where
  pub log_ring : Buffer LogEntry
  pub log_head : ℕ
  pub log_tail : ℕ
  pub log_level : ℕ

-- bt_log_set_level.
unfoldable pub set_level : Logger → ℕ → Logger
set_level l level = record l { log_level = level }

-- bt_log.
unfoldable pub log : Logger → ℕ → List ℕ → Logger
log l level msg =
    let tail = l.log_tail in
    let next = (tail + 1) % log_ring_size in
    let head = if next == l.log_head then (l.log_head + 1) % log_ring_size else l.log_head in
    let entry : LogEntry = record { msg = msg; level = level } in
    if ltb l.log_level level
    then l
    else record l { log_head = head; log_ring = write l.log_ring tail entry; log_tail = next }

-- The loop of bt_log_flush, with the entries that it prints.
unfoldable pub flush_from : Buffer LogEntry → ℕ → ℕ → ℕ → List LogEntry
flush_from ring tail zero head = []
flush_from ring tail (suc fuel) head =
    let rest = flush_from ring tail fuel ((head + 1) % log_ring_size) in
    if head == tail then [] else ring head ∷ rest

-- bt_log_flush; its loop has no more rounds than the ring has slots.
unfoldable pub flush : Logger → List LogEntry × Logger
flush l =
    (flush_from l.log_ring l.log_tail log_ring_size l.log_head, record l { log_head = l.log_tail })
