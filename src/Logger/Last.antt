-- ===== src/Logger/Last.antt =====
-- src/utils/logger.c: what a flush prints after any number of messages.
use native.Mathlib.Decide.{dec_lt}
use aspira_broker.Prelude.{
  ℕ, zero, suc, ◌-◌, ◌≤◌, ◌<◌, ◌≡◌, refl, sym, ap, ◌∙◌, arith, true, false, List, [], ◌∷◌, ◌++◌,
  length, drop, ltb, ge→ltb, lt→ltb, both_branches, length-drop, length-append, append-nil,
  append_assoc,
}
use aspira_broker.Ring.Inv.{IsRing}
use aspira_broker.Logger.{LogEntry, Logger, log, flush}
use aspira_broker.Logger.Oldest.{as_ring, messages, remember, entry, log-messages, flush-messages}

-- A list of calls at one level.
unfoldable pub log_all : Logger → ℕ → List (List ℕ) → Logger
log_all l level [] = l
log_all l level (msg ∷ msgs) = log_all (log l level msg) level msgs

abbrev pub entries : ℕ → List (List ℕ) → List LogEntry
entries level [] = []
entries level (msg ∷ msgs) = entry level msg ∷ entries level msgs

-- The last `limit` elements.
abbrev pub last : ℕ → List LogEntry → List LogEntry
last limit xs = drop (length xs - limit) xs

drop-drop_one : (n : ℕ) (xs : List LogEntry) → drop 1 (drop n xs) ≡ drop (suc n) xs
drop-drop_one zero xs = refl
drop-drop_one (suc n) [] = refl
drop-drop_one (suc n) (x ∷ xs) = drop-drop_one n xs

drop-append : (n : ℕ) (xs ys : List LogEntry) → n ≤ length xs → drop n (xs ++ ys) ≡ drop n xs ++ ys
drop-append zero xs ys h = refl
drop-append (suc n) [] ys h = absurd (omega arith)
drop-append (suc n) (x ∷ xs) ys h = drop-append n xs ys (omega arith)

remember-last :
    (limit : ℕ) (xs : List LogEntry) (x : LogEntry)
    → 0 < limit
    → remember limit (last limit xs) x ≡ last limit (xs ++ x ∷ [])
remember-last limit xs x pos =
    let n = length xs in
    let total = length-append xs (x ∷ []) in
    let rest = length-drop (n - limit) xs in
    elim (dec_lt n limit) [
      | yes few ↦
          let none_gone : n - limit ≡ 0 = omega arith in
          let none_later : length (xs ++ x ∷ []) - limit ≡ 0 = omega (arith, total) in
          let room : ltb (length (drop (n - limit) xs)) limit ≡ true =
            lt→ltb (length (drop (n - limit) xs)) limit (omega (arith, rest)) in
          rw (room, none_gone, none_later) refl
      | no many ↦
          let later : length (xs ++ x ∷ []) - limit ≡ suc (n - limit) = omega (arith, total) in
          let full : ltb (length (drop (n - limit) xs)) limit ≡ false =
            ge→ltb (length (drop (n - limit) xs)) limit (omega (arith, rest)) in
          rw (full, later, drop-drop_one (n - limit) xs)
            (sym (drop-append (suc (n - limit)) xs (x ∷ []) (omega arith)))
    ]

log-level : (l : Logger) (level : ℕ) (msg : List ℕ) → (log l level msg).log_level ≡ l.log_level
unfolding log
log-level l level msg =
    both_branches (λ (m : Logger). m.log_level ≡ l.log_level) (ltb l.log_level level) refl refl

log_all-messages :
    (l : Logger) (level : ℕ) (msgs : List (List ℕ)) (before : List LogEntry)
    → IsRing (as_ring l)
    → level ≤ l.log_level
    → messages l ≡ last 4095 before
    → IsRing (as_ring (log_all l level msgs))
      × (messages (log_all l level msgs) ≡ last 4095 (before ++ entries level msgs))
unfolding log_all
log_all-messages l level [] before v h e = (v, rw (append-nil before) e)
log_all-messages l level (msg ∷ msgs) before v h e =
    let x = entry level msg in
    let (w, step) = log-messages l level msg v h in
    let one : messages (log l level msg) ≡ last 4095 (before ++ x ∷ []) =
      step ∙ ap (λ xs. remember 4095 xs x) e ∙ remember-last 4095 before x (omega arith) in
    let (u, f) =
      log_all-messages (log l level msg) level msgs (before ++ x ∷ []) w
        (rw (log-level l level msg) h) one in
    (u, f ∙ ap (last 4095) (append_assoc before (x ∷ []) (entries level msgs)))

-- Whatever is logged at a level that is shown into a well-formed and empty ring, a flush prints the
-- last 4,095 messages of it, oldest first.
pub log_all-flush :
    (l : Logger) (level : ℕ) (msgs : List (List ℕ))
    → IsRing (as_ring l)
    → messages l ≡ []
    → level ≤ l.log_level
    → (flush (log_all l level msgs)).0 ≡ last 4095 (entries level msgs)
log_all-flush l level msgs v e h =
    let (w, f) = log_all-messages l level msgs [] v h e in
    (flush-messages (log_all l level msgs) w).0 ∙ f
