-- ===== src/Main/Pipeline/Events.antt =====
-- src/main.c: the parts that a run of main starts and stops, read off its events.
use aspira_broker.Prelude.{
  ℕ, zero, suc, ◌≡◌, refl, ap, Bool, true, false, List, [], ◌∷◌, ◌++◌, if◌then◌else◌, append-nil,
}
use aspira_broker.Main.Cores.{Part}
use aspira_broker.Main.Pipeline.{
  journal, event_bus, risk_state, mempool, match_in, md_tick, Event, starts, stops, destroys, inits,
  enters_safe_mode, replays_journal, releases, events, init_matcher_queues, init_queues, started,
  stopped,
}

pub started-append : (es fs : List Event) → started (es ++ fs) ≡ started es ++ started fs
started-append [] fs = refl
started-append (starts p ∷ es) fs = ap (λ ps. p ∷ ps) (started-append es fs)
started-append (stops p ∷ es) fs = started-append es fs
started-append (destroys p ∷ es) fs = started-append es fs
started-append (replays_journal ∷ es) fs = started-append es fs
started-append (inits q ∷ es) fs = started-append es fs
started-append (enters_safe_mode ∷ es) fs = started-append es fs
started-append (releases r ∷ es) fs = started-append es fs

pub stopped-append : (es fs : List Event) → stopped (es ++ fs) ≡ stopped es ++ stopped fs
stopped-append [] fs = refl
stopped-append (starts p ∷ es) fs = stopped-append es fs
stopped-append (stops p ∷ es) fs = ap (λ ps. p ∷ ps) (stopped-append es fs)
stopped-append (destroys p ∷ es) fs = stopped-append es fs
stopped-append (replays_journal ∷ es) fs = stopped-append es fs
stopped-append (inits q ∷ es) fs = stopped-append es fs
stopped-append (enters_safe_mode ∷ es) fs = stopped-append es fs
stopped-append (releases r ∷ es) fs = stopped-append es fs

-- Nothing is started or stopped.
pub record IsQuiet (es : List Event) : Type 0 where
  pub starts_none : started es ≡ []
  pub stops_none : stopped es ≡ []

pub append-IsQuiet : (es fs : List Event) → IsQuiet es → IsQuiet fs → IsQuiet (es ++ fs)
append-IsQuiet es fs e f = record {
  starts_none = rw (started-append es fs, e.starts_none) f.starts_none;
  stops_none = rw (stopped-append es fs, e.stops_none) f.stops_none;
}

init_matcher_queues-IsQuiet : (n : ℕ) → IsQuiet (init_matcher_queues n)
init_matcher_queues-IsQuiet zero = record { starts_none = refl; stops_none = refl }
init_matcher_queues-IsQuiet (suc n) =
    append-IsQuiet (init_matcher_queues n) (inits (match_in n) ∷ inits (md_tick n) ∷ [])
      (init_matcher_queues-IsQuiet n) record { starts_none = refl; stops_none = refl }

pub queued-IsQuiet : (n : ℕ) → IsQuiet (replays_journal ∷ init_queues n)
unfolding init_queues
queued-IsQuiet n =
    let inner = init_matcher_queues-IsQuiet n in
    record { starts_none = inner.starts_none; stops_none = inner.stops_none }

pub ready-IsQuiet :
    (n : ℕ) (safe_mode : Bool)
    → IsQuiet
        ((replays_journal ∷ init_queues n) ++ (if safe_mode then enters_safe_mode ∷ [] else []))
ready-IsQuiet n true =
    append-IsQuiet (replays_journal ∷ init_queues n) (enters_safe_mode ∷ []) (queued-IsQuiet n)
      record { starts_none = refl; stops_none = refl }
ready-IsQuiet n false =
    append-IsQuiet (replays_journal ∷ init_queues n) [] (queued-IsQuiet n)
      record { starts_none = refl; stops_none = refl }

-- What the events of one kind start and stop.
pub started-events :
    (ps : List Part)
    → (started (events starts ps) ≡ ps)
      × (started (events stops ps) ≡ [])
      × (started (events destroys ps) ≡ [])
started-events [] = (refl, refl, refl)
started-events (p ∷ ps) = let (a, b, c) = started-events ps in (ap (λ qs. p ∷ qs) a, b, c)

pub stopped-events :
    (ps : List Part)
    → (stopped (events starts ps) ≡ [])
      × (stopped (events stops ps) ≡ ps)
      × (stopped (events destroys ps) ≡ [])
stopped-events [] = (refl, refl, refl)
stopped-events (p ∷ ps) = let (a, b, c) = stopped-events ps in (a, ap (λ qs. p ∷ qs) b, c)

-- The releases at the end of a run, behind the parts' ends.
abbrev pub ending : List Part → List Event
ending rs =
    events stops rs
    ++ (releases journal
        ∷ (events destroys rs
            ++ (releases event_bus ∷ releases risk_state ∷ releases mempool ∷ [])))

ending-parts : (rs : List Part) → (started (ending rs) ≡ []) × (stopped (ending rs) ≡ rs)
ending-parts rs =
    let last = releases event_bus ∷ releases risk_state ∷ releases mempool ∷ [] in
    let behind = releases journal ∷ (events destroys rs ++ last) in
    (
      rw
          (
            started-append (events stops rs) behind,
            started-append (events destroys rs) last,
            (started-events rs).1,
            (started-events rs).2,
          )
          refl,
      rw
          (
            stopped-append (events stops rs) behind,
            stopped-append (events destroys rs) last,
            (stopped-events rs).1,
            (stopped-events rs).2,
          )
          (append-nil rs),
    )

-- What a run starts and stops that starts two groups of parts and then ends a third.
pub run-parts :
    (pre : List Event) (ps qs rs : List Part)
    → IsQuiet pre
    → let run = ((pre ++ events starts ps) ++ events starts qs) ++ ending rs in
      (started run ≡ ps ++ qs) × (stopped run ≡ rs)
run-parts pre ps qs rs quiet =
    let first = pre ++ events starts ps in
    (
      rw
          (
            started-append (first ++ events starts qs) (ending rs),
            started-append first (events starts qs),
            started-append pre (events starts ps),
            quiet.starts_none,
            (started-events ps).0,
            (started-events qs).0,
            (ending-parts rs).0,
          )
          (append-nil (ps ++ qs)),
      rw
          (
            stopped-append (first ++ events starts qs) (ending rs),
            stopped-append first (events starts qs),
            stopped-append pre (events starts ps),
            quiet.stops_none,
            (stopped-events ps).0,
            (stopped-events qs).0,
          )
          (ending-parts rs).1,
    )
