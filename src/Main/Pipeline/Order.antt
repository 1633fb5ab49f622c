-- ===== src/Main/Pipeline/Order.antt =====
-- src/main.c: the order of starting and stopping, whatever the calls of main answer.
use mathlib.Core.List.{Perm}
use aspira_broker.Prelude.{
  ℕ, zero, suc, ◌<◌, ◌≡◌, inl, inr, refl, sym, ◌∙◌, arith, Bool, true, not, List, [], ◌∷◌, ◌++◌,
  if◌then◌else◌, Bool-cases, both_branches, append_assoc,
}
use aspira_broker.Main.Cores.{
  Part, gateway, order_gate, oms, sequencer, market_data, clearing, risk_worker, matcher,
}
use aspira_broker.Main.Pipeline.{
  Resource, Event, starts, workers, created, events, start_first, start_then, start_up, stop_order,
  replays_journal, enters_safe_mode, init_queues, shut_down, main_events, Hands, via_gate_out,
  via_gate_oms, via_risk_in, via_seq_in, via_match_in, via_md_tick, via_event_bus, AllParts, Before,
  stage, Follows, Up, Down, started, stopped,
}
use aspira_broker.Main.Pipeline.Events.{
  queued-IsQuiet, ready-IsQuiet, started-append, stopped-append, started-events, stopped-events,
  run-parts,
}
use aspira_broker.Main.Pipeline.Turned.{created-append, orders_turned}

module _ (R : ℕ → ℕ → Type 0) (R_trans : (a b c : ℕ) → R a b → R b c → R a c) where
  Follows-mono : (a b : ℕ) (ps : List Part) → R a b → Follows R b ps → Follows R a ps
  Follows-mono a b [] r f = tt
  Follows-mono a b (p ∷ ps) r f = (R_trans a b (stage p) r f.0, f.1)

  Follows-created :
      (creates : Part → Bool) (a : ℕ) (ps : List Part)
      → Follows R a ps
      → Follows R a (created creates ps)
  Follows-created creates a [] f = tt
  Follows-created creates a (p ∷ ps) f = elim (Bool-cases (creates p)) [
    | inl e ↦ rw e (f.0, Follows-created creates (stage p) ps f.1)
    | inr e ↦ rw e (Follows-created creates a ps (Follows-mono a (stage p) ps f.0 f.1))
  ]

  Follows-workers :
      (part : ℕ → Part) (k a n : ℕ) (ps : List Part)
      → ((i : ℕ) → stage (part i) ≡ k)
      → R k k
      → R a k
      → Follows R k ps
      → Follows R a (workers part n ++ ps)
  Follows-workers part k a zero ps same kk r f = Follows-mono a k ps r f
  Follows-workers part k a (suc n) ps same kk r f =
      rw (append_assoc (workers part n) (part n ∷ []) ps)
        (Follows-workers part k a n (part n ∷ ps) same kk r (rw (same n) (kk, f)))

  Follows-prefix : (a : ℕ) (ps qs : List Part) → Follows R a (ps ++ qs) → Follows R a ps
  Follows-prefix a [] qs f = tt
  Follows-prefix a (p ∷ ps) qs f = (f.0, Follows-prefix (stage p) ps qs f.1)

  Follows-AllParts :
      (S : Part → Part → Type 0) (p : Part) (a : ℕ) (ps : List Part)
      → ((q : Part) → R a (stage q) → S p q)
      → Follows R a ps
      → AllParts (S p) ps
  Follows-AllParts S p a [] related f = tt
  Follows-AllParts S p a (q ∷ ps) related f =
      (related q f.0, Follows-AllParts S p a ps related (Follows-mono a (stage q) ps f.0 f.1))

  Follows-Before :
      (S : Part → Part → Type 0) (a : ℕ) (ps : List Part)
      → ((p q : Part) → R (stage p) (stage q) → S p q)
      → Follows R a ps
      → Before S ps
  Follows-Before S a [] related f = tt
  Follows-Before S a (p ∷ ps) related f =
      (Follows-AllParts S p (stage p) ps (related p) f.1, Follows-Before S (stage p) ps related f.1)

-- Orders and what comes of them go down the stages.
Hands-stage : {p q : Part} → Hands p q → stage q < stage p
Hands-stage via_gate_out = omega arith
Hands-stage via_gate_oms = omega arith
Hands-stage (via_risk_in i) = omega arith
Hands-stage (via_seq_in i) = omega arith
Hands-stage (via_match_in i) = omega arith
Hands-stage via_md_tick = omega arith
Hands-stage (via_event_bus i) = omega arith

Up-trans : (a b c : ℕ) → Up a b → Up b c → Up a c
Up-trans a b c h k = omega arith

Down-trans : (a b c : ℕ) → Down a b → Down b c → Down a c
Down-trans a b c h k = omega arith

start-Follows : (matchers risks : ℕ) → Follows Up 0 (start_first matchers ++ start_then risks)
unfolding start_first start_then
start-Follows matchers risks =
    let rest =
      Follows-workers Up Up-trans risk_worker 4 3 risks (oms ∷ order_gate ∷ gateway ∷ [])
        (λ i. refl) (omega arith) (omega arith) (omega arith, (omega arith, (omega arith, tt))) in
    let upper =
      Follows-workers Up Up-trans matcher 2 1 matchers (start_then risks) (λ i. refl) (omega arith)
        (omega arith) (omega arith, rest) in
    (omega arith, (omega arith, upper))

stop-Follows : (matchers risks : ℕ) → Follows Down 7 (stop_order matchers risks)
unfolding stop_order
stop-Follows matchers risks =
    let lower =
      Follows-workers Down Down-trans matcher 2 3 matchers (market_data ∷ clearing ∷ []) (λ i. refl)
        (omega arith) (omega arith) (omega arith, (omega arith, tt)) in
    let upper =
      Follows-workers Down Down-trans risk_worker 4 5 risks
        (sequencer ∷ (workers matcher matchers ++ (market_data ∷ clearing ∷ []))) (λ i. refl)
        (omega arith) (omega arith) (omega arith, lower) in
    (omega arith, (omega arith, (omega arith, upper)))

module _ (creates : Part → Bool) (safe_mode : Bool) (matchers risks : ℕ) where
  -- What main does with the result of starting up.
  abbrev finish : Bool × List Event → List Event
  finish (ok, es) = if ok then es ++ shut_down creates matchers risks else es

  abbrev InOrder : List Event → Type 0
  InOrder es = Follows Up 0 (started es) × Follows Down 7 (stopped es)

  abbrev ready : List Event
  ready =
      (replays_journal ∷ init_queues matchers) ++ (if safe_mode then enters_safe_mode ∷ [] else [])

  first_parts : List Part
  first_parts = created creates (start_first matchers)

  then_parts : List Part
  then_parts = created creates (start_then risks)

  stop_parts : List Part
  stop_parts = created creates (stop_order matchers risks)

  -- A run that ends for want of a sequencer.
  first-InOrder : InOrder (ready ++ events starts first_parts)
  unfolding first_parts
  first-InOrder =
      let up =
        Follows-prefix Up Up-trans 0 (start_first matchers) (start_then risks)
          (start-Follows matchers risks) in
      let quiet = ready-IsQuiet matchers safe_mode in
      rw
        (
          started-append ready (events starts first_parts),
          stopped-append ready (events starts first_parts),
          quiet.starts_none,
          quiet.stops_none,
          (started-events first_parts).0,
          (stopped-events first_parts).0,
        )
        (Follows-created Up Up-trans creates 0 (start_first matchers) up, tt)

  -- A run that starts everything.
  whole : List Event
  unfolding first_parts then_parts
  whole =
      ((ready ++ events starts first_parts) ++ events starts then_parts)
      ++ shut_down creates matchers risks

  whole-parts :
      (started whole ≡ created creates (start_first matchers ++ start_then risks))
      × (stopped whole ≡ stop_parts)
  unfolding whole first_parts then_parts stop_parts shut_down
  whole-parts =
      let (up, down) =
        run-parts ready first_parts then_parts stop_parts (ready-IsQuiet matchers safe_mode) in
      (up ∙ sym (created-append creates (start_first matchers) (start_then risks)), down)

  whole-InOrder : InOrder whole
  unfolding stop_parts
  whole-InOrder =
      rw (whole-parts.0, whole-parts.1)
        (
          Follows-created Up Up-trans creates 0 (start_first matchers ++ start_then risks)
              (start-Follows matchers risks),
          Follows-created Down Down-trans creates 7 (stop_order matchers risks)
              (stop-Follows matchers risks),
        )

  queued-InOrder : InOrder (replays_journal ∷ init_queues matchers)
  queued-InOrder =
      let quiet = queued-IsQuiet matchers in rw (quiet.starts_none, quiet.stops_none) (tt, tt)

  -- Whatever start_up answers, main's events are in order.
  start_up-InOrder :
      (gets : Resource → Bool) → InOrder (finish (start_up gets creates safe_mode matchers risks))
  unfolding start_up first_parts then_parts whole
  start_up-InOrder gets =
      let P = λ (r : Bool × List Event). InOrder (finish r) in
      both_branches P (not (gets Resource.mempool)) (tt, tt)
        (both_branches P (not (gets Resource.journal)) (tt, tt)
          (both_branches P (not (gets Resource.event_bus)) (tt, tt)
            (both_branches P (not (gets Resource.risk_state)) queued-InOrder
              (both_branches P (not (creates sequencer)) first-InOrder whole-InOrder))))

-- However the calls of main turn out: it starts no part before one that the part hands orders, ticks
-- or events to, and stops no part before one that hands such things to it. The responses, which go
-- back to the gateway, are no part of this.
pub main_events-order :
    (gets : Resource → Bool) (creates : Part → Bool) (safe_mode : Bool) (matchers risks : ℕ)
    → let run = main_events gets creates safe_mode matchers risks in
      Before (λ p q. ¬ Hands p q) (started run) × Before (λ p q. ¬ Hands q p) (stopped run)
unfolding main_events
main_events-order gets creates safe_mode matchers risks =
    let run = main_events gets creates safe_mode matchers risks in
    let (up, down) = start_up-InOrder creates safe_mode matchers risks gets in
    (
      Follows-Before Up Up-trans (λ p q. ¬ Hands p q) 0 (started run)
          (λ p q r h. absurd (omega (arith, Hands-stage h))) up,
      Follows-Before Down Down-trans (λ p q. ¬ Hands q p) 7 (stopped run)
          (λ p q r h. absurd (omega (arith, Hands-stage h))) down,
    )

-- Where all resources can be had and the sequencer is created, main stops exactly the parts that it
-- has started.
pub main_events-Perm :
    (gets : Resource → Bool) (creates : Part → Bool) (safe_mode : Bool) (matchers risks : ℕ)
    → ((r : Resource) → gets r ≡ true)
    → creates sequencer ≡ true
    → let run = main_events gets creates safe_mode matchers risks in
      Perm (started run) (stopped run)
unfolding main_events start_up whole first_parts then_parts stop_parts
main_events-Perm gets creates safe_mode matchers risks all seq =
    let run : main_events gets creates safe_mode matchers risks
        ≡ whole creates safe_mode matchers risks =
      rw
        (
          all Resource.mempool,
          all Resource.journal,
          all Resource.event_bus,
          all Resource.risk_state,
          seq,
        )
        refl in
    let (up, down) = whole-parts creates safe_mode matchers risks in
    rw (run, up, down) (orders_turned creates matchers risks)
