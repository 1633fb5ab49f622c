-- ===== src/Main/Pipeline.antt =====
-- src/main.c: which threads main starts, stops and destroys, and in which order. Whether the call that
-- creates a part gives an object, and whether a resource can be had, are parameters.
pub mod Turned
pub mod Events
pub mod Order
use mathlib.Core.List.{Perm, perm_append_comm}
use mathlib.Core.List.Perm
use mathlib.Core.Path.{subst}
use aspira_broker.Prelude.{
  append_assoc, append-nil, ℕ, zero, suc, ◌+◌, ◌≤◌, ◌<◌, ◌≡◌, ◌⊎◌, ◌↔◌, inl, inr, refl, sym, ap,
  ◌∙◌, arith, Bool, true, false, not, List, [], ◌∷◌, ◌++◌, if◌then◌else◌, Bool-cases, both_branches,
}
use aspira_broker.Main.Cores.{
  Part, gateway, order_gate, oms, sequencer, market_data, clearing, risk_worker, matcher,
}

-- What main gets before it starts the first thread.
pub data Resource : Type 0 where
  mempool : Resource
  journal : Resource
  event_bus : Resource
  risk_state : Resource

-- The queues between the parts; the matchers have one of each of the last two.
pub data Queue : Type 0 where
  gate_out : Queue
  gate_oms : Queue
  risk_in : Queue
  seq_in : Queue
  response : Queue
  match_in : ℕ → Queue
  md_tick : ℕ → Queue

-- What main does; the releases are bt_journal_close and the calls that destroy the other resources.
pub data Event : Type 0 where
  replays_journal : Event
  inits : Queue → Event
  enters_safe_mode : Event
  releases : Resource → Event
  starts : Part → Event
  stops : Part → Event
  destroys : Part → Event

-- The loops over the workers, whose first `n` rounds these are.
abbrev pub workers : (ℕ → Part) → ℕ → List Part
workers part zero = []
workers part (suc n) = workers part n ++ part n ∷ []

-- Only parts that were created are started, stopped and destroyed.
abbrev pub created : (Part → Bool) → List Part → List Part
created creates [] = []
created creates (p ∷ ps) = let rest = created creates ps in if creates p then p ∷ rest else rest

abbrev pub events : (Part → Event) → List Part → List Event
events event [] = []
events event (p ∷ ps) = event p ∷ events event ps

-- The parts in the order in which main starts them, up to the sequencer and from it on.
unfoldable pub start_first : ℕ → List Part
start_first matchers = clearing ∷ market_data ∷ workers matcher matchers

unfoldable pub start_then : ℕ → List Part
start_then risks = sequencer ∷ (workers risk_worker risks ++ (oms ∷ order_gate ∷ gateway ∷ []))

-- The loop that initialises the matchers' queues.
abbrev pub init_matcher_queues : ℕ → List Event
init_matcher_queues zero = []
init_matcher_queues (suc n) = init_matcher_queues n ++ (inits (match_in n) ∷ inits (md_tick n) ∷ [])

unfoldable pub init_queues : ℕ → List Event
init_queues matchers =
    inits gate_out
    ∷ inits gate_oms
    ∷ inits risk_in
    ∷ inits seq_in
    ∷ inits response
    ∷ init_matcher_queues matchers

-- From the memory pool to the gateway, where false stands for an exit with status 1.
unfoldable pub start_up : (Resource → Bool) → (Part → Bool) → Bool → ℕ → ℕ → Bool × List Event
start_up gets creates safe_mode matchers risks =
    let queued = replays_journal ∷ init_queues matchers in
    let ready = queued ++ (if safe_mode then enters_safe_mode ∷ [] else []) in
    let first = ready ++ events starts (created creates (start_first matchers)) in
    if not (gets Resource.mempool)
    then (false, [])
    else if not (gets Resource.journal)
    then (false, [])
    else if not (gets Resource.event_bus)
    then (false, replays_journal ∷ [])
    else if not (gets Resource.risk_state)
    then (false, queued)
    else if not (creates sequencer)
    then (false, first)
    else (true, first ++ events starts (created creates (start_then risks)))

-- The parts in the order in which main stops them, and then destroys them.
unfoldable pub stop_order : ℕ → ℕ → List Part
stop_order matchers risks =
    gateway
    ∷ order_gate
    ∷ oms
    ∷ (workers risk_worker risks
        ++ (sequencer ∷ (workers matcher matchers ++ (market_data ∷ clearing ∷ []))))

unfoldable pub shut_down : (Part → Bool) → ℕ → ℕ → List Event
shut_down creates matchers risks =
    let parts = created creates (stop_order matchers risks) in
    events stops parts
    ++ (releases Resource.journal
        ∷ (events destroys parts
            ++ (releases Resource.event_bus
                ∷ releases Resource.risk_state
                ∷ releases Resource.mempool
                ∷ [])))

-- All of main after the checks of the configuration.
unfoldable pub main_events : (Resource → Bool) → (Part → Bool) → Bool → ℕ → ℕ → List Event
main_events gets creates safe_mode matchers risks =
    let (ok, es) = start_up gets creates safe_mode matchers risks in
    if ok then es ++ shut_down creates matchers risks else es

-- Which part hands orders, ticks or events to which: one of them is given a queue to push into, and the
-- other the same queue to pop from, or both the event bus. The queue of the responses, which goes from
-- the matchers back to the gateway, is left out.
pub data Hands : Part → Part → Type 0 where
  via_gate_out : Hands gateway order_gate
  via_gate_oms : Hands order_gate oms
  via_risk_in : (i : ℕ) → Hands oms (risk_worker i)
  via_seq_in : (i : ℕ) → Hands (risk_worker i) sequencer
  via_match_in : (i : ℕ) → Hands sequencer (matcher i)
  via_md_tick : Hands (matcher 0) market_data
  via_event_bus : (i : ℕ) → Hands (matcher i) clearing

abbrev pub AllParts : (Part → Type 0) → List Part → Type 0
AllParts P [] = Unit
AllParts P (p ∷ ps) = P p × AllParts P ps

-- Each part of the list is related to all that come after it.
abbrev pub Before : (Part → Part → Type 0) → List Part → Type 0
Before S [] = Unit
Before S (p ∷ ps) = AllParts (S p) ps × Before S ps

-- Where a part stands in the order of starting.
abbrev pub stage : Part → ℕ
stage clearing = 0
stage market_data = 1
stage (matcher i) = 2
stage sequencer = 3
stage (risk_worker i) = 4
stage oms = 5
stage order_gate = 6
stage gateway = 7

-- Each stage of the list is related to the one before, the first one to `from`.
abbrev pub Follows : (ℕ → ℕ → Type 0) → ℕ → List Part → Type 0
Follows R from [] = Unit
Follows R from (p ∷ ps) = R from (stage p) × Follows R (stage p) ps

abbrev pub Up : ℕ → ℕ → Type 0
Up a b = a ≤ b

abbrev pub Down : ℕ → ℕ → Type 0
Down a b = b ≤ a

-- The parts that a list of events starts, and that it stops.
abbrev pub started : List Event → List Part
started [] = []
started (starts p ∷ es) = p ∷ started es
started (_ ∷ es) = started es

abbrev pub stopped : List Event → List Part
stopped [] = []
stopped (stops p ∷ es) = p ∷ stopped es
stopped (_ ∷ es) = stopped es
