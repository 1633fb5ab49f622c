-- ===== src/Gateway/Pool/Responses.antt =====
-- gw_drain_responses hands every response to every connection that has logged in.
use aspira_broker.Prelude.{
  ℕ, zero, suc, ◌<◌, ◌≡◌, inl, inr, refl, ap, arith, none, some, List, [], ◌∷◌, length, map,
  Option-cases,
}
use aspira_broker.Ring.{RingQueue, mpsc_pop}
use aspira_broker.Ring.Inv.{IsRing, spsc_pop-IsRing}
use aspira_broker.Ring.Fifo.{dequeue}
use aspira_broker.Ring.Refine.{contents, pop_refines, mpsc_pop-eq}
use aspira_broker.Gateway.State.{Conn}
use aspira_broker.Gateway.Pool.{deliver, drain_responses}

-- Every response in order, each to all connections.
abbrev pub deliver_all : List (List ℕ) → List Conn → List Conn
deliver_all [] conns = conns
deliver_all (resp ∷ resps) conns = deliver_all resps (map (deliver resp) conns)

dequeue-none :
    (xs : List (List ℕ)) {ys : List (List ℕ)} → (none, ys) ≡ dequeue xs → (xs ≡ []) × (ys ≡ [])
unfolding dequeue
dequeue-none [] h = ground arith
dequeue-none (x ∷ xs) h = cc

dequeue-cons :
    (xs : List (List ℕ)) (x : List ℕ) {ys : List (List ℕ)} → (some x, ys) ≡ dequeue xs → xs ≡ x ∷ ys
unfolding dequeue
dequeue-cons [] x h = cc
dequeue-cons (x' ∷ xs) x h = ground arith

-- On a sound ring and with more fuel than it holds responses, gw_drain_responses returns, leaves the
-- ring empty, and has delivered what the ring held, in order, to the connections that are open and
-- authenticated.
pub drain_responses_total :
    (f : ℕ) (q : RingQueue (List ℕ)) (conns : List Conn)
    → IsRing q
    → length (contents q) < f
    → (q' : RingQueue (List ℕ)) × (drain_responses f q conns
        ≡ some (q', deliver_all (contents q) conns))
      × (contents q' ≡ [])
unfolding drain_responses
drain_responses_total zero q conns v h = absurd (omega arith)
drain_responses_total (suc f) q conns v h =
    let q' = (mpsc_pop q).1 in
    let popped : ((mpsc_pop q).0, contents q') ≡ dequeue (contents q) =
      rw (mpsc_pop-eq q) (pop_refines v) in
    let sound : IsRing q' = rw (mpsc_pop-eq q) (spsc_pop-IsRing v) in
    elim (Option-cases (mpsc_pop q).0) [
      | inl e ↦
          let (empty, left) = dequeue-none (contents q) {ys = contents q'} (rw e at popped) in
          (q', rw (e, drain_responses, empty) refl, left)
      | inr (resp, e) ↦
          let first = dequeue-cons (contents q) resp {ys = contents q'} (rw e at popped) in
          let (r, run, left) =
            drain_responses_total f q' (map (deliver resp) conns) sound
              (omega (arith, ap length first)) in
          (r, rw (e, drain_responses, first) run, left)
    ]
