-- ===== src/Gateway/Orders/Idempotency.antt =====
-- The idempotency ring of gw_push_order.
use aspira_broker.Prelude.{
  ℕ, ◌+◌, ◌<◌, ◌≡◌, ◌≢◌, ◌⊎◌, inl, inr, arith, List, [], ◌∷◌, length, true, false, lt→ltb, refl,
  sym, ◌∙◌, ap, ◌==◌, eq→==, ne→==, Bool-cases, ltb,
}
use aspira_broker.Messages.{OrderRequest, GwOmsMsg}
use aspira_broker.Ring.Inv.{IsRing}
use aspira_broker.Ring.Fifo.{enqueue}
use aspira_broker.Ring.Refine.{contents, push_refines, mpsc_push-eq}
use aspira_broker.Gateway.State.{Conn, Gateway, rate_limit_rps}
use aspira_broker.Gateway.Orders.{roll_window, accept_order, push_order, idem_slot, is_duplicate}

-- The connection may still send in its current window.
abbrev pub HasRate : ℕ → Conn → Type 0
HasRate now conn = (roll_window now conn).rate_count < rate_limit_rps

accept_marks :
    (ctx : Gateway) (req req' : OrderRequest)
    → req.request_id ≢ 0
    → req'.request_id ≡ req.request_id
    → is_duplicate (accept_order ctx req) req' ≡ true
unfolding accept_order
accept_marks ctx req req' n e = ground (arith, ap idem_slot e)

repeated :
    (now : ℕ) (ctx : Gateway) (conn : Conn) (req : OrderRequest)
    → is_duplicate ctx req ≡ true
    → (push_order now ctx conn req).0 ≡ ctx
unfolding push_order
repeated now ctx conn req d = ground arith

enqueue-full :
    {A : Type 0} {limit : ℕ} {xs : List A} (x : A) → length xs ≡ limit → (enqueue limit xs x).1 ≡ xs
unfolding enqueue
enqueue-full x e = ground arith

-- Calls of gw_push_order, each with its time, its connection and its order.
abbrev pub Call : Type 0
Call = ℕ × Conn × OrderRequest

unfoldable pub push_all : Gateway → List Call → Gateway
push_all ctx [] = ctx
push_all ctx ((now, conn, req) ∷ calls) = push_all (push_order now ctx conn req).0 calls

-- No call has an id other than 0 that takes the slot of `id` from it.
abbrev pub Spares : ℕ → List Call → Type 0
Spares id [] = Unit
Spares id ((_, _, req) ∷ calls) =
    ((req.request_id ≡ 0) ⊎ (req.request_id ≡ id) ⊎ (idem_slot req.request_id ≢ idem_slot id))
    × Spares id calls

-- The slot of `id` holds it.
abbrev pub Marked : ℕ → Gateway → Type 0
Marked id ctx = ctx.idem_ring (idem_slot id) ≡ id

accept_order-Marked :
    (id : ℕ) (ctx : Gateway) (req : OrderRequest)
    → (req.request_id ≡ 0) ⊎ (req.request_id ≡ id) ⊎ (idem_slot req.request_id ≢ idem_slot id)
    → Marked id ctx
    → Marked id (accept_order ctx req)
unfolding accept_order
accept_order-Marked id ctx req spared v = elim (Bool-cases (req.request_id == 0)) [
  | inl no_id ↦ rw no_id v
  | inr some_id ↦ elim spared [
    | inl no_id ↦ ground (arith, some_id, no_id)
    | inr (inl same) ↦ rw (some_id, same, eq→== (idem_slot id) (idem_slot id) refl) refl
    | inr (inr apart) ↦
        rw (some_id, ne→== (idem_slot id) (idem_slot req.request_id) (λ e. apart (sym e))) v
  ]
]

push_order-Marked :
    (id now : ℕ) (ctx : Gateway) (conn : Conn) (req : OrderRequest)
    → (req.request_id ≡ 0) ⊎ (req.request_id ≡ id) ⊎ (idem_slot req.request_id ≢ idem_slot id)
    → Marked id ctx
    → Marked id (push_order now ctx conn req).0
unfolding push_order
push_order-Marked id now ctx conn req spared v =
    elim (Bool-cases (ltb (roll_window now conn).rate_count rate_limit_rps)) [
      | inr over ↦ rw over v
      | inl under ↦ elim (Bool-cases (is_duplicate ctx req)) [
        | inl dup ↦ rw (under, dup) v
        | inr fresh ↦ rw (under, fresh) (accept_order-Marked id ctx req spared v)
      ]
    ]

push_all-Marked :
    (id : ℕ) (ctx : Gateway) (calls : List Call)
    → Spares id calls
    → Marked id ctx
    → Marked id (push_all ctx calls)
unfolding push_all
push_all-Marked id ctx [] spared v = v
push_all-Marked id ctx ((now, conn, req) ∷ calls) spared v =
    push_all-Marked id (push_order now ctx conn req).0 calls spared.1
      (push_order-Marked id now ctx conn req spared.0 v)

first-Marked :
    (now : ℕ) (ctx : Gateway) (conn : Conn) (req : OrderRequest)
    → req.request_id ≢ 0
    → HasRate now conn
    → Marked req.request_id (push_order now ctx conn req).0
unfolding push_order
first-Marked now ctx conn req n rate = elim (Bool-cases (is_duplicate ctx req)) [
  | inl dup ↦ rw (lt→ltb _ _ rate, dup) (ground (arith, dup))
  | inr fresh ↦
      let marks : is_duplicate (accept_order ctx req) req ≡ true =
        accept_marks ctx req req n refl in
      rw (lt→ltb _ _ rate, fresh) (ground (arith, marks))
]

-- Once a call with a request id other than 0 was within the rate, and after any calls between, none
-- of which has another id than 0 and this one with the same slot of the idempotency ring: a call with
-- that id, from any connection and at any time, changes nothing in the gateway.
pub push_order_twice :
    (now now' : ℕ) (ctx : Gateway) (conn conn' : Conn) (req req' : OrderRequest)
    (between : List Call)
    → req.request_id ≢ 0
    → req'.request_id ≡ req.request_id
    → HasRate now conn
    → Spares req.request_id between
    → let ctx' = push_all (push_order now ctx conn req).0 between in
      (push_order now' ctx' conn' req').0 ≡ ctx'
push_order_twice now now' ctx conn conn' req req' between n e rate spared =
    let ctx' = push_all (push_order now ctx conn req).0 between in
    let marked =
      push_all-Marked req.request_id (push_order now ctx conn req).0 between spared
        (first-Marked now ctx conn req n rate) in
    repeated now' ctx' conn' req' (ground (arith, marked, n, e, ap idem_slot e))

-- The connection is under its rate and the id's slot does not hold the id: the order is accepted.
push_order_accepts :
    (now : ℕ) (ctx : Gateway) (conn : Conn) (req : OrderRequest)
    → HasRate now conn
    → is_duplicate ctx req ≡ false
    → push_order now ctx conn req ≡ (
      accept_order ctx req,
      record (roll_window now conn) { rate_count = (roll_window now conn).rate_count + 1 },
    )
unfolding push_order
push_order_accepts now ctx conn req rate fresh = rw (lt→ltb _ _ rate, fresh) refl

contents-accept :
    (ctx : Gateway) (req : OrderRequest)
    → IsRing ctx.out_queue
    → contents (accept_order ctx req).out_queue
      ≡ (enqueue ctx.out_queue.mask (contents ctx.out_queue) (GwOmsMsg.order req)).1
unfolding accept_order
contents-accept ctx req v =
    rw (mpsc_push-eq ctx.out_queue (GwOmsMsg.order req))
      (ap (λ r. r.1) (push_refines (GwOmsMsg.order req) v))

-- A call within the rate and with an id other than 0 that its slot does not hold, or with id 0,
-- does to the output queue what enqueuing its order does to the bounded list of its contents, and
-- counts against the rate.
pub push_order_fresh :
    (now : ℕ) (ctx : Gateway) (conn : Conn) (req : OrderRequest)
    → IsRing ctx.out_queue
    → HasRate now conn
    → ¬ ((req.request_id ≢ 0) × (ctx.idem_ring (idem_slot req.request_id) ≡ req.request_id))
    → let (ctx', conn') = push_order now ctx conn req in
      (contents ctx'.out_queue
        ≡ (enqueue ctx.out_queue.mask (contents ctx.out_queue) (GwOmsMsg.order req)).1)
      × (conn'.rate_count ≡ (roll_window now conn).rate_count + 1)
push_order_fresh now ctx conn req v rate fresh =
    rw (push_order_accepts now ctx conn req rate (ground arith)) (contents-accept ctx req v, refl)

-- An order that is not a duplicate but meets a full queue is lost for good: the call leaves the
-- queue's contents as they are, and a retry with its id, on any later state `room` of the gateway
-- that has the same idempotency ring, changes nothing.
pub push_order_lost :
    (now now' : ℕ) (ctx : Gateway) (conn conn' : Conn) (req : OrderRequest) (room : Gateway)
    → IsRing ctx.out_queue
    → length (contents ctx.out_queue) ≡ ctx.out_queue.mask
    → req.request_id ≢ 0
    → HasRate now conn
    → ctx.idem_ring (idem_slot req.request_id) ≢ req.request_id
    → room.idem_ring ≡ (push_order now ctx conn req).0.idem_ring
    → (contents (push_order now ctx conn req).0.out_queue ≡ contents ctx.out_queue)
      × ((push_order now' room conn' req).0 ≡ room)
push_order_lost now now' ctx conn conn' req room v full n rate fresh e =
    let run = push_order_accepts now ctx conn req rate (ground arith) in
    let e' = rw run at e in
    (
      rw run (contents-accept ctx req v ∙ enqueue-full (GwOmsMsg.order req) full),
      repeated now' room conn' req (rw e' (accept_marks ctx req req n refl)),
    )
