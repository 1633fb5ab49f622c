-- ===== src/Gateway/Orders.antt =====
-- src/net/gateway.c, gw_push_order: the rate limit, the idempotency ring and the output queue.
pub mod Limit
pub mod Idempotency
use aspira_broker.Prelude.{
  ℕ, ◌+◌, ◌-◌, Bool, true, false, not, ◌&&◌, ltb, ◌==◌, if◌then◌else◌, bit_and, size_add, size_sub,
  write,
}
use aspira_broker.Messages.{OrderRequest, GwOmsMsg}
use aspira_broker.Ring.{mpsc_push}
use aspira_broker.Gateway.State.{Conn, Gateway, idem_ring_size, rate_limit_rps}

abbrev pub window_ns : ℕ
window_ns = 1000000000

-- The start of a new window, once a second has passed.
unfoldable pub roll_window : ℕ → Conn → Conn
roll_window now conn =
    if ltb window_ns (size_sub now conn.rate_window_start)
    then record conn { rate_window_start = now; rate_count = 0 }
    else conn

-- The slot of a request id.
abbrev pub idem_slot : ℕ → ℕ
idem_slot id = bit_and id (idem_ring_size - 1)

abbrev pub is_duplicate : Gateway → OrderRequest → Bool
is_duplicate ctx req =
    not (req.request_id == 0) && ctx.idem_ring (idem_slot req.request_id) == req.request_id

-- What an order that passes both checks does. The result of the push is not looked at.
unfoldable pub accept_order : Gateway → OrderRequest → Gateway
accept_order ctx req = record ctx {
  idem_ring =
      if req.request_id == 0
      then ctx.idem_ring
      else write ctx.idem_ring (idem_slot req.request_id) req.request_id;
  out_queue = (mpsc_push ctx.out_queue (GwOmsMsg.order req)).1;
  orders_received = size_add ctx.orders_received 1;
}

-- gw_push_order at time `now`.
unfoldable pub push_order : ℕ → Gateway → Conn → OrderRequest → Gateway × Conn
push_order now ctx conn req =
    let rolled = roll_window now conn in
    if ltb rolled.rate_count rate_limit_rps
    then (if is_duplicate ctx req
        then (ctx, rolled)
        else (accept_order ctx req, record rolled { rate_count = rolled.rate_count + 1 }))
    else (ctx, rolled)
