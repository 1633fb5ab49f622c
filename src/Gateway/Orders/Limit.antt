-- ===== src/Gateway/Orders/Limit.antt =====
-- The rate limit of gw_push_order.
use aspira_broker.Prelude.{ℕ, ◌+◌, ◌^◌, ◌≤◌, ◌<◌, ◌≡◌, arith, List, [], ◌∷◌, length, size_sub}
use aspira_broker.Messages.{OrderRequest}
use aspira_broker.Gateway.State.{Conn, Gateway, rate_limit_rps}
use aspira_broker.Gateway.Orders.{window_ns, roll_window, accept_order, push_order}

-- The calls of gw_push_order for one connection in order, each with its time.
pub push_orders : Gateway → Conn → List (ℕ × OrderRequest) → Gateway × Conn
push_orders ctx conn [] = (ctx, conn)
push_orders ctx conn ((now, req) ∷ calls) =
    let (ctx', conn') = push_order now ctx conn req in push_orders ctx' conn' calls

-- No call comes more than a second after the start of the window.
abbrev pub Within : ℕ → List (ℕ × OrderRequest) → Type 0
Within start [] = Unit
Within start ((now, req) ∷ calls) = (size_sub now start ≤ window_ns) × Within start calls

one_call :
    (now : ℕ) (ctx : Gateway) (conn : Conn) (req : OrderRequest)
    → size_sub now conn.rate_window_start ≤ window_ns
    → conn.rate_count ≤ rate_limit_rps
    → ctx.orders_received + 1 < 2 ^ 64
    → let (ctx', conn') = push_order now ctx conn req in
      (conn'.rate_window_start ≡ conn.rate_window_start)
      × (ctx'.orders_received + conn.rate_count ≡ ctx.orders_received + conn'.rate_count)
      × (conn'.rate_count ≤ rate_limit_rps)
      × (ctx'.orders_received ≤ ctx.orders_received + 1)
unfolding push_order roll_window accept_order
one_call now ctx conn req w r o = ground arith

-- Within one second of a window's start a connection gets at most 10,000 orders through, counting
-- those that the window had already let through, whatever calls are made.
pub push_orders_limit :
    (ctx : Gateway) (conn : Conn) (calls : List (ℕ × OrderRequest))
    → Within conn.rate_window_start calls
    → conn.rate_count ≤ rate_limit_rps
    → ctx.orders_received + length calls < 2 ^ 64
    → let (ctx', conn') = push_orders ctx conn calls in
      (ctx'.orders_received + conn.rate_count ≤ ctx.orders_received + rate_limit_rps)
      × (conn'.rate_count ≤ rate_limit_rps)
unfolding push_orders
push_orders_limit ctx conn [] w r o = omega arith
push_orders_limit ctx conn ((now, req) ∷ calls) w r o =
    let step = one_call now ctx conn req w.0 r (omega arith) in
    let (ctx', conn') = push_order now ctx conn req in
    let rest = push_orders_limit ctx' conn' calls (rw step.0 w.1) step.2 (omega (arith, step)) in
    omega arith
