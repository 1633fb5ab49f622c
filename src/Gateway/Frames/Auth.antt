-- ===== src/Gateway/Frames/Auth.antt =====
-- No trading message passes before a key has been accepted.
use aspira_broker.Prelude.{ℕ, zero, suc, ◌+◌, ◌≡◌, inl, inr, arith, false, some, Option-cases}
use aspira_broker.Gateway.State.{Conn, Gateway}
use aspira_broker.Gateway.Orders.{push_order, roll_window}
use aspira_broker.Gateway.Frames.{
  Env, pending, frame_len, handle_auth, handle_order, handle_frame, process_from, process_data,
}

-- One frame takes no authentication away, and without one it leaves the gateway as it is.
handle_frame-auth :
    (env : Env) (k : ℕ) (ctx : Gateway) (conn : Conn) (len : ℕ) {ctx' : Gateway} {conn' : Conn}
    → handle_frame env k ctx conn len ≡ some (ctx', conn')
    → conn'.authenticated ≡ false
    → (ctx' ≡ ctx) × (conn.authenticated ≡ false)
unfolding handle_frame handle_auth handle_order push_order roll_window
handle_frame-auth env k ctx conn len h a = ground arith

process_from-auth :
    (env : Env) (k f : ℕ) (ctx : Gateway) (conn : Conn) {ctx' : Gateway} {conn' : Conn}
    → process_from env k f ctx conn ≡ some (ctx', conn')
    → conn'.authenticated ≡ false
    → (ctx' ≡ ctx) × (conn.authenticated ≡ false)
unfolding process_from
process_from-auth env k zero ctx conn h a = cc
process_from-auth env k (suc f) ctx conn {ctx'} {conn'} h a =
    let len = frame_len conn in
    elim (Option-cases (handle_frame env k ctx conn len)) [
      | inl failed ↦ ground arith
      | inr ((c, n), run) ↦ ground (
        arith,
        process_from-auth env (k + 1) f c n {ctx' = ctx'} {conn' = conn'},
        handle_frame-auth env k ctx conn len {ctx' = c} {conn' = n} run,
      )
    ]

-- Where a connection is still not authenticated after gw_process_data, nothing of what it sent
-- has reached the gateway: neither the output queue, nor the idempotency ring, nor the counter.
pub process_data_needs_auth :
    (env : Env) (ctx : Gateway) (conn : Conn) {ctx' : Gateway} {conn' : Conn}
    → process_data env ctx conn ≡ some (ctx', conn')
    → conn'.authenticated ≡ false
    → ctx' ≡ ctx
unfolding process_data
process_data_needs_auth env ctx conn h a =
    (process_from-auth env 0 (pending conn + 1) ctx conn h a).0
