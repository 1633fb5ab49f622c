-- ===== src/Gateway/Frames/Progress.antt =====
-- gw_process_data ends, and stops only where no whole frame is left.
use aspira_broker.Prelude.{
  ℕ, zero, suc, ◌+◌, ◌≤◌, ◌<◌, ◌≡◌, ◌⊎◌, inl, inr, refl, arith, ◌||◌, Option, some, ltb, Bool-cases,
  Option-cases, ltb→lt, ltb→ge,
}
use aspira_broker.Gateway.Bytes.{InRing, readable-advance, readable-add-writable}
use aspira_broker.Gateway.State.{Conn, ConnState, Gateway, recv_buf_size}
use aspira_broker.Gateway.Orders.{push_order, roll_window}
use aspira_broker.Gateway.Frames.{
  Env, rmask, pending, frame_len, consume, handle_auth, handle_order, handle_frame, process_from,
  process_data, close,
}

-- The receive indices of a connection.
abbrev pub RecvOk : Conn → Type 0
RecvOk conn = InRing conn.recv_head conn.recv_tail rmask

-- The state in which a call may return: closing, or with no whole frame in the ring.
abbrev pub Settled : Conn → Type 0
Settled conn =
    (conn.state ≡ ConnState.closing) ⊎ (pending conn < 5) ⊎ (pending conn < frame_len conn)

-- A frame's handler moves the receive head over the frame and leaves the tail.
handle_frame-indices :
    (env : Env) (k : ℕ) (ctx : Gateway) (conn : Conn) (len : ℕ) {ctx' : Gateway} {conn' : Conn}
    → handle_frame env k ctx conn len ≡ some (ctx', conn')
    → (conn'.recv_head ≡ (consume conn len).recv_head) × (conn'.recv_tail ≡ conn.recv_tail)
unfolding handle_frame handle_auth handle_order push_order roll_window
handle_frame-indices env k ctx conn len h = ground arith

handle_frame-pending :
    (env : Env) (k : ℕ) (ctx : Gateway) (conn : Conn) (len : ℕ) {ctx' : Gateway} {conn' : Conn}
    → RecvOk conn
    → len ≤ pending conn
    → handle_frame env k ctx conn len ≡ some (ctx', conn')
    → (pending conn' + len ≡ pending conn) × RecvOk conn'
handle_frame-pending env k ctx conn len v h run =
    let moved = handle_frame-indices env k ctx conn len run in
    rw (moved.0, moved.1) (readable-advance conn.recv_head conn.recv_tail rmask len v h)

-- A call returned in a settled state with sound indices.
abbrev pub Returned : Option (Gateway × Conn) → Type 0
Returned o = (r : Gateway × Conn) × (o ≡ some r) × Settled r.1 × RecvOk r.1

process_from_total :
    (env : Env) (k f : ℕ) (ctx : Gateway) (conn : Conn)
    → RecvOk conn
    → pending conn < f
    → Returned (process_from env k f ctx conn)
unfolding process_from
process_from_total env k zero ctx conn v h = absurd (omega arith)
process_from_total env k (suc f) ctx conn v h =
    let len = frame_len conn in
    elim (Bool-cases (ltb (pending conn) 5)) [
      | inl few ↦ ((ctx, conn), rw (few, process_from), inr (inl (ltb→lt _ _ few)), v)
      | inr enough ↦ elim (Bool-cases (ltb len 5 || ltb recv_buf_size len)) [
        | inl bad ↦ ((ctx, close conn), rw (enough, process_from, bad), inl refl, v)
        | inr good ↦ elim (Bool-cases (ltb (pending conn) len)) [
          | inl part ↦
              ((ctx, conn), rw (enough, process_from, good, part), inr (inr (ltb→lt _ _ part)), v)
          | inr whole ↦ elim (Option-cases (handle_frame env k ctx conn len)) [
            | inl failed ↦
                ((ctx, close conn), rw (enough, process_from, good, whole, failed), inl refl, v)
            | inr ((ctx', conn'), run) ↦
                let fits = ltb→ge _ _ whole in
                let (less, v') = handle_frame-pending env k ctx conn len v fits run in
                let five : 5 ≤ len = ground arith in
                rw (enough, process_from, good, whole, run)
                  (process_from_total env (k + 1) f ctx' conn' v' (omega arith))
          ]
        ]
      ]
    ]

-- gw_process_data always returns, with sound ring indices, and then the connection is closing or
-- its ring holds no whole frame: fewer than five bytes, or fewer than the frame's length.
pub process_data_settles :
    (env : Env) (ctx : Gateway) (conn : Conn) → RecvOk conn → Returned (process_data env ctx conn)
unfolding process_data
process_data_settles env ctx conn v =
    process_from_total env 0 (pending conn + 1) ctx conn v (omega arith)

-- Where the frame at the head of a sound receive ring announces 65,536 bytes, which the length
-- check allows, gw_process_data returns with the gateway and the connection unchanged, and the ring
-- holds fewer bytes than the frame.
pub largest_frame_stuck :
    (env : Env) (ctx : Gateway) (conn : Conn)
    → RecvOk conn
    → frame_len conn ≡ recv_buf_size
    → (process_data env ctx conn ≡ some (ctx, conn)) × (pending conn < recv_buf_size)
unfolding process_data process_from
largest_frame_stuck env ctx conn v e =
    let below : pending conn < recv_buf_size =
      omega (arith, readable-add-writable conn.recv_head conn.recv_tail rmask v) in
    ground (arith, below)
