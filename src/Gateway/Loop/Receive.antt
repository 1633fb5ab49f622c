-- ===== src/Gateway/Loop/Receive.antt =====
-- The read loop ends, leaves no whole frame behind, and does not touch the send ring.
use aspira_broker.Prelude.{
  ℕ, zero, suc, ◌+◌, ◌≤◌, ◌≡◌, inl, inr, refl, ◌∙◌, arith, Option, some, List, [], ◌∷◌, length,
  take, length-take, Bool-cases, ◌==◌, Option-cases,
}
use aspira_broker.Gateway.Bytes.{advance, readable-extend}
use aspira_broker.Gateway.State.{Conn, Gateway}
use aspira_broker.Gateway.Orders.{push_order, roll_window}
use aspira_broker.Gateway.Frames.{
  Env, rmask, pending, frame_len, close, handle_auth, handle_order, handle_frame, process_from,
  process_data,
}
use aspira_broker.Gateway.Frames.Progress.{RecvOk, Settled, process_data_settles}
use aspira_broker.Gateway.Loop.{Reading, room, received, read_loop}

-- What reading leaves alone: the descriptor and the send ring.
abbrev pub Untouched : Conn → Conn → Type 0
Untouched conn' conn =
    (conn'.fd ≡ conn.fd)
    × (conn'.send_buf ≡ conn.send_buf)
    × (conn'.send_head ≡ conn.send_head)
    × (conn'.send_tail ≡ conn.send_tail)
    × (conn'.send_pending ≡ conn.send_pending)

pub Untouched-trans : (a b c : Conn) → Untouched a b → Untouched b c → Untouched a c
Untouched-trans a b c p q = (p.0 ∙ q.0, p.1 ∙ q.1, p.2 ∙ q.2, p.3 ∙ q.3, p.4 ∙ q.4)

handle_frame-Untouched :
    (env : Env) (k : ℕ) (ctx : Gateway) (conn : Conn) (len : ℕ) {ctx' : Gateway} {conn' : Conn}
    → handle_frame env k ctx conn len ≡ some (ctx', conn')
    → Untouched conn' conn
unfolding handle_frame handle_auth handle_order push_order roll_window
handle_frame-Untouched env k ctx conn len h = ground arith

process_from-Untouched :
    (env : Env) (k f : ℕ) (ctx : Gateway) (conn : Conn) {ctx' : Gateway} {conn' : Conn}
    → process_from env k f ctx conn ≡ some (ctx', conn')
    → Untouched conn' conn
unfolding process_from
process_from-Untouched env k zero ctx conn h = cc
process_from-Untouched env k (suc f) ctx conn {ctx'} {conn'} h =
    let len = frame_len conn in
    elim (Option-cases (handle_frame env k ctx conn len)) [
      | inl failed ↦ ground arith
      | inr ((c, n), run) ↦ ground (
        arith,
        process_from-Untouched env (k + 1) f c n {ctx' = ctx'} {conn' = conn'},
        handle_frame-Untouched env k ctx conn len {ctx' = c} {conn' = n} run,
      )
    ]

-- The outcomes of read(2) come to an end.
abbrev pub Ends : List Reading → Type 0
Ends [] = ⊥
Ends (Reading.reads b bs now env ∷ rs) = Ends rs
Ends (Reading.waits ∷ rs) = Unit
Ends (Reading.ends ∷ rs) = Unit

received-RecvOk :
    (conn : Conn) (got : List ℕ) (now : ℕ)
    → length got ≤ room conn
    → RecvOk conn
    → RecvOk (received conn got now)
unfolding advance
received-RecvOk conn got now h v =
    (readable-extend conn.recv_head conn.recv_tail rmask (length got) v (omega arith)).1

-- The read loop returned with sound indices, the send ring as it was, and no whole frame in the ring
-- unless it is closing.
abbrev pub Drained : Conn → Option (Gateway × Conn × List Reading) → Type 0
Drained conn o =
    (r : Gateway × Conn × List Reading) × (o ≡ some r)
    × Settled r.1
    × RecvOk r.1
    × Untouched r.1 conn

nothing_moved : (conn : Conn) → Untouched conn conn
nothing_moved conn = (refl, refl, refl, refl, refl)

pub read_loop_settles :
    (rs : List Reading) (ctx : Gateway) (conn : Conn)
    → Ends rs
    → RecvOk conn
    → Settled conn
    → Drained conn (read_loop rs ctx conn)
unfolding read_loop process_data
read_loop_settles [] ctx conn e v s = absurd e
read_loop_settles (Reading.waits ∷ rs) ctx conn e v s = elim (Bool-cases (room conn == 0)) [
  | inl full ↦ ((ctx, conn, Reading.waits ∷ rs), rw full refl, s, v, nothing_moved conn)
  | inr more ↦ ((ctx, conn, rs), rw more refl, s, v, nothing_moved conn)
]
read_loop_settles (Reading.ends ∷ rs) ctx conn e v s = elim (Bool-cases (room conn == 0)) [
  | inl full ↦ ((ctx, conn, Reading.ends ∷ rs), rw full refl, s, v, nothing_moved conn)
  | inr more ↦ ((ctx, close conn, rs), rw more refl, inl refl, v, nothing_moved conn)
]
read_loop_settles (Reading.reads b bs now env ∷ rs) ctx conn e v s =
    elim (Bool-cases (room conn == 0)) [
      | inl full ↦
          ((ctx, conn, Reading.reads b bs now env ∷ rs), rw full refl, s, v, nothing_moved conn)
      | inr more ↦
          let got = take (room conn) (b ∷ bs) in
          let c = received conn got now in
          let sound =
            received-RecvOk conn got now (omega (arith, length-take (room conn) (b ∷ bs))) v in
          let ((ctx', conn'), run, s', v') = process_data_settles env ctx c sound in
          let same =
            process_from-Untouched env 0 (pending c + 1) ctx c {ctx' = ctx'} {conn' = conn'} run in
          let (r, rest, s'', v'', same') = read_loop_settles rs ctx' conn' e v' s' in
          (r, rw (more, read_loop, run) rest, s'', v'', Untouched-trans r.1 conn' c same' same)
    ]
