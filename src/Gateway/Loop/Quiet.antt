-- ===== src/Gateway/Loop/Quiet.antt =====
-- A round in which no connection has an event.
use aspira_broker.Prelude.{
  ℕ, zero, suc, ◌<◌, length, ◌≡◌, inl, inr, refl, ap, sym, ◌∙◌, arith, Bool, true, Option, some,
  List, [], ◌∷◌, map, Option-cases,
}
use aspira_broker.Ring.{RingQueue, mpsc_pop}
use aspira_broker.Ring.Inv.{IsRing}
use aspira_broker.Ring.Refine.{contents}
use aspira_broker.Gateway.Pool.Responses.{deliver_all, drain_responses_total}
use aspira_broker.Gateway.State.{Conn}
use aspira_broker.Gateway.Send.{send_to_conn}
use aspira_broker.Gateway.Pool.{deliver, drain_responses, scan_idle}
use aspira_broker.Gateway.Loop.{Server, ready, handle_all, round}

-- What the operating system knows of a connection: its descriptor, whether EPOLLOUT is asked for, and
-- how far its bytes have been sent.
abbrev pub outside : Conn → Option ℕ × Bool × ℕ
outside conn = (conn.fd, conn.send_pending, conn.send_head)

deliver-outside : (resp : List ℕ) (conn : Conn) → outside (deliver resp conn) ≡ outside conn
unfolding deliver send_to_conn
deliver-outside resp conn = ground arith

map-outside :
    (f : Conn → Conn) (conns : List Conn)
    → ((conn : Conn) → outside (f conn) ≡ outside conn)
    → map outside (map f conns) ≡ map outside conns
map-outside f [] h = refl
map-outside f (conn ∷ conns) h = rw (h conn, map-outside f conns h) refl

drain_responses-outside :
    (fuel : ℕ) (q : RingQueue (List ℕ)) (conns : List Conn) {q' : RingQueue (List ℕ)}
    {conns' : List Conn}
    → drain_responses fuel q conns ≡ some (q', conns')
    → map outside conns' ≡ map outside conns
unfolding drain_responses
drain_responses-outside zero q conns h = cc
drain_responses-outside (suc fuel) q conns {q'} {conns'} h = elim (Option-cases (mpsc_pop q).0) [
  | inl empty ↦
      let same : conns ≡ conns' = ground (arith, (rw (empty, drain_responses) at h)) in
      ap (map outside) (sym same)
  | inr (resp, e) ↦
      drain_responses-outside fuel (mpsc_pop q).1 (map (deliver resp) conns) {q' = q'}
        {conns' = conns'} (rw (e, drain_responses) at h)
      ∙ map-outside (deliver resp) conns (deliver-outside resp)
]

-- On a sound response ring and with more fuel than it holds responses, a round in which epoll_wait
-- reports nothing returns and goes on. It closes no connection, however long it has been idle, and it
-- sends no byte and asks for no EPOLLOUT, whatever responses it hands out.
pub round_quiet :
    (fuel : ℕ) (s : Server) (now : ℕ)
    → IsRing s.responses
    → length (contents s.responses) < fuel
    → (t : Server) × (round fuel s (ready [] now) ≡ some (true, t))
      × (map outside t.pool.conns ≡ map outside s.pool.conns)
      × (t.pool.active_conns ≡ s.pool.active_conns)
unfolding round handle_all scan_idle
round_quiet fuel s now v h =
    let (q, drained, _) = drain_responses_total fuel s.responses s.pool.conns v h in
    let conns = deliver_all (contents s.responses) s.pool.conns in
    (
      record s { responses = q; pool = record s.pool { conns = scan_idle now conns } },
      rw (drained, round) refl,
      map-outside _ conns (λ conn. ground arith)
          ∙ drain_responses-outside fuel s.responses s.pool.conns {q' = q} {conns' = conns} drained,
      refl,
    )
