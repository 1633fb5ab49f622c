-- ===== src/Gateway/Loop/Rounds.antt =====
-- A whole round of the event loop comes to its end.
use aspira_broker.Prelude.{
  ℕ, ◌<◌, ◌≡◌, inl, inr, refl, sym, ◌∙◌, arith, true, some, List, [], ◌∷◌, length, get_or,
  Option-cases,
}
use mathlib.Core.Path.{subst}
use aspira_broker.Ring.{RingQueue}
use aspira_broker.Ring.Inv.{IsRing}
use aspira_broker.Ring.Refine.{contents}
use aspira_broker.Gateway.Pool.{scan_idle}
use aspira_broker.Gateway.Pool.Responses.{deliver_all, drain_responses_total}
use aspira_broker.Gateway.Loop.{
  Server, Ready, accepts, happens, ready, unused, handle_event, handle_ready, handle_all, round,
}
use aspira_broker.Gateway.Loop.Turns.{
  IsSound, Awaited, here, turn, drains, scans, Reach-IsSound, Reach-handles,
}

-- Each event is as epoll_wait and the calls made for it answer, in the state that the events before it
-- leave.
abbrev pub AllAwaited : Server → List Ready → Type 0
AllAwaited s [] = Unit
AllAwaited s (r ∷ rs) =
    Awaited s.pool r × ((t : Server) → handle_ready s r ≡ some t → AllAwaited t rs)

handle_ready-responses :
    (s : Server) (r : Ready) {t : Server} → handle_ready s r ≡ some t → t.responses ≡ s.responses
unfolding handle_ready
handle_ready-responses s (accepts calls) h = ground arith
handle_ready-responses s (happens i ev) h =
    elim (Option-cases (handle_event ev s.gateway (get_or s.pool.conns i unused))) [
      | inl e ↦ absurd (ground (arith, (rw (e, handle_ready) at h)))
      | inr ((ctx, conn, sent), e) ↦ ground (arith, (rw (e, handle_ready) at h))
    ]

handle_all_total :
    (s : Server) (rs : List Ready)
    → IsSound s.pool
    → AllAwaited s rs
    → (t : Server) × (handle_all s rs ≡ some t) × IsSound t.pool × (t.responses ≡ s.responses)
unfolding handle_all
handle_all_total s [] v a = (s, refl, v, refl)
handle_all_total s (r ∷ rs) v a =
    let (t, run, w) = Reach-handles r here v a.0 in
    let (u, later, sound, same) = handle_all_total t rs w (a.1 t run) in
    (u, rw (run, handle_all) later, sound, same ∙ handle_ready-responses s r {t = t} run)

-- On a sound table and a sound ring of responses, with more fuel than the ring holds responses: where
-- epoll_wait reports some events, each of a connection that is open when its turn comes, read(2) comes
-- to an end for each, and send(2) is answered for as many bytes as wait then, the round returns and
-- the loop goes on. All responses have been handed out by then, and the table is sound.
pub round_handles :
    (fuel : ℕ) (s : Server) (rs : List Ready) (now : ℕ)
    → IsRing s.responses
    → length (contents s.responses) < fuel
    → IsSound s.pool
    → ((q : RingQueue (List ℕ))
        → AllAwaited
            (record s {
              responses = q;
              pool = record s.pool { conns = deliver_all (contents s.responses) s.pool.conns };
            })
            rs)
    → (t : Server) × (round fuel s (ready rs now) ≡ some (true, t))
      × (contents t.responses ≡ [])
      × IsSound t.pool
unfolding round
round_handles fuel s rs now ring enough v awaited =
    let (q, drained, empty) = drain_responses_total fuel s.responses s.pool.conns ring enough in
    let conns = deliver_all (contents s.responses) s.pool.conns in
    let s' : Server = record s { responses = q; pool = record s.pool { conns = conns } } in
    let w : IsSound s'.pool =
      Reach-IsSound (turn here (drains s fuel {q = q} {conns = conns} drained)) v in
    let (t, run, sound, same) = handle_all_total s' rs w (awaited q) in
    let left : contents t.responses ≡ [] =
      subst (λ (p : RingQueue (List ℕ)). contents p ≡ []) (sym same) empty in
    (
      record t { pool = record t.pool { conns = scan_idle now t.pool.conns } },
      rw (drained, round, run) refl,
      left,
      Reach-IsSound (turn here (scans t now)) sound,
    )
