-- ===== src/Gateway/Loop/Tests.antt =====
-- Runs of the event loop, and the instances of its theorems.
use aspira_broker.Prelude.{
  ℕ, ◌≡◌, refl, arith, inl, inr, true, false, some, List, [], ◌∷◌, ◌++◌, map, slots,
}
use aspira_broker.Messages.{GwOmsMsg}
use aspira_broker.Ring.{mpsc_pop}
use aspira_broker.Ring.Inv.{IsRing}
use aspira_broker.Gateway.Bytes.{readable, writable, bytes}
use aspira_broker.Gateway.State.{Conn, Gateway}
use aspira_broker.Gateway.Parse.{Libc, blank_request}
use aspira_broker.Gateway.Frames.{Env, frame_len, process_from, process_data}
use aspira_broker.Gateway.Send.{Sending, send_to_conn, put_bytes, flush_send}
use aspira_broker.Gateway.Send.Stream.{waiting}
use aspira_broker.Gateway.Pool.{
  accepted, deliver, drain_responses, accept, fill_free_slot, scan_idle,
}
use aspira_broker.Gateway.Loop.{
  Reading, Event, store, read_loop, read_event, write_event, rearm, close_event, handle_event,
  Server, happens, ready, accept_all, handle_ready, handle_all, round,
}
use aspira_broker.Gateway.Loop.Events.{IsSteady, Left, handle_event-IsSteady}
use aspira_broker.Gateway.Loop.Turns.{
  IsSound, accepted-IsSteady, Reach, here, turn, scans, Reach-IsSound,
}
use aspira_broker.Gateway.Loop.Rounds.{round_handles}
use aspira_broker.Ring.Refine.{contents}
use aspira_broker.Gateway.Loop.Quiet.{outside, round_quiet}

program : Unit {0}
unfolding readable writable bytes frame_len process_from process_data put_bytes send_to_conn
    flush_send deliver drain_responses mpsc_pop store read_loop read_event write_event rearm
    close_event handle_event accept accept_all fill_free_slot scan_idle handle_ready handle_all
    round slots
program = tt

abbrev libc : Libc
libc = record { strtoull = λ _. 1; strtoul = λ _. 1; strtod_int = λ _. 1 }

abbrev env : Env
env = record {
  libc = libc;
  arrival = λ _. 70;
  push_time = λ _. 71;
  stale = λ _ _. 0;
  grants = λ _. true;
}

abbrev gateway : Gateway
gateway = record {
  out_queue = record {
    head = 0;
    tail = 0;
    buffer = λ _. GwOmsMsg.order (blank_request 5);
    mask = 3;
  };
  orders_received = 0;
  idem_ring = λ _. 0;
}

-- A connection with one byte that waits.
abbrev conn : Conn
conn = record (accepted 4 0) { send_tail = 1; send_pending = true; authenticated = true }

conn-IsSteady : IsSteady conn
unfolding readable
conn-IsSteady = record {
  recv = (accepted-IsSteady 4 0).recv;
  send = record {
    pow = (16, refl);
    small = omega arith;
    head_in = omega arith;
    tail_in = omega arith;
  };
  settled = inr (inl (omega arith));
}

-- Three bytes come, which make no frame, and the byte that waits goes.
abbrev event : Event
event = record {
  is_error = false;
  is_in = true;
  is_out = true;
  readings = Reading.reads 0 (0 ∷ 0 ∷ []) 9 env ∷ Reading.waits ∷ [];
  sendings = Sending.sends 0 ∷ [];
  last_sendings = Sending.waits ∷ [];
}

handle_event_example :
    (r : Gateway × Conn × List ℕ) × (handle_event event gateway conn ≡ some r)
    × (r.1.recv_tail ≡ 3)
    × (r.1.send_pending ≡ false)
    × (r.2 ≡ 0 ∷ [])
unfolding program
handle_event_example = (_, refl, refl, refl, refl)

handle_event-IsSteady_example :
    (r : Gateway × Conn × List ℕ) × (handle_event event gateway conn ≡ some r)
    × IsSteady r.1
    × (r.2 ++ waiting r.1 ≡ waiting conn)
    × Left r.1 conn
unfolding readable
handle_event-IsSteady_example =
    handle_event-IsSteady event gateway conn conn-IsSteady tt (omega arith) (omega arith)

-- The connection alone, with a response for it in the ring.
abbrev server : Server
server = record {
  gateway = gateway;
  pool = record { conns = conn ∷ []; active_conns = 1 };
  responses = record { head = 0; tail = 1; buffer = λ _. 7 ∷ []; mask = 3 };
}

server-IsSound : IsSound server.pool
server-IsSound = record { counted = refl; steady = (conn-IsSteady, tt) }

later :
    Reach server
      (record server { pool = record server.pool { conns = scan_idle 50 server.pool.conns } })
later = turn here (scans server 50)

Reach-IsSound_example : IsSound (record server.pool { conns = scan_idle 50 server.pool.conns })
Reach-IsSound_example = Reach-IsSound later server-IsSound

-- An idle connection is marked, and stands open after an hour.
responses-IsRing : IsRing server.responses
responses-IsRing = record {
  pow = (2, refl);
  small = omega arith;
  head_in = omega arith;
  tail_in = omega arith;
}

round_quiet_example :
    (t : Server) × (round 2 server (ready [] 3600000000000) ≡ some (true, t))
    × (map outside t.pool.conns ≡ map outside server.pool.conns)
    × (t.pool.active_conns ≡ 1)
unfolding slots
round_quiet_example = round_quiet 2 server 3600000000000 responses-IsRing (omega arith)

-- No response waits, and the connection has an event.
abbrev no_response : Server
no_response = record server { responses = record server.responses { tail = 0 } }

no_response-IsRing : IsRing no_response.responses
no_response-IsRing = record {
  pow = (2, refl);
  small = omega arith;
  head_in = omega arith;
  tail_in = omega arith;
}

round_handles_example :
    (t : Server) × (round 1 no_response (ready (happens 0 event ∷ []) 50) ≡ some (true, t))
    × (contents t.responses ≡ [])
    × IsSound t.pool
unfolding readable slots
round_handles_example =
    round_handles 1 no_response (happens 0 event ∷ []) 50 no_response-IsRing (omega arith)
      server-IsSound (λ q. ((omega arith, refl, tt, omega arith, omega arith), λ t h. tt))
