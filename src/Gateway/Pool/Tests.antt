-- ===== src/Gateway/Pool/Tests.antt =====
-- Runs of the send rings and of the table of connections, and their theorems at concrete inputs.
use aspira_broker.Prelude.{
  ℕ, zero, suc, ◌+◌, ◌≡◌, refl, arith, true, none, some, List, [], ◌∷◌, ◌++◌, length, ltb,
  if◌then◌else◌, slots,
}
use aspira_broker.Ring.{RingQueue, init, mpsc_push, mpsc_pop}
use aspira_broker.Ring.Inv.{IsRing}
use aspira_broker.Gateway.Bytes.{readable, writable, bytes}
use aspira_broker.Gateway.State.{Conn, ConnState}
use aspira_broker.Gateway.Send.{
  response_size, send_mask, response_frame, put_bytes, send_to_conn, Sending, flush_send,
}
use aspira_broker.Gateway.Send.Stream.{SendOk, waiting, send_to_conn_appends}
use aspira_broker.Gateway.Pool.{
  Connections, deliver, drain_responses, accepted, fill_free_slot, accept, scan_idle,
}

repeat : ℕ → ℕ → List ℕ
repeat zero b = []
repeat (suc n) b = b ∷ repeat n b

program : Unit {0}
unfolding repeat init mpsc_push mpsc_pop readable writable bytes slots put_bytes send_to_conn
    flush_send deliver drain_responses fill_free_slot accept scan_idle
program = tt

length-repeat : (n b : ℕ) → length (repeat n b) ≡ n
unfolding repeat
length-repeat zero b = refl
length-repeat (suc n) b = omega (arith, length-repeat n b)

abbrev response : List ℕ
response = repeat 88 7

-- A connection whose send ring is about to go round, with the byte 5 waiting.
abbrev conn : Conn
conn = record (accepted 4 100) {
  authenticated = true;
  send_buf = λ _. 5;
  send_head = 65534;
  send_tail = 65535;
}

conn-SendOk : SendOk conn
conn-SendOk = record {
  pow = (16, refl);
  small = omega arith;
  head_in = omega arith;
  tail_in = omega arith;
}

send_to_conn_appends_example :
    (waiting (send_to_conn conn response) ≡ (
      if ltb (writable 65534 65535 send_mask) (response_size + 5)
      then waiting conn
      else waiting conn ++ response_frame response))
    × SendOk (send_to_conn conn response)
send_to_conn_appends_example = send_to_conn_appends conn response conn-SendOk (length-repeat 88 7)

-- send(2) takes the byte.
flush-run :
    flush_send (Sending.sends 3 ∷ Sending.waits ∷ []) conn []
    ≡ some (record conn { send_head = 65535 }, 5 ∷ [], Sending.waits ∷ [])
unfolding program
flush-run = refl

-- A ring with one response.
abbrev responses : RingQueue (List ℕ)
responses = record { head = 0; tail = 1; buffer = λ _. response; mask = 3 }

responses-IsRing : IsRing responses
responses-IsRing = record {
  pow = (2, refl);
  small = omega arith;
  head_in = omega arith;
  tail_in = omega arith;
}

-- A table with a free slot before its only connection.
abbrev pool : Connections
pool = record { conns = record conn { fd = none } ∷ conn ∷ []; active_conns = 1 }

idle-closed : scan_idle 60000000101 (conn ∷ []) ≡ record conn { state = ConnState.closing } ∷ []
unfolding program
idle-closed = refl
