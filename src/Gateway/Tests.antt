-- ===== src/Gateway/Tests.antt =====
-- Runs of the gateway's handlers, and their theorems at concrete inputs.
use aspira_broker.Prelude.{
  inr, ℕ, ◌+◌, ◌≡◌, ◌<◌, ◌≤◌, refl, arith, Bool, true, false, some, List, [], ◌∷◌, length, get_or,
  Buffer, slots,
}
use mathlib.Core.Option
use aspira_broker.Messages.{OrderRequest, GwOmsMsg}
use aspira_broker.Ring.{init, mpsc_push}
use aspira_broker.Ring.Inv.{IsRing, init-IsRing}
use aspira_broker.Ring.Fifo.{enqueue}
use aspira_broker.Ring.Refine.{contents}
use aspira_broker.Gateway.Bytes.{InRing, readable, writable, bytes, peek, advance, peek_lem}
use aspira_broker.Gateway.State.{Conn, ConnState, Gateway, rate_limit_rps}
use aspira_broker.Gateway.Orders.{roll_window, accept_order, push_order}
use aspira_broker.Gateway.Orders.Limit.{push_orders, push_orders_limit}
use aspira_broker.Gateway.Orders.Idempotency.{push_all, push_order_twice, push_order_fresh}
use aspira_broker.Gateway.Parse.{
  Libc, codes, validate_api_key, strncmp_eq, matches_key, split_at, until_pipe, skip_separators,
  set_field, parse_fields, parse_order_text, decode_request, le_bytes, parse_order_binary,
  blank_request,
}
use aspira_broker.Gateway.Frames.{
  Env, frame_len, decode_cancel, handle_auth, handle_order, handle_cancel, handle_frame,
  process_from, process_data,
}
use aspira_broker.Gateway.Frames.Progress.{RecvOk, Returned, process_data_settles}
use aspira_broker.Gateway.Frames.Auth.{process_data_needs_auth}

program : Unit {0}
unfolding init mpsc_push readable writable bytes peek advance roll_window accept_order push_order
    strncmp_eq matches_key validate_api_key split_at until_pipe skip_separators set_field
    parse_fields parse_order_text le_bytes decode_request parse_order_binary frame_len decode_cancel
    handle_auth handle_order handle_cancel handle_frame process_from process_data slots enqueue
program = tt

abbrev stream : List ℕ → Buffer ℕ
stream xs i = get_or xs i 0

abbrev libc : Libc
libc = record { strtoull = λ _. 1; strtoul = λ _. 1; strtod_int = λ _. 1 }

abbrev env : Env
env = record {
  libc = libc;
  arrival = λ _. 70;
  push_time = λ _. 71;
  stale = λ _ _. 0;
  grants = λ _. true;
}

abbrev request : ℕ → OrderRequest
request id = record (blank_request 5) { request_id = id; quantity = 10 }

abbrev gateway : Gateway
unfolding init
gateway = record {
  out_queue = init (λ _. GwOmsMsg.order (request 0)) 4;
  orders_received = 0;
  idem_ring = λ _. 0;
}

-- A connection that has received the bytes `xs`.
abbrev conn : Bool → List ℕ → Conn
conn auth xs = record {
  fd = some 4;
  state = ConnState.reading;
  recv_buf = stream xs;
  recv_head = 0;
  recv_tail = length xs;
  send_buf = λ _. 0;
  send_head = 0;
  send_tail = 0;
  send_pending = false;
  authenticated = auth;
  auth_user_id = 0;
  last_active = 0;
  rate_window_start = 0;
  rate_count = 0;
}

ring_ok : (head tail : ℕ) → head < 8 → tail < 8 → InRing head tail 7
ring_ok head tail h t = record { pow = (3, refl); small = omega arith; head_in = h; tail_in = t }

peek_lem_example :
    peek (stream (5 ∷ 6 ∷ [])) 6 1 3 7 ≡ slots (7 + 1) (stream (5 ∷ 6 ∷ [])) (6 + 1) 3
peek_lem_example =
    peek_lem (stream (5 ∷ 6 ∷ [])) 6 1 3 7 2 (ring_ok 6 2 (omega arith) (omega arith)) (omega arith)
      (omega arith)

gateway-IsRing : IsRing gateway.out_queue
unfolding program
gateway-IsRing =
    init-IsRing (λ _. GwOmsMsg.order (request 0)) 4 (2, refl) (omega arith) (omega arith)

push_order_twice_example :
    let ctx' =
      push_all
        (push_order 5 gateway (conn true []) (request 3)).0
        ((6, conn true [], request 4) ∷ []) in
    (push_order 7 ctx' (conn true []) (request 3)).0 ≡ ctx'
unfolding program
push_order_twice_example =
    push_order_twice 5 7 gateway (conn true []) (conn true []) (request 3) (request 3)
      ((6, conn true [], request 4) ∷ []) (omega arith) refl (omega arith)
      (inr (inr (λ e. absurd (omega (arith, e)))), tt)

push_order_fresh_example :
    (contents (push_order 5 gateway (conn true []) (request 3)).0.out_queue
      ≡ (enqueue 3 (contents gateway.out_queue) (GwOmsMsg.order (request 3))).1)
    × ((push_order 5 gateway (conn true []) (request 3)).1.rate_count ≡ 1)
unfolding program
push_order_fresh_example =
    push_order_fresh 5 gateway (conn true []) (request 3) gateway-IsRing (omega arith)
      (λ h. ground (arith, h.1))

push_orders_limit_example :
    let (ctx', conn') =
      push_orders gateway (conn true []) ((5, request 3) ∷ (6, request 3) ∷ (7, request 4) ∷ []) in
    (ctx'.orders_received + 0 ≤ 0 + rate_limit_rps) × (conn'.rate_count ≤ rate_limit_rps)
unfolding program
push_orders_limit_example =
    push_orders_limit gateway (conn true []) ((5, request 3) ∷ (6, request 3) ∷ (7, request 4) ∷ [])
      (omega arith, (omega arith, (omega arith, tt))) (omega arith) (omega arith)

-- A queue of two slots that already holds an order.
abbrev crowded : Gateway
crowded = record gateway {
  out_queue = record { head = 0; tail = 1; buffer = λ _. GwOmsMsg.order (request 8); mask = 1 };
}

crowded-IsRing : IsRing crowded.out_queue
crowded-IsRing = record {
  pow = (1, refl);
  small = omega arith;
  head_in = omega arith;
  tail_in = omega arith;
}

-- The same gateway once the queue has been emptied.
abbrev relieved : Gateway
unfolding program
relieved = record crowded {
  out_queue = init (λ _. GwOmsMsg.order (request 0)) 2;
  idem_ring = (push_order 5 crowded (conn true []) (request 3)).0.idem_ring;
}

-- A text order in a frame of length 7 + 5 and type 'O'.
abbrev framed : List ℕ
framed = 0 ∷ 0 ∷ 0 ∷ 12 ∷ b'O' ∷ codes "s=A|q=1"

framed-RecvOk : RecvOk (conn false framed)
framed-RecvOk = record {
  pow = (16, refl);
  small = omega arith;
  head_in = omega arith;
  tail_in = omega arith;
}

process_data_settles_example : Returned (process_data env gateway (conn false framed))
process_data_settles_example = process_data_settles env gateway (conn false framed) framed-RecvOk

dropped :
    process_data env gateway (conn false framed)
    ≡ some (gateway, record (conn false framed) { recv_head = 12 })
unfolding program
dropped = refl

accepted :
    Option.map
      (λ (r : Gateway × Conn). r.0.orders_received)
      (process_data env gateway (conn true framed))
    ≡ some 1
unfolding program
accepted = refl

process_data_needs_auth_example : gateway ≡ gateway
process_data_needs_auth_example =
    process_data_needs_auth env gateway (conn false framed) dropped refl
