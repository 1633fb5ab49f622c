-- ===== src/Gateway/Frames.antt =====
-- src/net/gateway.c, gw_process_data: the frames `[4 bytes length][1 byte type][payload]` of the
-- receive ring.
pub mod Progress
pub mod Auth
use aspira_broker.Prelude.{
  ℕ, zero, suc, ◌+◌, ◌-◌, ◌*◌, ◌^◌, min, Bool, true, false, not, ◌&&◌, ◌||◌, Option, none, some,
  List, [], ◌∷◌, get_or, ltb, leb, ◌==◌, if◌then◌else◌, Buffer,
}
use aspira_broker.Messages.{OrderRequest, CancelRequest, GwOmsMsg}
use aspira_broker.Ring.{mpsc_push}
use aspira_broker.Gateway.Bytes.{readable, peek, advance, bytes}
use aspira_broker.Gateway.State.{Conn, ConnState, Gateway, recv_buf_size}
use aspira_broker.Gateway.Orders.{push_order}
use aspira_broker.Gateway.Parse.{
  Libc, validate_api_key, parse_order_text, parse_order_binary, le_bytes,
}

-- What a call takes from its surroundings, for each round of its loop: the time when a message is
-- parsed and when it is pushed, what the local buffer held before the copy, and whether malloc
-- gives memory for a large payload.
pub record Env : Type 0 where
  pub libc : Libc
  pub arrival : ℕ → ℕ
  pub push_time : ℕ → ℕ
  pub stale : ℕ → Buffer ℕ
  pub grants : ℕ → Bool

abbrev pub rmask : ℕ
rmask = recv_buf_size - 1

-- The readable bytes of a connection.
abbrev pub pending : Conn → ℕ
pending conn = readable conn.recv_head conn.recv_tail rmask

-- gw_ring_peek on the receive ring.
abbrev pub peek_recv : Conn → ℕ → ℕ → List ℕ
peek_recv conn off len = peek conn.recv_buf conn.recv_head off len rmask

-- ntohl of the first four bytes.
unfoldable pub frame_len : Conn → ℕ
frame_len conn =
    let b = peek_recv conn 0 4 in
    get_or b 0 0 * 2 ^ 24 + get_or b 1 0 * 2 ^ 16 + get_or b 2 0 * 2 ^ 8 + get_or b 3 0

abbrev pub frame_type : Conn → ℕ
frame_type conn = get_or (peek_recv conn 4 1) 0 0

abbrev pub consume : Conn → ℕ → Conn
consume conn len = record conn { recv_head = advance conn.recv_head len rmask }

-- A local buffer after the payload has been copied into it.
abbrev pub local : List ℕ → Buffer ℕ → Buffer ℕ
local payload stale i = get_or payload i (stale i)

-- Whether the payload fits the buffer on the stack, or malloc helps.
abbrev pub has_buffer : Env → ℕ → ℕ → ℕ → Bool
has_buffer env k size payload_len = leb payload_len size || env.grants k

-- A cancel request's fields, from up to 64 bytes of its payload.
unfoldable pub decode_cancel : Buffer ℕ → ℕ → CancelRequest
decode_cancel mem now = record {
  order_id = le_bytes mem 0 8;
  user_id = le_bytes mem 8 8;
  symbol = bytes mem 16 16;
  timestamp = now;
}

-- The frame of type 'A'.
unfoldable pub handle_auth : Env → ℕ → Conn → ℕ → Conn
handle_auth env k conn payload_len =
    if validate_api_key (local (peek_recv conn 5 payload_len) (env.stale k))
    then record conn { authenticated = true; auth_user_id = 0 }
    else conn

-- The frames of types 'O' and 'B'.
unfoldable pub handle_order : Env → ℕ → Gateway → Conn → ℕ → ℕ → Gateway × Conn
handle_order env k ctx conn msg_type payload_len =
    let payload = peek_recv conn 5 payload_len in
    let parsed =
      if msg_type == b'B'
      then parse_order_binary (env.arrival k) (local payload (env.stale k)) payload_len
      else parse_order_text env.libc (env.arrival k) payload in
    elim parsed [ none ↦ (ctx, conn) | some req ↦ push_order (env.push_time k) ctx conn req ]

-- The frame of type 'C'.
unfoldable pub handle_cancel : Env → ℕ → Gateway → Conn → ℕ → Gateway
handle_cancel env k ctx conn payload_len =
    if leb 32 payload_len
    then (let mem = local (peek_recv conn 5 (min payload_len 64)) (env.stale k) in
        record ctx {
          out_queue =
              (mpsc_push ctx.out_queue (GwOmsMsg.cancel (decode_cancel mem (env.arrival k)))).1;
        })
    else ctx

-- One whole frame of length `len`: what the round leaves, or none where malloc failed.
unfoldable pub handle_frame : Env → ℕ → Gateway → Conn → ℕ → Option (Gateway × Conn)
handle_frame env k ctx conn len =
    let t = frame_type conn in
    let payload_len = len - 5 in
    if t == b'A'
    then (if has_buffer env k 256 payload_len
        then some (ctx, consume (handle_auth env k conn payload_len) len)
        else none)
    else if not conn.authenticated
    then some (ctx, consume conn len)
    else if t == b'O' || t == b'B'
    then (if has_buffer env k 8192 payload_len
        then (let (ctx', conn') = handle_order env k ctx conn t payload_len in
            some (ctx', consume conn' len))
        else none)
    else if t == b'C'
    then some (handle_cancel env k ctx conn payload_len, consume conn len)
    else some (ctx, consume conn len)

abbrev pub close : Conn → Conn
close conn = record conn { state = ConnState.closing }

-- The loop of gw_process_data, from round `k` on, on fuel.
unfoldable pub process_from : Env → ℕ → ℕ → Gateway → Conn → Option (Gateway × Conn)
process_from env k zero ctx conn = none
process_from env k (suc f) ctx conn =
    let len = frame_len conn in
    if ltb (pending conn) 5
    then some (ctx, conn)
    else if ltb len 5 || ltb recv_buf_size len
    then some (ctx, close conn)
    else if ltb (pending conn) len
    then some (ctx, conn)
    else (elim (handle_frame env k ctx conn len) [
      | none ↦ some (ctx, close conn)
      | some (ctx', conn') ↦ process_from env (k + 1) f ctx' conn'
    ])

-- gw_process_data: each round takes at least five bytes, so one round more than there are bytes is
-- enough.
unfoldable pub process_data : Env → Gateway → Conn → Option (Gateway × Conn)
process_data env ctx conn = process_from env 0 (pending conn + 1) ctx conn
