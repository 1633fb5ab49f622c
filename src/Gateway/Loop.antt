-- ===== src/Gateway/Loop.antt =====
-- src/net/gateway.c, gw_thread_core: what a round of the event loop does.
pub mod Receive
pub mod Events
pub mod Turns
pub mod Quiet
pub mod Rounds
mod Tests
use aspira_broker.Prelude.{
  ℕ, zero, suc, ◌+◌, ◌-◌, min, get_or, set, map, ltb, Bool, true, false, not, ◌&&◌, Option, none,
  some, List, [], ◌∷◌, length, take, ◌==◌, if◌then◌else◌, Buffer, write, bit_and, size_add,
}
use aspira_broker.Ring.{RingQueue}
use aspira_broker.Gateway.Bytes.{writable}
use aspira_broker.Gateway.State.{Conn, ConnState, Gateway, recv_buf_size}
use aspira_broker.Gateway.Frames.{Env, rmask, close, process_data}
use aspira_broker.Gateway.Send.{Sending, flush_send}
use aspira_broker.Gateway.Pool.{Connections, drain_responses, accepted, accept, scan_idle}

-- What a call of read(2) does: give one byte and some more, as far as there is room, at a time, with
-- what gw_process_data then takes from its surroundings; have to wait; or end or fail otherwise.
pub data Reading : Type 0 where
  reads : ℕ → List ℕ → ℕ → Env → Reading
  waits : Reading
  ends : Reading

-- The bytes that one call may store: up to the end of the buffer, and as far as the ring has room.
abbrev pub room : Conn → ℕ
room conn = min (recv_buf_size - conn.recv_tail) (writable conn.recv_head conn.recv_tail rmask)

-- What read(2) stores.
unfoldable pub store : Buffer ℕ → ℕ → List ℕ → Buffer ℕ
store buf pos [] = buf
store buf pos (b ∷ bs) = store (write buf pos b) (pos + 1) bs

-- The connection after a read that gave some bytes.
abbrev pub received : Conn → List ℕ → ℕ → Conn
received conn got now = record conn {
  recv_buf = store conn.recv_buf conn.recv_tail got;
  recv_tail = bit_and (size_add conn.recv_tail (length got)) rmask;
  last_active = now;
}

-- The loop that reads, with the outcomes of read(2); a run that needs more of them gives none.
unfoldable pub read_loop : List Reading → Gateway → Conn → Option (Gateway × Conn × List Reading)
read_loop [] ctx conn = if room conn == 0 then some (ctx, conn, []) else none
read_loop (r ∷ rs) ctx conn = if room conn == 0 then some (ctx, conn, r ∷ rs) else (elim r [
  | reads b bs now env ↦
      elim (process_data env ctx (received conn (take (room conn) (b ∷ bs)) now)) [
        | none ↦ none
        | some (ctx', conn') ↦ read_loop rs ctx' conn'
      ]
  | waits ↦ some (ctx, conn, rs)
  | ends ↦ some (ctx, close conn, rs)
])

-- An event of a connection: what epoll_wait reports, and what the calls made for it do.
pub record Event : Type 0 where
  pub is_error : Bool
  pub is_in : Bool
  pub is_out : Bool
  pub readings : List Reading
  pub sendings : List Sending
  pub last_sendings : List Sending

-- EPOLLERR and EPOLLHUP, then EPOLLIN.
unfoldable pub read_event : Event → Gateway → Conn → Option (Gateway × Conn)
read_event ev ctx conn =
    let marked = if ev.is_error then close conn else conn in
    if ev.is_in
    then (elim (read_loop ev.readings ctx marked) [
      | none ↦ none
      | some (ctx', conn', rest) ↦ some (ctx', conn')
    ])
    else some (ctx, marked)

-- EPOLLOUT.
unfoldable pub write_event : Event → Conn → Option (Conn × List ℕ)
write_event ev conn =
    if ev.is_out
    then (elim (flush_send ev.sendings conn []) [
      | none ↦ none
      | some (conn', sent, rest) ↦ some (conn', sent)
    ])
    else some (conn, [])

-- Whether EPOLLOUT is asked for.
unfoldable pub rearm : Conn → Conn
rearm conn =
    let empty = conn.send_head == conn.send_tail in
    if not empty && not conn.send_pending
    then record conn { send_pending = true }
    else if empty && conn.send_pending
    then record conn { send_pending = false }
    else conn

abbrev pub is_closing : Conn → Bool
is_closing conn = elim conn.state [ ConnState.reading ↦ false | ConnState.closing ↦ true ]

-- The last flush of a connection that closes, and its descriptor.
unfoldable pub close_event : Event → Conn → List ℕ → Option (Conn × List ℕ)
close_event ev conn sent =
    if is_closing conn
    then (elim (flush_send ev.last_sendings conn sent) [
      | none ↦ none
      | some (conn', sent', rest) ↦ some (record conn' { fd = none }, sent')
    ])
    else some (conn, sent)

-- One event of a connection, with the bytes that send(2) has taken.
unfoldable pub handle_event : Event → Gateway → Conn → Option (Gateway × Conn × List ℕ)
handle_event ev ctx conn = elim (read_event ev ctx conn) [
  | none ↦ none
  | some (ctx', conn') ↦ elim (write_event ev conn') [
    | none ↦ none
    | some (conn'', sent) ↦ elim (close_event ev (rearm conn'') sent) [
      | none ↦ none
      | some (last, sent') ↦ some (ctx', last, sent')
    ]
  ]
]

-- What gw_thread_core works on.
pub record Server : Type 0 where
  pub gateway : Gateway
  pub pool : Connections
  pub responses : RingQueue (List ℕ)

-- An entry of `events`: the listening socket, with what accept4 and epoll_ctl answer and the time,
-- until accept4 fails; or a connection by its place in the table.
pub data Ready : Type 0 where
  accepts : List (ℕ × Bool × ℕ) → Ready
  happens : ℕ → Event → Ready

-- gw_accept.
unfoldable pub accept_all : List (ℕ × Bool × ℕ) → Connections → Connections
accept_all [] pool = pool
accept_all ((cfd, added, now) ∷ rest) pool = accept_all rest (accept pool cfd added now)

-- A slot of the table that has never been used.
abbrev pub unused : Conn
unused = record (accepted 0 0) { fd = none }

-- The table after an event; active_conns is an int, and a count that is right does not go below 0.
abbrev pub settle : Connections → ℕ → Conn → Connections
settle pool i conn = record {
  conns = set pool.conns i conn;
  active_conns = if is_closing conn then pool.active_conns - 1 else pool.active_conns;
}

-- The body of the loop over the events.
unfoldable pub handle_ready : Server → Ready → Option Server
handle_ready s (accepts calls) = some (record s { pool = accept_all calls s.pool })
handle_ready s (happens i ev) = elim (handle_event ev s.gateway (get_or s.pool.conns i unused)) [
  | none ↦ none
  | some (ctx, conn, sent) ↦ some (record s { gateway = ctx; pool = settle s.pool i conn })
]

unfoldable pub handle_all : Server → List Ready → Option Server
handle_all s [] = some s
handle_all s (r ∷ rs) = elim (handle_ready s r) [ none ↦ none | some s' ↦ handle_all s' rs ]

-- What epoll_wait answers: EINTR, another failure, or some events, with the time after them.
pub data Polled : Type 0 where
  interrupted : Polled
  broken : Polled
  ready : List Ready → ℕ → Polled

-- One round of gw_thread_core: whether the loop goes on, and what it works on then. The number is the
-- fuel of gw_drain_responses.
unfoldable pub round : ℕ → Server → Polled → Option (Bool × Server)
round fuel s polled = elim (drain_responses fuel s.responses s.pool.conns) [
  | none ↦ none
  | some (q, conns) ↦
      let s' : Server = record s { responses = q; pool = record s.pool { conns = conns } } in
      elim polled [
        | interrupted ↦ some (true, s')
        | broken ↦ some (false, s')
        | ready rs now ↦ elim (handle_all s' rs) [
          | none ↦ none
          | some t ↦
              some (true, record t { pool = record t.pool { conns = scan_idle now t.pool.conns } })
        ]
      ]
]
