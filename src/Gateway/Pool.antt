-- ===== src/Gateway/Pool.antt =====
-- src/net/gateway.c: the table of connections; gw_drain_responses, gw_find_free_slot, gw_accept
-- and the idle scan of gw_thread_core.
pub mod Responses
pub mod Counts
mod Tests
use aspira_broker.Prelude.{
  ℕ, zero, suc, ◌+◌, ◌-◌, Bool, true, false, not, ◌&&◌, Option, none, some, List, [], ◌∷◌, length,
  map, ltb, if◌then◌else◌, size_sub, Buffer,
}
use aspira_broker.Ring.{RingQueue, mpsc_pop}
use aspira_broker.Gateway.State.{Conn, ConnState}
use aspira_broker.Gateway.Send.{send_to_conn}

-- `fd >= 0`.
abbrev pub is_open : Conn → Bool
is_open conn = elim conn.fd [ none ↦ false | some _ ↦ true ]

-- What gw_drain_responses does for one response and one connection.
unfoldable pub deliver : List ℕ → Conn → Conn
deliver resp conn = if is_open conn && conn.authenticated then send_to_conn conn resp else conn

-- gw_drain_responses, on fuel.
unfoldable pub drain_responses :
    ℕ → RingQueue (List ℕ) → List Conn → Option (RingQueue (List ℕ) × List Conn)
unfolding deliver
drain_responses zero q conns = none
drain_responses (suc f) q conns =
    let (item, q') = mpsc_pop q in
    elim item [
      | none ↦ some (q', conns)
      | some resp ↦ drain_responses f q' (map (deliver resp) conns)
    ]

-- A connection as gw_accept leaves it: the memory zeroed, then the descriptor and the times.
abbrev pub accepted : ℕ → ℕ → Conn
accepted cfd now = record {
  fd = some cfd;
  state = ConnState.reading;
  recv_buf = λ _. 0;
  recv_head = 0;
  recv_tail = 0;
  send_buf = λ _. 0;
  send_head = 0;
  send_tail = 0;
  send_pending = false;
  authenticated = false;
  auth_user_id = 0;
  last_active = now;
  rate_window_start = now;
  rate_count = 0;
}

-- The table with the connection at gw_find_free_slot's slot replaced, if there is one.
unfoldable pub fill_free_slot : List Conn → Conn → Option (List Conn)
fill_free_slot [] new = none
fill_free_slot (conn ∷ conns) new =
    if is_open conn
    then (elim (fill_free_slot conns new) [ none ↦ none | some conns' ↦ some (conn ∷ conns') ])
    else some (new ∷ conns)

-- conns and active_conns of gw_ctx_t.
pub record Connections : Type 0 where
  pub conns : List Conn
  pub active_conns : ℕ

-- One round of gw_accept for the descriptor `cfd`; `added` says whether epoll_ctl succeeded.
unfoldable pub accept : Connections → ℕ → Bool → ℕ → Connections
accept pool cfd added now = elim (fill_free_slot pool.conns (accepted cfd now)) [
  | none ↦ pool
  | some conns ↦
      if added then record { conns = conns; active_conns = pool.active_conns + 1 } else pool
]

-- GW_IDLE_TIMEOUT_NS.
abbrev pub idle_timeout : ℕ
idle_timeout = 60000000000

-- The idle scan at time `now`.
unfoldable pub scan_idle : ℕ → List Conn → List Conn
scan_idle now conns =
    map
      (λ (conn : Conn).
        if is_open conn && ltb idle_timeout (size_sub now conn.last_active)
        then record conn { state = ConnState.closing }
        else conn)
      conns
