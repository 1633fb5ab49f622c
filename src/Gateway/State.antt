-- ===== src/Gateway/State.antt =====
-- src/net/gateway.c: the state of a connection and of a gateway thread.
use aspira_broker.Prelude.{ℕ, ◌*◌, Bool, Option, Buffer}
use aspira_broker.Messages.{GwOmsMsg}
use aspira_broker.Ring.{RingQueue}

-- BT_CFG_RECV_BUF_SIZE, GW_SEND_RING_SIZE, GW_IDEM_RING_SIZE and BT_CFG_RATE_LIMIT_RPS.
abbrev pub recv_buf_size : ℕ
recv_buf_size = 64 * 1024

abbrev pub send_ring_size : ℕ
send_ring_size = 65536

abbrev pub idem_ring_size : ℕ
idem_ring_size = 8192

abbrev pub rate_limit_rps : ℕ
rate_limit_rps = 10000

-- gw_conn_state_t.
pub data ConnState : Type 0 where
  reading closing : ConnState

-- gw_conn_t; `fd` is none for -1.
pub record Conn : Type 0 where
  pub fd : Option ℕ
  pub state : ConnState
  pub recv_buf : Buffer ℕ
  pub recv_head : ℕ
  pub recv_tail : ℕ
  pub send_buf : Buffer ℕ
  pub send_head : ℕ
  pub send_tail : ℕ
  pub send_pending : Bool
  pub authenticated : Bool
  pub auth_user_id : ℕ
  pub last_active : ℕ
  pub rate_window_start : ℕ
  pub rate_count : ℕ

-- The part of gw_ctx_t that the handlers of one connection read and write.
pub record Gateway : Type 0 where
  pub out_queue : RingQueue GwOmsMsg
  pub orders_received : ℕ
  pub idem_ring : Buffer ℕ
