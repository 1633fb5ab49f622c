-- ===== src/Messages.antt =====
-- src/include/bt_types.h and bt_queues.h: what travels between gateway, order gate and engine.
-- Integers are their values, a symbol is its 16 bytes, and a price its 64-bit pattern.
use aspira_broker.Prelude.{ℕ, List}

-- bt_side_t and bt_order_type_t hold whatever 32-bit value was stored, so they stay numbers here.
abbrev pub side_buy : ℕ
side_buy = 0

abbrev pub side_sell : ℕ
side_sell = 1

abbrev pub type_limit : ℕ
type_limit = 0

abbrev pub type_market : ℕ
type_market = 1

abbrev pub type_ioc : ℕ
type_ioc = 2

abbrev pub type_fok : ℕ
type_fok = 3

-- bt_order_request_t.
pub record OrderRequest : Type 0 where
  pub request_id : ℕ
  pub user_id : ℕ
  pub symbol : List ℕ
  pub price : ℕ
  pub quantity : ℕ
  pub side : ℕ
  pub order_type : ℕ
  pub timestamp : ℕ

-- bt_cancel_request_t.
pub record CancelRequest : Type 0 where
  pub order_id : ℕ
  pub user_id : ℕ
  pub symbol : List ℕ
  pub timestamp : ℕ

-- bt_gw_oms_msg_t: `msg_type` says which of the two parts is meant, and the other is zeroed.
-- The gateway leaves `seq_num` 0.
pub data GwOmsMsg : Type 0 where
  order : OrderRequest → GwOmsMsg
  cancel : CancelRequest → GwOmsMsg
