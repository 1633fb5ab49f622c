-- ===== src/Main/Queues.antt =====
-- src/include/bt_queues.h and src/include/bt_config.h: the capacities of the queues, and that main's
-- initialisation makes each of them a ring.
use aspira_broker.Prelude.{ℕ, ◌≡◌, ◌^◌, refl, arith, Buffer}
use aspira_broker.Ring.{init}
use aspira_broker.Ring.Inv.{IsRing, init-IsRing}
use aspira_broker.Main.Pipeline.{
  Queue, gate_out, gate_oms, risk_in, seq_in, response, match_in, md_tick,
}

abbrev pub gateway_queue_cap : ℕ
gateway_queue_cap = 65536

abbrev pub risk_queue_cap : ℕ
risk_queue_cap = 65536

abbrev pub match_queue_cap : ℕ
match_queue_cap = 65536

-- The capacity in the type of each queue that main initialises.
unfoldable pub queue_capacity : Queue → ℕ
queue_capacity gate_out = gateway_queue_cap
queue_capacity gate_oms = gateway_queue_cap
queue_capacity risk_in = risk_queue_cap
queue_capacity seq_in = risk_queue_cap
queue_capacity response = gateway_queue_cap
queue_capacity (match_in i) = match_queue_cap
queue_capacity (md_tick i) = match_queue_cap

same_capacity : (q : Queue) → queue_capacity q ≡ 2 ^ 16
unfolding queue_capacity
same_capacity gate_out = refl
same_capacity gate_oms = refl
same_capacity risk_in = refl
same_capacity seq_in = refl
same_capacity response = refl
same_capacity (match_in i) = refl
same_capacity (md_tick i) = refl

-- Every queue that main initialises is a well-formed ring, whatever its elements are.
pub init_queue-IsRing :
    {A : Type 0} (q : Queue) (buf : Buffer A) → IsRing (init buf (queue_capacity q))
init_queue-IsRing q buf =
    let cap = same_capacity q in
    init-IsRing buf (queue_capacity q) (16, cap) (omega (arith, cap)) (omega (arith, cap))
