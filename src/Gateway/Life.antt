-- ===== src/Gateway/Life.antt =====
-- src/net/gateway.c: gw_create_listen, bt_gateway_create, bt_gateway_stop and bt_gateway_destroy. What the
-- system calls answer is a parameter; a call gives the list of the memory and the descriptors that it
-- gets and gives back.
pub mod Balance
mod Tests
use aspira_broker.Prelude.{
  ℕ, zero, suc, Bool, true, false, ◌&&◌, Option, none, some, List, [], ◌∷◌, ◌++◌, if◌then◌else◌,
  Buffer,
}
use aspira_broker.Messages.{GwOmsMsg}
use aspira_broker.Ring.{RingQueue}
use aspira_broker.Gateway.State.{Conn, Gateway}
use aspira_broker.Gateway.Pool.{Connections}
use aspira_broker.Gateway.Loop.{Server, unused}

-- gw_ctx_t, with its address and that of its connections. `server` is what the thread works on.
pub record Context : Type 0 where
  pub address : ℕ
  pub conns_address : ℕ
  pub thread_id : ℕ
  pub cpu_core : ℕ
  pub sched_id : ℕ
  pub port : ℕ
  pub max_conns : ℕ
  pub running : Bool
  pub listen_fd : ℕ
  pub epoll_fd : ℕ
  pub server : Server

-- Memory that calloc gives and free takes, and descriptors that come and are closed.
pub data Effect : Type 0 where
  gets : ℕ → Effect
  frees : ℕ → Effect
  opens : ℕ → Effect
  closes : ℕ → Effect

-- What the calls of bt_gateway_create answer: calloc for the context and for the connections, socket,
-- bind, listen and epoll_create1.
pub record Answers : Type 0 where
  pub context : Option ℕ
  pub conns : Option ℕ
  pub socket : Option ℕ
  pub bind : Bool
  pub listen : Bool
  pub epoll_create : Option ℕ

-- gw_create_listen, where none stands for -1.
unfoldable pub create_listen : Answers → Option ℕ × List Effect
create_listen answers = elim answers.socket [
  | none ↦ (none, [])
  | some fd ↦
      if answers.bind && answers.listen
      then (some fd, opens fd ∷ [])
      else (none, opens fd ∷ closes fd ∷ [])
]

-- Closing a descriptor that is not -1.
abbrev pub close_fd : Option ℕ → List Effect
close_fd none = []
close_fd (some fd) = closes fd ∷ []

-- As many connections as are asked for, all zeroed and without a descriptor.
unfoldable pub unused_conns : ℕ → List Conn
unused_conns zero = []
unused_conns (suc n) = unused ∷ unused_conns n

-- What the thread of a new gateway works on.
abbrev pub fresh_server : ℕ → RingQueue GwOmsMsg → RingQueue (List ℕ) → Server
fresh_server max_conns out responses = record {
  gateway = record { out_queue = out; orders_received = 0; idem_ring = λ _. 0 };
  pool = record { conns = unused_conns max_conns; active_conns = 0 };
  responses = responses;
}

abbrev pub opened : Option ℕ → List Effect
opened none = []
opened (some fd) = opens fd ∷ []

-- bt_gateway_create.
unfoldable pub create :
    Answers
    → ℕ
    → ℕ
    → ℕ
    → ℕ
    → ℕ
    → RingQueue GwOmsMsg
    → RingQueue (List ℕ)
    → Option Context × List Effect
create answers tid cpu port max_conns sched_id out responses = elim answers.context [
  | none ↦ (none, [])
  | some ctx ↦ elim answers.conns [
    | none ↦ (none, gets ctx ∷ frees ctx ∷ [])
    | some conns ↦
        let (listening, tried) = create_listen answers in
        let polling = answers.epoll_create in
        let so_far = gets ctx ∷ gets conns ∷ tried ++ opened polling in
        let failed : Option Context × List Effect = (
          none,
          so_far ++ close_fd listening ++ close_fd polling ++ frees conns ∷ frees ctx ∷ [],
        ) in
        elim listening [
          | none ↦ failed
          | some listen_fd ↦ elim polling [
            | none ↦ failed
            | some epoll_fd ↦ (
              some (record {
                address = ctx;
                conns_address = conns;
                thread_id = tid;
                cpu_core = cpu;
                sched_id = sched_id;
                port = port;
                max_conns = max_conns;
                running = true;
                listen_fd = listen_fd;
                epoll_fd = epoll_fd;
                server = fresh_server max_conns out responses;
              }),
              so_far,
            )
          ]
        ]
  ]
]

-- The loop of bt_gateway_stop over the connections.
unfoldable pub close_conns : List Conn → List Effect
close_conns [] = []
close_conns (conn ∷ conns) = close_fd conn.fd ++ close_conns conns

-- bt_gateway_stop, from where the thread has ended.
unfoldable pub stop : Context → Context × List Effect
stop ctx = (
  record ctx { running = false },
  close_conns ctx.server.pool.conns ++ closes ctx.listen_fd ∷ closes ctx.epoll_fd ∷ [],
)

-- bt_gateway_destroy.
unfoldable pub destroy : Context → List Effect
destroy ctx =
    let freed = frees ctx.conns_address ∷ frees ctx.address ∷ [] in
    if ctx.running then (stop ctx).1 ++ freed else freed
