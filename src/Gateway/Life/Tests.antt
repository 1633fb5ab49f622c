-- ===== src/Gateway/Life/Tests.antt =====
-- Runs of the gateway's creation and end, and the instance of their theorem.
use aspira_broker.Prelude.{ℕ, ◌≡◌, ◌⊎◌, refl, true, false, none, some, List, [], ◌∷◌, ◌++◌}
use aspira_broker.Messages.{GwOmsMsg}
use aspira_broker.Ring.{RingQueue}
use aspira_broker.Gateway.Parse.{blank_request}
use aspira_broker.Gateway.Pool.{accepted}
use aspira_broker.Gateway.Loop.{Server, unused}
use aspira_broker.Gateway.Life.{
  Context, gets, frees, opens, closes, Answers, create_listen, unused_conns, fresh_server, create,
  close_conns, stop, destroy,
}
use aspira_broker.Gateway.Life.Balance.{nothing, held, open_fds, owned, create-destroy}

program : Unit {0}
unfolding create_listen create close_conns stop destroy unused_conns open_fds
program = tt

-- Everything can be had but the port.
abbrev taken_port : Answers
taken_port = record {
  context = some 4096;
  conns = some 8192;
  socket = some 5;
  bind = false;
  listen = true;
  epoll_create = some 6;
}

abbrev out : RingQueue GwOmsMsg
out = record { head = 0; tail = 0; buffer = λ _. GwOmsMsg.order (blank_request 5); mask = 3 }

abbrev responses : RingQueue (List ℕ)
responses = record { head = 0; tail = 0; buffer = λ _. []; mask = 3 }

refused : create taken_port 0 2 9000 100 3 out responses ≡ (
  none,
  gets 4096 ∷ gets 8192 ∷ opens 5 ∷ closes 5 ∷ opens 6 ∷ closes 6 ∷ frees 8192 ∷ frees 4096 ∷ [],
)
unfolding program
refused = refl

abbrev free_port : Answers
free_port = record taken_port { bind = true }

-- A gateway whose thread leaves two connections open.
abbrev two_open : Server
two_open = record (fresh_server 3 out responses) {
  pool = record { conns = accepted 7 0 ∷ unused ∷ accepted 9 1 ∷ []; active_conns = 2 };
}

two_closed : close_conns two_open.pool.conns ≡ closes 7 ∷ closes 9 ∷ []
unfolding program
two_closed = refl

create-destroy_example :
    let (result, effects) = create free_port 0 2 9000 3 3 out responses in
    ((result ≡ none) × (held effects nothing ≡ nothing))
    ⊎ ((ctx : Context) × (result ≡ some ctx)
        × (held effects nothing ≡ owned ctx)
        × (open_fds ctx.server.pool.conns ≡ [])
        × (let left = record ctx { server = two_open } in
            (held (destroy left) (owned left) ≡ nothing)
            × (held ((stop left).1 ++ destroy (stop left).0) (owned left) ≡ nothing)))
create-destroy_example = create-destroy free_port 0 2 9000 3 3 out responses two_open
