-- ===== src/Main/Tests.antt =====
-- Runs of the configuration and of the pipeline, and the instances of their theorems.
use Prim.Native.String.{String}
use aspira_broker.Prelude.{◌≡◌, refl, Bool, true, false, List, [], ◌∷◌}
use aspira_broker.Main.Config.{
  ℤ, pos, Config, config_default, parse_args, value_option, flag_option, validate,
}
use aspira_broker.Main.Cores.{
  Part, gateway, order_gate, oms, sequencer, market_data, clearing, risk_worker, matcher,
  fill_cores, assign_cores, register_threads, register_risks, register_matchers, cpu_of,
}
use aspira_broker.Main.Pipeline.{
  Resource, start_first, init_queues, start_up, main_events, Before, Hands, started, stopped,
}
use aspira_broker.Main.Pipeline.Order.{main_events-order}

-- The static configuration, all zero.
abbrev blank : Config
blank = record {
  matching_threads = pos 0;
  risk_threads = pos 0;
  io_threads = 0;
  md_threads = 0;
  journal_threads = 0;
  gateway_port = pos 0;
  max_connections = 0;
  rate_limit_rps = 0;
  mempool_size_mb = 0;
  journal_sync_ms = 0;
  journal_path = "";
  cpu_start_core = 0;
  cpu_io_cores = λ _. 0;
  cpu_risk_cores = λ _. 0;
  cpu_match_cores = λ _. 0;
  log_level = 0;
  run_benchmark = 0;
  benchmark_orders = pos 0;
  benchmark_symbols = pos 0;
  use_isolated = 0;
  safe_mode = 0;
}

-- An atoi that knows one numeral.
eight : String → ℤ
eight text = pos 8

abbrev arguments : List String
arguments = "--isolated" ∷ "--matching-threads" ∷ "8" ∷ "--port" ∷ []

abbrev eight_matchers : Config
unfolding parse_args value_option flag_option config_default eight
eight_matchers = parse_args eight arguments (config_default blank)

arguments_read :
    (eight_matchers.matching_threads ≡ pos 8)
    × (eight_matchers.use_isolated ≡ 1)
    × (eight_matchers.gateway_port ≡ pos 9000)
unfolding eight_matchers
arguments_read = (refl, refl, refl)

-- Eight matchers pass the checks, three do not.
eight_pass : validate eight_matchers ≡ true
unfolding validate eight_matchers
eight_pass = refl

three_fail : validate (record blank { matching_threads = pos 3; risk_threads = pos 2 }) ≡ false
unfolding validate
three_fail = refl

-- With eight matchers three more threads have a matcher's core.
eight_collide :
    let registered = register_threads (assign_cores eight_matchers) in
    (cpu_of 12 registered ≡ cpu_of 2 registered)
    × (cpu_of 13 registered ≡ cpu_of 3 registered)
    × (cpu_of 15 registered ≡ cpu_of 5 registered)
unfolding register_threads register_risks register_matchers assign_cores fill_cores eight_matchers
eight_collide = (refl, refl, refl)

abbrev all_resources : Resource → Bool
all_resources _ = true

-- Everything is created but the order gate.
no_gate : Part → Bool
no_gate order_gate = false
no_gate gateway = true
no_gate oms = true
no_gate sequencer = true
no_gate market_data = true
no_gate clearing = true
no_gate (risk_worker i) = true
no_gate (matcher i) = true

-- Without a sequencer main exits, and what it has started is not stopped.
no_sequencer :
    started (main_events all_resources (λ p. elim p [ sequencer ↦ false | _ ↦ true ]) false 1 1)
    ≡ clearing ∷ market_data ∷ matcher 0 ∷ []
unfolding main_events start_up start_first init_queues
no_sequencer = refl

main_events-order_example :
    Before (λ p q. ¬ Hands p q) (started (main_events all_resources no_gate true 4 2))
    × Before (λ p q. ¬ Hands q p) (stopped (main_events all_resources no_gate true 4 2))
main_events-order_example = main_events-order all_resources no_gate true 4 2
