-- ===== src/Main/Cores.antt =====
-- src/main.c: the cores that the threads are given, and what main registers with the scheduler.
use Prim.Native.String.{String}
use text.Mathlib.Text.{◌==◌ as is_same}
use mathlib.Core.Path.{subst}
use aspira_broker.Prelude.{
  ℕ, zero, suc, ◌+◌, ◌≡◌, ◌∙◌, inl, inr, ap, refl, arith, none, some, List, [], ◌∷◌, ◌++◌, ltb,
  if◌then◌else◌, Buffer, write, Option, both_branches, Option-cases,
}
use aspira_broker.Main.Config.{
  ℤ, pos, negsuc, Config, config_default, value_option, flag_option, parse_args,
}

-- The rounds of a loop `for (int i = 0; i < m; i++)`.
abbrev pub rounds : ℤ → ℕ
rounds (pos n) = n
rounds (negsuc n) = 0

-- The loop that stores `base + i` for each `i` below `n`.
unfoldable pub fill_cores : ℕ → ℕ → Buffer ℕ → Buffer ℕ
fill_cores base zero cores = cores
fill_cores base (suc n) cores = write (fill_cores base n cores) n (base + n)

-- The core assignment of main.
unfoldable pub assign_cores : Config → Config
assign_cores cfg = record cfg {
  cpu_match_cores =
      fill_cores (cfg.cpu_start_core + 6) (rounds cfg.matching_threads) cfg.cpu_match_cores;
  cpu_risk_cores = fill_cores (cfg.cpu_start_core + 4) (rounds cfg.risk_threads) cfg.cpu_risk_cores;
  cpu_io_cores =
      write (write cfg.cpu_io_cores 0 (cfg.cpu_start_core + 2)) 1 (cfg.cpu_start_core + 3);
}

-- bt_thread_class_t.
pub data ThreadClass : Type 0 where
  hot : ThreadClass
  warm : ThreadClass
  cold : ThreadClass

-- The threads of the pipeline; the risk workers and the matchers are numbered.
pub data Part : Type 0 where
  gateway : Part
  order_gate : Part
  oms : Part
  sequencer : Part
  market_data : Part
  clearing : Part
  risk_worker : ℕ → Part
  matcher : ℕ → Part

-- The arguments of a call of bt_sched_register, with the thread for its name.
pub record Registration : Type 0 where
  pub part : Part
  pub thread_class : ThreadClass
  pub cpu : ℕ
  pub priority : ℕ
  pub budget_ns : ℕ

abbrev pub registration : Part → ThreadClass → ℕ → ℕ → ℕ → Registration
registration part thread_class cpu priority budget_ns = record {
  part = part;
  thread_class = thread_class;
  cpu = cpu;
  priority = priority;
  budget_ns = budget_ns;
}

-- The two loops, whose first `n` rounds register the workers.
unfoldable pub register_risks : Config → ℕ → List Registration
register_risks cfg zero = []
register_risks cfg (suc n) =
    register_risks cfg n
    ++ registration (Part.risk_worker n) ThreadClass.warm (cfg.cpu_risk_cores n) 80 50000 ∷ []

unfoldable pub register_matchers : Config → ℕ → List Registration
register_matchers cfg zero = []
register_matchers cfg (suc n) =
    register_matchers cfg n
    ++ registration (Part.matcher n) ThreadClass.hot (cfg.cpu_match_cores n) 90 10000 ∷ []

-- What main registers, in its order.
unfoldable pub register_threads : Config → List Registration
register_threads cfg =
    registration Part.gateway ThreadClass.warm (cfg.cpu_io_cores 0) 60 200000
      ∷ registration Part.order_gate ThreadClass.warm (cfg.cpu_io_cores 1) 55 100000
      ∷ registration Part.oms ThreadClass.warm 10 70 200000
      ∷ registration Part.sequencer ThreadClass.hot 11 85 5000
      ∷ registration Part.market_data ThreadClass.warm (cfg.cpu_match_cores 3 + 1) 50 100000
      ∷ registration Part.clearing ThreadClass.cold 13 30 0
      ∷ register_risks cfg (rounds cfg.risk_threads)
    ++ register_matchers cfg (rounds cfg.matching_threads)

-- What a loop stores.
fill_cores_lem :
    (base n : ℕ) (cores : Buffer ℕ) (i : ℕ)
    → fill_cores base n cores i ≡ (if ltb i n then base + i else cores i)
unfolding fill_cores
fill_cores_lem base zero cores i = ground arith
fill_cores_lem base (suc n) cores i = ground (arith, fill_cores_lem base n cores i)

-- The start core and the matchers' default cores.
record Untouched (cfg cfg' : Config) : Type 0 where
  start : cfg'.cpu_start_core ≡ cfg.cpu_start_core
  cores : cfg'.cpu_match_cores ≡ cfg.cpu_match_cores

flag_option-Untouched : (name : String) (cfg : Config) → Untouched cfg (flag_option name cfg)
unfolding flag_option
flag_option-Untouched name cfg =
    let same : Untouched cfg cfg = record { start = refl; cores = refl } in
    let P = Untouched cfg in
    both_branches P (is_same name "--no-bench") record { start = refl; cores = refl }
      (both_branches P (is_same name "--isolated") record { start = refl; cores = refl }
        (both_branches P (is_same name "--safe-mode") record { start = refl; cores = refl } same))

abbrev MaybeUntouched : Config → Option Config → Type 0
MaybeUntouched cfg none = Unit
MaybeUntouched cfg (some cfg') = Untouched cfg cfg'

value_option-Untouched :
    (atoi : String → ℤ) (name value : String) (cfg : Config)
    → MaybeUntouched cfg (value_option atoi name value cfg)
unfolding value_option
value_option-Untouched atoi name value cfg =
    let P = MaybeUntouched cfg in
    both_branches P (is_same name "--bench") record { start = refl; cores = refl }
      (both_branches P (is_same name "--symbols") record { start = refl; cores = refl }
        (both_branches P (is_same name "--port") record { start = refl; cores = refl }
          (both_branches P (is_same name "--matching-threads") record { start = refl; cores = refl }
            tt)))

Untouched-trans : (a b c : Config) → Untouched a b → Untouched b c → Untouched a c
Untouched-trans a b c p q = record { start = q.start ∙ p.start; cores = q.cores ∙ p.cores }

parse_args-Untouched :
    (atoi : String → ℤ) (args : List String) (cfg : Config)
    → Untouched cfg (parse_args atoi args cfg)
unfolding parse_args
parse_args-Untouched atoi [] cfg = record { start = refl; cores = refl }
parse_args-Untouched atoi (name ∷ []) cfg = flag_option-Untouched name cfg
parse_args-Untouched atoi (name ∷ value ∷ rest) cfg =
    elim (Option-cases (value_option atoi name value cfg)) [
      | inl e ↦
          let cfg' = flag_option name cfg in
          rw (e, parse_args)
            (Untouched-trans cfg cfg' (parse_args atoi (value ∷ rest) cfg')
              (flag_option-Untouched name cfg) (parse_args-Untouched atoi (value ∷ rest) cfg'))
      | inr (cfg', e) ↦
          let kept : MaybeUntouched cfg (some cfg') =
            subst (MaybeUntouched cfg) e (value_option-Untouched atoi name value cfg) in
          rw (e, parse_args)
            (Untouched-trans cfg cfg' (parse_args atoi rest cfg') kept
              (parse_args-Untouched atoi rest cfg'))
    ]

-- A registration's core.
abbrev pub cpu_of : ℕ → List Registration → Option ℕ
cpu_of i [] = none
cpu_of zero (r ∷ rs) = some r.cpu
cpu_of (suc i) (r ∷ rs) = cpu_of i rs

-- Whatever the arguments, main registers the market data thread, the fifth, for core 10, which it
-- has registered for the order management, the third.
pub market_data_collides :
    (atoi : String → ℤ) (args : List String) (cfg : Config)
    → let registered =
        register_threads (assign_cores (parse_args atoi args (config_default cfg))) in
      (cpu_of 4 registered ≡ some 10) × (cpu_of 2 registered ≡ some 10)
unfolding register_threads assign_cores config_default
market_data_collides atoi args cfg =
    let read = parse_args atoi args (config_default cfg) in
    let kept = parse_args-Untouched atoi args (config_default cfg) in
    let start : read.cpu_start_core ≡ 0 = kept.start in
    let before : read.cpu_match_cores 3 ≡ 9 = ap (λ f. f 3) kept.cores in
    let n = rounds read.matching_threads in
    let core : fill_cores (read.cpu_start_core + 6) n read.cpu_match_cores 3 + 1 ≡ 10 =
      ground
        (arith, fill_cores_lem (read.cpu_start_core + 6) n read.cpu_match_cores 3, start, before) in
    (ap some core, refl)
