-- ===== src/Main/Config.antt =====
-- The runtime configuration of src/include/bt_config.h, and how src/main.c reads and checks it.
use Prim.Native.String.{String}
use text.Mathlib.Text.{◌==◌ as is_same}
use aspira_broker.Prelude.{
  ℕ, zero, suc, ◌+◌, ◌-◌, ◌%◌, ◌^◌, ◌≤◌, ◌≡◌, ◌↔◌, refl, arith, Bool, true, false, ◌||◌, Option,
  none, some, List, [], ◌∷◌, bit_and, ltb, ◌==◌, if◌then◌else◌, Buffer, write, Bool-cases, inl, inr,
}

-- The values of a C int.
pub data ℤ : Type 0 where
  pos : ℕ → ℤ
  negsuc : ℕ → ℤ

-- `m < k` and `k < m` for a small constant `k`.
abbrev pub is_below : ℤ → ℕ → Bool
is_below (pos n) k = ltb n k
is_below (negsuc n) k = true

abbrev pub is_above : ℤ → ℕ → Bool
is_above (pos n) k = ltb k n
is_above (negsuc n) k = false

-- The 32 bits of an int.
abbrev pub int_bits : ℤ → ℕ
int_bits (pos n) = n
int_bits (negsuc n) = 2 ^ 32 - 1 - n

-- bt_runtime_config_t.
pub record Config : Type 0 where
  pub matching_threads : ℤ
  pub risk_threads : ℤ
  pub io_threads : ℕ
  pub md_threads : ℕ
  pub journal_threads : ℕ
  pub gateway_port : ℤ
  pub max_connections : ℕ
  pub rate_limit_rps : ℕ
  pub mempool_size_mb : ℕ
  pub journal_sync_ms : ℕ
  pub journal_path : String
  pub cpu_start_core : ℕ
  pub cpu_io_cores : Buffer ℕ
  pub cpu_risk_cores : Buffer ℕ
  pub cpu_match_cores : Buffer ℕ
  pub log_level : ℕ
  pub run_benchmark : ℕ
  pub benchmark_orders : ℤ
  pub benchmark_symbols : ℤ
  pub use_isolated : ℕ
  pub safe_mode : ℕ

-- bt_config_default. It leaves two fields and the other cores as they are.
unfoldable pub config_default : Config → Config
config_default cfg = record cfg {
  matching_threads = pos 4;
  risk_threads = pos 2;
  io_threads = 2;
  md_threads = 1;
  journal_threads = 1;
  gateway_port = pos 9000;
  max_connections = 1024;
  rate_limit_rps = 10000;
  mempool_size_mb = 4096;
  journal_sync_ms = 1;
  cpu_start_core = 0;
  log_level = 2;
  run_benchmark = 1;
  benchmark_orders = pos 100000;
  benchmark_symbols = pos 10;
  cpu_io_cores = write (write cfg.cpu_io_cores 0 2) 1 3;
  cpu_risk_cores = write (write cfg.cpu_risk_cores 0 4) 1 5;
  cpu_match_cores = write (write (write (write cfg.cpu_match_cores 0 6) 1 7) 2 8) 3 9;
  journal_path = "/tmp/bt_journal.log";
}

-- The options that take the next argument, which atoi reads.
unfoldable pub value_option : (String → ℤ) → String → String → Config → Option Config
value_option atoi name value cfg =
    if is_same name "--bench"
    then some (record cfg { benchmark_orders = atoi value })
    else if is_same name "--symbols"
    then some (record cfg { benchmark_symbols = atoi value })
    else if is_same name "--port"
    then some (record cfg { gateway_port = atoi value })
    else if is_same name "--matching-threads"
    then some (record cfg { matching_threads = atoi value })
    else none

-- The options that stand alone.
unfoldable pub flag_option : String → Config → Config
flag_option name cfg =
    if is_same name "--no-bench"
    then record cfg { run_benchmark = 0 }
    else if is_same name "--isolated"
    then record cfg { use_isolated = 1 }
    else if is_same name "--safe-mode"
    then record cfg { safe_mode = 1 }
    else cfg

-- The loop over the arguments.
unfoldable pub parse_args : (String → ℤ) → List String → Config → Config
parse_args atoi [] cfg = cfg
parse_args atoi (name ∷ []) cfg = flag_option name cfg
parse_args atoi (name ∷ value ∷ rest) cfg = elim (value_option atoi name value cfg) [
  | none ↦ parse_args atoi (value ∷ rest) (flag_option name cfg)
  | some cfg' ↦ parse_args atoi rest cfg'
]

-- The three checks, where false stands for the exit with status 1.
unfoldable pub validate : Config → Bool
validate cfg =
    if is_below cfg.matching_threads 1 || is_above cfg.matching_threads 8
    then false
    else if is_below cfg.risk_threads 1 || is_above cfg.risk_threads 8
    then false
    else bit_and (int_bits cfg.matching_threads)
        ((int_bits cfg.matching_threads + (2 ^ 32 - 1)) % 2 ^ 32)
      == 0

-- What the checks mean to accept.
pub record IsAccepted (cfg : Config) : Type 0 where
  pub shift : ℕ
  pub risks : ℕ
  pub few : shift ≤ 3
  pub matching : cfg.matching_threads ≡ pos (2 ^ shift)
  pub risk : cfg.risk_threads ≡ pos risks
  pub risks_pos : 1 ≤ risks
  pub risks_few : risks ≤ 8

-- Between 1 and 8 the test of the bits finds the powers of two.
pow2_bits :
    (n : ℕ)
    → 1 ≤ n
    → n ≤ 8
    → (bit_and n ((n + (2 ^ 32 - 1)) % 2 ^ 32) == 0) ≡ true
    → (k : ℕ) × (k ≤ 3) × (n ≡ 2 ^ k)
pow2_bits zero low high h = absurd (omega arith)
pow2_bits (suc zero) low high h = (0, omega arith, refl)
pow2_bits (suc (suc zero)) low high h = (1, omega arith, refl)
pow2_bits (suc (suc (suc zero))) low high h = absurd (ground (arith, h))
pow2_bits (suc (suc (suc (suc zero)))) low high h = (2, omega arith, refl)
pow2_bits (suc (suc (suc (suc (suc zero))))) low high h = absurd (ground (arith, h))
pow2_bits (suc (suc (suc (suc (suc (suc zero)))))) low high h = absurd (ground (arith, h))
pow2_bits (suc (suc (suc (suc (suc (suc (suc zero))))))) low high h = absurd (ground (arith, h))
pow2_bits (suc (suc (suc (suc (suc (suc (suc (suc zero)))))))) low high h = (3, omega arith, refl)
pow2_bits (suc (suc (suc (suc (suc (suc (suc (suc (suc n))))))))) low high h = absurd (omega arith)

-- The two tests of a number of threads.
abbrev is_outside : ℤ → Bool
is_outside m = is_below m 1 || is_above m 8

abbrev is_power : ℤ → Bool
is_power m = bit_and (int_bits m) ((int_bits m + (2 ^ 32 - 1)) % 2 ^ 32) == 0

in_range : (m : ℤ) → is_outside m ≡ false → (n : ℕ) × (m ≡ pos n) × (1 ≤ n) × (n ≤ 8)
in_range (pos n) h = (n, refl, ground (arith, h), ground (arith, h))
in_range (negsuc n) h = absurd (ground (arith, h))

range_in : (n : ℕ) → 1 ≤ n → n ≤ 8 → is_outside (pos n) ≡ false
range_in n low high = ground (arith, low, high)

shift_passes :
    (k : ℕ) → k ≤ 3 → (is_outside (pos (2 ^ k)) ≡ false) × (is_power (pos (2 ^ k)) ≡ true)
shift_passes zero h = (refl, refl)
shift_passes (suc zero) h = (refl, refl)
shift_passes (suc (suc zero)) h = (refl, refl)
shift_passes (suc (suc (suc zero))) h = (refl, refl)
shift_passes (suc (suc (suc (suc k)))) h = absurd (omega arith)

validate-IsAccepted : (cfg : Config) → validate cfg ≡ true → IsAccepted cfg
unfolding validate
validate-IsAccepted cfg h = elim (Bool-cases (is_outside cfg.matching_threads)) [
  | inl e ↦ absurd (ground (arith, (rw (e, validate) at h)))
  | inr e ↦ elim (Bool-cases (is_outside cfg.risk_threads)) [
    | inl f ↦ absurd (ground (arith, (rw (e, validate, f) at h)))
    | inr f ↦
        let (n, same, low, high) = in_range cfg.matching_threads e in
        let (r, same', low', high') = in_range cfg.risk_threads f in
        let (k, few, power) = pow2_bits n low high (rw same at (rw (e, validate, f) at h)) in
        record {
          shift = k;
          risks = r;
          few = few;
          matching = rw power at same;
          risk = same';
          risks_pos = low';
          risks_few = high';
        }
  ]
]

IsAccepted-validate : (cfg : Config) → IsAccepted cfg → validate cfg ≡ true
unfolding validate
IsAccepted-validate cfg a =
    let passes = shift_passes a.shift a.few in
    rw (a.matching, a.risk, passes.0, range_in a.risks a.risks_pos a.risks_few) passes.1

-- A configuration passes the checks exactly when its matching threads are 1, 2, 4 or 8 and its risk
-- threads 1 to 8.
pub validate_iff : (cfg : Config) → (validate cfg ≡ true) ↔ IsAccepted cfg
validate_iff cfg = (validate-IsAccepted cfg, IsAccepted-validate cfg)
