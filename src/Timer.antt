-- ===== src/Timer.antt =====
-- src/utils/timer.c and src/include/bt_timer.h: the latency statistics.
pub mod Record
mod Tests
use aspira_broker.Prelude.{
  ℕ, zero, suc, ◌+◌, ◌-◌, ◌*◌, ◌/◌, ◌%◌, ◌^◌, ltb, ◌==◌, if◌then◌else◌, size_add, size_mod, Buffer,
  write,
}

-- bt_latency_stats_t.
pub record LatencyStats : Type 0 where
  pub min_ns : ℕ
  pub max_ns : ℕ
  pub sum_ns : ℕ
  pub count : ℕ
  pub histogram : Buffer ℕ

-- bt_timer_now_ns and bt_timer_now_us for what clock_gettime stores.
abbrev pub now_ns : ℕ → ℕ → ℕ
now_ns tv_sec tv_nsec = size_add (tv_sec * 1000000000 % size_mod) tv_nsec

abbrev pub now_us : ℕ → ℕ → ℕ
now_us tv_sec tv_nsec = now_ns tv_sec tv_nsec / 1000

-- bt_latency_stats_init.
unfoldable pub init : LatencyStats
init = record { min_ns = 2 ^ 64 - 1; max_ns = 0; sum_ns = 0; count = 0; histogram = λ _. 0 }

-- The loop `while (us >>= 1) bin++`; a 64-bit number is 0 after 64 rounds.
unfoldable pub shift_bin : ℕ → ℕ → ℕ → ℕ
shift_bin zero us bin = bin
shift_bin (suc fuel) us bin =
    let rest = shift_bin fuel (us / 2) (bin + 1) in if us / 2 == 0 then bin else rest

-- The bin of a latency.
unfoldable pub bin_of : ℕ → ℕ
bin_of latency_ns = let us = latency_ns / 1000 in if ltb 0 us then shift_bin 64 us 0 else 0

-- bt_latency_stats_record.
unfoldable pub stats_record : LatencyStats → ℕ → LatencyStats
stats_record s latency_ns =
    let bin = bin_of latency_ns in
    record s {
      min_ns = if ltb latency_ns s.min_ns then latency_ns else s.min_ns;
      max_ns = if ltb s.max_ns latency_ns then latency_ns else s.max_ns;
      sum_ns = size_add s.sum_ns latency_ns;
      count = size_add s.count 1;
      histogram =
          if ltb bin 16 then write s.histogram bin (size_add (s.histogram bin) 1) else s.histogram;
    }
