-- ===== src/Timer/Tests.antt =====
-- Runs of the latency statistics, and the instance of their theorem.
use aspira_broker.Prelude.{ℕ, ◌≡◌, ◌^◌, ◌%◌, refl, arith, List, [], ◌∷◌, length}
use aspira_broker.Timer.{now_us, bin_of, shift_bin}
use aspira_broker.Timer.Record.{least, greatest, total, tally, record_all, record_all_correct}

-- 1.5 µs, 900 ns, 5 µs and 65,536 µs, which is in no bin of the histogram.
bins : (bin_of 1500 ≡ 0) × (bin_of 900 ≡ 0) × (bin_of 5000 ≡ 2) × (bin_of 65536000 ≡ 16)
unfolding bin_of shift_bin
bins = (refl, refl, refl, refl)

a_second : now_us 1 2500 ≡ 1000002
a_second = refl

abbrev latencies : List ℕ
latencies = 2500 ∷ 900 ∷ 3999 ∷ []

record_all_correct_example :
    let s = record_all latencies in
    (s.min_ns ≡ least latencies)
    × (s.max_ns ≡ greatest latencies)
    × (s.sum_ns ≡ total latencies % 2 ^ 64)
    × (s.count ≡ length latencies)
    × (s.histogram 1 ≡ tally 1 latencies)
record_all_correct_example =
    record_all_correct latencies 1 (omega arith, (omega arith, (omega arith, tt))) (omega arith)
      (omega arith)
