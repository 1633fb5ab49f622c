-- ===== src/Disruptor/Tests.antt =====
-- Runs of the disruptor, and the instances of its theorems.
use aspira_broker.Prelude.{ℕ, ◌+◌, ◌*◌, ◌≤◌, ◌<◌, ◌≡◌, ◌⊎◌, refl, arith, true, false, Buffer}
use aspira_broker.Disruptor.{
  Disruptor, unset, init, claim_c, commit, commit_c, publish, get, get_highest_committed,
  is_committed,
}
use aspira_broker.Disruptor.Publish.{publish_all, publish_all-get}
use aspira_broker.Disruptor.Claim.{round, rounds}

abbrev blank : Buffer ℕ
blank _ = 0

abbrev tens : ℕ → ℕ
tens i = 10 * i

-- Six elements through a ring of four slots.
six : Disruptor ℕ
unfolding publish_all init
six = publish_all (init blank 4) tens 6

six_highest : get_highest_committed six ≡ 5
unfolding six publish_all init publish commit get_highest_committed
six_highest = refl

-- The second element is lost.
six_lost : (is_committed six 1 ≡ false) × (get six 1 ≡ 50)
unfolding six publish_all init publish commit is_committed get
six_lost = (refl, refl)

-- Four slots take three elements.
fourth_refused : (claim_c (rounds (init blank 4) 4 3) 4).0 ≡ unset
unfolding rounds round init claim_c commit_c
fourth_refused = refl

publish_all-get_example :
    ((publish six (tens 6)).0 ≡ true)
    × ((6 ≤ 3 + 4) × (is_committed six 3 ≡ true) × (get six 3 ≡ 30)
        ⊎ (3 + 4 < 6) × (is_committed six 3 ≡ false))
unfolding six
publish_all-get_example =
    publish_all-get 4 tens blank 6 3 (2, refl) (omega arith) (omega arith) (omega arith)
