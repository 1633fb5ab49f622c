-- ===== src/HashMap/Tests.antt =====
-- Runs of the table, and its theorems at concrete inputs.
use aspira_broker.Prelude.{ℕ, ◌==◌, if◌then◌else◌, ◌≡◌, refl, arith, true, none, some}
use mathlib.Core.Option
use aspira_broker.HashMap.{
  HashMap, cleared, probe, init, put_from, put_deep, put, get_from, get, remove_from, remove,
  reinsert,
}
use aspira_broker.HashMap.Inv.{NoGap, cleared-NoGap, put_from-NoGap}
use aspira_broker.HashMap.Lookup.{Unique}
use aspira_broker.HashMap.Resize.{IsTable, put-get}
use aspira_broker.HashMap.Lookup.Removal.{remove-get_ne, remove-get}
use aspira_broker.HashMap.Lookup.Duplicates.{put_over_tombstone}
use aspira_broker.HashMap.Counts.{IsCounted, tally, put_from-IsCounted}

program : Unit {0}
unfolding put_from put_deep put get_from get remove_from remove reinsert init probe
program = tt

abbrev empty : HashMap
empty = record { entries = cleared; capacity = 8; count = 0; tombstones = 0 }

-- Keys 1 and 9 have the same home.
abbrev one : HashMap
unfolding program
one = (put_from empty 1 100 0 8).1

abbrev two : HashMap
unfolding program
two = (put_from one 9 200 0 8).1

abbrev buried : HashMap
unfolding program
buried = (remove two 1).1

init_ten : Option.map (λ (m : HashMap). m.capacity) (init true 10) ≡ some 16
unfolding program
init_ten = refl

get-two : (get two 1 ≡ some 100) × (get two 9 ≡ some 200) × (get two 17 ≡ none)
unfolding program
get-two = (refl, refl, refl)

one-NoGap : NoGap one
unfolding program
one-NoGap = put_from-NoGap empty 1 100 (omega arith) refl (cleared-NoGap empty refl)

-- A table that the next put grows.
abbrev worn : HashMap
worn = record one { tombstones = 5 }

worn-IsTable : IsTable worn
unfolding program tally
worn-IsTable = record {
  pow = (3, refl);
  gap = one-NoGap;
  unique = λ p q u v e. ground arith;
  counted = record { live = refl; dead = omega arith; fits = omega arith };
}

grown :
    ((put true worn 9 200).1.capacity ≡ 16)
    × (get (put true worn 9 200).1 1 ≡ some 100)
    × (get (put true worn 9 200).1 9 ≡ some 200)
unfolding program
grown = (refl, refl, refl)

put-get_example :
    (m' : HashMap) × (put true worn 9 200 ≡ (true, m'))
    × IsTable m'
    × ((k : ℕ) → get m' k ≡ (if k == 9 then some 200 else get worn k))
unfolding program
put-get_example = put-get worn worn-IsTable (omega arith) (omega arith) 9 200 (omega arith) refl

remove-get_ne_example : get buried 9 ≡ get two 9
unfolding program
remove-get_ne_example = remove-get_ne two 1 9 refl (omega arith)

put_over_tombstone_example :
    ((put true buried 9 300).0 ≡ true)
    × (get (put true buried 9 300).1 9 ≡ some 300)
    × ((remove (put true buried 9 300).1 9).0 ≡ true)
    × (get (remove (put true buried 9 300).1 9).1 9 ≡ some 200)
unfolding program
put_over_tombstone_example = put_over_tombstone true buried 9 300 200 (omega arith) refl refl refl

empty-IsCounted : IsCounted empty
unfolding tally
empty-IsCounted = record { live = refl; dead = omega arith; fits = omega arith }

one-IsCounted : IsCounted one
unfolding program
one-IsCounted =
    put_from-IsCounted empty (3, refl) (omega arith) 1 100 (omega arith) refl empty-IsCounted

two-Unique : Unique two
unfolding program
two-Unique p q u v e = ground arith

remove-get_example : get buried 9 ≡ get two 9
unfolding program
remove-get_example = remove-get two 1 two-Unique refl 9

two-NoGap : NoGap two
unfolding program
two-NoGap = put_from-NoGap one 9 200 (omega arith) refl one-NoGap
