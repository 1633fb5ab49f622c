-- ===== src/Pool/Template/Tests.antt =====
-- Runs of the class template, and the instance of its theorem.
use aspira_broker.Prelude.{◌≡◌, refl, arith, some}
use aspira_broker.Pool.Template.{LockFreePool, constructed, allocate, release}
use aspira_broker.Pool.Template.Overlap.{store, allocate-store}

abbrev empty : LockFreePool
empty = constructed (λ _. 0)

-- Nodes that stand apart come back last first.
last_first :
    let (first, rest) = allocate 8 (release 8 (release 8 empty 64) 128) in
    (first ≡ some 128) × ((allocate 8 rest).0 ≡ some 64)
unfolding allocate release
last_first = (refl, refl)

allocate-store_example :
    let one = release 8 empty 64 in
    let (first, taken) = allocate 8 (release 8 one 72) in
    let (second, rest) = allocate 8 (store taken 72 5) in
    (one.words 72 ≡ 0) × (first ≡ some 72) × (second ≡ some 64) × ((allocate 8 rest).0 ≡ some 5)
allocate-store_example = allocate-store 8 empty 64 5 (omega arith) refl (omega arith)
