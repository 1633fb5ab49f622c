-- ===== src/SharedMemory/Tests.antt =====
-- Runs of the shared memory calls, and the instances of their theorems.
use aspira_broker.Prelude.{◌≡◌, refl, arith, true, none, some, [], ◌∷◌, ◌++◌, ◌^◌, ◌-◌}
use aspira_broker.SharedMemory.{Name, Shmem, Answers, fresh_header, create, total_size}
use aspira_broker.SharedMemory.Balance.{nothing, held, destroyed, create-destroyed}

-- "/bt"
abbrev name : Name
name = 47 ∷ 98 ∷ 116 ∷ []

abbrev answers : Answers
answers = record {
  shm_open = some 3;
  ftruncate = true;
  mmap = some 65536;
  calloc = true;
  time = 1700000000;
}

abbrev made : Shmem
made = record {
  header = fresh_header name 8336 1700000000;
  base = 65536;
  size = 8336;
  fd = 3;
  owner = true;
}

made_run : (create answers name 5000).0 ≡ some made
unfolding create
made_run = refl

-- Where mmap fails, descriptor and name are given back.
no_memory : held (create (record answers { mmap = none }) name 5000).1 nothing ≡ nothing
unfolding create
no_memory = refl

-- A size next to 2 ^ 64 wraps to a segment of the header alone.
wrapped_size : total_size (2 ^ 64 - 1) ≡ 144
wrapped_size = refl

create-destroyed_example :
    held ((create answers name 5000).1 ++ destroyed (create answers name 5000).0) nothing ≡ nothing
create-destroyed_example = create-destroyed answers name 5000 (omega arith)
