-- ===== src/SharedMemory.antt =====
-- src/ipc/shmem.c: shared memory segments. What the system calls answer is a parameter; what they
-- change outside of the process is the list of those that took effect. A name is its characters.
pub mod Balance
mod Tests
use aspira_broker.Prelude.{
  ℕ, zero, suc, ◌+◌, ◌-◌, ◌*◌, ◌/◌, ◌%◌, ◌^◌, Bool, true, false, Option, none, some, List, [], ◌∷◌,
  ◌++◌, ◌==◌, if◌then◌else◌, size_add, take,
}

abbrev pub Name : Type 0
Name = List ℕ

abbrev pub magic : ℕ
magic = 1112820045

abbrev pub version : ℕ
version = 1

abbrev pub ring_size : ℕ
ring_size = 65536

-- sizeof(bt_shmem_header_t).
abbrev pub header_size : ℕ
header_size = 144

-- bt_shmem_header_t, the name up to its NUL.
pub record Header : Type 0 where
  pub magic : ℕ
  pub version : ℕ
  pub segment_size : ℕ
  pub name : Name
  pub order_head : ℕ
  pub order_tail : ℕ
  pub order_mask : ℕ
  pub trade_head : ℕ
  pub trade_tail : ℕ
  pub trade_mask : ℕ
  pub create_time : ℕ
  pub update_time : ℕ

-- bt_shmem_t with what the mapped header holds.
pub record Shmem : Type 0 where
  pub header : Header
  pub base : ℕ
  pub size : ℕ
  pub fd : ℕ
  pub owner : Bool

-- The calls that took effect.
pub data SysCall : Type 0 where
  created : Name → ℕ → SysCall
  opened : Name → ℕ → SysCall
  truncated : ℕ → ℕ → SysCall
  mapped : ℕ → ℕ → SysCall
  allocated : SysCall
  unmapped : ℕ → ℕ → SysCall
  closed : ℕ → SysCall
  unlinked : Name → SysCall
  freed : SysCall

-- What the calls of bt_shmem_create answer: shm_open, ftruncate, mmap, calloc and time.
pub record Answers : Type 0 where
  pub shm_open : Option ℕ
  pub ftruncate : Bool
  pub mmap : Option ℕ
  pub calloc : Bool
  pub time : ℕ

-- The size of the segment for `size` bytes of data.
abbrev pub total_size : ℕ → ℕ
total_size size = size_add (size_add size 4095 / 4096 * 4096) header_size

-- The header that bt_shmem_create writes.
abbrev pub fresh_header : Name → ℕ → ℕ → Header
fresh_header name total now = record {
  magic = magic;
  version = version;
  segment_size = total;
  name = take 63 name;
  order_head = 0;
  order_tail = 0;
  order_mask = ring_size - 1;
  trade_head = 0;
  trade_tail = 0;
  trade_mask = ring_size - 1;
  create_time = now;
  update_time = 0;
}

-- bt_shmem_create.
unfoldable pub create : Answers → Name → ℕ → Option Shmem × List SysCall
create answers name size =
    let total = total_size size in
    elim answers.shm_open [
      | none ↦ (none, [])
      | some fd ↦
          if answers.ftruncate
          then elim answers.mmap [
            | none ↦ (none, created name fd ∷ truncated fd total ∷ closed fd ∷ unlinked name ∷ [])
            | some base ↦
                if answers.calloc
                then (
                  some record {
                    header = fresh_header name total answers.time;
                    base = base;
                    size = total;
                    fd = fd;
                    owner = true;
                  },
                  created name fd ∷ truncated fd total ∷ mapped base total ∷ allocated ∷ [],
                )
                else (
                  none,
                  created name fd
                      ∷ truncated fd total
                      ∷ mapped base total
                      ∷ unmapped base total
                      ∷ closed fd
                      ∷ unlinked name
                      ∷ [],
                )
          ]
          else (none, created name fd ∷ closed fd ∷ unlinked name ∷ [])
    ]

-- What the calls of bt_shmem_attach answer; fstat gives a size and mmap memory that holds a header.
pub record AttachAnswers : Type 0 where
  pub shm_open : Option ℕ
  pub fstat : Option ℕ
  pub mmap : Option (ℕ × Header)
  pub calloc : Bool

-- bt_shmem_attach.
unfoldable pub attach : AttachAnswers → Name → Option Shmem × List SysCall
attach answers name = elim answers.shm_open [
  | none ↦ (none, [])
  | some fd ↦ elim answers.fstat [
    | none ↦ (none, opened name fd ∷ closed fd ∷ [])
    | some size ↦ elim answers.mmap [
      | none ↦ (none, opened name fd ∷ closed fd ∷ [])
      | some (base, header) ↦
          if header.magic == magic
          then (if answers.calloc
              then (
                some record { header = header; base = base; size = size; fd = fd; owner = false },
                opened name fd ∷ mapped base size ∷ allocated ∷ [],
              )
              else (none, opened name fd ∷ mapped base size ∷ unmapped base size ∷ closed fd ∷ []))
          else (none, opened name fd ∷ mapped base size ∷ unmapped base size ∷ closed fd ∷ [])
    ]
  ]
]

-- bt_shmem_detach.
unfoldable pub detach : Shmem → List SysCall
detach shm = unmapped shm.base shm.size ∷ closed shm.fd ∷ freed ∷ []

-- bt_shmem_destroy.
unfoldable pub destroy : Shmem → List SysCall
destroy shm =
    unmapped shm.base shm.size
    ∷ closed shm.fd
    ∷ (if shm.owner then unlinked (take 63 shm.header.name) ∷ freed ∷ [] else freed ∷ [])
