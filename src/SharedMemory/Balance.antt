-- ===== src/SharedMemory/Balance.antt =====
-- src/ipc/shmem.c: what a process and the system hold after the calls.
use mathlib.Core.Path.{subst}
use aspira_broker.Prelude.{
  ℕ, zero, suc, ◌+◌, ◌-◌, ◌≤◌, ◌≡◌, ◌⊎◌, inl, inr, refl, ap, ◌∙◌, arith, Bool, true, false, Option,
  none, some, List, [], ◌∷◌, ◌++◌, ◌==◌, if◌then◌else◌, length, take, length-take, ==→eq,
  Option-cases, Bool-cases, eq→==,
}
use aspira_broker.SharedMemory.{
  Name, magic, Shmem, SysCall, created, opened, truncated, mapped, allocated, unmapped, closed,
  unlinked, freed, Answers, AttachAnswers, total_size, create, attach, detach, destroy,
}

-- The names are those that this process has made and not removed; the objects are counted.
pub record Held : Type 0 where
  pub fds : List ℕ
  pub maps : List (ℕ × ℕ)
  pub names : List Name
  pub objects : ℕ

abbrev pub nothing : Held
nothing = record { fds = []; maps = []; names = []; objects = 0 }

abbrev pub same_name : Name → Name → Bool
same_name [] [] = true
same_name [] (d ∷ ds) = false
same_name (c ∷ cs) [] = false
same_name (c ∷ cs) (d ∷ ds) = let rest = same_name cs ds in if c == d then rest else false

-- Removing what a call releases, where it is held.
abbrev pub drop_fd : ℕ → List ℕ → List ℕ
drop_fd fd [] = []
drop_fd fd (x ∷ xs) = let rest = drop_fd fd xs in if x == fd then xs else x ∷ rest

abbrev pub drop_map : ℕ → ℕ → List (ℕ × ℕ) → List (ℕ × ℕ)
drop_map base size [] = []
drop_map base size ((b, n) ∷ xs) =
    let rest = drop_map base size xs in
    if b == base then (if n == size then xs else (b, n) ∷ rest) else (b, n) ∷ rest

abbrev pub drop_name : Name → List Name → List Name
drop_name name [] = []
drop_name name (x ∷ xs) = let rest = drop_name name xs in if same_name x name then xs else x ∷ rest

abbrev pub effect : SysCall → Held → Held
effect (created name fd) h = record h { fds = fd ∷ h.fds; names = name ∷ h.names }
effect (opened name fd) h = record h { fds = fd ∷ h.fds }
effect (truncated fd size) h = h
effect (mapped base size) h = record h { maps = (base, size) ∷ h.maps }
effect allocated h = record h { objects = h.objects + 1 }
effect (unmapped base size) h = record h { maps = drop_map base size h.maps }
effect (closed fd) h = record h { fds = drop_fd fd h.fds }
effect (unlinked name) h = record h { names = drop_name name h.names }
effect freed h = record h { objects = h.objects - 1 }

-- What is held after some calls.
abbrev pub held : List SysCall → Held → Held
held [] h = h
held (c ∷ cs) h = held cs (effect c h)

-- What a segment of this process holds.
abbrev pub segment : Name → Shmem → Held
segment name shm = record {
  fds = shm.fd ∷ [];
  maps = (shm.base, shm.size) ∷ [];
  names = name ∷ [];
  objects = 1;
}

same_name_refl : (name : Name) → same_name name name ≡ true
same_name_refl [] = refl
same_name_refl (c ∷ cs) = rw (eq→== c c refl) (same_name_refl cs)

same_name-length : (a b : Name) → same_name a b ≡ true → length a ≡ length b
same_name-length [] [] h = refl
same_name-length [] (d ∷ ds) h = absurd (ground (arith, h))
same_name-length (c ∷ cs) [] h = absurd (ground (arith, h))
same_name-length (c ∷ cs) (d ∷ ds) h = elim (Bool-cases (c == d)) [
  | inl e ↦ ap suc (same_name-length cs ds (rw e at h))
  | inr e ↦ absurd (ground (arith, (rw e at h)))
]

take_all : (n : ℕ) (xs : Name) → length xs ≤ n → take n xs ≡ xs
take_all zero [] h = refl
take_all zero (x ∷ xs) h = absurd (omega arith)
take_all (suc n) [] h = refl
take_all (suc n) (x ∷ xs) h = ap (λ ys. x ∷ ys) (take_all n xs (omega arith))

held-append : (cs ds : List SysCall) (h : Held) → held (cs ++ ds) h ≡ held ds (held cs h)
held-append [] ds h = refl
held-append (c ∷ cs) ds h = held-append cs ds (effect c h)

-- What bt_shmem_create makes.
pub record IsFresh (name : Name) (size : ℕ) (shm : Shmem) : Type 0 where
  pub owner : shm.owner ≡ true
  pub magical : shm.header.magic ≡ magic
  pub sized : shm.size ≡ total_size size
  pub named : shm.header.name ≡ take 63 name
  pub header_sized : shm.header.segment_size ≡ total_size size

-- Whatever its calls answer, bt_shmem_create either fails and leaves nothing behind, or gives a fresh
-- segment and holds what belongs to it.
pub create-held :
    (answers : Answers) (name : Name) (size : ℕ)
    → let (result, calls) = create answers name size in
      ((result ≡ none) × (held calls nothing ≡ nothing))
      ⊎ ((shm : Shmem) × (result ≡ some shm)
          × IsFresh name size shm
          × (held calls nothing ≡ segment name shm))
unfolding create
create-held answers name size = elim (Option-cases answers.shm_open) [
  | inl e ↦ rw e (inl (refl, refl))
  | inr (fd, e) ↦ elim (Bool-cases answers.ftruncate) [
    | inr f ↦ rw (e, f, eq→== fd fd refl, same_name_refl name) (inl (refl, refl))
    | inl f ↦ elim (Option-cases answers.mmap) [
      | inl g ↦ rw (e, f, g, eq→== fd fd refl, same_name_refl name) (inl (refl, refl))
      | inr (base, g) ↦ elim (Bool-cases answers.calloc) [
        | inr h ↦
            rw
              (
                e,
                f,
                g,
                h,
                eq→== fd fd refl,
                same_name_refl name,
                eq→== base base refl,
                eq→== (total_size size) (total_size size) refl,
              )
              (inl (refl, refl))
        | inl h ↦
            rw (e, f, g, h)
              (inr (
                _,
                refl,
                record {
                  owner = refl;
                  magical = refl;
                  sized = refl;
                  named = refl;
                  header_sized = refl;
                },
                refl,
              ))
      ]
    ]
  ]
]

-- bt_shmem_destroy gives back all that the segment holds where its name is not too long.
pub destroy-held :
    (name : Name) (size : ℕ) (shm : Shmem)
    → IsFresh name size shm
    → length name ≤ 63
    → held (destroy shm) (segment name shm) ≡ nothing
unfolding destroy
destroy-held name size shm fresh short =
    let whole : take 63 shm.header.name ≡ name =
      ap (take 63) fresh.named ∙ ap (take 63) (take_all 63 name short) ∙ take_all 63 name short in
    rw
      (
        fresh.owner,
        whole,
        same_name_refl name,
        eq→== shm.fd shm.fd refl,
        eq→== shm.base shm.base refl,
        eq→== shm.size shm.size refl,
      )
      refl

-- The end of a segment that bt_shmem_create gave, if it gave one.
abbrev pub destroyed : Option Shmem → List SysCall
destroyed none = []
destroyed (some shm) = destroy shm

-- When bt_shmem_create and then bt_shmem_destroy of what it gave have returned, nothing is held that
-- was not held before, however the calls answer, where the name is not too long.
pub create-destroyed :
    (answers : Answers) (name : Name) (size : ℕ)
    → length name ≤ 63
    → let (result, calls) = create answers name size in
      held (calls ++ destroyed result) nothing ≡ nothing
create-destroyed answers name size short =
    let calls = (create answers name size).1 in
    elim (create-held answers name size) [
      | inl (e, empty) ↦ rw e (held-append calls [] nothing ∙ empty)
      | inr (shm, e, fresh, own) ↦ rw e (
          held-append calls (destroy shm) nothing
          ∙ ap (held (destroy shm)) own
          ∙ destroy-held name size shm fresh short)
    ]

-- A longer name stays behind: bt_shmem_destroy removes its first 63 characters.
pub destroy_leaves :
    (name : Name) (size : ℕ) (shm : Shmem)
    → IsFresh name size shm
    → 64 ≤ length name
    → (held (destroy shm) (segment name shm)).names ≡ name ∷ []
unfolding destroy
destroy_leaves name size shm fresh long =
    elim (Bool-cases (same_name name (take 63 shm.header.name))) [
      | inl e ↦ absurd (
          omega (
            arith,
            same_name-length name (take 63 shm.header.name) e,
            length-take 63 shm.header.name,
          ))
      | inr e ↦ rw (fresh.owner, e) refl
    ]

-- bt_shmem_attach either fails and leaves nothing behind, or holds a descriptor, a mapping and an
-- object, for a segment whose header has the magic number and which it does not own; and
-- bt_shmem_detach and bt_shmem_destroy of that give all of it back and remove no name.
pub attach-held :
    (answers : AttachAnswers) (name : Name)
    → let (result, calls) = attach answers name in
      ((result ≡ none) × (held calls nothing ≡ nothing))
      ⊎ ((shm : Shmem) × (result ≡ some shm)
          × (shm.header.magic ≡ magic)
          × (shm.owner ≡ false)
          × (held (calls ++ detach shm) nothing ≡ nothing)
          × (held (calls ++ destroy shm) nothing ≡ nothing))
unfolding attach detach destroy
attach-held answers name = elim (Option-cases answers.shm_open) [
  | inl e ↦ rw e (inl (refl, refl))
  | inr (fd, e) ↦ elim (Option-cases answers.fstat) [
    | inl f ↦ rw (e, f, eq→== fd fd refl) (inl (refl, refl))
    | inr (size, f) ↦ elim (Option-cases answers.mmap) [
      | inl g ↦ rw (e, f, g, eq→== fd fd refl) (inl (refl, refl))
      | inr ((base, header), g) ↦ elim (Bool-cases (header.magic == magic)) [
        | inr h ↦
            rw (e, f, g, h, eq→== fd fd refl, eq→== base base refl, eq→== size size refl)
              (inl (refl, refl))
        | inl h ↦ elim (Bool-cases answers.calloc) [
          | inr k ↦
              rw (e, f, g, h, k, eq→== fd fd refl, eq→== base base refl, eq→== size size refl)
                (inl (refl, refl))
          | inl k ↦
              rw (e, f, g, h, k)
                (inr (
                  _,
                  refl,
                  ==→eq header.magic magic h,
                  refl,
                  rw (eq→== fd fd refl, eq→== base base refl, eq→== size size refl) refl,
                  rw (eq→== fd fd refl, eq→== base base refl, eq→== size size refl) refl,
                ))
        ]
      ]
    ]
  ]
]

-- Another process that attaches to a segment of bt_shmem_create, and whose calls succeed, sees the
-- header that was written, the same size, and is not the owner.
pub create-attach :
    (answers : Answers) (name : Name) (size fd base : ℕ) (shm : Shmem)
    → (create answers name size).0 ≡ some shm
    → (attach
        record {
          shm_open = some fd;
          fstat = some shm.size;
          mmap = some (base, shm.header);
          calloc = true;
        }
        name).0
      ≡ some record { header = shm.header; base = base; size = shm.size; fd = fd; owner = false }
unfolding attach
create-attach answers name size fd base shm made = elim (create-held answers name size) [
  | inl (e, _) ↦ absurd (ground (arith, made, e))
  | inr (shm', e, fresh, _) ↦
      let same : shm' ≡ shm = ground (arith, made, e) in
      let here = subst (IsFresh name size) same fresh in
      rw (eq→== shm.header.magic magic here.magical) refl
]
