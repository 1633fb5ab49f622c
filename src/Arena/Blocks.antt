-- ===== src/Arena/Blocks.antt =====
-- The blocks that an arena hands out lie inside it and do not overlap.
use mathlib.Core.Path.{subst}
use aspira_broker.Prelude.{
  ℕ, ◌+◌, ◌^◌, ◌≤◌, ◌≡◌, ap, ◌⊎◌, inl, inr, refl, arith, none, some, List, [], ◌∷◌, ltb, size_add,
  Bool-cases, ltb→ge,
}
use aspira_broker.Arena.{Arena, cache_aligned, alloc}

-- The blocks that calls of bt_mempool_alloc for some sizes give: address and requested size.
pub blocks : Arena → List ℕ → List (ℕ × ℕ)
blocks arena [] = []
blocks arena (size ∷ sizes) =
    let (ptr, arena') = alloc arena size in
    let rest = blocks arena' sizes in elim ptr [ none ↦ rest | some p ↦ (p, size) ∷ rest ]

-- The blocks lie between `low` and `high`, each behind the end of the one before.
abbrev pub Between : ℕ → ℕ → List (ℕ × ℕ) → Type 0
Between low high [] = low ≤ high
Between low high ((p, n) ∷ rest) = (low ≤ p) × Between (p + n) high rest

-- No size is near the end of the 64-bit range.
abbrev pub Small : List ℕ → Type 0
Small [] = Unit
Small (size ∷ sizes) = (size ≤ 2 ^ 62) × Small sizes

pub Between-mono :
    (low low' high : ℕ) (bs : List (ℕ × ℕ))
    → low' ≤ low
    → Between low high bs
    → Between low' high bs
Between-mono low low' high [] h b = omega arith
Between-mono low low' high ((p, n) ∷ rest) h b = (omega (arith, b.0), b.1)

-- What a call does where nothing wraps.
alloc-cases :
    (arena : Arena) (size : ℕ)
    → arena.base + arena.size ≤ 2 ^ 62
    → arena.offset ≤ arena.size
    → size ≤ 2 ^ 62
    → (alloc arena size ≡ (none, arena))
      ⊎ ((grown : Arena) × (alloc arena size ≡ (some (arena.base + arena.offset), grown))
          × (grown.base ≡ arena.base)
          × (grown.size ≡ arena.size)
          × (arena.offset + size ≤ grown.offset)
          × (grown.offset ≤ arena.size))
unfolding alloc
alloc-cases arena size b o s =
    let rounded = cache_aligned size in
    let up : (size ≤ rounded) × (rounded ≤ size + 63) = omega arith in
    let kept : size_add arena.offset rounded ≡ arena.offset + rounded = omega arith in
    let place : size_add arena.base arena.offset ≡ arena.base + arena.offset = omega arith in
    elim (Bool-cases (ltb arena.size (size_add arena.offset rounded))) [
      | inl full ↦ inl (rw full refl)
      | inr room ↦ inr (
        (alloc arena size).1,
        rw (room, place) refl,
        rw room refl,
        rw room refl,
        rw room (omega (arith, kept, up)),
        rw room (omega (arith, ltb→ge _ _ room)),
      )
    ]

-- Where the arena ends at or below 2^62 and no more of it than its size is in use, the blocks of any
-- sequence of calls for sizes of at most 2^62 lie in the arena behind what was in use, in order and
-- without overlap.
pub blocks-Between :
    (arena : Arena) (sizes : List ℕ)
    → arena.base + arena.size ≤ 2 ^ 62
    → arena.offset ≤ arena.size
    → Small sizes
    → Between (arena.base + arena.offset) (arena.base + arena.size) (blocks arena sizes)
unfolding blocks
blocks-Between arena [] b o s = omega arith
blocks-Between arena (size ∷ sizes) b o s = elim (alloc-cases arena size b o s.0) [
  | inl full ↦
      rw (ap (λ r. r.0) full, blocks, ap (λ r. r.1) full) (blocks-Between arena sizes b o s.1)
  | inr (grown, e, base, total, below, fits) ↦
      let later = blocks-Between grown sizes (omega arith) (omega arith) s.1 in
      let top : grown.base + grown.size ≡ arena.base + arena.size = omega arith in
      let later' =
        subst (λ (x : ℕ). Between (grown.base + grown.offset) x (blocks grown sizes)) top later in
      rw (ap (λ r. r.0) e, blocks, ap (λ r. r.1) e)
        (
          omega arith,
          Between-mono (grown.base + grown.offset) (arena.base + arena.offset + size)
              (arena.base + arena.size) (blocks grown sizes) (omega arith) later',
        )
]
