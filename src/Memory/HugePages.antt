-- ===== src/Memory/HugePages.antt =====
-- src/utils/hugepage.c: an arena that hands out memory in pieces of 2 MB. What mmap answers is a
-- parameter, tried for pages of 1 GB, of 2 MB and of the usual size.
use aspira_broker.Prelude.{
  ℕ, ◌+◌, ◌-◌, ◌*◌, ◌/◌, ◌%◌, ◌^◌, ◌≤◌, ◌<◌, ◌≡◌, refl, arith, Bool, Option, none, some, List, [],
  ◌∷◌, ltb, ltb→ge, ltb→lt, ◌⊎◌, sym, Option-cases, if◌then◌else◌, size_add, Bool-cases, inl, inr,
  ap,
}
use mathlib.Core.Path.{subst}
use aspira_broker.Arena.Blocks.{Between, Small, Between-mono}

abbrev pub huge_page : ℕ
huge_page = 2 * 1024 * 1024

-- bt_hugepage_t.
pub record HugePage : Type 0 where
  pub base : ℕ
  pub total_size : ℕ
  pub offset : ℕ
  pub use_1gb : Bool

-- A size rounded up to whole huge pages.
abbrev pub page_aligned : ℕ → ℕ
page_aligned size = size_add size (huge_page - 1) / huge_page * huge_page

pub record MapAnswers : Type 0 where
  pub giant_pages : Option ℕ
  pub huge_pages : Option ℕ
  pub usual_pages : Option ℕ

-- bt_hugepage_init, where none stands for -1.
unfoldable pub init : MapAnswers → ℕ → Bool → Option HugePage
init answers total_size use_1gb =
    let aligned = page_aligned total_size in
    let ready = λ (base : ℕ).
      some record { base = base; total_size = aligned; offset = 0; use_1gb = use_1gb } in
    let giant = if use_1gb then answers.giant_pages else none in
    elim giant [
      | some base ↦ ready base
      | none ↦ elim answers.huge_pages [
        | some base ↦ ready base
        | none ↦ elim answers.usual_pages [ some base ↦ ready base | none ↦ none ]
      ]
    ]

-- bt_hugepage_alloc on an arena that bt_hugepage_init set up.
unfoldable pub alloc : HugePage → ℕ → Option ℕ × HugePage
alloc hp size =
    let aligned = page_aligned size in
    if ltb hp.total_size (size_add hp.offset aligned)
    then (none, hp)
    else (some (size_add hp.base hp.offset), record hp { offset = size_add hp.offset aligned })

-- bt_hugepage_reset.
unfoldable pub reset : HugePage → HugePage
reset hp = record hp { offset = 0 }

-- bt_hugepage_used, bt_hugepage_total and bt_hugepage_avail.
abbrev pub used : HugePage → ℕ
used hp = hp.offset

abbrev pub total : HugePage → ℕ
total hp = hp.total_size

abbrev pub avail : HugePage → ℕ
avail hp = (hp.total_size + 2 ^ 64 - hp.offset) % 2 ^ 64

-- An arena of whole huge pages that does not wrap.
pub record IsArena (hp : HugePage) : Type 0 where
  pub whole : hp.total_size % huge_page ≡ 0
  pub paged : hp.offset % huge_page ≡ 0
  pub within : hp.offset ≤ hp.total_size
  pub ends : hp.base + hp.total_size ≤ 2 ^ 62
  pub based : hp.base % huge_page ≡ 0

-- A piece that bt_hugepage_alloc has handed out, and the arena afterwards.
pub record IsPiece (hp : HugePage) (size p : ℕ) (grown : HugePage) : Type 0 where
  pub aligned : p % huge_page ≡ 0
  pub behind : p ≡ hp.base + hp.offset
  pub base : grown.base ≡ hp.base
  pub total : grown.total_size ≡ hp.total_size
  pub grows : hp.offset + size ≤ grown.offset
  pub arena : IsArena grown

-- bt_hugepage_alloc fails where the whole pages do not fit, and else hands out a piece.
pub alloc-IsPiece :
    (hp : HugePage) (size : ℕ)
    → IsArena hp
    → size ≤ 2 ^ 62
    → ((alloc hp size ≡ (none, hp)) × (hp.total_size < hp.offset + page_aligned size))
      ⊎ ((p : ℕ) × (grown : HugePage) × (alloc hp size ≡ (some p, grown)) × IsPiece hp size p grown)
unfolding alloc
alloc-IsPiece hp size v small =
    let up : (size ≤ page_aligned size) × (page_aligned size ≤ size + (huge_page - 1)) =
      omega arith in
    let pages : page_aligned size % huge_page ≡ 0 = omega arith in
    let kept : size_add hp.offset (page_aligned size) ≡ hp.offset + page_aligned size =
      omega (arith, up, v.within, v.ends) in
    let place : size_add hp.base hp.offset ≡ hp.base + hp.offset =
      omega (arith, v.within, v.ends) in
    elim (Bool-cases (ltb hp.total_size (size_add hp.offset (page_aligned size)))) [
      | inl full ↦ inl (rw full refl, omega (arith, kept, ltb→lt hp.total_size _ full))
      | inr room ↦
          let fits : hp.offset + page_aligned size ≤ hp.total_size =
            omega (arith, kept, ltb→ge hp.total_size _ room) in
          inr (
            size_add hp.base hp.offset,
            record hp { offset = size_add hp.offset (page_aligned size) },
            rw room refl,
            record {
              aligned = rw place (omega (arith, v.based, v.paged));
              behind = place;
              base = refl;
              total = refl;
              grows = omega (arith, kept, up);
              arena = record {
                whole = v.whole;
                paged = rw kept (omega (arith, v.paged, pages));
                within = rw kept fits;
                ends = v.ends;
                based = v.based;
              };
            },
          )
    ]

-- The pieces that calls for some sizes give: address and requested size.
unfoldable pub pieces : HugePage → List ℕ → List (ℕ × ℕ)
pieces hp [] = []
pieces hp (size ∷ sizes) =
    let (ptr, hp') = alloc hp size in
    let rest = pieces hp' sizes in elim ptr [ none ↦ rest | some p ↦ (p, size) ∷ rest ]

-- Every piece starts at a huge page.
abbrev pub AllPaged : List (ℕ × ℕ) → Type 0
AllPaged [] = Unit
AllPaged ((p, n) ∷ rest) = (p % huge_page ≡ 0) × AllPaged rest

-- The pieces of any sequence of calls start at huge pages and lie in the arena behind what was in use,
-- in order and without overlap.
pub pieces-Between :
    (hp : HugePage) (sizes : List ℕ)
    → IsArena hp
    → Small sizes
    → AllPaged (pieces hp sizes)
      × Between (hp.base + hp.offset) (hp.base + hp.total_size) (pieces hp sizes)
unfolding pieces
pieces-Between hp [] v s = (tt, omega (arith, v.within))
pieces-Between hp (size ∷ sizes) v s = elim (alloc-IsPiece hp size v s.0) [
  | inl (full, _) ↦
      rw (ap (λ r. r.0) full, pieces, ap (λ r. r.1) full) (pieces-Between hp sizes v s.1)
  | inr (p, grown, e, piece) ↦
      let (paged, between) = pieces-Between grown sizes piece.arena s.1 in
      let top : grown.base + grown.total_size ≡ hp.base + hp.total_size =
        omega (arith, piece.base, piece.total) in
      let between' =
        subst (λ (x : ℕ). Between (grown.base + grown.offset) x (pieces grown sizes)) top between in
      rw (ap (λ r. r.0) e, pieces, ap (λ r. r.1) e)
        (
          (piece.aligned, paged),
          (
            omega (arith, piece.behind),
            Between-mono (grown.base + grown.offset) (p + size) (hp.base + hp.total_size)
                (pieces grown sizes) (omega (arith, piece.behind, piece.base, piece.grows))
                between',
          ),
        )
]

-- An arena that bt_hugepage_init has set up.
abbrev prepared : ℕ → Bool → ℕ → HugePage
prepared size use_1gb base = record {
  base = base;
  total_size = page_aligned size;
  offset = 0;
  use_1gb = use_1gb;
}

init-prepared :
    (answers : MapAnswers) (size : ℕ) (use_1gb : Bool) (hp : HugePage)
    → init answers size use_1gb ≡ some hp
    → (base : ℕ) × (prepared size use_1gb base ≡ hp)
unfolding init
init-prepared answers size use_1gb hp made =
    elim (Option-cases (if use_1gb then answers.giant_pages else none)) [
      | inr (base, e) ↦ (base, ground (arith, (rw (e, init) at made)))
      | inl e ↦ elim (Option-cases answers.huge_pages) [
        | inr (base, f) ↦ (base, ground (arith, (rw (e, init, f) at made)))
        | inl f ↦ elim (Option-cases answers.usual_pages) [
          | inr (base, g) ↦ (base, ground (arith, (rw (e, init, f, g) at made)))
          | inl g ↦ absurd (ground (arith, (rw (e, init, f, g) at made)))
        ]
      ]
    ]

-- What bt_hugepage_init gives over memory at a huge page, whichever pages it got, is an empty arena of
-- at least the size asked for.
pub init-IsArena :
    (answers : MapAnswers) (size : ℕ) (use_1gb : Bool) (hp : HugePage)
    → size ≤ 2 ^ 60
    → init answers size use_1gb ≡ some hp
    → hp.base % huge_page ≡ 0
    → hp.base ≤ 2 ^ 61
    → IsArena hp × (size ≤ hp.total_size) × (hp.offset ≡ 0)
init-IsArena answers size use_1gb hp small made based low =
    let (base, same) = init-prepared answers size use_1gb hp made in
    let total : page_aligned size ≡ hp.total_size = ap (λ h. h.total_size) same in
    let start : 0 ≡ hp.offset = ap (λ h. h.offset) same in
    let up : (size ≤ page_aligned size) × (page_aligned size ≤ size + (huge_page - 1)) =
      omega arith in
    (
      record {
        whole = rw (sym total) (omega arith);
        paged = rw (sym start) (omega arith);
        within = omega (arith, start);
        ends = omega (arith, total, up);
        based = based;
      },
      omega (arith, total, up),
      sym start,
    )
