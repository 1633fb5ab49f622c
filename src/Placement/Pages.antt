-- ===== src/Placement/Pages.antt =====
-- Which bytes the loops that touch pages clear.
use native.Mathlib.Nat.{suc-mul, zero-mul}
use aspira_broker.Prelude.{
  ℕ, zero, suc, ◌+◌, ◌-◌, ◌*◌, ◌/◌, ◌^◌, ◌≤◌, ◌<◌, ◌≡◌, ◌⊎◌, inl, inr, refl, ap, ◌∙◌, arith, Option,
  none, some, List, [], ◌∷◌, lt→ltb, ge→ltb, Bool-cases, Option-cases, size_add, size_mod,
}
use aspira_broker.Placement.{
  Effect, gets_on_node, maps, clears, touch, page, Numa, touched, map_pages, numa_alloc,
}

-- One byte at the start of each of `n` pages.
abbrev pub page_starts : ℕ → ℕ → ℕ → List Effect
page_starts start step zero = []
page_starts start step (suc n) = clears start ∷ page_starts (start + step) step n

touch-page_starts :
    (n fuel base i size step : ℕ)
    → n < fuel
    → 0 < step
    → size ≤ i + n * step
    → i + n * step < size + step
    → base + size + step < size_mod
    → touch fuel base i size step ≡ page_starts (base + i) step n
unfolding touch
touch-page_starts n zero base i size step f p a b c = absurd (omega arith)
touch-page_starts zero (suc fuel) base i size step f p a b c =
    rw (ge→ltb i size (omega (arith, a, zero-mul step))) refl
touch-page_starts (suc n) (suc fuel) base i size step f p a b c =
    let next = suc-mul n step in
    let here : size_add base i ≡ base + i = omega (arith, next) in
    let on : size_add i step ≡ i + step = omega (arith, next) in
    let same : base + (i + step) ≡ base + i + step = omega arith in
    rw (lt→ltb i size (omega (arith, next)), here, on)
      (ap (λ es. clears (base + i) ∷ es)
        (touch-page_starts n fuel base (i + step) size step (omega arith) p (omega (arith, next))
            (omega (arith, next)) c
          ∙ ap (λ s. page_starts s step n) same))

-- A pointer in the lower half of what a user may have.
abbrev pub Low : Option ℕ → Type 0
Low none = Unit
Low (some p) = p ≤ 2 ^ 62

touch_block :
    (base k : ℕ)
    → base ≤ 2 ^ 62
    → k * page ≤ 2 ^ 63
    → touch (k * page + 1) base 0 (k * page) page ≡ page_starts base page k
touch_block base k low small =
    let same : base + 0 ≡ base = omega arith in
    touch-page_starts k (k * page + 1) base 0 (k * page) page (omega arith) (omega arith)
      (omega arith) (omega arith) (omega arith)
    ∙ ap (λ s. page_starts s page k) same

-- What bt_numa_alloc may give for `k` pages.
abbrev pub Prefaulted : Numa → ℕ → ℕ → Option ℕ × List Effect → Type 0
Prefaulted numa k node result =
    ((result ≡ (none, [])) × (numa.mapped ≡ none))
    ⊎ ((p : ℕ) × (first : Effect) × (result ≡ (some p, first ∷ page_starts p page k))
        × ((first ≡ gets_on_node p (k * page) node) ⊎ (first ≡ maps p (k * page))))

touched-page_starts :
    (p k : ℕ) (first : Effect)
    → p ≤ 2 ^ 62
    → k * page ≤ 2 ^ 63
    → touched p (k * page) first ≡ (some p, first ∷ page_starts p page k)
touched-page_starts p k first low small =
    ap (λ es. (some p, first ∷ es)) (touch_block p k low small)

map_pages-Prefaulted :
    (numa : Numa) (k node : ℕ)
    → k * page ≤ 2 ^ 63
    → Low numa.mapped
    → Prefaulted numa k node (map_pages numa (k * page))
unfolding map_pages
map_pages-Prefaulted numa k node small low = elim (Option-cases numa.mapped) [
  | inl failed ↦ rw failed (inl (refl, refl))
  | inr (p, e) ↦
      let here : p ≤ 2 ^ 62 = rw e at low in
      rw e (
        inr
          (p, maps p (k * page), touched-page_starts p k (maps p (k * page)) here small, inr refl))
]

-- For a size and answers below 2^62, bt_numa_alloc gives memory, from the node or from mmap, of the
-- size rounded up to whole pages, and clears the first byte of each of these pages once and in
-- order; or it gives none and has done nothing, and mmap fails.
pub numa_alloc-Prefaulted :
    (numa : Numa) (size node : ℕ)
    → size ≤ 2 ^ 62
    → Low numa.on_node
    → Low numa.mapped
    → (k : ℕ) × (size ≤ k * page)
      × (k * page < size + page)
      × Prefaulted numa k node (numa_alloc numa size node)
unfolding numa_alloc map_pages
numa_alloc-Prefaulted numa size node small low_node low_map =
    let k = size_add size (page - 1) / page in
    let fits : k * page ≤ 2 ^ 63 = omega arith in
    let fallback = map_pages-Prefaulted numa k node fits low_map in
    (
      k,
      omega arith,
      omega arith,
      elim (Bool-cases numa.available) [
        | inr alone ↦ rw alone fallback
        | inl there ↦ elim (Option-cases numa.on_node) [
          | inl full ↦ rw (there, full) fallback
          | inr (p, e) ↦
              let here : p ≤ 2 ^ 62 = rw e at low_node in
              let first = gets_on_node p (k * page) node in
              rw (there, e) (inr (p, first, touched-page_starts p k first here fits, inl refl))
        ]
      ],
    )
