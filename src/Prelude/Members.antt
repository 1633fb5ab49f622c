-- ===== src/Prelude/Members.antt =====
-- Lists without repetition, predicates of all elements, and taking one element out.
use Prim.Native.Nat.{ℕ, zero, suc, ◌+◌}
use mathlib.Core.Path.{◌≡◌, sym, subst}
use mathlib.Core.Logic.{◌≢◌, inl, inr}
use mathlib.Core.Option.{Option, none, some}
use mathlib.Core.List.{List, [], ◌∷◌}
use native.Mathlib.Omega.{arith}
use aspira_broker.Prelude.Tests.{Option-cases}
use aspira_broker.Prelude.Lists.{length}

-- `x` is not in the list.
abbrev pub Apart : ℕ → List ℕ → Type 0
Apart x [] = Unit
Apart x (y ∷ ys) = (x ≢ y) × Apart x ys

-- Nothing stands in the list twice.
abbrev pub Distinct : List ℕ → Type 0
Distinct [] = Unit
Distinct (x ∷ xs) = Apart x xs × Distinct xs

abbrev pub All : (ℕ → Type 0) → List ℕ → Type 0
All P [] = Unit
All P (x ∷ xs) = P x × All P xs

-- The element at an index and the others.
abbrev pub take_out : ℕ → List ℕ → Option (ℕ × List ℕ)
take_out i [] = none
take_out zero (x ∷ xs) = some (x, xs)
take_out (suc i) (x ∷ xs) = elim (take_out i xs) [ none ↦ none | some (y, ys) ↦ some (y, x ∷ ys) ]

pub All-mono : (P Q : ℕ → Type 0) (xs : List ℕ) → ((x : ℕ) → P x → Q x) → All P xs → All Q xs
All-mono P Q [] f h = tt
All-mono P Q (x ∷ xs) f h = (f x h.0, All-mono P Q xs f h.1)

-- Each of `xs` is apart from `x`, read the other way round.
pub All-Apart : (x : ℕ) (xs : List ℕ) → All (λ y. y ≢ x) xs → Apart x xs
All-Apart x [] h = tt
All-Apart x (y ∷ ys) h = (λ e. h.0 (sym e), All-Apart x ys h.1)

pub Apart-All : (x : ℕ) (xs : List ℕ) → Apart x xs → All (λ y. y ≢ x) xs
Apart-All x [] h = tt
Apart-All x (y ∷ ys) h = (λ e. h.0 (sym e), Apart-All x ys h.1)

pub All-both : (P Q : ℕ → Type 0) (xs : List ℕ) → All P xs → All Q xs → All (λ x. P x × Q x) xs
All-both P Q [] g h = tt
All-both P Q (x ∷ xs) g h = ((g.0, h.0), All-both P Q xs g.1 h.1)

-- What taking out of a longer list gives.
take_out-suc :
    (i : ℕ) (x : ℕ) (xs : List ℕ) {y : ℕ} {ys : List ℕ}
    → take_out (suc i) (x ∷ xs) ≡ some (y, ys)
    → (zs : List ℕ) × (take_out i xs ≡ some (y, zs)) × (ys ≡ x ∷ zs)
take_out-suc i x xs {y} {ys} h = elim (Option-cases (take_out i xs)) [
  | inl e ↦ absurd (ground (arith, (rw e at h)))
  | inr ((z, zs), e) ↦ let h' = rw e at h in (zs, ground (arith, e, h'), ground (arith, h'))
]

pub take_out-All :
    (P : ℕ → Type 0) (i : ℕ) (xs : List ℕ) {y : ℕ} {ys : List ℕ}
    → take_out i xs ≡ some (y, ys)
    → All P xs
    → P y × All P ys
take_out-All P i [] h a = absurd (ground (arith, h))
take_out-All P zero (x ∷ xs) {y} {ys} h a =
    let e : x ≡ y = ground (arith, h) in
    let f : xs ≡ ys = ground (arith, h) in (subst P e a.0, subst (λ (zs : List ℕ). All P zs) f a.1)
take_out-All P (suc i) (x ∷ xs) h a =
    let (zs, e, f) = take_out-suc i x xs h in
    let rest = take_out-All P i xs e a.1 in (rest.0, rw f (a.0, rest.1))

pub take_out-Apart :
    (i : ℕ) (xs : List ℕ) (z : ℕ) {y : ℕ} {ys : List ℕ}
    → take_out i xs ≡ some (y, ys)
    → Apart z xs
    → (z ≢ y) × Apart z ys
take_out-Apart i xs z {y} {ys} h a =
    let split = take_out-All (λ x. x ≢ z) i xs h (Apart-All z xs a) in
    (λ e. split.0 (sym e), All-Apart z ys split.1)

pub take_out-Distinct :
    (i : ℕ) (xs : List ℕ) {y : ℕ} {ys : List ℕ}
    → take_out i xs ≡ some (y, ys)
    → Distinct xs
    → Apart y ys × Distinct ys
take_out-Distinct i [] h a = absurd (ground (arith, h))
take_out-Distinct zero (x ∷ xs) {y} {ys} h a =
    let e : x ≡ y = ground (arith, h) in let f : xs ≡ ys = ground (arith, h) in rw (sym e, sym f) a
take_out-Distinct (suc i) (x ∷ xs) {y} {ys} h a =
    let (zs, e, f) = take_out-suc i x xs h in
    let rest = take_out-Distinct i xs e a.1 in
    let off = take_out-Apart i xs x e a.0 in
    rw f ((λ same. off.0 (sym same), rest.0), (off.1, rest.1))

pub length-take_out :
    (i : ℕ) (xs : List ℕ) {y : ℕ} {ys : List ℕ}
    → take_out i xs ≡ some (y, ys)
    → length xs ≡ length ys + 1
length-take_out i [] h = absurd (ground (arith, h))
length-take_out zero (x ∷ xs) {y} {ys} h = let f : xs ≡ ys = ground (arith, h) in rw f (omega arith)
length-take_out (suc i) (x ∷ xs) h =
    let (zs, e, f) = take_out-suc i x xs h in rw f (omega (arith, length-take_out i xs e))
