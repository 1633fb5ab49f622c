-- ===== src/Prelude/Buffers.antt =====
-- A C array as the function from index to content. Accesses in range are lemmas of the users.
use Prim.Native.Nat.{ℕ, zero, suc, ◌+◌, ◌%◌, ◌≤◌, ◌<◌}
use mathlib.Core.Path.{◌≡◌, refl, sym, ap, ap₂, ◌∙◌}
use mathlib.Core.Logic.{◌≢◌}
use mathlib.Core.List.{List, [], ◌∷◌, ◌++◌}
use native.Mathlib.Nat.{add-zero, mod-add-mod, div-add-mod}
use native.Mathlib.Numerals.{add-one}
use native.Mathlib.Omega.{arith}
use aspira_broker.Prelude.Tests.{if◌then◌else◌, ◌==◌}
use aspira_broker.Prelude.Lists.{length}

abbrev pub Buffer {ℓ} : Type ℓ → Type ℓ
Buffer A = ℕ → A

-- `buf[i] = v`
abbrev pub write {ℓ} : {A : Type ℓ} → Buffer A → ℕ → A → Buffer A
write buf i v j = if j == i then v else buf j

-- Counters that differ by less than `cap` stand at different slots.
pub slot_ne : (cap i j : ℕ) → i < j → j < i + cap → i % cap ≢ j % cap
slot_ne cap i j h k e = grind (arith, div-add-mod i cap, div-add-mod j cap)

module _ {ℓ} {A : Type ℓ} (cap : ℕ) where
  -- The `n` elements that a ring of `cap` slots holds from the counter `i` on.
  unfoldable pub slots : Buffer A → ℕ → ℕ → List A
  slots buf i zero = []
  slots buf i (suc n) = buf (i % cap) ∷ slots buf (i + 1) n

  pub length-slots : (buf : Buffer A) (i n : ℕ) → length (slots buf i n) ≡ n
  unfolding slots
  length-slots buf i zero = refl
  length-slots buf i (suc n) = ap suc (length-slots buf (i + 1) n)

  -- A counter and its slot start the same run.
  pub slots_mod : (buf : Buffer A) (i j n : ℕ) → i % cap ≡ j % cap → slots buf i n ≡ slots buf j n
  unfolding slots
  slots_mod buf i j zero e = refl
  slots_mod buf i j (suc n) e = ap₂ ◌∷◌ (ap buf e) (
      slots_mod buf (i + 1) (j + 1) n
        (sym (mod-add-mod i cap 1) ∙ ap (λ k. (k + 1) % cap) e ∙ mod-add-mod j cap 1))

  -- A write just past a run that leaves one slot free extends it.
  slots-write :
      (buf : Buffer A) (i j n : ℕ) (v : A)
      → j ≡ i + n
      → n < cap
      → slots (write buf (j % cap) v) i (suc n) ≡ slots buf i n ++ v ∷ []
  unfolding slots
  slots-write buf i j zero v e h = ground (arith, ap (λ k. k % cap) e)
  slots-write buf i j (suc n) v e h =
      ap₂ ◌∷◌ (ground (arith, slot_ne cap i j (omega arith) (omega arith)))
        (slots-write buf (i + 1) j n v (omega arith) (omega arith))

  pub slots_empty : (buf : Buffer A) (i n : ℕ) → n ≡ 0 → slots buf i n ≡ []
  unfolding slots
  slots_empty buf i n e = rw e

  pub slots_first :
      (buf : Buffer A) (i n m : ℕ) → n ≡ m + 1 → slots buf i n ≡ buf (i % cap) ∷ slots buf (i + 1) m
  unfolding slots
  slots_first buf i n m e = rw (e, add-one m)

  pub slots_last :
      (buf : Buffer A) (i j n : ℕ) (v : A)
      → j ≡ i + n
      → n < cap
      → slots (write buf (j % cap) v) i (n + 1) ≡ slots buf i n ++ v ∷ []
  slots_last buf i j n v e h = rw (add-one n) (slots-write buf i j n v e h)

  snoc :
      (buf : Buffer A) (i n : ℕ) → slots buf i (suc n) ≡ slots buf i n ++ buf ((i + n) % cap) ∷ []
  unfolding slots
  snoc buf i zero = rw add-zero
  snoc buf i (suc n) =
      ap (λ r. buf (i % cap) ∷ r)
        (snoc buf (i + 1) n ∙ ap (λ k. slots buf (i + 1) n ++ buf (k % cap) ∷ []) (omega arith))

  pub slots_snoc :
      (buf : Buffer A) (i n : ℕ) → slots buf i (n + 1) ≡ slots buf i n ++ buf ((i + n) % cap) ∷ []
  slots_snoc buf i n = rw (add-one n) (snoc buf i n)

  -- A write outside a run leaves it.
  pub slots-write_ne :
      (buf : Buffer A) (i j n : ℕ) (v : A)
      → i + n ≤ j
      → j < i + cap
      → slots (write buf (j % cap) v) i n ≡ slots buf i n
  unfolding slots
  slots-write_ne buf i j zero v h k = refl
  slots-write_ne buf i j (suc n) v h k =
      ap₂ ◌∷◌ (ground (arith, slot_ne cap i j (omega arith) k))
        (slots-write_ne buf (i + 1) j n v (omega arith) (omega arith))
