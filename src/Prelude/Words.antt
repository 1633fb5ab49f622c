-- ===== src/Prelude/Words.antt =====
-- `size_t` arithmetic of 64 bits, and masks of a power of two.
use Prim.Native.Nat.{ℕ, ◌+◌, ◌-◌, ◌%◌, ◌^◌, ◌≤◌, ◌<◌, bit_and}
use mathlib.Core.Logic.{◌⊎◌, inl, inr}
use mathlib.Core.Path.{◌≡◌, sym, ap, ◌∙◌}
use native.Mathlib.Decide.{dec_lt}
use native.Mathlib.Nat.{mod-eq_of_lt, mod-eq-sub-mod}
use native.Mathlib.Omega.{arith}
use aspira_broker.Prelude.Bits.{bit_and_mask}

abbrev pub size_mod : ℕ
size_mod = 2 ^ 64

-- Unsigned 64-bit addition and subtraction wrap.
abbrev pub size_add : ℕ → ℕ → ℕ
size_add a b = (a + b) % size_mod

abbrev pub size_sub : ℕ → ℕ → ℕ
size_sub a b = (a + size_mod - b) % size_mod

abbrev pub IsPow2 : ℕ → Type 0
IsPow2 n = (k : ℕ) × (n ≡ 2 ^ k)

pub bit_and-mod : (a mask : ℕ) → IsPow2 (mask + 1) → bit_and a mask ≡ a % (mask + 1)
bit_and-mod a mask (k, e) =
    let m : mask ≡ 2 ^ k - 1 = omega arith in
    ap (bit_and a) m ∙ bit_and_mask k a ∙ ap (λ c. a % c) (sym e)

-- A remainder of a number below twice the modulus, in linear terms.
pub mod_wrap :
    (x cap : ℕ) → x < cap + cap → (x % cap ≡ x) × (x < cap) ⊎ (x % cap + cap ≡ x) × (cap ≤ x)
mod_wrap x cap h = elim (dec_lt x cap) [
  | yes p ↦ inl (mod-eq_of_lt p, p)
  | no p ↦ inr (
    omega (
      arith,
      mod-eq-sub-mod {n = x} {m = cap} (omega arith),
      mod-eq_of_lt {n = x - cap} {m = cap} (omega arith),
    ),
    omega arith,
  )
]
