-- ===== src/Prelude/Bits.antt =====
-- `x & mask` for a mask of ones: what the rings and the hash table index by.
use Prim.Native.Nat.{
  ℕ, zero, suc, ◌+◌, ◌-◌, ◌*◌, ◌/◌, ◌%◌, ◌^◌, ◌≤◌, ◌<◌, min, bit_and, digits, bit_and-bitwise,
}
use mathlib.Core.Path.{◌≡◌, ap, ◌∙◌}
use native.Mathlib.Nat.{pow-suc, div-add-mod, mod-lt, mod-eq_of_lt, add-mul-mod_self_right}
use native.Mathlib.Omega.{arith}

pub pow2_pos : (k : ℕ) → 0 < 2 ^ k
pow2_pos zero = omega arith
pow2_pos (suc k) = rw pow-suc (omega (arith, pow2_pos k))

-- The last digit in base 2 splits off a remainder by twice `m`.
mod_double : (a m : ℕ) → 0 < m → a % (m * 2) ≡ a / 2 % m * 2 + a % 2
mod_double a m h =
    let q = a / 2 / m in
    let r = a / 2 % m * 2 + a % 2 in
    let split : a ≡ r + q * (m * 2) = omega (arith, div-add-mod (a / 2) m) in
    let small : r < m * 2 = omega (arith, mod-lt (a / 2) h) in
    ap (λ k. k % (m * 2)) split ∙ add-mul-mod_self_right r q (m * 2) ∙ mod-eq_of_lt small

-- The digits of `a` under `k` ones, which `n` rounds are enough for.
masked_digits : (n k a : ℕ) → a ≤ n → digits (λ _. zero) min n a (2 ^ k - 1) ≡ a % 2 ^ k
masked_digits zero k zero h = omega (arith, mod-eq_of_lt (pow2_pos k))
masked_digits zero k (suc a) h = absurd (omega arith)
masked_digits (suc n) k zero h = omega (arith, mod-eq_of_lt (pow2_pos k))
masked_digits (suc n) zero (suc a) h = omega (arith, masked_digits n zero (suc a / 2) (omega arith))
masked_digits (suc n) (suc j) (suc a) h =
    let two = pow2_pos j in
    let half : (2 ^ j * 2 - 1) / 2 ≡ 2 ^ j - 1 = omega arith in
    rw (pow-suc, half)
      (omega (arith, masked_digits n j (suc a / 2) (omega arith), mod_double (suc a) (2 ^ j) two))

-- A mask of `k` ones takes the remainder by `2 ^ k`.
pub bit_and_mask : (k a : ℕ) → bit_and a (2 ^ k - 1) ≡ a % 2 ^ k
bit_and_mask k a = bit_and-bitwise a (2 ^ k - 1) ∙ masked_digits a k a (omega arith)
