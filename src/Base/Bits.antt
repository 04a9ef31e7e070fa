-- ===== src/Base/Bits.antt =====
-- A mask of low bits is a remainder, at every width.
use Prim.Native.Nat.{
  ℕ, zero, suc, ◌+◌, ◌-◌, ◌*◌, ◌/◌, ◌%◌, ◌^◌, ◌≤◌, ◌<◌, min, bit_and, digits, bit_and-bitwise,
}
use mathlib.Core.Path.{◌≡◌, ap, ◌∙◌}
use native.Mathlib.Omega.{arith}
use native.Mathlib.Nat.{pow-suc, mod-eq_of_lt, mod-lt, div-add-mod, mul-add-mod_self_left}

pub two_pow-pos : (k : ℕ) → 0 < 2 ^ k
two_pow-pos zero = omega arith
two_pow-pos (suc k) = rw pow-suc (omega (arith, two_pow-pos k))

-- The remainder by an even modulus, from that of the half.
mod_double : (m a : ℕ) → 0 < m → a % (m * 2) ≡ a / 2 % m * 2 + a % 2
mod_double m a h =
    ap (λ x. x % (m * 2)) parts
    ∙ mul-add-mod_self_left (m * 2) (a / 2 / m) (a / 2 % m * 2 + a % 2)
    ∙ mod-eq_of_lt (omega (arith, mod-lt (a / 2) h))
  where
    parts : a ≡ m * 2 * (a / 2 / m) + (a / 2 % m * 2 + a % 2)
    parts = omega (arith, div-add-mod (a / 2) m)

half_mask : (k : ℕ) → (2 ^ suc k - 1) / 2 ≡ 2 ^ k - 1
half_mask k = rw pow-suc (omega (arith, two_pow-pos k))

odd_mask : (k : ℕ) → (2 ^ suc k - 1) % 2 ≡ 1
odd_mask k = rw pow-suc (omega (arith, two_pow-pos k))

-- The digits of a number under the mask of `k` ones are those of its remainder.
mask_digits : (n k a : ℕ) → a ≤ n → digits (λ b. zero) min n a (2 ^ k - 1) ≡ a % 2 ^ k
mask_digits zero k a h = omega (arith, two_pow-pos k, mod-eq_of_lt {n = a} {m = 2 ^ k})
mask_digits (suc n) k zero h = omega (arith, two_pow-pos k, mod-eq_of_lt {n = 0} {m = 2 ^ k})
mask_digits (suc n) zero (suc a) h = omega (arith, mask_digits n 0 (suc a / 2) (omega arith))
mask_digits (suc n) (suc k) (suc a) h =
    rw (half_mask k, odd_mask k, mask_digits n k (suc a / 2) (omega arith))
      (omega (arith, mod_double (2 ^ k) (suc a) (two_pow-pos k), ap (λ m. suc a % m) (pow-suc 2 k)))

pub bit_and-mask : (k a : ℕ) → bit_and a (2 ^ k - 1) ≡ a % 2 ^ k
bit_and-mask k a = bit_and-bitwise a (2 ^ k - 1) ∙ mask_digits a k a (omega arith)
