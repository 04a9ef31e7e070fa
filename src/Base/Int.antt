-- ===== src/Base/Int.antt =====
-- `int` values: signed integers over the native numbers, and the casts between `int` and `unsigned`.
use Prim.Native.Nat.{ℕ, ◌-◌, ◌%◌, ◌^◌, ◌<◌}
use mathlib.Core.Path.{◌≡◌}
use mathlib.Core.Bool.{Bool, true, false}
use native.Mathlib.Omega.{arith}
use slipstream_io.Base.Tests.{ltb, ◌==◌, if◌then◌else◌}

-- `negsuc n` is -(n + 1).
pub data ℤ : Type 0 where
  pos : ℕ → ℤ
  negsuc : ℕ → ℤ

-- `x < 0`
abbrev pub is_neg : ℤ → Bool
is_neg (pos n) = false
is_neg (negsuc n) = true

-- `-n`, for an errno's number.
abbrev pub neg : ℕ → ℤ
neg n = if n == 0 then pos 0 else negsuc (n - 1)

abbrev pub eq_ℤ : ℤ → ℤ → Bool
eq_ℤ (pos a) (pos b) = a == b
eq_ℤ (pos a) (negsuc b) = false
eq_ℤ (negsuc a) (pos b) = false
eq_ℤ (negsuc a) (negsuc b) = a == b

abbrev pub u32_mod : ℕ
u32_mod = 2 ^ 32

-- `(unsigned) x`
unfoldable pub to_u32 : ℤ → ℕ
to_u32 (pos n) = n % u32_mod
to_u32 (negsuc n) = u32_mod - 1 - n % u32_mod

-- `(int) x`
unfoldable pub to_s32 : ℕ → ℤ
to_s32 u =
    if ltb (u % u32_mod) (2 ^ 31) then pos (u % u32_mod) else negsuc (u32_mod - 1 - u % u32_mod)

-- The values an `int` holds.
abbrev pub IsInt32 : ℤ → Type 0
IsInt32 (pos n) = n < 2 ^ 31
IsInt32 (negsuc n) = n < 2 ^ 31

pub to_s32-to_u32 : (z : ℤ) → IsInt32 z → to_s32 (to_u32 z) ≡ z
unfolding to_s32 to_u32
to_s32-to_u32 (pos n) h = ground arith
to_s32-to_u32 (negsuc n) h = ground arith

pub to_s32-IsInt32 : (u : ℕ) → IsInt32 (to_s32 u)
unfolding to_s32
to_s32-IsInt32 u = ground arith
