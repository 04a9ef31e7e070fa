-- ===== src/Setup/Pow2.antt =====
-- `round_up_pow2`: the least power of two that is no less than its argument.
use native.Mathlib.Nat.{pow-le-pow_right, pow-suc}
use slipstream_io.Base.{
  ℕ, zero, suc, ◌+◌, ◌*◌, ◌%◌, ◌^◌, ◌≤◌, ◌<◌, ◌≡◌, refl, ap, ◌∙◌, arith, u32_mod, none, some,
  dec_lt,
}
use slipstream_io.Setup.{double_up, round_up_pow2}

-- `n` is a power of two that fits an `unsigned`, no less than `v`, and the least such.
pub record IsLeast (v n : ℕ) : Type 0 where
  pub exponent : ℕ
  pub power : n ≡ 2 ^ exponent
  pub narrow : exponent ≤ 31
  pub enough : v ≤ n
  pub least : (j : ℕ) → v ≤ 2 ^ j → n ≤ 2 ^ j

pub pow_le : (i j : ℕ) → i ≤ j → 2 ^ i ≤ 2 ^ j
pow_le i j h = pow-le-pow_right {n = 2} (omega arith) h

shift_in_range : (i : ℕ) → i < 31 → 2 ^ i * 2 % u32_mod ≡ 2 ^ suc i
shift_in_range i h = let a = pow_le (suc i) 31 h in omega (arith, pow-suc 2 i, a)

shift_out : (i : ℕ) → i ≡ 31 → 2 ^ i * 2 % u32_mod ≡ 0
shift_out i e = rw e

below_top : (i v : ℕ) → i ≤ 31 → v ≤ 2 ^ 31 → 2 ^ i < v → i < 31
below_top i v h w l = elim (dec_lt i 31) [
  | yes a ↦ a
  | no a ↦ absurd (let e : i ≡ 31 = omega arith in omega (arith, ap (λ x. 2 ^ x) e))
]

double_up-more :
    (rounds n v : ℕ) → n < v → double_up (suc rounds) n v ≡ double_up rounds (n * 2 % u32_mod) v
unfolding double_up
double_up-more rounds n v h = ground arith

double_up-stop : (rounds n v : ℕ) → v ≤ n → double_up (suc rounds) n v ≡ some n
unfolding double_up
double_up-stop rounds n v h = ground arith

below_suc : (i v : ℕ) → ((j : ℕ) → j < i → 2 ^ j < v) → 2 ^ i < v → (j : ℕ) → j < suc i → 2 ^ j < v
below_suc i v below l j h = elim (dec_lt j i) [
  | yes a ↦ below j a
  | no a ↦ let e : j ≡ i = omega arith in rw e l
]

double_up-IsLeast :
    (rounds i v : ℕ)
    → i + rounds ≡ 33
    → i ≤ 31
    → v ≤ 2 ^ 31
    → ((j : ℕ) → j < i → 2 ^ j < v)
    → (n : ℕ) × (double_up rounds (2 ^ i) v ≡ some n) × IsLeast v n
unfolding double_up
double_up-IsLeast zero i v s h w below = absurd (omega arith)
double_up-IsLeast (suc rounds) i v s h w below = elim (dec_lt (2 ^ i) v) [
  | yes l ↦
      let a = below_top i v h w l in
      let (n, e, least) =
        double_up-IsLeast rounds (suc i) v (omega arith) (omega arith) w (below_suc i v below l) in
      (
        n,
        double_up-more rounds (2 ^ i) v l ∙ ap (λ x. double_up rounds x v) (shift_in_range i a) ∙ e,
        least,
      )
  | no l ↦ (
    2 ^ i,
    double_up-stop rounds (2 ^ i) v (omega arith),
    record {
      exponent = i;
      power = refl;
      narrow = h;
      enough = omega arith;
      least = λ j g. elim (dec_lt j i) [
        | yes x ↦ absurd (omega (arith, below j x))
        | no x ↦ pow_le i j (omega arith)
      ];
    },
  )
]

-- For a count of at most 2 ^ 31 the loop ends, and its answer is the least power of two that is no
-- less than the count.
pub round_up_pow2-IsLeast :
    (v : ℕ) → v ≤ 2 ^ 31 → (n : ℕ) × (round_up_pow2 v ≡ some n) × IsLeast v n
unfolding round_up_pow2
round_up_pow2-IsLeast v h =
    double_up-IsLeast 33 0 v refl (omega arith) h (λ j l. absurd (omega arith))

-- No round ends the loop once the count is above 2 ^ 31: the shift runs through every power of two
-- below 2 ^ 32 and then stays 0.
double_up-zero : (rounds v : ℕ) → 0 < v → double_up rounds 0 v ≡ none
unfolding double_up
double_up-zero zero v h = refl
double_up-zero (suc rounds) v h = double_up-more rounds 0 v h ∙ double_up-zero rounds v h

double_up-power : (rounds i v : ℕ) → i ≤ 31 → 2 ^ 31 < v → double_up rounds (2 ^ i) v ≡ none
unfolding double_up
double_up-power zero i v h w = refl
double_up-power (suc rounds) i v h w =
    double_up-more rounds (2 ^ i) v (omega (arith, pow_le i 31 h)) ∙ elim (dec_lt i 31) [
      | yes a ↦
          ap (λ x. double_up rounds x v) (shift_in_range i a) ∙ double_up-power rounds (suc i) v a w
      | no a ↦
          ap (λ x. double_up rounds x v) (shift_out i (omega arith))
          ∙ double_up-zero rounds v (omega arith)
    ]

-- Whatever the number of rounds, the loop does not end for a count above 2 ^ 31.
pub double_up-diverges : (rounds v : ℕ) → 2 ^ 31 < v → double_up rounds 1 v ≡ none
double_up-diverges rounds v h = double_up-power rounds 0 v (omega arith) h
