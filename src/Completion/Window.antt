-- ===== src/Completion/Window.antt =====
-- The completion queue as a list: the entries from the head to the tail.
use native.Mathlib.Nat.{
  add-zero, zero-add, pow-le-pow_right, suc-add, pow-suc, dvd_refl, dvd-mul_right_of_dvd,
  mod-mod_of_dvd, div-add-mod,
}
use mathlib.Core.Path.{ap₂}
use Prim.Native.Nat.{◌∣◌}
use slipstream_io.Base.{
  ℕ, zero, suc, ◌+◌, ◌-◌, ◌%◌, ◌^◌, ◌≤◌, ◌<◌, bit_and, u32_mod, ◌≡◌, refl, ◌∙◌, ap, arith, List, [],
  ◌∷◌, ◌++◌, bit_and-mask,
}
use slipstream_io.Abi.{Cqe}
use slipstream_io.Ring.{Ring}
use slipstream_io.Completion.{cq_avail}

shift : (h i : ℕ) → suc h + i ≡ h + suc i
shift h i = omega arith

module _ {ℓ} {A : Type ℓ} where
  abbrev pub window : (ℕ → A) → ℕ → ℕ → List A
  window f h zero = []
  window f h (suc n) = f h ∷ window f (suc h) n

  pub window_congr :
      (f g : ℕ → A) (h n : ℕ)
      → ((i : ℕ) → i < n → f (h + i) ≡ g (h + i))
      → window f h n ≡ window g h n
  window_congr f g h zero e = refl
  window_congr f g h (suc n) e =
      ap₂ ◌∷◌ (rw add-zero at (e 0 (omega arith)))
        (window_congr f g (suc h) n (λ i l. rw (shift h i) (e (suc i) (omega arith))))

  pub window-suc : (f : ℕ → A) (h n : ℕ) → window f h (suc n) ≡ window f h n ++ (f (h + n) ∷ [])
  window-suc f h zero = rw add-zero
  window-suc f h (suc n) = ap (λ l. f h ∷ l) (rw (← shift h n) (window-suc f (suc h) n))

-- What the caller reads at the `i`-th completion since setup.
abbrev pub read_at : Ring → ℕ → Cqe
read_at r i = r.cqes (bit_and (i % u32_mod) r.cq_mask)

abbrev pub cq_contents : Ring → List Cqe
cq_contents r = window (read_at r) r.cq_head (cq_avail r)

-- Two counts less than `m` apart leave different remainders.
pub mod-ne : (m a d : ℕ) → 0 < d → d < m → a % m ≡ (a + d) % m → ⊥
mod-ne m a d p q e = grind (arith, div-add-mod a m, div-add-mod (a + d) m)

two_pow-dvd : (d k : ℕ) → 2 ^ k ∣ 2 ^ (d + k)
two_pow-dvd zero k = rw zero-add (dvd_refl (2 ^ k))
two_pow-dvd (suc d) k = rw (suc-add, pow-suc) (dvd-mul_right_of_dvd (2 ^ k) (two_pow-dvd d k) 2)

mod-mod_two_pow : (k : ℕ) → k ≤ 31 → (a : ℕ) → a % u32_mod % 2 ^ k ≡ a % 2 ^ k
mod-mod_two_pow k h a = mod-mod_of_dvd (2 ^ k) a divides
  where
    divides : 2 ^ k ∣ u32_mod
    divides = let e : 32 - k + k ≡ 32 = omega arith in rw e at (two_pow-dvd (32 - k) k)

two_pow-le : (k : ℕ) → k ≤ 31 → 2 ^ k ≤ 2 ^ 31
two_pow-le k h = pow-le-pow_right {n = 2} (omega arith) h

-- The queue's counters run freely and wrap as `unsigned` does; its size is `2 ^ k`, at most the
-- largest power of two below an `unsigned`'s range, and no more entries stand in it than fit.
pub record CqIsValid (k : ℕ) (r : Ring) : Type 0 where
  pub narrow : k ≤ 31
  pub size : r.cq_entries ≡ 2 ^ k
  pub mask : r.cq_mask ≡ 2 ^ k - 1
  pub head_lt : r.cq_head < u32_mod
  pub tail_lt : r.cq_tail < u32_mod
  pub fits : cq_avail r ≤ 2 ^ k

module _ {k : ℕ} {r : Ring} (v : CqIsValid k r) where
  pub slot_of : (i : ℕ) → bit_and (i % u32_mod) r.cq_mask ≡ i % 2 ^ k
  slot_of i = rw (v.mask, bit_and-mask k) (mod-mod_two_pow k v.narrow i)

  pub tail_of : r.cq_tail ≡ (r.cq_head + cq_avail r) % u32_mod
  unfolding cq_avail
  tail_of = let a = v.head_lt in let b = v.tail_lt in omega arith

  pub slot_of_tail : bit_and r.cq_tail r.cq_mask ≡ (r.cq_head + cq_avail r) % 2 ^ k
  slot_of_tail = ap (λ t. bit_and t r.cq_mask) tail_of ∙ slot_of (r.cq_head + cq_avail r)

  pub avail_bound : cq_avail r ≤ 2 ^ 31
  avail_bound = let a = v.fits in omega (arith, two_pow-le k v.narrow)

  pub entries_bound : 2 ^ k ≤ 2 ^ 31
  entries_bound = two_pow-le k v.narrow
