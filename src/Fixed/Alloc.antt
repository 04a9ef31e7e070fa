-- ===== src/Fixed/Alloc.antt =====
-- The scan of the alloc range finds an empty slot exactly when there is one.
use slipstream_io.Base.{
  ℕ, zero, suc, ◌+◌, ◌≤◌, ◌<◌, ◌≡◌, ◌≢◌, refl, ap, ◌⊎◌, arith, ℤ, pos, neg, is_neg, true, false,
  none, leb, leb→le, leb_false→lt, Bool-cases, inl, inr, dec_lt, ℕ_discrete,
}
use slipstream_io.Abi.{enfile}
use slipstream_io.Ring.{Ring}
use slipstream_io.Fixed.{slot_at, store_at, alloc_scan, alloc_start, fixed_install, is_null}

-- Slot `i` is among the `tries` slots from `probe` on, going round the range of `len` slots.
abbrev Reaches : ℕ → ℕ → ℕ → ℕ → Type 0
Reaches len tries probe i =
    ((probe ≤ i) × (i < probe + tries)) ⊎ ((i < probe) × (i + len < probe + tries))

-- What a scan answers: the empty slot that it filled, or that all it looked at are taken.
data Scanned (r : Ring) (fd : ℤ) (tries probe : ℕ) (out : ℤ × Ring) : Type 0 where
  found :
      (p : ℕ)
      → r.alloc_off ≤ p
      → p < r.alloc_off + r.alloc_len
      → is_neg (slot_at r p) ≡ true
      → out ≡ (pos p, record (store_at r p fd) { alloc_hint = p + 1 })
      → Scanned r fd tries probe out
  full :
      ((i : ℕ)
        → r.alloc_off ≤ i
        → i < r.alloc_off + r.alloc_len
        → Reaches r.alloc_len tries probe i
        → is_neg (slot_at r i) ≡ false)
      → out ≡ (neg enfile, r)
      → Scanned r fd tries probe out

-- What a round reaches is its probe or what the rounds after it reach.
module _ (off len tries probe i : ℕ) where
  wrap-Reaches :
      probe < off + len
      → off + len ≤ probe + 1
      → off ≤ i
      → i < off + len
      → i ≢ probe
      → Reaches len (suc tries) probe i
      → Reaches len tries off i
  wrap-Reaches a b c d e f = grind arith

  step-Reaches : i ≢ probe → Reaches len (suc tries) probe i → Reaches len tries (probe + 1) i
  step-Reaches e f = grind arith

module _ (r : Ring) (fd : ℤ) where
  next_round :
      {tries probe next : ℕ} {out : ℤ × Ring}
      → is_neg (slot_at r probe) ≡ false
      → ((i : ℕ)
          → r.alloc_off ≤ i
          → i < r.alloc_off + r.alloc_len
          → i ≢ probe
          → Reaches r.alloc_len (suc tries) probe i
          → Reaches r.alloc_len tries next i)
      → Scanned r fd tries next out
      → Scanned r fd (suc tries) probe out
  next_round taken reach (found p a b c d) = found p a b c d
  next_round {probe = probe} taken reach (full a b) =
      full
        (λ i c d e. elim (ℕ_discrete i probe) [
          | yes q ↦ rw q taken
          | no q ↦ a i c d (reach i c d q e)
        ])
        b

  alloc_scan-Scanned :
      (tries probe : ℕ)
      → r.alloc_off ≤ probe
      → probe < r.alloc_off + r.alloc_len
      → Scanned r fd tries probe (alloc_scan tries probe r fd)
  unfolding alloc_scan
  alloc_scan-Scanned zero probe lo hi = full (λ i a b c. absurd (omega arith)) refl
  alloc_scan-Scanned (suc tries) probe lo hi = elim (Bool-cases (is_neg (slot_at r probe))) [
    | inl free ↦ rw (free, alloc_scan) (found probe lo hi free refl)
    | inr taken ↦
        rw (taken, alloc_scan)
          (elim (Bool-cases (leb (r.alloc_off + r.alloc_len) (probe + 1))) [
            | inl wrap ↦ rw wrap (
                next_round taken
                  (λ i a b c d.
                    wrap-Reaches r.alloc_off r.alloc_len tries probe i hi (leb→le _ _ wrap) a b c d)
                  (alloc_scan-Scanned tries r.alloc_off (omega arith) (omega arith)))
            | inr go ↦ rw go (
                next_round taken
                  (λ i a b c d. step-Reaches r.alloc_off r.alloc_len tries probe i c d)
                  (alloc_scan-Scanned tries (probe + 1) (omega arith) (leb_false→lt _ _ go)))
          ])
  ]

  alloc_start_bounds :
      0 < r.alloc_len → (r.alloc_off ≤ alloc_start r) × (alloc_start r < r.alloc_off + r.alloc_len)
  unfolding alloc_start
  alloc_start_bounds h = ground arith

-- What an install that lets the table choose answers.
pub data Allocated (r : Ring) (fd : ℤ) (out : ℤ × Ring) : Type 0 where
  installed :
      (p : ℕ)
      → r.alloc_off ≤ p
      → p < r.alloc_off + r.alloc_len
      → is_neg (slot_at r p) ≡ true
      → out ≡ (pos p, record (store_at r p fd) { alloc_hint = p + 1 })
      → Allocated r fd out
  exhausted :
      ((i : ℕ) → r.alloc_off ≤ i → i < r.alloc_off + r.alloc_len → is_neg (slot_at r i) ≡ false)
      → out ≡ (neg enfile, r)
      → Allocated r fd out

Scanned-Allocated :
    (r : Ring) (fd : ℤ) (tries probe : ℕ) (out : ℤ × Ring)
    → ((i : ℕ)
        → r.alloc_off ≤ i
        → i < r.alloc_off + r.alloc_len
        → Reaches r.alloc_len tries probe i)
    → Scanned r fd tries probe out
    → Allocated r fd out
Scanned-Allocated r fd tries probe out all (found p a b c d) = installed p a b c d
Scanned-Allocated r fd tries probe out all (full a b) = exhausted (λ i c d. a i c d (all i c d)) b

Reaches-all :
    (off len probe i : ℕ)
    → off ≤ probe
    → probe < off + len
    → off ≤ i
    → i < off + len
    → Reaches len len probe i
Reaches-all off len probe i a b c d = elim (dec_lt i probe) [
  | yes h ↦ inr (h, omega arith)
  | no h ↦ inl (omega arith, omega arith)
]

empty_range :
    (r : Ring) (fd : ℤ) (start : ℕ)
    → r.alloc_len ≡ 0
    → alloc_scan r.alloc_len start r fd ≡ (neg enfile, r)
unfolding alloc_scan
empty_range r fd start e = ap (λ n. alloc_scan n start r fd) e

-- An install that lets the table choose puts the descriptor into an empty slot of the alloc range
-- and answers that slot, or answers -ENFILE and changes nothing; and it answers -ENFILE only when
-- every slot of the range is taken, wherever the hint stands. The ring has a table.
pub fixed_install-Allocated :
    (r : Ring) (fd : ℤ) → is_null r ≡ false → Allocated r fd (fixed_install r none fd)
unfolding fixed_install
fixed_install-Allocated r fd h = rw h (elim (dec_lt 0 r.alloc_len) [
  | yes p ↦
      let (a, b) = alloc_start_bounds r fd p in
      Scanned-Allocated r fd r.alloc_len (alloc_start r) _
        (λ i c d. Reaches-all r.alloc_off r.alloc_len (alloc_start r) i a b c d)
        (alloc_scan-Scanned r fd r.alloc_len (alloc_start r) a b)
  | no p ↦
      exhausted (λ i c d. absurd (omega arith)) (empty_range r fd (alloc_start r) (omega arith))
])
