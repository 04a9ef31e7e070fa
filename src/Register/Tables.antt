-- ===== src/Register/Tables.antt =====
-- What the register path does to the fixed file table.
use slipstream_io.Base.{
  ℕ, zero, suc, ◌-◌, ◌^◌, ◌≤◌, ◌<◌, ◌≡◌, refl, sym, ap, arith, ℤ, pos, neg, Bool, true, false, not,
  ◌||◌, List, length, replicate, get_elem?, none, some, ltb, le→ltb_false, ◌==◌, Bool-cases, inl,
  inr,
}
use mathlib.Core.Path.{subst}
use slipstream_io.Abi.{ebadf}
use slipstream_io.Ring.{Ring}
use slipstream_io.Fixed.{slot_at, is_null, fixed_lookup}
use slipstream_io.Fixed.Laws.{TableIsValid}
use slipstream_io.Register.{RsrcRegister, IndexRange, register_files, register_range}

or_true : (a : Bool) → (a || true) ≡ true
or_true a = ground arith

length-replicate : (n : ℕ) (z : ℤ) → length (replicate n z) ≡ n
length-replicate zero z = refl
length-replicate (suc n) z = ap suc (length-replicate n z)

-- Every slot of a fresh table reads as empty, and so does every index past it.
empty_slot :
    (n i : ℕ) → (elim (get_elem? (replicate n (neg 1)) i) [ none ↦ neg 1 | some fd ↦ fd ]) ≡ neg 1
empty_slot zero i = refl
empty_slot (suc n) zero = refl
empty_slot (suc n) (suc i) = empty_slot n i

-- The ring with a table of `n` empty slots.
abbrev with_files : ℕ → Ring → Ring
with_files n r = record r {
  fixed = some (replicate n (neg 1));
  fixed_n = n;
  alloc_off = 0;
  alloc_len = n;
  alloc_hint = 0;
}

fixed_lookup-with_files : (n i : ℕ) (r : Ring) → fixed_lookup (with_files n r) (pos i) ≡ neg ebadf
unfolding fixed_lookup slot_at
fixed_lookup-with_files n i r = rw (empty_slot n i, or_true (not (ltb i n)))

register_files-with_files :
    (rr : RsrcRegister) (r : Ring)
    → rr.sparse ≡ true
    → rr.«data» ≡ 0
    → rr.tags ≡ 0
    → 0 < rr.nr
    → rr.nr ≤ 2 ^ 20
    → is_null r ≡ true
    → register_files true rr r ≡ (pos 0, with_files rr.nr r)
unfolding register_files
register_files-with_files rr r a c d l h n =
    let some_slots : (rr.nr == 0) ≡ false = ground arith in
    rw (a, c, d, some_slots, le→ltb_false (2 ^ 20) rr.nr h, n)

-- Registering a sparse table of 1 to 2 ^ 20 slots on a ring that has none answers 0 and gives a valid
-- table with its whole length for allocation, in which no slot holds a descriptor.
pub register_files-TableIsValid :
    (rr : RsrcRegister) (r : Ring)
    → rr.sparse ≡ true
    → rr.«data» ≡ 0
    → rr.tags ≡ 0
    → 0 < rr.nr
    → rr.nr ≤ 2 ^ 20
    → is_null r ≡ true
    → let (res, s) = register_files true rr r in
      (res ≡ pos 0)
      × TableIsValid (replicate rr.nr (neg 1)) s
      × (s.alloc_len ≡ s.fixed_n)
      × ((i : ℕ) → fixed_lookup s (pos i) ≡ neg ebadf)
register_files-TableIsValid rr r a c d l h n =
    subst
      (λ x.
        (x.0 ≡ pos 0)
        × TableIsValid (replicate rr.nr (neg 1)) x.1
        × (x.1.alloc_len ≡ x.1.fixed_n)
        × ((i : ℕ) → fixed_lookup x.1 (pos i) ≡ neg ebadf))
      (sym (register_files-with_files rr r a c d l h n))
      (
        refl,
        record { table = refl; size = sym (length-replicate rr.nr (neg 1)); range = omega arith },
        refl,
        λ i. fixed_lookup-with_files rr.nr i r,
      )

-- Whatever range is asked for, the alloc range stays inside the table: a range that is not is refused
-- and changes nothing.
pub register_range-TableIsValid :
    (t : List ℤ) (range : IndexRange) (r : Ring)
    → TableIsValid t r
    → TableIsValid t (register_range range r).1
unfolding register_range
register_range-TableIsValid t range r v = elim (Bool-cases (is_null r)) [
  | inl x ↦ rw x v
  | inr x ↦
      elim (Bool-cases (
        not (range.resv == 0)
        || ltb r.fixed_n range.off
        || ltb (r.fixed_n - range.off) range.len)) [
          | inl y ↦ rw (x, y) v
          | inr y ↦ rw (x, y) (record { table = v.table; size = v.size; range = ground (arith, y) })
        ]
]
