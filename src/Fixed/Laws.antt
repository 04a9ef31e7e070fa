-- ===== src/Fixed/Laws.antt =====
-- A descriptor that was put into the fixed table is found there, and nothing else changes.
use slipstream_io.Base.{
  ℕ, ◌+◌, ◌-◌, ◌%◌, ◌≤◌, ◌<◌, ◌≡◌, ◌≢◌, refl, sym, ◌∙◌, arith, ℤ, pos, neg, is_neg, u32_mod, true,
  false, List, some, length, set, get_elem?-set_self, get_elem?-set_ne, length-set, Option-cases,
  inl, inr,
}
use slipstream_io.Abi.{ebadf}
use slipstream_io.Ring.{Ring}
use slipstream_io.Fixed.{slot_at, store_at, is_null, fixed_lookup, fixed_install, fixed_clear}

-- The table and the words that describe it agree: it has `fixed_n` slots, and the alloc range lies
-- inside it.
pub record TableIsValid (t : List ℤ) (r : Ring) : Type 0 where
  pub table : r.fixed ≡ some t
  pub size : r.fixed_n ≡ length t
  pub range : r.alloc_off + r.alloc_len ≤ r.fixed_n

pub slot_at-store_at_self :
    (r : Ring) (t : List ℤ) (i : ℕ) (fd : ℤ)
    → TableIsValid t r
    → i < length t
    → slot_at (store_at r i fd) i ≡ fd
unfolding slot_at store_at
slot_at-store_at_self r t i fd v h = rw v.table (rw (get_elem?-set_self t i fd h, slot_at))

pub slot_at-store_at_ne :
    (r : Ring) (t : List ℤ) (i j : ℕ) (fd : ℤ)
    → TableIsValid t r
    → i ≢ j
    → slot_at (store_at r i fd) j ≡ slot_at r j
unfolding slot_at store_at
slot_at-store_at_ne r t i j fd v h = rw v.table (rw (get_elem?-set_ne t fd h, slot_at))

pub store_at-TableIsValid :
    (r : Ring) (t : List ℤ) (i : ℕ) (fd : ℤ)
    → TableIsValid t r
    → TableIsValid (set t i fd) (store_at r i fd)
unfolding store_at
store_at-TableIsValid r t i fd v =
    rw v.table (record { table = refl; size = v.size ∙ sym (length-set t i fd); range = v.range })

not_null : (r : Ring) (t : List ℤ) → r.fixed ≡ some t → is_null r ≡ false
unfolding is_null
not_null r t e = rw e

fixed_n-store_at : (r : Ring) (i : ℕ) (fd : ℤ) → (store_at r i fd).fixed_n ≡ r.fixed_n
unfolding store_at
fixed_n-store_at r i fd = elim (Option-cases r.fixed) [ inl e ↦ rw e | inr (t, e) ↦ rw e ]

fixed_install-slot :
    (r : Ring) (t : List ℤ) (slot : ℕ) (fd : ℤ)
    → TableIsValid t r
    → r.fixed_n < u32_mod
    → slot < r.fixed_n
    → is_neg (slot_at r slot) ≡ true
    → fixed_install r (some (slot + 1)) fd ≡ (pos slot, store_at r slot fd)
unfolding fixed_install
fixed_install-slot r t slot fd v small h empty =
    let e : (slot + 1 + u32_mod - 1) % u32_mod ≡ slot = omega arith in
    rw (e, not_null r t v.table) (ground (arith, empty, h))

fixed_lookup-slot_at :
    (r : Ring) (i n : ℕ) → i < r.fixed_n → slot_at r i ≡ pos n → fixed_lookup r (pos i) ≡ pos n
unfolding fixed_lookup
fixed_lookup-slot_at r i n h e = ground arith

fixed_lookup_same :
    (r s : Ring) (i : ℕ)
    → s.fixed_n ≡ r.fixed_n
    → slot_at s i ≡ slot_at r i
    → fixed_lookup s (pos i) ≡ fixed_lookup r (pos i)
unfolding fixed_lookup
fixed_lookup_same r s i e f = ground (arith, e, f)

-- A descriptor put into a named slot of the table is found in that slot and nowhere else: install
-- answers the slot, lookup then answers the descriptor, and every other slot is as it was. The slot
-- is inside the table and empty, and is named by its number plus one.
pub fixed_install-lookup :
    (r : Ring) (t : List ℤ) (slot fd : ℕ)
    → TableIsValid t r
    → r.fixed_n < u32_mod
    → slot < r.fixed_n
    → is_neg (slot_at r slot) ≡ true
    → let (res, s) = fixed_install r (some (slot + 1)) (pos fd) in
      (res ≡ pos slot)
      × (fixed_lookup s (pos slot) ≡ pos fd)
      × ((j : ℕ) → slot ≢ j → fixed_lookup s (pos j) ≡ fixed_lookup r (pos j))
fixed_install-lookup r t slot fd v small h empty =
    let n = fixed_n-store_at r slot (pos fd) in
    let w = v.size in
    rw (fixed_install-slot r t slot (pos fd) v small h empty) (
      refl,
      fixed_lookup-slot_at _ slot fd (omega arith)
          (slot_at-store_at_self r t slot (pos fd) v (omega arith)),
      λ j ne. fixed_lookup_same r _ j n (slot_at-store_at_ne r t slot j (pos fd) v ne),
    )

fixed_clear-slot :
    (r : Ring) (t : List ℤ) (slot : ℕ)
    → TableIsValid t r
    → slot < r.fixed_n
    → is_neg (slot_at r slot) ≡ false
    → ((fixed_clear r slot).0 ≡ pos 0)
      × ((fixed_clear r slot).1.fixed ≡ (store_at r slot (neg 1)).fixed)
      × ((fixed_clear r slot).1.fixed_n ≡ r.fixed_n)
unfolding fixed_clear
fixed_clear-slot r t slot v h full =
    rw (not_null r t v.table, full)
      (ground (arith, h), ground (arith, h), ground (arith, h, fixed_n-store_at r slot (neg 1)))

slot_at-fixed : (r s : Ring) (i : ℕ) → s.fixed ≡ r.fixed → slot_at s i ≡ slot_at r i
unfolding slot_at
slot_at-fixed r s i e = rw e

fixed_lookup_empty : (r : Ring) (i : ℕ) → slot_at r i ≡ neg 1 → fixed_lookup r (pos i) ≡ neg ebadf
unfolding fixed_lookup
fixed_lookup_empty r i e = ground arith

-- Clearing an occupied slot empties it, so that a lookup there answers -EBADF, and changes no other.
pub fixed_clear-lookup :
    (r : Ring) (t : List ℤ) (slot : ℕ)
    → TableIsValid t r
    → slot < r.fixed_n
    → is_neg (slot_at r slot) ≡ false
    → let (res, s) = fixed_clear r slot in
      (res ≡ pos 0)
      × (fixed_lookup s (pos slot) ≡ neg ebadf)
      × ((j : ℕ) → slot ≢ j → fixed_lookup s (pos j) ≡ fixed_lookup r (pos j))
fixed_clear-lookup r t slot v h full =
    let (a, b, c) = fixed_clear-slot r t slot v h full in
    let n = v.size in
    (
      a,
      fixed_lookup_empty (fixed_clear r slot).1 slot (
          slot_at-fixed (store_at r slot (neg 1)) (fixed_clear r slot).1 slot b
          ∙ slot_at-store_at_self r t slot (neg 1) v (omega arith)),
      λ j ne. fixed_lookup_same r (fixed_clear r slot).1 j c (
          slot_at-fixed (store_at r slot (neg 1)) (fixed_clear r slot).1 j b
          ∙ slot_at-store_at_ne r t slot j (neg 1) v ne),
    )
