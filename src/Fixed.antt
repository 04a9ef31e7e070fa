-- ===== src/Fixed.antt =====
-- src/slipstream_engine.c, "the fixed file table", and the lookup of a registered buffer ring.
-- The table holds real descriptors, and -1 where a slot is empty. `fixed_n` is its length.
pub mod Laws
pub mod Alloc
mod Tests
use slipstream_io.Base.{
  ℕ, zero, suc, ◌+◌, ◌-◌, ◌%◌, ℤ, pos, negsuc, neg, is_neg, u32_mod, to_s32, Bool, true, false, not,
  ◌&&◌, ◌||◌, List, [], ◌∷◌, Option, none, some, ltb, leb, ◌==◌, if◌then◌else◌, get_elem?, set, ◌≤◌,
  ◌<◌,
}
use slipstream_io.Abi.{ebadf, ebusy, enfile, enxio}
use slipstream_io.Ring.{Ring, BufRing}

-- `r->fixed[i]`; an index past the table reads as empty, and no function below reads one.
unfoldable pub slot_at : Ring → ℕ → ℤ
slot_at r i = elim r.fixed [
  | none ↦ neg 1
  | some t ↦ elim (get_elem? t i) [ none ↦ neg 1 | some fd ↦ fd ]
]

-- `r->fixed[i] = fd`
unfoldable pub store_at : Ring → ℕ → ℤ → Ring
store_at r i fd = elim r.fixed [ none ↦ r | some t ↦ record r { fixed = some (set t i fd) } ]

unfoldable pub is_null : Ring → Bool
is_null r = elim r.fixed [ none ↦ true | some _ ↦ false ]

unfoldable pub fixed_lookup : Ring → ℤ → ℤ
fixed_lookup r (negsuc n) = neg ebadf
fixed_lookup r (pos slot) =
    if not (ltb slot r.fixed_n) || is_neg (slot_at r slot) then neg ebadf else slot_at r slot

-- The scan of the alloc range: `probe` runs round `[alloc_off, fin)` for the rounds left.
unfoldable pub alloc_scan : ℕ → ℕ → Ring → ℤ → ℤ × Ring
alloc_scan zero probe r realfd = (neg enfile, r)
alloc_scan (suc tries) probe r realfd = elim (is_neg (slot_at r probe)) [
  | true ↦ (pos probe, record (store_at r probe realfd) { alloc_hint = probe + 1 })
  | false ↦
      alloc_scan tries
        (if leb (r.alloc_off + r.alloc_len) (probe + 1) then r.alloc_off else probe + 1) r realfd
]

-- Where the scan starts.
unfoldable pub alloc_start : Ring → ℕ
alloc_start r =
    if ltb r.alloc_hint r.alloc_off || leb (r.alloc_off + r.alloc_len) r.alloc_hint
    then r.alloc_off
    else r.alloc_hint

-- `slip_fixed_install`. `none` is IORING_FILE_INDEX_ALLOC; `some i` names slot `i - 1`, by
-- unsigned subtraction.
unfoldable pub fixed_install : Ring → Option ℕ → ℤ → ℤ × Ring
fixed_install r none realfd =
    if is_null r then (neg enxio, r) else alloc_scan r.alloc_len (alloc_start r) r realfd
fixed_install r (some file_index) realfd =
    let slot = (file_index + u32_mod - 1) % u32_mod in
    if is_null r
    then (neg enxio, r)
    else if leb r.fixed_n slot
    then (neg ebadf, r)
    else if not (is_neg (slot_at r slot))
    then (neg ebusy, r)
    else (pos slot, store_at r slot realfd)

unfoldable pub fixed_clear : Ring → ℕ → ℤ × Ring
fixed_clear r slot =
    if is_null r || leb r.fixed_n slot || is_neg (slot_at r slot) then (neg ebadf, r) else (
      pos 0,
      record (store_at r slot (neg 1)) {
        alloc_hint = if leb r.alloc_off slot && ltb slot r.alloc_hint then slot else r.alloc_hint;
      },
    )

-- `slip_bufring_of`, over the ring's array: the index of the group's entry.
unfoldable pub bufring_from : List BufRing → ℕ → ℕ → Option ℕ
bufring_from [] i bgid = none
bufring_from (b ∷ rest) i bgid =
    if b.in_use && b.bgid == bgid then some i else bufring_from rest (i + 1) bgid

unfoldable pub bufring_of : Ring → ℕ → Option ℕ
unfolding bufring_from
bufring_of r bgid = bufring_from r.bufrings 0 bgid
