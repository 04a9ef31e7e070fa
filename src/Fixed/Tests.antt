-- ===== src/Fixed/Tests.antt =====
-- A table of four slots whose alloc range is the last three.
use slipstream_io.Base.{ℕ, ◌≢◌, ◌≡◌, refl, arith, ℤ, pos, neg, List, [], ◌∷◌, none, some}
use slipstream_io.Abi.{ebadf}
use slipstream_io.Ring.{Ring, zero_ring}
use slipstream_io.Fixed.{slot_at, is_null, fixed_lookup, fixed_install, fixed_clear}
use slipstream_io.Fixed.Laws.{TableIsValid, fixed_install-lookup, fixed_clear-lookup}
use slipstream_io.Fixed.Alloc.{Allocated, fixed_install-Allocated}

abbrev table : List ℤ
table = pos 5 ∷ neg 1 ∷ pos 8 ∷ neg 1 ∷ []

abbrev four_slots : Ring
four_slots = record zero_ring {
  fixed = some table;
  fixed_n = 4;
  alloc_off = 1;
  alloc_len = 3;
  alloc_hint = 2;
}

four_slots-TableIsValid : TableIsValid table four_slots
four_slots-TableIsValid = record { table = refl; size = refl; range = omega arith }

fixed_install-lookup_example :
    let (res, s) = fixed_install four_slots (some 2) (pos 9) in
    (res ≡ pos 1)
    × (fixed_lookup s (pos 1) ≡ pos 9)
    × ((j : ℕ) → 1 ≢ j → fixed_lookup s (pos j) ≡ fixed_lookup four_slots (pos j))
unfolding slot_at
fixed_install-lookup_example =
    fixed_install-lookup four_slots table 1 9 four_slots-TableIsValid (omega arith) (omega arith)
      refl

fixed_clear-lookup_example :
    let (res, s) = fixed_clear four_slots 2 in
    (res ≡ pos 0)
    × (fixed_lookup s (pos 2) ≡ neg ebadf)
    × ((j : ℕ) → 2 ≢ j → fixed_lookup s (pos j) ≡ fixed_lookup four_slots (pos j))
unfolding slot_at
fixed_clear-lookup_example =
    fixed_clear-lookup four_slots table 2 four_slots-TableIsValid (omega arith) refl

fixed_install-Allocated_example :
    Allocated four_slots (pos 9) (fixed_install four_slots none (pos 9))
unfolding is_null
fixed_install-Allocated_example = fixed_install-Allocated four_slots (pos 9) refl
