-- ===== src/Register/Tests.antt =====
-- A ring without resources, and what it registers.
use slipstream_io.Base.{ℕ, ◌≡◌, refl, arith, pos, neg, [], ◌∷◌, get_elem?, some}
use slipstream_io.Ring.{Ring, zero_ring}
use slipstream_io.Fixed.{bufring_of, bufring_from}
use slipstream_io.Fixed.Laws.{TableIsValid}
use slipstream_io.Register.{
  BufReg, bufring_for, register_range, register_bufring, take_bufring, place_bufring,
}
use slipstream_io.Register.Tables.{register_range-TableIsValid}
use slipstream_io.Register.Buffers.{register_bufring-bufring_of}

abbrev with_table : Ring
with_table = record zero_ring {
  fixed = some (neg 1 ∷ pos 4 ∷ neg 1 ∷ []);
  fixed_n = 3;
  alloc_len = 3;
}

abbrev group : BufReg
group = record { ring_addr = 4096; ring_entries = 8; bgid = 7; flags = 0 }

with_table-TableIsValid : TableIsValid (neg 1 ∷ pos 4 ∷ neg 1 ∷ []) with_table
with_table-TableIsValid = record { table = refl; size = refl; range = omega arith }

register_range-TableIsValid_example :
    TableIsValid
      (neg 1 ∷ pos 4 ∷ neg 1 ∷ [])
      (register_range (record { off = 1; len = 2; resv = 0 }) with_table).1
register_range-TableIsValid_example =
    register_range-TableIsValid (neg 1 ∷ pos 4 ∷ neg 1 ∷ []) (record { off = 1; len = 2; resv = 0 })
      with_table with_table-TableIsValid

abbrev with_group : Ring
with_group = (register_bufring group zero_ring).1

register_bufring-bufring_of_example :
    (i : ℕ) × (bufring_of with_group 7 ≡ some i)
    × (get_elem? with_group.bufrings i ≡ some (bufring_for group))
unfolding register_bufring place_bufring take_bufring bufring_of bufring_from
register_bufring-bufring_of_example = register_bufring-bufring_of group zero_ring with_group refl
