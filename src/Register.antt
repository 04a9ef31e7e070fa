-- ===== src/Register.antt =====
-- src/slipstream_engine.c: `slipstream_engine_register`, by its opcodes. A NULL argument is `none`.
-- What an opcode writes through its argument is part of its answer.
pub mod Tables
pub mod Buffers
mod Tests
use slipstream_io.Base.{
  ℕ, zero, suc, ◌+◌, ◌-◌, ◌^◌, ◌%◌, bit_and, u32_mod, ℤ, pos, neg, to_s32, to_u32, is_neg, Bool,
  true, false, not, ◌&&◌, ◌||◌, List, [], ◌∷◌, length, map, replicate, Option, none, some, ltb, leb,
  ◌==◌, if◌then◌else◌, min,
}
use slipstream_io.Abi.{ebadf, efault, einval, ebusy, enomem, enxio, eexist, enoent}
use slipstream_io.Ring.{Ring, BufRing, zero_bufring}
use slipstream_io.Fixed.{is_null, bufring_of}
use slipstream_io.Backend.{Backend}
use slipstream_io.Engine.{Engine, ring_of, put_ring}

-- `struct io_uring_rsrc_register`; `sparse` is IORING_RSRC_REGISTER_SPARSE.
pub record RsrcRegister : Type 0 where
  pub nr : ℕ
  pub sparse : Bool
  pub «data» : ℕ
  pub tags : ℕ

-- `struct io_uring_file_index_range`
pub record IndexRange : Type 0 where
  pub off : ℕ
  pub len : ℕ
  pub resv : ℕ

-- `struct io_uring_buf_reg`
pub record BufReg : Type 0 where
  pub ring_addr : ℕ
  pub ring_entries : ℕ
  pub bgid : ℕ
  pub flags : ℕ

-- The opcodes that the switch names, each with its argument.
pub data Request : Type 0 where
  probe : Option ℕ → Request
  files2 : Option RsrcRegister → Request
  unregister_files : Request
  file_alloc_range : Option IndexRange → Request
  ring_fds : Option ℕ → Request
  unregister_ring_fds : Request
  pbuf_ring : Option BufReg → Request
  unregister_pbuf_ring : Option BufReg → Request
  unknown : Request

-- `struct io_uring_probe`: for each of `nr_args` entries, whether the opcode is supported.
pub record Probe : Type 0 where
  pub last_op : ℕ
  pub ops_len : ℕ
  pub supported : List Bool

abbrev pub member : ℕ → List ℕ → Bool
member i [] = false
member i (c ∷ cs) = (c == i) || member i cs

abbrev pub greatest : ℕ → List ℕ → ℕ
greatest last [] = last
greatest last (c ∷ cs) = greatest (if ltb last c then c else last) cs

-- The entries of opcode `i` and on.
unfoldable pub probe_ops : ℕ → ℕ → List ℕ → List Bool
probe_ops zero i carried = []
probe_ops (suc n) i carried = member i carried ∷ probe_ops n (i + 1) carried

unfoldable pub probe_of : ℕ → List ℕ → Probe
probe_of nr_args carried = record {
  last_op = greatest 0 carried;
  ops_len = if ltb nr_args 256 then nr_args else 255;
  supported = probe_ops nr_args 0 carried;
}

-- IORING_REGISTER_FILES2, on the table that malloc gave or did not.
unfoldable pub register_files : Bool → RsrcRegister → Ring → ℤ × Ring
register_files malloc rr r =
    if not rr.sparse || not (rr.«data» == 0) || not (rr.tags == 0)
    then (neg einval, r)
    else if rr.nr == 0 || ltb (2 ^ 20) rr.nr
    then (neg einval, r)
    else if not (is_null r)
    then (neg ebusy, r)
    else if not malloc
    then (neg enomem, r)
    else (
      pos 0,
      record r {
        fixed = some (replicate rr.nr (neg 1));
        fixed_n = rr.nr;
        alloc_off = 0;
        alloc_len = rr.nr;
        alloc_hint = 0;
      },
    )

-- The descriptors that a table holds, closed in the order of their slots; `fd_close` is
-- slip_native_fd_close.
unfoldable pub close_files : {W : Type 0} → (ℤ → W → W) → List ℤ → W → W
close_files fd_close [] w = w
close_files fd_close (fd ∷ fds) w =
    close_files fd_close fds (if is_neg fd then w else fd_close fd w)

abbrev pub without_files : Ring → Ring
without_files r = record r {
  fixed = none;
  fixed_n = 0;
  alloc_off = 0;
  alloc_len = 0;
  alloc_hint = 0;
}

-- IORING_REGISTER_FILE_ALLOC_RANGE
unfoldable pub register_range : IndexRange → Ring → ℤ × Ring
register_range range r =
    if is_null r
    then (neg enxio, r)
    else if not (range.resv == 0)
        || ltb r.fixed_n range.off
        || ltb (r.fixed_n - range.off) range.len
    then (neg einval, r)
    else (pos 0, record r { alloc_off = range.off; alloc_len = range.len; alloc_hint = range.off })

abbrev pub bufring_for : BufReg → BufRing
bufring_for reg = record {
  bufs = reg.ring_addr;
  entries = reg.ring_entries;
  bgid = reg.bgid;
  head = 0;
  in_use = true;
}

-- The first entry that is not in use takes the group; `none` where all are.
unfoldable pub take_bufring : BufRing → List BufRing → Option (List BufRing)
take_bufring new [] = none
take_bufring new (b ∷ bs) = elim b.in_use [
  | false ↦ some (new ∷ bs)
  | true ↦ elim (take_bufring new bs) [ none ↦ none | some bs' ↦ some (b ∷ bs') ]
]

unfoldable pub place_bufring : Ring → Option (List BufRing) → ℤ × Ring
place_bufring r none = (neg enomem, r)
place_bufring r (some bs) = (pos 0, record r { bufrings = bs })

abbrev pub is_some : Option ℕ → Bool
is_some none = false
is_some (some i) = true

-- IORING_REGISTER_PBUF_RING
unfoldable pub register_bufring : BufReg → Ring → ℤ × Ring
register_bufring reg r =
    if not (reg.flags == 0) || reg.ring_addr == 0
    then (neg einval, r)
    else if reg.ring_entries == 0
        || not (bit_and reg.ring_entries (reg.ring_entries - 1) == 0)
        || ltb (2 ^ 15) reg.ring_entries
    then (neg einval, r)
    else if is_some (bufring_of r reg.bgid)
    then (neg eexist, r)
    else place_bufring r (take_bufring (bufring_for reg) r.bufrings)

-- `memset(b, 0, sizeof(*b))`, at an index of the array.
unfoldable pub clear_bufring : ℕ → List BufRing → List BufRing
clear_bufring i [] = []
clear_bufring zero (b ∷ bs) = zero_bufring ∷ bs
clear_bufring (suc i) (b ∷ bs) = b ∷ clear_bufring i bs

unfoldable pub drop_bufring : Ring → Option ℕ → ℤ × Ring
drop_bufring r none = (neg enoent, r)
drop_bufring r (some i) = (pos 0, record r { bufrings = clear_bufring i r.bufrings })

-- IORING_UNREGISTER_PBUF_RING
unfoldable pub unregister_bufring : BufReg → Ring → ℤ × Ring
unregister_bufring reg r = drop_bufring r (bufring_of r reg.bgid)

-- What a request writes through its argument: a probe, or the offsets of ring descriptors.
pub data Written : Type 0 where
  nothing : Written
  probed : Probe → Written
  offsets : List ℕ → Written

abbrev pub Answer : Type 0 → Type 0
Answer W = ℤ × Written × Engine W

module _ {W : Type 0} (b : Backend W) (malloc : Bool) (fd_close : ℤ → W → W) where
  -- A request that writes the ring alone.
  abbrev pub ring_answer : Engine W → ℕ → ℤ × Ring → Answer W
  ring_answer e i (res, r) = (res, nothing, put_ring e i r)

  -- IORING_UNREGISTER_FILES
  unfoldable pub unregister_table : Engine W → ℕ → Option (List ℤ) → Answer W
  unregister_table e i none = (neg enxio, nothing, e)
  unregister_table e i (some t) = (
    pos 0,
    nothing,
    record (put_ring e i (without_files (e.rings i))) { world = close_files fd_close t e.world },
  )

  -- The switch of register, on ring `i`, whose token is `fd`; `nr_args` stands with the opcodes that
  -- read it.
  unfoldable pub register_at : ℤ → ℕ → Request → Engine W → ℕ → Answer W
  register_at fd nr_args (probe none) e i = (neg efault, nothing, e)
  register_at fd nr_args (probe (some addr)) e i =
      (pos 0, probed (probe_of nr_args b.carried_ops), e)
  register_at fd nr_args (files2 none) e i = (neg efault, nothing, e)
  register_at fd nr_args (files2 (some rr)) e i =
      ring_answer e i (register_files malloc rr (e.rings i))
  register_at fd nr_args unregister_files e i = unregister_table e i (e.rings i).fixed
  register_at fd nr_args (file_alloc_range none) e i = (neg efault, nothing, e)
  register_at fd nr_args (file_alloc_range (some range)) e i =
      ring_answer e i (register_range range (e.rings i))
  register_at fd nr_args (ring_fds none) e i = (neg efault, nothing, e)
  register_at fd nr_args (ring_fds (some addr)) e i =
      (to_s32 nr_args, offsets (replicate nr_args (to_u32 fd)), e)
  register_at fd nr_args unregister_ring_fds e i = (to_s32 nr_args, nothing, e)
  register_at fd nr_args (pbuf_ring none) e i = (neg efault, nothing, e)
  register_at fd nr_args (pbuf_ring (some reg)) e i =
      ring_answer e i (register_bufring reg (e.rings i))
  register_at fd nr_args (unregister_pbuf_ring none) e i = (neg efault, nothing, e)
  register_at fd nr_args (unregister_pbuf_ring (some reg)) e i =
      ring_answer e i (unregister_bufring reg (e.rings i))
  register_at fd nr_args unknown e i = (neg einval, nothing, e)

  unfoldable pub register_on : ℤ → ℕ → Request → Engine W → Option ℕ → Answer W
  register_on fd nr_args q e none = (neg ebadf, nothing, e)
  register_on fd nr_args q e (some i) = register_at fd nr_args q e i

  -- `slipstream_engine_register`, past the flag that the opcode may carry.
  unfoldable pub register : ℤ → ℕ → Request → Engine W → Answer W
  register fd nr_args q e = register_on fd nr_args q e (ring_of e fd)
