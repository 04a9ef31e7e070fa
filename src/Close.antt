-- ===== src/Close.antt =====
-- src/slipstream_engine.c: `slipstream_engine_close`, and the mappings of a ring's block. An address
-- is a number, `none` for NULL.
pub mod Laws
mod Tests
use slipstream_io.Base.{
  ℕ, zero, suc, ◌+◌, ◌^◌, ℤ, pos, neg, Bool, true, false, not, ◌&&◌, ◌||◌, List, [], ◌∷◌, Option,
  none, some, leb, ◌==◌, if◌then◌else◌,
}
use slipstream_io.Abi.{ebadf, enoent}
use slipstream_io.Ring.{Ring, zero_ring}
use slipstream_io.Completion.{op_release}
use slipstream_io.Backend.{Backend}
use slipstream_io.Register.{close_files}
use slipstream_io.Engine.{Engine, rings_max, ring_of, put_ring}

-- IORING_OFF_SQ_RING, IORING_OFF_CQ_RING, IORING_OFF_SQES
abbrev pub off_sq_ring : ℕ
off_sq_ring = 0

abbrev pub off_cq_ring : ℕ
off_cq_ring = 2 ^ 27

abbrev pub off_sqes : ℕ
off_sqes = 2 ^ 28

-- The part of a ring that an offset names.
unfoldable pub part_at : Ring → ℕ → ℕ → Option ℕ
part_at r length offset =
    if offset == off_sq_ring
    then (if leb length r.sq_size then some r.sq_block else none)
    else if offset == off_cq_ring
    then (if leb length r.cq_size then some r.cq_block else none)
    else if offset == off_sqes
    then (if leb length r.sqes_size then some r.sqes_block else none)
    else none

unfoldable pub map_on : {W : Type 0} → Engine W → ℕ → ℕ → Option ℕ → Option ℕ
map_on e length offset none = none
map_on e length offset (some i) = part_at (e.rings i) length offset

-- `slipstream_engine_mmap`
unfoldable pub mmap : {W : Type 0} → Engine W → ℕ → ℤ → ℕ → Option ℕ
mmap e length fd offset = map_on e length offset (ring_of e fd)

abbrev pub is_part : Ring → ℕ → Bool
is_part r addr = r.in_use && (addr == r.sq_block || addr == r.cq_block || addr == r.sqes_block)

-- Whether one of the `n` rings from `i` on has a part at the address.
unfoldable pub is_mapped : {W : Type 0} → ℕ → ℕ → Engine W → ℕ → Bool
is_mapped zero i e addr = false
is_mapped (suc n) i e addr = is_part (e.rings i) addr || is_mapped n (i + 1) e addr

-- `slipstream_engine_munmap`
unfoldable pub munmap : {W : Type 0} → Engine W → ℕ → ℤ
munmap e addr = if is_mapped rings_max 0 e addr then pos 0 else neg enoent

unfoldable pub free_op_list : List ℕ → Ring → Ring
free_op_list [] r = r
free_op_list (p ∷ ps) r = free_op_list ps (op_release r p)

-- The ring's ops, back on the free list.
unfoldable pub free_ops : Ring → Ring
free_ops r =
    let lists = free_op_list r.queue (free_op_list r.wq (free_op_list r.backlog r)) in
    free_op_list r.waiting lists

abbrev pub close_table : {W : Type 0} → (ℤ → W → W) → Option (List ℤ) → W → W
close_table fd_close none w = w
close_table fd_close (some t) w = close_files fd_close t w

-- `join` is what the worker still does until thrd_join comes back; `fd_close` is
-- slip_native_fd_close.
module _ {W : Type 0} (b : Backend W) (join : Ring → W → Ring × W) (fd_close : ℤ → W → W) where
  unfoldable pub stop_worker : Ring → W → Ring × W
  stop_worker r w =
      let stopped = record r { stopping = true } in
      if r.worker_live then join stopped w else (stopped, w)

  -- What is left of the ring and the world when the backend has closed its part.
  unfoldable pub close_parts : Ring → W → Ring × W
  close_parts r w =
      let (joined, w') = stop_worker r w in
      let (closed, w'') = b.close_ring joined w' in
      let freed = free_ops closed in (freed, close_table fd_close freed.fixed w'')

  unfoldable pub close_on : Engine W → Option ℕ → ℤ × Engine W
  close_on e none = (neg ebadf, e)
  close_on e (some i) =
      let (r, w) = close_parts (e.rings i) e.world in
      (pos 0, record (put_ring e i zero_ring) { world = w })

  -- `slipstream_engine_close`
  unfoldable pub close : Engine W → ℤ → ℤ × Engine W
  close e fd = close_on e (ring_of e fd)
