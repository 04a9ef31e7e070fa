-- ===== src/Ring.antt =====
-- src/engine_internal.h: an op, the provided-buffer ring, and the ring itself.
--
-- A `struct eng_op *` is a slot number of `op_pool`, `ops` is what stands in the slots, and a list
-- threaded through `next` is the list of its slots. So two names for one op are one number, and a
-- write through either is seen through the other.
use slipstream_io.Base.{
  ℕ, replicate, ℤ, pos, Bool, true, false, List, [], Option, none, if◌then◌else◌,
}
use slipstream_io.Abi.{Sqe, Cqe, CqeFlags, zero_sqe, no_cqe_flags}

-- SLIP_CHAIN_HOLDS, SLIP_CHAIN_CANCELS, SLIP_CHAIN_CANCELS_QUIETLY
pub data Chain : Type 0 where
  holds cancels cancels_quietly : Chain

-- `if (r->chain_failed)`
abbrev pub is_failed : Chain → Bool
is_failed holds = false
is_failed cancels = true
is_failed cancels_quietly = true

-- `struct eng_op`; `next` is the order of the list that holds the op.
pub record EngOp : Type 0 where
  pub sqe : Sqe
  pub wait_events : ℕ
  pub connect_in_progress : Bool
  pub socket_error : ℕ
  pub wait_slot : ℕ
  pub stalls_queue : Bool
  pub cqe_flags : CqeFlags

-- `memset(op, 0, sizeof(*op))`
abbrev pub zero_op : EngOp
zero_op = record {
  sqe = zero_sqe;
  wait_events = 0;
  connect_in_progress = false;
  socket_error = 0;
  wait_slot = 0;
  stalls_queue = false;
  cqe_flags = no_cqe_flags;
}

-- `struct io_uring_buf`
pub record Buf : Type 0 where
  pub addr : ℕ
  pub len : ℕ
  pub bid : ℕ

-- `struct slip_bufring`: `bufs` is the address of the caller's memory.
pub record BufRing : Type 0 where
  pub bufs : ℕ
  pub entries : ℕ
  pub bgid : ℕ
  pub head : ℕ
  pub in_use : Bool

-- `struct slip_ring`. The words that the caller shares are here too: `sq_*` and `cq_*` are the
-- fields of `struct sq_ring` and `struct cq_ring`, with the three arrays as functions of an index.
-- `fixed` is `none` for NULL; `blocking` and `blocked_done` are op pointers.
pub record Ring : Type 0 where
  pub in_use : Bool
  pub sq_entries : ℕ
  pub cq_entries : ℕ
  pub ops : ℕ → EngOp
  pub op_pool_n : ℕ
  pub op_free : List ℕ
  pub sq_block : ℕ
  pub cq_block : ℕ
  pub sqes_block : ℕ
  pub sq_size : ℕ
  pub cq_size : ℕ
  pub sqes_size : ℕ
  pub sq_head : ℕ
  pub sq_tail : ℕ
  pub sq_mask : ℕ
  pub sq_dropped : ℕ
  pub sq_array : ℕ → ℕ
  pub sqes : ℕ → Sqe
  pub cq_head : ℕ
  pub cq_tail : ℕ
  pub cq_mask : ℕ
  pub cq_overflow : ℕ
  pub cqes : ℕ → Cqe
  pub backlog : List ℕ
  pub wq : List ℕ
  pub blocked_done : Option ℕ
  pub blocked_failed : Chain
  pub queue : List ℕ
  pub waiting : List ℕ
  pub chain_failed : Chain
  pub blocking : Option ℕ
  pub fixed : Option (List ℤ)
  pub fixed_n : ℕ
  pub alloc_off : ℕ
  pub alloc_len : ℕ
  pub alloc_hint : ℕ
  pub bufrings : List BufRing
  pub worker_live : Bool
  pub stopping : Bool

-- `slip_chain_failure_of`
abbrev pub chain_failure_of : EngOp → Chain
chain_failure_of op = if op.sqe.flags.cqe_skip_success then cancels_quietly else cancels

-- An empty entry of `bufrings`, which SLIP_BUFRINGS_MAX bounds.
abbrev pub zero_bufring : BufRing
zero_bufring = record { bufs = 0; entries = 0; bgid = 0; head = 0; in_use = false }

abbrev pub bufrings_max : ℕ
bufrings_max = 16

-- `memset(r, 0, sizeof(*r))`
abbrev pub zero_ring : Ring
zero_ring = record {
  in_use = false;
  sq_entries = 0;
  cq_entries = 0;
  ops = λ i. zero_op;
  op_pool_n = 0;
  op_free = [];
  sq_block = 0;
  cq_block = 0;
  sqes_block = 0;
  sq_size = 0;
  cq_size = 0;
  sqes_size = 0;
  sq_head = 0;
  sq_tail = 0;
  sq_mask = 0;
  sq_dropped = 0;
  sq_array = λ i. 0;
  sqes = λ i. zero_sqe;
  cq_head = 0;
  cq_tail = 0;
  cq_mask = 0;
  cq_overflow = 0;
  cqes = λ i. record { user_data = 0; res = pos 0; flags = no_cqe_flags };
  backlog = [];
  wq = [];
  blocked_done = none;
  blocked_failed = holds;
  queue = [];
  waiting = [];
  chain_failed = holds;
  blocking = none;
  fixed = none;
  fixed_n = 0;
  alloc_off = 0;
  alloc_len = 0;
  alloc_hint = 0;
  bufrings = replicate bufrings_max zero_bufring;
  worker_live = false;
  stopping = false;
}
