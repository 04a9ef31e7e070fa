-- ===== src/Engine.antt =====
-- src/slipstream_engine.c, "the engine thread" and what stands round it: the rings, the queue, a
-- message to another ring, and how a finished op settles its chain.
pub mod Heads
pub mod Queue
pub mod Chains
pub mod Messages
mod Tests
use slipstream_io.Base.{
  ℕ, zero, suc, ◌+◌, ◌-◌, ◌^◌, ℤ, pos, negsuc, neg, is_neg, to_s32, Bool, true, false, not, ◌&&◌,
  ◌||◌, List, [], ◌∷◌, Option, none, some, ltb, leb, ◌==◌, if◌then◌else◌, update,
}
use slipstream_io.Abi.{
  Opcode, nop, socket, msg_ring, Sqe, SqeFlags, no_cqe_flags, ebadf, ecanceled, eopnotsupp,
}
use slipstream_io.Ring.{
  Ring, EngOp, Chain, holds, cancels, cancels_quietly, is_failed, chain_failure_of,
}
use slipstream_io.Completion.{op_release, post, emit, drain_backlog_locked}
use slipstream_io.Fixed.{fixed_lookup}
use slipstream_io.Backend.{Backend, Exec, done, pending}

-- `g_rings`, SLIP_RINGS_MAX of them, and what the backend keeps.
pub record Engine (W : Type 0) : Type 0 where
  pub rings : ℕ → Ring
  pub world : W

abbrev pub rings_max : ℕ
rings_max = 64

-- SLIP_RING_TOKEN, bit 30 of an `int`
abbrev pub ring_token : ℕ
ring_token = 2 ^ 30

-- IORING_MSG_DATA
abbrev pub msg_data : ℕ
msg_data = 0

-- A match on a pointer.
abbrev pub same_op : Option ℕ → ℕ → Bool
same_op none p = false
same_op (some q) p = q == p

-- `complete`, for an op that the backend's wait hands back.
unfoldable pub complete : Ring → ℕ → ℤ → Ring
complete r p res =
    let op = r.ops p in
    let settled =
      if same_op r.blocking p
      then record r {
        blocking = none;
        chain_failed = if is_neg res then chain_failure_of op else r.chain_failed;
      }
      else if is_neg res && op.sqe.flags.io_link
      then record r { chain_failed = chain_failure_of op }
      else r in
    post settled p res

-- How a member of a failed chain goes, in `process_queue`.
unfoldable pub drop_head : Chain → Ring → ℕ → Ring
drop_head cancels_quietly r p = op_release r p
drop_head _ r p = post r p (neg ecanceled)

-- A member of a chain that failed, in `process_queue`.
unfoldable pub cancel_head : Ring → ℕ → Ring
cancel_head r p =
    if (r.ops p).sqe.flags.io_link
    then drop_head r.chain_failed r p
    else record (drop_head r.chain_failed r p) { chain_failed = holds }

abbrev pub is_fixed_exempt : Opcode → Bool
is_fixed_exempt socket = true
is_fixed_exempt nop = true
is_fixed_exempt _ = false

-- The op names its descriptor by a slot of the fixed table.
abbrev pub wants_fixed : EngOp → Bool
wants_fixed op = op.sqe.flags.fixed_file && not (is_fixed_exempt op.sqe.opcode)

abbrev pub is_msg_ring : Opcode → Bool
is_msg_ring msg_ring = true
is_msg_ring _ = false

-- The chain standing after a result that is known at once.
unfoldable pub settle : Ring → ℕ → ℤ → Ring
settle r p res =
    if is_neg res && (r.ops p).sqe.flags.io_link
    then record r { chain_failed = chain_failure_of (r.ops p) }
    else r

-- An op whose fixed slot holds no descriptor, in `process_queue`.
unfoldable pub refuse_head : Ring → ℕ → Ring
refuse_head r p =
    let op = r.ops p in
    post (if op.sqe.flags.io_link then record r { chain_failed = chain_failure_of op } else r) p
      (neg ebadf)

-- The slot becomes the real descriptor and the flag comes off.
unfoldable pub resolve : Ring → ℕ → ℤ → Ring
resolve r p realfd =
    let s = (r.ops p).sqe in
    record r {
      ops = update r.ops p (record (r.ops p) {
        sqe = record s { fd = realfd; flags = record s.flags { fixed_file = false } };
      });
    }

-- `ring_of`: the index of the live ring that a token names.
unfoldable pub ring_of : {W : Type 0} → Engine W → ℤ → Option ℕ
ring_of e (negsuc n) = none
ring_of e (pos fd) =
    let i = fd - ring_token in
    if ltb fd ring_token || leb rings_max i || not (e.rings i).in_use then none else some i

abbrev pub put_ring : {W : Type 0} → Engine W → ℕ → Ring → Engine W
put_ring e i r = record e { rings = update e.rings i r }

-- The test of the loop in `process_queue`, and the op that a round takes off the queue.
unfoldable pub next_from : List ℕ → Option ℕ → Ring → Option (ℕ × Ring)
next_from [] blocking r = none
next_from (p ∷ rest) (some q) r = none
next_from (p ∷ rest) none r = some (p, record r { queue = rest })

unfoldable pub next_op : Ring → Option (ℕ × Ring)
next_op r = next_from r.queue r.blocking r

module _ {W : Type 0} (b : Backend W) where
  -- `msg_ring`, to the ring that `ring_of` found.
  unfoldable pub msg_to : Engine W → ℕ → Sqe → Option ℕ → ℤ × Engine W
  msg_to e from s none = (neg ebadf, e)
  msg_to e from s (some to) =
      let r = emit (e.rings to) s.off (to_s32 s.len) no_cqe_flags in
      (pos 0, record (put_ring e to r) { world = if to == from then e.world else b.poke r e.world })

  unfoldable pub msg_ring_op : Engine W → ℕ → Sqe → ℤ × Engine W
  msg_ring_op e from s =
      if not (s.addr == msg_data) then (neg eopnotsupp, e) else msg_to e from s (ring_of e s.fd)

  -- What `process_queue` does with the backend's answer.
  unfoldable pub executed : Engine W → ℕ → ℕ → Exec × Ring × W → Engine W
  executed e i p (done res, r, w) = record (put_ring e i (post (settle r p res) p res)) {
    world = w;
  }
  executed e i p (pending, r, w) =
      record (put_ring e i
        (if (r.ops p).sqe.flags.io_link then record r { blocking = some p } else r)) { world = w }

  -- An op whose descriptor is resolved, in `process_queue`.
  unfoldable pub run_head : Engine W → ℕ → ℕ → Engine W
  run_head e i p =
      if is_msg_ring ((e.rings i).ops p).sqe.opcode
      then (let (res, e') = msg_ring_op e i ((e.rings i).ops p).sqe in
          put_ring e' i (post (e'.rings i) p res))
      else executed e i p (b.execute (e.rings i) p e.world)

  -- One round of `process_queue`, on the op taken off the head of ring `i`'s queue.
  unfoldable pub process_head : Engine W → ℕ → ℕ → Engine W
  process_head e i p =
      let r = e.rings i in
      let realfd = fixed_lookup r (r.ops p).sqe.fd in
      if is_failed r.chain_failed
      then put_ring e i (cancel_head r p)
      else if wants_fixed (r.ops p)
      then (if is_neg realfd
          then put_ring e i (refuse_head r p)
          else run_head (put_ring e i (resolve r p realfd)) i p)
      else run_head e i p

  -- `process_queue`: while the queue has an op and no linked op is pending. The fuel is the number
  -- of rounds left.
  unfoldable pub process_queue : ℕ → Engine W → ℕ → Engine W
  process_queue zero e i = e
  process_queue (suc fuel) e i = elim (next_op (e.rings i)) [
    | none ↦ e
    | some (p, r) ↦ process_queue fuel (process_head (put_ring e i r) i p) i
  ]

-- `settle_worker_ticket`: the worker's word on the op that the queue waits for.
unfoldable pub settle_worker_ticket : Ring → Ring
settle_worker_ticket r = drain_backlog_locked (elim r.blocked_done [
  | none ↦ r
  | some p ↦
      if same_op r.blocking p
      then record r {
        blocking = none;
        blocked_done = none;
        chain_failed = if is_failed r.blocked_failed then r.blocked_failed else r.chain_failed;
        blocked_failed = holds;
      }
      else r
])
