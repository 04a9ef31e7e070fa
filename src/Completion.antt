-- ===== src/Completion.antt =====
-- src/slipstream_engine.c, "where ops come from" and "completions": the op pool, the completion
-- queue, the backlog, and the two doors that a completion goes out by. The lock that they take
-- makes each door one step.
pub mod Cases
pub mod Window
pub mod Order
pub mod Owners
pub mod Post
mod Tests
use slipstream_io.Base.{
  ℕ, ◌+◌, ◌-◌, ◌%◌, bit_and, ℤ, to_u32, to_s32, u32_mod, Bool, true, false, not, ◌&&◌, List, [],
  ◌∷◌, ◌++◌, Option, none, some, ltb, if◌then◌else◌, is_neg, update,
}
use slipstream_io.Abi.{Cqe, CqeFlags}
use slipstream_io.Ring.{Ring, EngOp, zero_op}

-- `op_alloc_locked`, on the free list read from the ring.
unfoldable pub alloc_from : List ℕ → Ring → Option (ℕ × Ring)
alloc_from [] r = none
alloc_from (p ∷ rest) r = some (p, record r { op_free = rest; ops = update r.ops p zero_op })

unfoldable pub op_alloc_locked : Ring → Option (ℕ × Ring)
unfolding alloc_from
op_alloc_locked r = alloc_from r.op_free r

unfoldable pub op_release : Ring → ℕ → Ring
op_release r p = record r { op_free = p ∷ r.op_free }

unfoldable pub cq_avail : Ring → ℕ
cq_avail r = (r.cq_tail + u32_mod - r.cq_head) % u32_mod

unfoldable pub cq_room : Ring → Bool
unfolding cq_avail
cq_room r = ltb (cq_avail r) r.cq_entries

unfoldable pub post_locked : Ring → ℕ → ℤ → CqeFlags → Ring
post_locked r user_data res flags = record r {
  cqes =
      update r.cqes (bit_and r.cq_tail r.cq_mask)
        (record { user_data = user_data; res = res; flags = flags });
  cq_tail = (r.cq_tail + 1) % u32_mod;
}

-- One round of `drain_backlog_locked`, on the head of the backlog.
unfoldable pub drain_one : ℕ → List ℕ → Ring → Ring
drain_one p rest r =
    let op = r.ops p in
    op_release
      (post_locked (record r { backlog = rest }) op.sqe.user_data (to_s32 op.sqe.pad) op.cqe_flags)
      p

-- The loop of `drain_backlog_locked`, over the backlog from its head.
unfoldable pub drain_from : List ℕ → Ring → Ring
drain_from [] r = r
drain_from (p ∷ rest) r = elim (cq_room r) [
  | true ↦ drain_from rest (drain_one p rest r)
  | false ↦ r
]

unfoldable pub drain_backlog_locked : Ring → Ring
drain_backlog_locked r = drain_from r.backlog r

unfoldable pub backlog_locked : Ring → ℕ → ℤ → Ring
backlog_locked r p res = record r {
  ops = update r.ops p (record op { sqe = record sqe { pad = to_u32 res } });
  backlog = r.backlog ++ (p ∷ []);
  cq_overflow = (r.cq_overflow + 1) % u32_mod;
}
  where
    op : EngOp
    op = r.ops p

    open op use {sqe}

-- `slip_engine_post` past the drain.
unfoldable pub post_drained : Ring → ℕ → ℤ → Ring
post_drained r p res =
    let op = r.ops p in
    if not (is_neg res) && op.sqe.flags.cqe_skip_success
    then op_release r p
    else if cq_room r
    then op_release (post_locked r op.sqe.user_data res op.cqe_flags) p
    else backlog_locked r p res

unfoldable pub post : Ring → ℕ → ℤ → Ring
unfolding post_drained
post r p res = post_drained (drain_backlog_locked r) p res

-- An emission that rides on the allocated op, in `slip_engine_emit`.
unfoldable pub emit_carried : Ring → ℕ → ℕ → ℤ → CqeFlags → Ring
emit_carried r p user_data res flags =
    let carrier : EngOp = record zero_op {
      sqe = record zero_op.sqe { user_data = user_data };
      cqe_flags = flags;
    } in
    backlog_locked (record r { ops = update r.ops p carrier }) p res

-- `slip_engine_emit` where the queue is full, on what `op_alloc_locked` answered.
unfoldable pub emit_on : Option (ℕ × Ring) → Ring → ℕ → ℤ → CqeFlags → Ring
emit_on none r user_data res flags = record r { cq_overflow = (r.cq_overflow + 1) % u32_mod }
emit_on (some (p, r')) r user_data res flags = emit_carried r' p user_data res flags

unfoldable pub emit_full : Ring → ℕ → ℤ → CqeFlags → Ring
unfolding emit_on
emit_full r user_data res flags = emit_on (op_alloc_locked r) r user_data res flags

unfoldable pub emit : Ring → ℕ → ℤ → CqeFlags → Ring
emit r user_data res flags =
    let d = drain_backlog_locked r in
    if cq_room d then post_locked d user_data res flags else emit_full d user_data res flags
