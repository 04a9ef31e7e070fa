-- ===== src/Posix/Execute.antt =====
-- src/engine_posix.c: `slip_posix_execute` and `slip_posix_finish_ready`.
pub mod Keep
pub mod Ready
pub mod Tries
mod Tests
use slipstream_io.Base.{
  ℕ, zero, suc, ℤ, pos, neg, Bool, true, false, ◌||◌, List, [], ◌∷◌, Option, none, some,
  if◌then◌else◌,
}
use slipstream_io.Abi.{ebusy, eopnotsupp}
use slipstream_io.Ring.{Ring, EngOp}
use slipstream_io.Backend.{Exec, done, pending}
use slipstream_io.Posix.{park, unpark, hand_to_worker}
use slipstream_io.Posix.Sys.{Sys, Verdict, ran, parks, file_op, Tried}
use slipstream_io.Posix.Try.{posix_try}
use slipstream_io.Posix.Cancel.{is_async_cancel, is_poll_remove, cancel_matching}

-- What a readiness backend brings: the mirror of the parked set, the door for a closed descriptor,
-- its own place for what blocks, and whether the worker could be started.
pub record Readiness (W : Type 0) : Type 0 where
  pub arm : Ring → ℕ → W → Bool × W
  pub disarm : Ring → ℕ → W → W
  pub forget : Option (ℤ → W → W)
  pub submit_blocking : Option (Ring → ℕ → W → W)
  pub started : W → Bool

-- An op that was tried again: finished, or parked again.
pub data Retried (W : Type 0) : Type 0 where
  finished : ℤ → Ring → W → Retried W
  waits_on : Ring → W → Retried W

module _ {W : Type 0} (sys : Sys W) (b : Readiness W) where
  unfoldable pub park_answer : Bool × Ring × W → Exec × Ring × W
  park_answer (true, r, w) = (pending, r, w)
  park_answer (false, r, w) = (done (neg ebusy), r, w)

  unfoldable pub block_on : Option (Ring → ℕ → W → W) → Ring → ℕ → W → Exec × Ring × W
  block_on none r p w = (pending, hand_to_worker (b.started w) r p, w)
  block_on (some submit) r p w = (pending, r, submit r p w)

  unfoldable pub verdict_on : ℕ → Tried W → Exec × Ring × W
  verdict_on p (ran res, r, w) = (done res, r, w)
  verdict_on p (parks, r, w) = park_answer (park b.arm b.disarm r p w)
  verdict_on p (file_op, r, w) = block_on b.submit_blocking r p w

  unfoldable pub tried_on : ℕ → Option (Tried W) → Option (Exec × Ring × W)
  tried_on p none = none
  tried_on p (some t) = some (verdict_on p t)

  unfoldable pub cancelled_on : Option (ℤ × Ring × W) → Option (Exec × Ring × W)
  cancelled_on none = none
  cancelled_on (some (res, r, w)) = some (done res, r, w)

  -- `slip_posix_execute`, with `n` rounds for a multishot loop.
  unfoldable pub posix_execute : ℕ → Ring → ℕ → W → Option (Exec × Ring × W)
  posix_execute n r p w =
      let op = r.ops p in
      if is_async_cancel op.sqe.opcode || is_poll_remove op.sqe.opcode
      then cancelled_on (cancel_matching op b.arm b.disarm r w)
      else tried_on p (posix_try sys b.forget n r p w)

  unfoldable pub park_again : Bool × Ring × W → Retried W
  park_again (true, r, w) = waits_on r w
  park_again (false, r, w) = finished (neg ebusy) r w

  unfoldable pub retry_verdict : ℕ → Tried W → Retried W
  retry_verdict p (ran res, r, w) = finished res r w
  retry_verdict p (file_op, r, w) = finished (neg eopnotsupp) r w
  retry_verdict p (parks, r, w) = park_again (park b.arm b.disarm r p w)

  unfoldable pub retried_on : ℕ → Option (Tried W) → Option (Retried W)
  retried_on p none = none
  retried_on p (some t) = some (retry_verdict p t)

  -- One round of the loop of `slip_posix_finish_ready`.
  unfoldable pub retry : ℕ → Ring → ℕ → W → Option (Retried W)
  retry n r p w =
      let (r', w') = unpark b.arm b.disarm r p w in retried_on p (posix_try sys b.forget n r' p w')

  -- The loop over the ready ops, for as many results as there is room for.
  unfoldable pub finish_ready : ℕ → List ℕ → ℕ → Ring → W → Option (List (ℕ × ℤ) × Ring × W)
  finish_ready n [] room r w = some ([], r, w)
  finish_ready n (p ∷ ready) zero r w = some ([], r, w)
  finish_ready n (p ∷ ready) (suc room) r w = elim (retry n r p w) [
    | none ↦ none
    | some (waits_on s v) ↦ finish_ready n ready (suc room) s v
    | some (finished res s v) ↦ elim (finish_ready n ready room s v) [
      | none ↦ none
      | some (out, t, u) ↦ some ((p, res) ∷ out, t, u)
    ]
  ]
