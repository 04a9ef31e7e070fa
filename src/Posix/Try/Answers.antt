-- ===== src/Posix/Try/Answers.antt =====
-- An attempt at an op that is not multishot answers; one at an op that is answers the same with more
-- rounds to spend.
use slipstream_io.Base.{ℕ, zero, suc, ◌≡◌, refl, ℤ, false, Option, some, Bool-cases, inl, inr}
use mathlib.Core.Option.{none-ne-some}
use slipstream_io.Abi.{
  Opcode, nop, read, write, recv, send, recvmsg, sendmsg, accept, connect, socket, bind, listen,
  shutdown, close, poll_add, poll_remove, async_cancel, statx, unlinkat, openat, openat2, uring_cmd,
  msg_ring, other, Sqe,
}
use slipstream_io.Ring.{Ring}
use slipstream_io.Posix.Sys.{Sys, Tried}
use slipstream_io.Posix.Multishot.{Shot, stop, more, shots}
use slipstream_io.Posix.Try.{try_recv, try_accept, try_recvmsg, try_op, posix_try}

-- More rounds change no answer.
pub shots-more :
    {W : Type 0} (n : ℕ) (round : Ring → W → Shot W) (r : Ring) (w : W) (x : Tried W)
    → shots n round r w ≡ some x
    → shots (suc n) round r w ≡ some x
unfolding shots
shots-more {W = W} zero round r w x e = absurd (none-ne-some _ e)
shots-more {W = W} (suc n) round r w x e = went (round r w) (λ s v. shots-more n round s v x) e
  where
    went :
        (y : Shot W)
        → ((s : Ring) (v : W) → shots n round s v ≡ some x → shots (suc n) round s v ≡ some x)
        → elim y [ stop v s u ↦ some (v, s, u) | more s u ↦ shots n round s u ] ≡ some x
        → elim y [ stop v s u ↦ some (v, s, u) | more s u ↦ shots (suc n) round s u ] ≡ some x
    went (stop v s u) f h = h
    went (more s u) f h = f s u h

-- The op has no multishot flag.
pub record IsSingle (s : Sqe) : Type 0 where
  pub accepts : s.accept_multishot ≡ false
  pub recvs : s.recv_multishot ≡ false

module _ {W : Type 0} (sys : Sys W) (forget : Option (ℤ → W → W)) where
  abbrev HasAnswer : Option (Tried W) → Type 0
  HasAnswer o = (t : Tried W) × (o ≡ some t)

  try_op-HasAnswer :
      (n : ℕ) (c : Opcode) (r : Ring) (p : ℕ) (s : Sqe) (w : W)
      → IsSingle s
      → HasAnswer (try_op sys forget n c r p s w)
  unfolding try_op try_recv try_accept try_recvmsg
  try_op-HasAnswer n recv r p s w k = elim (Bool-cases s.recvsend_bundle) [
    | inl e ↦ rw e (_, refl)
    | inr e ↦ rw (e, k.recvs) (_, refl)
  ]
  try_op-HasAnswer n accept r p s w k = rw k.accepts (_, refl)
  try_op-HasAnswer n recvmsg r p s w k = rw k.recvs (_, refl)
  try_op-HasAnswer n nop r p s w k = (_, refl)
  try_op-HasAnswer n close r p s w k = (_, refl)
  try_op-HasAnswer n send r p s w k = (_, refl)
  try_op-HasAnswer n read r p s w k = (_, refl)
  try_op-HasAnswer n write r p s w k = (_, refl)
  try_op-HasAnswer n socket r p s w k = (_, refl)
  try_op-HasAnswer n bind r p s w k = (_, refl)
  try_op-HasAnswer n listen r p s w k = (_, refl)
  try_op-HasAnswer n shutdown r p s w k = (_, refl)
  try_op-HasAnswer n sendmsg r p s w k = (_, refl)
  try_op-HasAnswer n poll_add r p s w k = (_, refl)
  try_op-HasAnswer n statx r p s w k = (_, refl)
  try_op-HasAnswer n unlinkat r p s w k = (_, refl)
  try_op-HasAnswer n uring_cmd r p s w k = (_, refl)
  try_op-HasAnswer n connect r p s w k = (_, refl)
  try_op-HasAnswer n openat r p s w k = (_, refl)
  try_op-HasAnswer n openat2 r p s w k = (_, refl)
  try_op-HasAnswer n poll_remove r p s w k = (_, refl)
  try_op-HasAnswer n async_cancel r p s w k = (_, refl)
  try_op-HasAnswer n msg_ring r p s w k = (_, refl)
  try_op-HasAnswer n (other code) r p s w k = (_, refl)

  pub posix_try-HasAnswer :
      (n : ℕ) (r : Ring) (p : ℕ) (w : W)
      → IsSingle (r.ops p).sqe
      → HasAnswer (posix_try sys forget n r p w)
  unfolding posix_try
  posix_try-HasAnswer n r p w k = try_op-HasAnswer n (r.ops p).sqe.opcode r p (r.ops p).sqe w k
