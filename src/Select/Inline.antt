-- ===== src/Select/Inline.antt =====
-- The ops that the select backend finishes at once, with an answer that the op alone decides: a NOP, and those
-- that the POSIX machinery does not carry.
use slipstream_io.Base.{
  ℕ, ◌≡◌, refl, sym, ℤ, pos, neg, IsInt32, Bool, true, false, arith, some, Option,
}
use slipstream_io.Abi.{
  Opcode, nop, read, write, recv, send, recvmsg, sendmsg, accept, connect, socket, bind, listen,
  shutdown, close, poll_add, poll_remove, async_cancel, statx, unlinkat, openat, openat2, uring_cmd,
  msg_ring, other, Sqe, eopnotsupp,
}
use slipstream_io.Ring.{Ring, EngOp}
use slipstream_io.Engine.Chains.{IsInline}
use slipstream_io.Posix.Parking.{true-ne-false}
use slipstream_io.Posix.Sys.{Sys, ran}
use slipstream_io.Posix.Try.{try_op, posix_try}
use slipstream_io.Posix.Cancel.{is_async_cancel, is_poll_remove, is_all, is_followed}
use slipstream_io.Posix.Execute.{posix_execute, tried_on, verdict_on}
use slipstream_io.Select.{Select, select_readiness}
use slipstream_io.Select.Backed.{select_backend}

abbrev pub is_immediate : Opcode → Bool
is_immediate nop = true
is_immediate (other code) = true
is_immediate _ = false

abbrev pub immediate_answer : Opcode → ℤ
immediate_answer nop = pos 0
immediate_answer _ = neg eopnotsupp

abbrev pub at_once : EngOp → Bool
at_once op = is_immediate op.sqe.opcode

abbrev pub answer : EngOp → ℤ
answer op = immediate_answer op.sqe.opcode

immediate_answer-IsInt32 : (c : Opcode) → IsInt32 (immediate_answer c)
immediate_answer-IsInt32 nop = omega arith
immediate_answer-IsInt32 read = omega arith
immediate_answer-IsInt32 write = omega arith
immediate_answer-IsInt32 recv = omega arith
immediate_answer-IsInt32 send = omega arith
immediate_answer-IsInt32 recvmsg = omega arith
immediate_answer-IsInt32 sendmsg = omega arith
immediate_answer-IsInt32 accept = omega arith
immediate_answer-IsInt32 connect = omega arith
immediate_answer-IsInt32 socket = omega arith
immediate_answer-IsInt32 bind = omega arith
immediate_answer-IsInt32 listen = omega arith
immediate_answer-IsInt32 shutdown = omega arith
immediate_answer-IsInt32 close = omega arith
immediate_answer-IsInt32 poll_add = omega arith
immediate_answer-IsInt32 poll_remove = omega arith
immediate_answer-IsInt32 async_cancel = omega arith
immediate_answer-IsInt32 statx = omega arith
immediate_answer-IsInt32 unlinkat = omega arith
immediate_answer-IsInt32 openat = omega arith
immediate_answer-IsInt32 openat2 = omega arith
immediate_answer-IsInt32 uring_cmd = omega arith
immediate_answer-IsInt32 msg_ring = omega arith
immediate_answer-IsInt32 (other code) = omega arith

-- What the machinery does with such an op.
record IsImmediate (c : Opcode) : Type 1 where
  no_cancel : is_async_cancel c ≡ false
  no_removal : is_poll_remove c ≡ false
  ran_at_once :
      {W : Type 0} (sys : Sys W) (forget : Option (ℤ → W → W)) (n : ℕ) (r : Ring) (p : ℕ) (s : Sqe)
      (w : W)
      → try_op sys forget n c r p s w ≡ some (ran (immediate_answer c), r, w)

is_immediate-IsImmediate : (c : Opcode) → is_immediate c ≡ true → IsImmediate c
unfolding try_op
is_immediate-IsImmediate nop e = record {
  no_cancel = refl;
  no_removal = refl;
  ran_at_once = λ {W} sys forget n r p s w. refl;
}
is_immediate-IsImmediate (other code) e = record {
  no_cancel = refl;
  no_removal = refl;
  ran_at_once = λ {W} sys forget n r p s w. refl;
}
is_immediate-IsImmediate read e = absurd (true-ne-false (sym e))
is_immediate-IsImmediate write e = absurd (true-ne-false (sym e))
is_immediate-IsImmediate recv e = absurd (true-ne-false (sym e))
is_immediate-IsImmediate send e = absurd (true-ne-false (sym e))
is_immediate-IsImmediate recvmsg e = absurd (true-ne-false (sym e))
is_immediate-IsImmediate sendmsg e = absurd (true-ne-false (sym e))
is_immediate-IsImmediate accept e = absurd (true-ne-false (sym e))
is_immediate-IsImmediate connect e = absurd (true-ne-false (sym e))
is_immediate-IsImmediate socket e = absurd (true-ne-false (sym e))
is_immediate-IsImmediate bind e = absurd (true-ne-false (sym e))
is_immediate-IsImmediate listen e = absurd (true-ne-false (sym e))
is_immediate-IsImmediate shutdown e = absurd (true-ne-false (sym e))
is_immediate-IsImmediate close e = absurd (true-ne-false (sym e))
is_immediate-IsImmediate poll_add e = absurd (true-ne-false (sym e))
is_immediate-IsImmediate poll_remove e = absurd (true-ne-false (sym e))
is_immediate-IsImmediate async_cancel e = absurd (true-ne-false (sym e))
is_immediate-IsImmediate statx e = absurd (true-ne-false (sym e))
is_immediate-IsImmediate unlinkat e = absurd (true-ne-false (sym e))
is_immediate-IsImmediate openat e = absurd (true-ne-false (sym e))
is_immediate-IsImmediate openat2 e = absurd (true-ne-false (sym e))
is_immediate-IsImmediate uring_cmd e = absurd (true-ne-false (sym e))
is_immediate-IsImmediate msg_ring e = absurd (true-ne-false (sym e))

module _ {W : Type 0} (fds : Select W) (posix : Sys W) (started : W → Bool) (n : ℕ) where
  -- The select backend answers these ops at once and leaves the ring and the world alone.
  pub select_backend-IsInline : IsInline W (select_backend fds posix started n) at_once answer
  unfolding is_followed is_all posix_execute posix_try tried_on verdict_on
  select_backend-IsInline = record {
    inline = λ r p w e.
        let i = is_immediate-IsImmediate (r.ops p).sqe.opcode e in
        (
          w,
          rw
              (
                i.no_cancel,
                i.no_removal,
                i.ran_at_once posix (select_readiness fds posix started).forget n r p (r.ops p).sqe
                    w,
              )
              refl,
        );
    int32 = λ op. immediate_answer-IsInt32 op.sqe.opcode;
  }
