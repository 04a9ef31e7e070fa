-- ===== src/Posix/Worker.antt =====
-- src/engine_posix.c: `slip_posix_run_blocking`, and one turn of `worker_main`. The lock makes a turn's
-- steps on the ring: taking an op, the ticket, and the post.
use slipstream_io.Base.{
  ℕ, ℤ, pos, neg, is_neg, List, [], ◌∷◌, Option, none, some, ltb, if◌then◌else◌,
}
use slipstream_io.Abi.{
  Opcode, read, write, recv, send, connect, openat, openat2, Sqe, einval, eopnotsupp,
}
use slipstream_io.Ring.{Ring, holds, chain_failure_of}
use slipstream_io.Completion.{post}
use slipstream_io.Posix.Sys.{Sys, Outcome, ok, failed, value_of, off_is_current}

-- sizeof(struct slip_open_how)
abbrev pub open_how_size : ℕ
open_how_size = 24

-- The op that the worker takes off its queue; `none` where there is nothing or the ring is stopping.
unfoldable pub take_from : List ℕ → Ring → Option (ℕ × Ring)
take_from [] r = none
take_from (p ∷ rest) r = if r.stopping then none else some (p, record r { wq = rest })

unfoldable pub worker_take : Ring → Option (ℕ × Ring)
worker_take r = take_from r.wq r

-- The ticket of an op that stalls its queue, put up before the post.
unfoldable pub put_ticket : Ring → ℕ → ℤ → Ring
put_ticket r p res =
    if (r.ops p).stalls_queue
    then record r {
      blocked_done = some p;
      blocked_failed = if is_neg res then chain_failure_of (r.ops p) else holds;
    }
    else r

unfoldable pub worker_post : Ring → ℕ → ℤ → Ring
worker_post r p res = post (put_ticket r p res) p res

module _ {W : Type 0} (sys : Sys W) where
  abbrev pub blocking_value : Outcome × W → ℤ × W
  blocking_value (o, w) = (value_of o, w)

  abbrev pub blocking_connect : Outcome × W → ℤ × W
  blocking_connect (ok n, w) = (pos 0, w)
  blocking_connect (failed e, w) = (neg e, w)

  -- `slip_posix_run_blocking`, by opcode.
  unfoldable pub run_blocking_as : Opcode → Sqe → W → ℤ × W
  run_blocking_as read s w = blocking_value (
      if off_is_current s.off
      then sys.read s.fd s.addr s.len w
      else sys.pread s.fd s.addr s.len s.off w)
  run_blocking_as write s w = blocking_value (
      if off_is_current s.off
      then sys.write s.fd s.addr s.len w
      else sys.pwrite s.fd s.addr s.len s.off w)
  run_blocking_as recv s w = blocking_value (sys.recv s.fd s.addr s.len s.rw_flags s.msg_dontwait w)
  run_blocking_as send s w = blocking_value (sys.send s.fd s.addr s.len s.rw_flags s.msg_dontwait w)
  run_blocking_as connect s w = blocking_connect (sys.connect s.fd s.addr s.off w)
  run_blocking_as openat s w = blocking_value (sys.openat s.fd s.addr s.rw_flags s.len w)
  run_blocking_as openat2 s w =
      if ltb s.len open_how_size
      then (neg einval, w)
      else blocking_value (sys.openat2 s.fd s.addr s.off s.len w)
  run_blocking_as _ s w = (neg eopnotsupp, w)

  unfoldable pub run_blocking : Sqe → W → ℤ × W
  run_blocking s w = run_blocking_as s.opcode s w

  unfoldable pub worker_ran : (Ring → W → W) → ℕ → Ring → ℤ × W → Ring × W
  worker_ran poke p r (res, w) = let s = worker_post r p res in (s, poke s w)

  unfoldable pub worker_on : (Ring → W → W) → Option (ℕ × Ring) → Ring → W → Ring × W
  worker_on poke none r w = (r, w)
  worker_on poke (some (p, s)) r w = worker_ran poke p s (run_blocking (s.ops p).sqe w)

  -- A turn of the loop of `worker_main`; `poke` is slip_posix_poke.
  unfoldable pub worker_turn : (Ring → W → W) → Ring → W → Ring × W
  worker_turn poke r w = worker_on poke (worker_take r) r w
