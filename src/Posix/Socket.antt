-- ===== src/Posix/Socket.antt =====
-- src/engine_posix.c: `slip_posix_cmd_sock`, `revents_now` and `try_connect`.
use slipstream_io.Base.{
  ℕ, ◌+◌, ◌%◌, ◌/◌, bit_and, u32_mod, ℤ, pos, neg, true, ◌||◌, Option, none, some, ◌==◌,
  if◌then◌else◌,
}
use slipstream_io.Abi.{Sqe, efault, eopnotsupp, enotconn, einprogress, eagain}
use slipstream_io.Ring.{Ring}
use slipstream_io.Posix.Sys.{
  Sys, Outcome, ok, failed, value_of, status_of, pollout, pollnval, o_nonblock, ran, parks, file_op,
  Tried, with_op, parked,
}

-- SOCKET_URING_OP_GETSOCKOPT, SOCKET_URING_OP_SETSOCKOPT, SOCKET_URING_OP_GETSOCKNAME; `cmd_op` is the
-- low word of `off`.
pub data SockCmd : Type 0 where
  get_option set_option get_name unknown_cmd : SockCmd

abbrev pub cmd_of : Sqe → SockCmd
cmd_of s =
    let op = s.off % u32_mod in
    if op == 2
    then get_option
    else if op == 3
    then set_option
    else if op == 5
    then get_name
    else unknown_cmd

-- `level` and `optname` are the words of `addr`, `optval` is `addr3`, `optlen` is `file_index`.
abbrev pub level : Sqe → ℕ
level s = s.addr % u32_mod

abbrev pub optname : Sqe → ℕ
optname s = s.addr / u32_mod

module _ {W : Type 0} (sys : Sys W) where
  abbrev pub name_call : Sqe → W → Outcome × W
  name_call s w =
      if s.file_index == 0
      then sys.getsockname s.fd s.addr s.addr3 w
      else sys.getpeername s.fd s.addr s.addr3 w

  abbrev pub valued : Outcome × W → ℤ × W
  valued (o, w) = (value_of o, w)

  abbrev pub statused : Outcome × W → ℤ × W
  statused (o, w) = (status_of o, w)

  -- `slip_posix_cmd_sock`
  unfoldable pub run_cmd : SockCmd → Sqe → W → ℤ × W
  run_cmd set_option s w =
      statused (sys.setsockopt s.fd (level s) (optname s) s.addr3 s.file_index w)
  run_cmd get_option s w = valued (sys.getsockopt s.fd (level s) (optname s) s.addr3 s.file_index w)
  run_cmd get_name s w =
      if s.addr == 0 || s.addr3 == 0 then (neg efault, w) else statused (name_call s w)
  run_cmd unknown_cmd s w = (neg eopnotsupp, w)

  unfoldable pub cmd_sock : Sqe → W → ℤ × W
  cmd_sock s w = run_cmd (cmd_of s) s w

  -- `revents_now`, by poll(2).
  abbrev pub revents_of : Option ℕ × W → ℕ × W
  revents_of (none, w) = (pollnval, w)
  revents_of (some re, w) = (re, w)

  unfoldable pub revents_now : ℤ → ℕ → W → ℕ × W
  revents_now fd events w = revents_of (sys.poll fd events w)

  unfoldable pub peer_answer : Ring → ℕ → Outcome × W → Tried W
  peer_answer r p (ok n, w) = (ran (pos 0), r, w)
  peer_answer r p (failed e, w) =
      if e == enotconn then parked r p pollout w else (ran (neg e), r, w)

  unfoldable pub so_error_answer : Ring → ℕ → Outcome × W → Tried W
  so_error_answer r p (failed e, w) = (ran (neg e), r, w)
  so_error_answer r p (ok err, w) =
      if err == 0 then peer_answer r p (sys.peer (r.ops p).sqe.fd w) else (ran (neg err), r, w)

  -- A connect that was started before: the answer is the socket's.
  unfoldable pub connect_again : Ring → ℕ → W → Tried W
  connect_again r p w =
      if (r.ops p).socket_error == 0
      then so_error_answer r p (sys.so_error (r.ops p).sqe.fd w)
      else (ran (neg (r.ops p).socket_error), r, w)

  unfoldable pub connect_answer : Ring → ℕ → Outcome → W → Tried W
  connect_answer r p (ok n) w = (ran (pos 0), r, w)
  connect_answer r p (failed e) w =
      if e == einprogress
      then (
        parks,
        with_op r p (record (r.ops p) { connect_in_progress = true; wait_events = pollout }),
        w,
      )
      else if e == eagain
      then (file_op, r, w)
      else (ran (neg e), r, w)

  -- The flags are put back whatever the call answered.
  unfoldable pub connect_restored : Ring → ℕ → ℕ → Outcome × W → Tried W
  connect_restored r p fl (o, w) =
      connect_answer r p o
        (if bit_and fl o_nonblock == 0 then sys.setfl (r.ops p).sqe.fd fl w else w)

  unfoldable pub connect_with : Ring → ℕ → Outcome × W → Tried W
  connect_with r p (failed e, w) = (ran (neg e), r, w)
  connect_with r p (ok fl, w) =
      let s = (r.ops p).sqe in
      connect_restored r p fl (
        sys.connect s.fd s.addr s.off
          (if bit_and fl o_nonblock == 0 then sys.setfl s.fd (fl + o_nonblock) w else w))

  unfoldable pub try_connect : Ring → ℕ → W → Tried W
  try_connect r p w =
      if (r.ops p).connect_in_progress
      then connect_again r p w
      else connect_with r p (sys.getfl (r.ops p).sqe.fd w)
