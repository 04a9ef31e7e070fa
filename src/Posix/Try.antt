-- ===== src/Posix/Try.antt =====
-- src/engine_posix.c: `slip_posix_try`, one attempt at an op, by its opcode.
pub mod Keep
pub mod Answers
use slipstream_io.Base.{
  ℕ, zero, suc, ◌+◌, ◌-◌, ◌^◌, ◌%◌, u32_mod, ℤ, pos, neg, to_s32, is_neg, Bool, true, false, not,
  ◌&&◌, ◌||◌, Option, none, some, ltb, ◌==◌, if◌then◌else◌,
}
use slipstream_io.Abi.{
  Opcode, nop, read, write, recv, send, recvmsg, sendmsg, accept, connect, socket, bind, listen,
  shutdown, close, poll_add, poll_remove, async_cancel, statx, unlinkat, openat, openat2, uring_cmd,
  msg_ring, other, Sqe, CqeFlags, eagain, einval, enosys, enobufs, eopnotsupp, no_cqe_flags,
}
use slipstream_io.Ring.{Ring, EngOp}
use slipstream_io.Completion.{emit}
use slipstream_io.Fixed.{fixed_lookup, fixed_clear}
use slipstream_io.Posix.{u16_mod}
use slipstream_io.Posix.Sys.{
  Sys, Outcome, ok, failed, FileKind, regular, block, directory, readiness, value_of, status_of,
  would_block, pollin, pollout, Verdict, ran, parks, file_op, Tried, with_op, parked,
  off_is_current, set_nonblock, accept_one,
}
use slipstream_io.Posix.Multishot.{
  answer_fd, more_flags, shots, accept_shot, recv_shot, recvmsg_shots, Chosen, cqe_flags_of, choose,
  give_back,
}
use slipstream_io.Posix.Socket.{cmd_sock, revents_now, try_connect}

-- What `fd_is_pollable` answers: 1, 0 and -1.
pub data Pollable : Type 0 where
  pollable unpollable broken : Pollable

abbrev pub pollable_of : Option FileKind → Pollable
pollable_of none = broken
pollable_of (some regular) = unpollable
pollable_of (some block) = unpollable
pollable_of (some directory) = unpollable
pollable_of (some readiness) = pollable

-- `nowait_missed`
abbrev pub nowait_missed : ℕ → Bool
nowait_missed e = would_block e || e == eopnotsupp || e == enosys || e == einval

-- A call that is done, whatever it answered.
abbrev pub done_status : {W : Type 0} → Ring → Outcome × W → Tried W
done_status r (o, w) = (ran (status_of o), r, w)

-- A call that parks where it would block, unless the caller asked not to wait.
unfoldable pub done_or_parked : {W : Type 0} → Ring → ℕ → ℕ → Bool → Outcome × W → Tried W
done_or_parked r p events dontwait (ok n, w) = (ran (to_s32 n), r, w)
done_or_parked r p events dontwait (failed e, w) =
    if would_block e && not dontwait then parked r p events w else (ran (neg e), r, w)

-- A page-cache attempt that served, failed for good, or missed.
unfoldable pub nowait_answer : {W : Type 0} → Ring → Outcome × W → Tried W
nowait_answer r (ok n, w) = (ran (to_s32 n), r, w)
nowait_answer r (failed e, w) = if nowait_missed e then (file_op, r, w) else (ran (neg e), r, w)

abbrev pub file_offset : Sqe → Option ℕ
file_offset s = if off_is_current s.off then none else some s.off

-- `readiness->forget`, where the backend has one.
abbrev pub told : {W : Type 0} → Option (ℤ → W → W) → ℤ → W → W
told none fd w = w
told (some f) fd w = f fd w

module _ {W : Type 0} (sys : Sys W) (forget : Option (ℤ → W → W)) where
  -- IORING_OP_CLOSE of a slot, by what the table answered for it.
  unfoldable pub close_slot : Ring → ℕ → ℤ → W → Tried W
  close_slot r slot real w =
      if is_neg real
      then (ran real, r, w)
      else done_status (fixed_clear r slot).1 (sys.close real (told forget real w))

  unfoldable pub try_close : Ring → Sqe → W → Tried W
  try_close r s w =
      if s.file_index == 0
      then done_status r (sys.close s.fd (told forget s.fd w))
      else (let slot = s.file_index - 1 in close_slot r slot (fixed_lookup r (to_s32 slot)) w)

  -- The flags ride on the op where the buffer was filled.
  unfoldable pub recv_done : Ring → ℕ → Sqe → Chosen → Outcome × W → Tried W
  recv_done r p s c (ok n, w) =
      if n == 0
      then (ran (pos 0), give_back r s c.selected, w)
      else (ran (to_s32 n), with_op r p (record (r.ops p) { cqe_flags = cqe_flags_of c false }), w)
  recv_done r p s c (failed e, w) =
      done_or_parked (give_back r s c.selected) p pollin s.msg_dontwait (failed e, w)

  unfoldable pub recv_chosen : Ring → ℕ → Sqe → W → Option (Chosen × Ring) → Tried W
  recv_chosen r p s w none = (ran (neg enobufs), r, w)
  recv_chosen r p s w (some (c, r')) =
      recv_done r' p s c (sys.recv s.fd c.addr c.len s.rw_flags true w)

  unfoldable pub try_recv : ℕ → Ring → ℕ → Sqe → W → Option (Tried W)
  try_recv n r p s w =
      if s.recvsend_bundle
      then some (ran (neg eopnotsupp), r, w)
      else if s.recv_multishot
      then shots n (recv_shot sys p s) r w
      else some (recv_chosen r p s w (choose sys r s w))

  unfoldable pub try_read : Pollable → Ring → ℕ → Sqe → W → Tried W
  try_read unpollable r p s w =
      nowait_answer r (sys.read_nowait s.fd s.addr s.len (file_offset s) w)
  try_read pollable r p s w =
      let w' = set_nonblock sys s.fd w in
      done_or_parked r p pollin false (
        if off_is_current s.off
        then sys.read s.fd s.addr s.len w'
        else sys.pread s.fd s.addr s.len s.off w')
  try_read broken r p s w = done_or_parked r p pollin false (
      if off_is_current s.off
      then sys.read s.fd s.addr s.len w
      else sys.pread s.fd s.addr s.len s.off w)

  unfoldable pub try_write : Pollable → Ring → ℕ → Sqe → W → Tried W
  try_write unpollable r p s w =
      nowait_answer r (sys.write_nowait s.fd s.addr s.len (file_offset s) w)
  try_write pollable r p s w =
      let w' = set_nonblock sys s.fd w in
      done_or_parked r p pollout false (
        if off_is_current s.off
        then sys.write s.fd s.addr s.len w'
        else sys.pwrite s.fd s.addr s.len s.off w')
  try_write broken r p s w = done_or_parked r p pollout false (
      if off_is_current s.off
      then sys.write s.fd s.addr s.len w
      else sys.pwrite s.fd s.addr s.len s.off w)

  -- An op that makes a descriptor, which may go into the fixed table.
  unfoldable pub made_fd : Ring → Sqe → ℕ → W → Tried W
  made_fd r s fd w = let (res, r', w') = answer_fd sys r s fd w in (ran res, r', w')

  unfoldable pub socket_made : Ring → Sqe → Outcome × W → Tried W
  socket_made r s (ok fd, w) = made_fd r s fd w
  socket_made r s (failed e, w) = (ran (neg e), r, w)

  unfoldable pub try_socket : Ring → Sqe → W → Tried W
  try_socket r s w =
      if s.rw_flags == 0
      then socket_made r s (sys.socket s.fd s.off s.len w)
      else (ran (neg einval), r, w)

  unfoldable pub accept_made : Ring → ℕ → Sqe → Outcome × W → Tried W
  accept_made r p s (ok fd, w) = made_fd r s fd w
  accept_made r p s (failed e, w) =
      if would_block e then parked r p pollin w else (ran (neg e), r, w)

  unfoldable pub try_accept : ℕ → Ring → ℕ → Sqe → W → Option (Tried W)
  try_accept n r p s w =
      if s.accept_multishot
      then shots n (accept_shot sys p s) r w
      else some (accept_made r p s (accept_one sys s (set_nonblock sys s.fd w)))

  unfoldable pub try_recvmsg : ℕ → Ring → ℕ → Sqe → W → Option (Tried W)
  try_recvmsg n r p s w =
      if s.recv_multishot
      then recvmsg_shots sys n r p s w
      else some
          (done_or_parked r p pollin s.msg_dontwait (sys.recvmsg s.fd s.addr s.rw_flags true w))

  -- The multishot poll says what is ready and stays; the plain one answers it or waits.
  unfoldable pub polled : Ring → ℕ → Sqe → ℕ × W → Tried W
  polled r p s (re, w) =
      let asked = s.poll32_events % u16_mod in
      if s.poll_add_multi
      then parked (if re == 0 then r else emit r s.user_data (pos (re % u16_mod)) more_flags) p
          asked w
      else if re == 0
      then parked r p asked w
      else (ran (pos (re % u16_mod)), r, w)

  abbrev pub done_command : Ring → ℤ × W → Tried W
  done_command r (res, w) = (ran res, r, w)

  -- The switch of `slip_posix_try`; `n` bounds the rounds of a multishot loop.
  unfoldable pub try_op : ℕ → Opcode → Ring → ℕ → Sqe → W → Option (Tried W)
  try_op n nop r p s w = some (ran (pos 0), r, w)
  try_op n close r p s w = some (try_close r s w)
  try_op n recv r p s w = try_recv n r p s w
  try_op n send r p s w =
      some
        (done_or_parked r p pollout s.msg_dontwait (sys.send s.fd s.addr s.len s.rw_flags true w))
  try_op n read r p s w = some (try_read (pollable_of (sys.fstat s.fd w)) r p s w)
  try_op n write r p s w = some (try_write (pollable_of (sys.fstat s.fd w)) r p s w)
  try_op n socket r p s w = some (try_socket r s w)
  try_op n bind r p s w = some (done_status r (sys.bind s.fd s.addr s.off w))
  try_op n listen r p s w = some (done_status r (sys.listen s.fd s.len w))
  try_op n shutdown r p s w = some (done_status r (sys.shutdown s.fd s.len w))
  try_op n accept r p s w = try_accept n r p s w
  try_op n recvmsg r p s w = try_recvmsg n r p s w
  try_op n sendmsg r p s w =
      some (done_or_parked r p pollout s.msg_dontwait (sys.sendmsg s.fd s.addr s.rw_flags true w))
  try_op n poll_add r p s w =
      some (polled r p s (revents_now sys s.fd (s.poll32_events % u16_mod) w))
  try_op n statx r p s w = some (done_status r (sys.statx s.fd s.addr s.rw_flags s.len s.off w))
  try_op n unlinkat r p s w = some (done_status r (sys.unlinkat s.fd s.addr s.rw_flags w))
  try_op n uring_cmd r p s w = some (done_command r (cmd_sock sys s w))
  try_op n connect r p s w = some (try_connect sys r p w)
  try_op n openat r p s w = some (file_op, r, w)
  try_op n openat2 r p s w = some (file_op, r, w)
  try_op n poll_remove r p s w = some (ran (neg eopnotsupp), r, w)
  try_op n async_cancel r p s w = some (ran (neg eopnotsupp), r, w)
  try_op n msg_ring r p s w = some (ran (neg eopnotsupp), r, w)
  try_op n (other code) r p s w = some (ran (neg eopnotsupp), r, w)

  -- `slip_posix_try`
  unfoldable pub posix_try : ℕ → Ring → ℕ → W → Option (Tried W)
  posix_try n r p w = try_op n (r.ops p).sqe.opcode r p (r.ops p).sqe w
