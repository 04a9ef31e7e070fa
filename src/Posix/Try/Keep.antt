-- ===== src/Posix/Try/Keep.antt =====
-- An attempt at an op leaves each op with its holder, whatever its opcode and its outcome.
use slipstream_io.Base.{
  if_both, ℕ, ◌-◌, ◌%◌, refl, ℤ, pos, is_neg, Bool, true, false, not, ◌&&◌, List, Option, none,
  some, ◌==◌, if◌then◌else◌,
}
use slipstream_io.Abi.{
  Opcode, nop, read, write, recv, send, recvmsg, sendmsg, accept, connect, socket, bind, listen,
  shutdown, close, poll_add, poll_remove, async_cancel, statx, unlinkat, openat, openat2, uring_cmd,
  msg_ring, other, Sqe, enotconn, einprogress, eagain,
}
use slipstream_io.Ring.{Ring}
use slipstream_io.Completion.{emit}
use slipstream_io.Posix.{u16_mod}
use slipstream_io.Posix.Sys.{Sys, Outcome, ok, failed, would_block, pollin, pollout, Tried}
use slipstream_io.Posix.Multishot.{
  more_flags, accept_shot, recv_shot, Chosen, cqe_flags_of, choose, give_back,
}
use slipstream_io.Posix.Multishot.Keep.{
  TriedKept, shots-Kept, waits_for-Kept, give_back-Kept, answer_fd-Kept, accept_shot-Kept,
  recv_shot-Kept, recvmsg_shots-Kept, ChosenSame, choose-Same,
}
use slipstream_io.Posix.Socket.{
  peer_answer, so_error_answer, connect_again, connect_answer, connect_restored, connect_with,
  try_connect,
}
use slipstream_io.Posix.Try.{
  Pollable, pollable, unpollable, broken, nowait_missed, done_or_parked, nowait_answer, close_slot,
  try_close, recv_done, recv_chosen, try_recv, try_read, try_write, made_fd, socket_made,
  try_socket, accept_made, try_accept, try_recvmsg, polled, try_op, posix_try,
}
use slipstream_io.Posix.Owned.{Owned, Kept, Kept-refl, Kept-trans, emit-Kept, update-Kept}
use slipstream_io.Posix.Same.{Same-Kept, fixed_clear-Same}

module _ {W : Type 0} (held : List ℕ) where
  -- What an attempt leaves.
  abbrev KeptBy : Ring → Tried W → Type 0
  KeptBy r t = Kept held r t.1

  done_or_parked-Kept :
      (r : Ring) (p events : ℕ) (dontwait : Bool) (x : Outcome × W)
      → Owned held r
      → KeptBy r (done_or_parked r p events dontwait x)
  unfolding done_or_parked
  done_or_parked-Kept r p events dontwait (ok n, w) h = Kept-refl held r h
  done_or_parked-Kept r p events dontwait (failed e, w) h =
      if_both (KeptBy r) (would_block e && not dontwait) _ _ (waits_for-Kept held r p events h)
        (Kept-refl held r h)

  nowait_answer-Kept : (r : Ring) (x : Outcome × W) → Owned held r → KeptBy r (nowait_answer r x)
  unfolding nowait_answer
  nowait_answer-Kept r (ok n, w) h = Kept-refl held r h
  nowait_answer-Kept r (failed e, w) h =
      if_both (KeptBy r) (nowait_missed e) _ _ (Kept-refl held r h) (Kept-refl held r h)

module _ {W : Type 0} (sys : Sys W) (held : List ℕ) where
  peer_answer-Kept :
      (r : Ring) (p : ℕ) (x : Outcome × W) → Owned held r → KeptBy held r (peer_answer sys r p x)
  unfolding peer_answer
  peer_answer-Kept r p (ok n, w) h = Kept-refl held r h
  peer_answer-Kept r p (failed e, w) h =
      if_both (KeptBy held r) (e == enotconn) _ _ (waits_for-Kept held r p pollout h)
        (Kept-refl held r h)

  so_error_answer-Kept :
      (r : Ring) (p : ℕ) (x : Outcome × W)
      → Owned held r
      → KeptBy held r (so_error_answer sys r p x)
  unfolding so_error_answer
  so_error_answer-Kept r p (failed e, w) h = Kept-refl held r h
  so_error_answer-Kept r p (ok err, w) h =
      if_both (KeptBy held r) (err == 0) _ _ (peer_answer-Kept r p _ h) (Kept-refl held r h)

  connect_answer-Kept :
      (r : Ring) (p : ℕ) (o : Outcome) (w : W)
      → Owned held r
      → KeptBy held r (connect_answer sys r p o w)
  unfolding connect_answer
  connect_answer-Kept r p (ok n) w h = Kept-refl held r h
  connect_answer-Kept r p (failed e) w h =
      if_both (KeptBy held r) (e == einprogress) _ _
        (update-Kept held r p
          (record (r.ops p) { connect_in_progress = true; wait_events = pollout }) refl refl h)
        (if_both (KeptBy held r) (e == eagain) _ _ (Kept-refl held r h) (Kept-refl held r h))

  connect_with-Kept :
      (r : Ring) (p : ℕ) (x : Outcome × W) → Owned held r → KeptBy held r (connect_with sys r p x)
  unfolding connect_with connect_restored
  connect_with-Kept r p (failed e, w) h = Kept-refl held r h
  connect_with-Kept r p (ok fl, w) h = connect_answer-Kept r p _ _ h

  try_connect-Kept :
      (r : Ring) (p : ℕ) (w : W) → Owned held r → KeptBy held r (try_connect sys r p w)
  unfolding try_connect connect_again
  try_connect-Kept r p w h =
      if_both (KeptBy held r) (r.ops p).connect_in_progress _ _
        (if_both (KeptBy held r) ((r.ops p).socket_error == 0) _ _ (so_error_answer-Kept r p _ h)
          (Kept-refl held r h))
        (connect_with-Kept r p _ h)

module _ {W : Type 0} (sys : Sys W) (forget : Option (ℤ → W → W)) (held : List ℕ) where
  recv_done-Kept :
      (r : Ring) (p : ℕ) (s : Sqe) (c : Chosen) (x : Outcome × W)
      → Owned held r
      → KeptBy held r (recv_done sys forget r p s c x)
  unfolding recv_done
  recv_done-Kept r p s c (ok n, w) h =
      if_both (KeptBy held r) (n == 0) _ _ (give_back-Kept held r s c.selected h)
        (update-Kept held r p (record (r.ops p) { cqe_flags = cqe_flags_of c false }) refl refl h)
  recv_done-Kept r p s c (failed e, w) h =
      let back = give_back-Kept held r s c.selected h in
      Kept-trans held r (give_back r s c.selected) _ back (
        done_or_parked-Kept held (give_back r s c.selected) p pollin s.msg_dontwait (failed e, w)
          back.owned)

  polled-Kept :
      (r : Ring) (p : ℕ) (s : Sqe) (x : ℕ × W)
      → Owned held r
      → KeptBy held r (polled sys forget r p s x)
  unfolding polled
  polled-Kept r p s (re, w) h =
      let asked = s.poll32_events % u16_mod in
      let told_all : Kept held r
          (if re == 0 then r else emit r s.user_data (pos (re % u16_mod)) more_flags) =
        if_both (Kept held r) (re == 0) _ _ (Kept-refl held r h)
          (emit-Kept held r s.user_data (pos (re % u16_mod)) more_flags h) in
      if_both (KeptBy held r) s.poll_add_multi _ _
        (Kept-trans held r _ _ told_all (waits_for-Kept held _ p asked told_all.owned))
        (if_both (KeptBy held r) (re == 0) _ _ (waits_for-Kept held r p asked h)
          (Kept-refl held r h))

  made_fd-Kept :
      (r : Ring) (s : Sqe) (fd : ℕ) (w : W)
      → Owned held r
      → KeptBy held r (made_fd sys forget r s fd w)
  unfolding made_fd
  made_fd-Kept r s fd w h = answer_fd-Kept sys held r s fd w h

  recv_chosen-Kept :
      (r : Ring) (p : ℕ) (s : Sqe) (w : W) (o : Option (Chosen × Ring))
      → ChosenSame r o
      → Owned held r
      → KeptBy held r (recv_chosen sys forget r p s w o)
  unfolding recv_chosen
  recv_chosen-Kept r p s w none e h = Kept-refl held r h
  recv_chosen-Kept r p s w (some (c, t)) e h =
      let k = Same-Kept held r t e h in Kept-trans held r t _ k (recv_done-Kept t p s c _ k.owned)

  try_recv-Kept :
      (n : ℕ) (r : Ring) (p : ℕ) (s : Sqe) (w : W)
      → Owned held r
      → TriedKept held r (try_recv sys forget n r p s w)
  unfolding try_recv
  try_recv-Kept n r p s w h =
      if_both (TriedKept held r) s.recvsend_bundle _ _ (Kept-refl held r h) (
        if_both (TriedKept held r) s.recv_multishot _ _
          (shots-Kept held n (recv_shot sys p s) r w (recv_shot-Kept sys held p s) h)
          (recv_chosen-Kept r p s w (choose sys r s w) (choose-Same sys r s w) h))

  try_read-Kept :
      (f : Pollable) (r : Ring) (p : ℕ) (s : Sqe) (w : W)
      → Owned held r
      → KeptBy held r (try_read sys forget f r p s w)
  unfolding try_read
  try_read-Kept unpollable r p s w h = nowait_answer-Kept held r _ h
  try_read-Kept pollable r p s w h = done_or_parked-Kept held r p pollin false _ h
  try_read-Kept broken r p s w h = done_or_parked-Kept held r p pollin false _ h

  try_write-Kept :
      (f : Pollable) (r : Ring) (p : ℕ) (s : Sqe) (w : W)
      → Owned held r
      → KeptBy held r (try_write sys forget f r p s w)
  unfolding try_write
  try_write-Kept unpollable r p s w h = nowait_answer-Kept held r _ h
  try_write-Kept pollable r p s w h = done_or_parked-Kept held r p pollout false _ h
  try_write-Kept broken r p s w h = done_or_parked-Kept held r p pollout false _ h

  socket_made-Kept :
      (r : Ring) (s : Sqe) (x : Outcome × W)
      → Owned held r
      → KeptBy held r (socket_made sys forget r s x)
  unfolding socket_made
  socket_made-Kept r s (ok fd, w) h = made_fd-Kept r s fd w h
  socket_made-Kept r s (failed e, w) h = Kept-refl held r h

  try_socket-Kept :
      (r : Ring) (s : Sqe) (w : W) → Owned held r → KeptBy held r (try_socket sys forget r s w)
  unfolding try_socket
  try_socket-Kept r s w h =
      if_both (KeptBy held r) (s.rw_flags == 0) _ _ (socket_made-Kept r s _ h) (Kept-refl held r h)

  accept_made-Kept :
      (r : Ring) (p : ℕ) (s : Sqe) (x : Outcome × W)
      → Owned held r
      → KeptBy held r (accept_made sys forget r p s x)
  unfolding accept_made
  accept_made-Kept r p s (ok fd, w) h = made_fd-Kept r s fd w h
  accept_made-Kept r p s (failed e, w) h =
      if_both (KeptBy held r) (would_block e) _ _ (waits_for-Kept held r p pollin h)
        (Kept-refl held r h)

  try_accept-Kept :
      (n : ℕ) (r : Ring) (p : ℕ) (s : Sqe) (w : W)
      → Owned held r
      → TriedKept held r (try_accept sys forget n r p s w)
  unfolding try_accept
  try_accept-Kept n r p s w h =
      if_both (TriedKept held r) s.accept_multishot _ _
        (shots-Kept held n (accept_shot sys p s) r w (accept_shot-Kept sys held p s) h)
        (accept_made-Kept r p s _ h)

  try_recvmsg-Kept :
      (n : ℕ) (r : Ring) (p : ℕ) (s : Sqe) (w : W)
      → Owned held r
      → TriedKept held r (try_recvmsg sys forget n r p s w)
  unfolding try_recvmsg
  try_recvmsg-Kept n r p s w h =
      if_both (TriedKept held r) s.recv_multishot _ _ (recvmsg_shots-Kept sys held n r p s w h)
        (done_or_parked-Kept held r p pollin s.msg_dontwait _ h)

  close_slot-Kept :
      (r : Ring) (slot : ℕ) (real : ℤ) (w : W)
      → Owned held r
      → KeptBy held r (close_slot sys forget r slot real w)
  unfolding close_slot
  close_slot-Kept r slot real w h =
      if_both (KeptBy held r) (is_neg real) _ _ (Kept-refl held r h)
        (Same-Kept held r _ (fixed_clear-Same r slot) h)

  try_close-Kept :
      (r : Ring) (s : Sqe) (w : W) → Owned held r → KeptBy held r (try_close sys forget r s w)
  unfolding try_close
  try_close-Kept r s w h =
      if_both (KeptBy held r) (s.file_index == 0) _ _ (Kept-refl held r h)
        (close_slot-Kept r (s.file_index - 1) _ w h)

  try_op-Kept :
      (n : ℕ) (c : Opcode) (r : Ring) (p : ℕ) (s : Sqe) (w : W)
      → Owned held r
      → TriedKept held r (try_op sys forget n c r p s w)
  unfolding try_op
  try_op-Kept n nop r p s w h = Kept-refl held r h
  try_op-Kept n close r p s w h = try_close-Kept r s w h
  try_op-Kept n recv r p s w h = try_recv-Kept n r p s w h
  try_op-Kept n send r p s w h = done_or_parked-Kept held r p pollout s.msg_dontwait _ h
  try_op-Kept n read r p s w h = try_read-Kept _ r p s w h
  try_op-Kept n write r p s w h = try_write-Kept _ r p s w h
  try_op-Kept n socket r p s w h = try_socket-Kept r s w h
  try_op-Kept n bind r p s w h = Kept-refl held r h
  try_op-Kept n listen r p s w h = Kept-refl held r h
  try_op-Kept n shutdown r p s w h = Kept-refl held r h
  try_op-Kept n accept r p s w h = try_accept-Kept n r p s w h
  try_op-Kept n recvmsg r p s w h = try_recvmsg-Kept n r p s w h
  try_op-Kept n sendmsg r p s w h = done_or_parked-Kept held r p pollout s.msg_dontwait _ h
  try_op-Kept n poll_add r p s w h = polled-Kept r p s _ h
  try_op-Kept n statx r p s w h = Kept-refl held r h
  try_op-Kept n unlinkat r p s w h = Kept-refl held r h
  try_op-Kept n uring_cmd r p s w h = Kept-refl held r h
  try_op-Kept n connect r p s w h = try_connect-Kept sys held r p w h
  try_op-Kept n openat r p s w h = Kept-refl held r h
  try_op-Kept n openat2 r p s w h = Kept-refl held r h
  try_op-Kept n poll_remove r p s w h = Kept-refl held r h
  try_op-Kept n async_cancel r p s w h = Kept-refl held r h
  try_op-Kept n msg_ring r p s w h = Kept-refl held r h
  try_op-Kept n (other code) r p s w h = Kept-refl held r h

  -- An attempt submits nothing, and leaves each op with its holder and each parked op at its place.
  pub posix_try-Kept :
      (n : ℕ) (r : Ring) (p : ℕ) (w : W)
      → Owned held r
      → TriedKept held r (posix_try sys forget n r p w)
  unfolding posix_try
  posix_try-Kept n r p w h = try_op-Kept n (r.ops p).sqe.opcode r p (r.ops p).sqe w h
