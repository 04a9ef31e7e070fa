-- ===== src/Posix/Multishot.antt =====
-- src/engine_posix.c: direct descriptors, and the multishot loops of accept, recv and recvmsg.
pub mod Keep
use slipstream_io.Base.{
  ℕ, zero, suc, ◌+◌, ◌-◌, ◌^◌, ◌%◌, u32_mod, ℤ, pos, neg, to_s32, is_neg, Bool, true, false, not,
  Option, none, some, ltb, ◌==◌, if◌then◌else◌,
}
use slipstream_io.Abi.{Sqe, CqeFlags, no_cqe_flags, enobufs, efault, eopnotsupp}
use slipstream_io.Ring.{Ring, Buf, EngOp}
use slipstream_io.Completion.{emit}
use slipstream_io.Fixed.{fixed_install}
use slipstream_io.Posix.{bufring_take, bufring_unget}
use slipstream_io.Posix.Sys.{
  Sys, Outcome, ok, failed, MsgHdr, MsgOut, RecvmsgOut, value_of, would_block, pollin, Verdict, ran,
  parks, file_op, Tried, with_op, waits_for, parked, set_nonblock, accept_one,
}

-- IORING_FILE_INDEX_ALLOC, ~0U
abbrev pub is_alloc : ℕ → Bool
is_alloc file_index = file_index == u32_mod - 1

abbrev pub index_of : ℕ → Option ℕ
index_of file_index = if is_alloc file_index then none else some file_index

-- The flags of a completion that carries a provided buffer.
abbrev pub buffer_flags : ℕ → Bool → CqeFlags
buffer_flags bid more = record { f_buffer = true; bid = bid; f_more = more }

abbrev pub more_flags : CqeFlags
more_flags = record { f_buffer = false; bid = 0; f_more = true }

-- One round of a multishot loop: its last word, or word to go on.
pub data Shot (W : Type 0) : Type 0 where
  stop : Verdict → Ring → W → Shot W
  more : Ring → W → Shot W

-- The loop, for at most `n` rounds; `none` where it would go on.
unfoldable pub shots : {W : Type 0} → ℕ → (Ring → W → Shot W) → Ring → W → Option (Tried W)
shots zero round r w = none
shots (suc n) round r w = elim (round r w) [
  | stop v r' w' ↦ some (v, r', w')
  | more r' w' ↦ shots n round r' w'
]

abbrev pub parked_shot : {W : Type 0} → Ring → ℕ → ℕ → W → Shot W
parked_shot r p events w = stop parks (waits_for r p events) w

-- The buffer of a recv: its address, its length, the flags of its completion, and whether it is
-- one of a group's.
pub record Chosen : Type 0 where
  pub addr : ℕ
  pub len : ℕ
  pub bid : ℕ
  pub selected : Bool

abbrev pub cqe_flags_of : Chosen → Bool → CqeFlags
cqe_flags_of c is_more =
    if c.selected
    then buffer_flags c.bid is_more
    else record { f_buffer = false; bid = 0; f_more = is_more }

abbrev pub chosen_of : Option (Buf × Ring) → Option (Chosen × Ring)
chosen_of none = none
chosen_of (some (b, r)) =
    some (record { addr = b.addr; len = b.len; bid = b.bid; selected = true }, r)

-- sizeof(struct io_uring_recvmsg_out)
abbrev pub recvmsg_out_size : ℕ
recvmsg_out_size = 16

-- The layout of a multishot recvmsg in a buffer, behind its header.
unfoldable pub layout : ℕ → ℕ → Buf → MsgHdr
layout namelen controllen b =
    let header = recvmsg_out_size + namelen + controllen in
    record {
      name = if namelen == 0 then none else some (b.addr + recvmsg_out_size);
      namelen = namelen;
      control = if controllen == 0 then none else some (b.addr + recvmsg_out_size + namelen);
      controllen = controllen;
      base = b.addr + header;
      len = b.len - header;
    }

-- A buffer that was not filled goes back.
unfoldable pub give_back : Ring → Sqe → Bool → Ring
give_back r s selected = if selected then bufring_unget r s.buf_group else r

module _ {W : Type 0} (sys : Sys W) where
  unfoldable pub installed : Bool → ℤ × Ring → ℕ → W → ℤ × Ring × W
  installed alloc (slot, r) newfd w =
      if is_neg slot
      then (slot, r, (sys.close (pos newfd) w).1)
      else (if alloc then slot else pos 0, r, w)

  unfoldable pub install_direct : Ring → Sqe → ℕ → W → ℤ × Ring × W
  install_direct r s newfd w =
      installed (is_alloc s.file_index) (fixed_install r (index_of s.file_index) (pos newfd)) newfd
        w

  -- The answer of an op that made a descriptor.
  unfoldable pub answer_fd : Ring → Sqe → ℕ → W → ℤ × Ring × W
  answer_fd r s fd w = if s.file_index == 0 then (to_s32 fd, r, w) else install_direct r s fd w

  unfoldable pub accepted : Sqe → ℤ × Ring × W → Shot W
  accepted s (answer, r, w) =
      if is_neg answer then stop (ran answer) r w else more (emit r s.user_data answer more_flags) w

  unfoldable pub accept_on : ℕ → Sqe → Ring → Outcome × W → Shot W
  accept_on p s r (ok fd, w) = accepted s (answer_fd r s fd w)
  accept_on p s r (failed e, w) =
      if would_block e then parked_shot r p pollin w else stop (ran (neg e)) r w

  -- A round of `run_accept_multishot`.
  unfoldable pub accept_shot : ℕ → Sqe → Ring → W → Shot W
  accept_shot p s r w = accept_on p s r (accept_one sys s (set_nonblock sys s.fd w))

  -- The buffer that the SQE names, or the next of the group that it selects; `none` is -ENOBUFS.
  unfoldable pub choose : Ring → Sqe → W → Option (Chosen × Ring)
  choose r s w =
      if s.flags.buffer_select
      then chosen_of (bufring_take (sys.buf_tail w) (sys.buf_entry w) r s.buf_group)
      else some (record { addr = s.addr; len = s.len; bid = 0; selected = false }, r)

  unfoldable pub recv_on : ℕ → Sqe → Chosen → Ring → Outcome × W → Shot W
  recv_on p s c r (ok n, w) =
      if n == 0
      then stop (ran (pos 0)) (give_back r s c.selected) w
      else more (emit r s.user_data (to_s32 n) (cqe_flags_of c true)) w
  recv_on p s c r (failed e, w) =
      if would_block e
      then parked_shot (give_back r s c.selected) p pollin w
      else stop (ran (neg e)) (give_back r s c.selected) w

  unfoldable pub recv_with : ℕ → Sqe → Ring → W → Option (Chosen × Ring) → Shot W
  recv_with p s r w none = stop (ran (neg enobufs)) r w
  recv_with p s r w (some (c, r')) = recv_on p s c r' (sys.recv s.fd c.addr c.len s.rw_flags true w)

  -- A round of `run_recv_multishot`.
  unfoldable pub recv_shot : ℕ → Sqe → Ring → W → Shot W
  recv_shot p s r w = recv_with p s r w (choose r s w)

  unfoldable pub recvmsg_on : ℕ → Sqe → ℕ → Buf → Ring → Outcome × MsgOut × W → Shot W
  recvmsg_on p s header b r (ok n, out, w) =
      if n == 0
      then stop (ran (to_s32 header))
          (with_op r p (record (r.ops p) { cqe_flags = buffer_flags b.bid false })) w
      else more (emit r s.user_data (to_s32 (header + n)) (buffer_flags b.bid true)) (
          sys.store_out b.addr
            (record {
              namelen = out.namelen;
              controllen = out.controllen;
              payloadlen = n;
              flags = out.flags;
            })
            w)
  recvmsg_on p s header b r (failed e, out, w) =
      let back = bufring_unget r s.buf_group in
      if would_block e then parked_shot back p pollin w else stop (ran (neg e)) back w

  unfoldable pub recvmsg_with : ℕ → Sqe → ℕ × ℕ → Ring → W → Option (Buf × Ring) → Shot W
  recvmsg_with p s lens r w none = stop (ran (neg enobufs)) r w
  recvmsg_with p s (namelen, controllen) r w (some (b, r')) =
      let header = recvmsg_out_size + namelen + controllen in
      if ltb b.len header
      then stop (ran (neg efault)) (bufring_unget r' s.buf_group) w
      else recvmsg_on p s header b r' (
          sys.recvmsg_into s.fd (layout namelen controllen b) s.rw_flags true (
            sys.store_out b.addr (record { namelen = 0; controllen = 0; payloadlen = 0; flags = 0 })
              w))

  -- A round of `run_recvmsg_multishot`, with the lengths that the caller reserved.
  unfoldable pub recvmsg_shot : ℕ → Sqe → ℕ × ℕ → Ring → W → Shot W
  recvmsg_shot p s lens r w =
      recvmsg_with p s lens r w (bufring_take (sys.buf_tail w) (sys.buf_entry w) r s.buf_group)

  -- `run_recvmsg_multishot`
  unfoldable pub recvmsg_shots : ℕ → Ring → ℕ → Sqe → W → Option (Tried W)
  recvmsg_shots n r p s w =
      if s.addr == 0
      then some (ran (neg efault), r, w)
      else if not s.flags.buffer_select
      then some (ran (neg eopnotsupp), r, w)
      else shots n (recvmsg_shot p s (sys.msghdr_lens w s.addr)) r w
