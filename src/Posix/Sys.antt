-- ===== src/Posix/Sys.antt =====
-- What src/engine_posix.c asks of the operating system: each call as an operation on the world, with
-- the arguments that the source hands it. Buffers and structs of the caller are addresses. The Linux
-- arms are the ones modelled.
use slipstream_io.Base.{
  ℕ, ◌+◌, ◌-◌, ◌^◌, bit_and, ℤ, pos, neg, to_s32, Bool, Option, ◌==◌, if◌then◌else◌, update,
}
use slipstream_io.Abi.{Sqe, eagain}
use slipstream_io.Ring.{Ring, EngOp, Buf}

-- A call's value, or the errno that it failed with.
pub data Outcome : Type 0 where
  ok : ℕ → Outcome
  failed : ℕ → Outcome

-- What `fstat` says of a descriptor, by its S_ISREG, S_ISBLK and S_ISDIR.
pub data FileKind : Type 0 where
  regular block directory readiness : FileKind

-- The `struct msghdr` of a multishot recvmsg: where the name, the control data and the payload go.
pub record MsgHdr : Type 0 where
  pub name : Option ℕ
  pub namelen : ℕ
  pub control : Option ℕ
  pub controllen : ℕ
  pub base : ℕ
  pub len : ℕ

-- What the call wrote back to it.
pub record MsgOut : Type 0 where
  pub namelen : ℕ
  pub controllen : ℕ
  pub flags : ℕ

-- `struct io_uring_recvmsg_out`
pub record RecvmsgOut : Type 0 where
  pub namelen : ℕ
  pub controllen : ℕ
  pub payloadlen : ℕ
  pub flags : ℕ

-- `flags` is the word of the caller, without MSG_DONTWAIT, which the Boolean behind it is.
pub record Sys (W : Type 0) : Type 0 where
  pub close : ℤ → W → Outcome × W
  pub getfl : ℤ → W → Outcome × W
  pub setfl : ℤ → ℕ → W → W
  pub fstat : ℤ → W → Option FileKind
  pub read : ℤ → ℕ → ℕ → W → Outcome × W
  pub pread : ℤ → ℕ → ℕ → ℕ → W → Outcome × W
  pub write : ℤ → ℕ → ℕ → W → Outcome × W
  pub pwrite : ℤ → ℕ → ℕ → ℕ → W → Outcome × W
  pub read_nowait : ℤ → ℕ → ℕ → Option ℕ → W → Outcome × W
  pub write_nowait : ℤ → ℕ → ℕ → Option ℕ → W → Outcome × W
  pub recv : ℤ → ℕ → ℕ → ℕ → Bool → W → Outcome × W
  pub send : ℤ → ℕ → ℕ → ℕ → Bool → W → Outcome × W
  pub recvmsg : ℤ → ℕ → ℕ → Bool → W → Outcome × W
  pub sendmsg : ℤ → ℕ → ℕ → Bool → W → Outcome × W
  pub recvmsg_into : ℤ → MsgHdr → ℕ → Bool → W → Outcome × MsgOut × W
  pub socket : ℤ → ℕ → ℕ → W → Outcome × W
  pub bind : ℤ → ℕ → ℕ → W → Outcome × W
  pub listen : ℤ → ℕ → W → Outcome × W
  pub shutdown : ℤ → ℕ → W → Outcome × W
  pub accept4 : ℤ → ℕ → ℕ → ℕ → W → Outcome × W
  pub connect : ℤ → ℕ → ℕ → W → Outcome × W
  pub so_error : ℤ → W → Outcome × W
  pub peer : ℤ → W → Outcome × W
  pub setsockopt : ℤ → ℕ → ℕ → ℕ → ℕ → W → Outcome × W
  pub getsockopt : ℤ → ℕ → ℕ → ℕ → ℕ → W → Outcome × W
  pub getsockname : ℤ → ℕ → ℕ → W → Outcome × W
  pub getpeername : ℤ → ℕ → ℕ → W → Outcome × W
  pub poll : ℤ → ℕ → W → Option ℕ × W
  pub statx : ℤ → ℕ → ℕ → ℕ → ℕ → W → Outcome × W
  pub unlinkat : ℤ → ℕ → ℕ → W → Outcome × W
  pub openat : ℤ → ℕ → ℕ → ℕ → W → Outcome × W
  pub openat2 : ℤ → ℕ → ℕ → ℕ → W → Outcome × W
  pub buf_tail : W → ℕ → ℕ
  pub buf_entry : W → ℕ → ℕ → Buf
  pub msghdr_lens : W → ℕ → ℕ × ℕ
  pub store_out : ℕ → RecvmsgOut → W → W

-- `n < 0 ? -errno : (int) n`
abbrev pub value_of : Outcome → ℤ
value_of (ok n) = to_s32 n
value_of (failed e) = neg e

-- `n < 0 ? -errno : 0`
abbrev pub status_of : Outcome → ℤ
status_of (ok n) = pos 0
status_of (failed e) = neg e

-- `errno == EAGAIN || errno == EWOULDBLOCK`, one number on Linux.
abbrev pub would_block : ℕ → Bool
would_block e = e == eagain

-- POLLIN, POLLPRI, POLLOUT and POLLNVAL
abbrev pub pollin : ℕ
pollin = 1

abbrev pub pollpri : ℕ
pollpri = 2

abbrev pub pollout : ℕ
pollout = 4

abbrev pub pollnval : ℕ
pollnval = 32

abbrev pub o_nonblock : ℕ
o_nonblock = 2 ^ 11

-- What an attempt at an op answered; a `ran` carries its result.
pub data Verdict : Type 0 where
  ran : ℤ → Verdict
  parks : Verdict
  file_op : Verdict

abbrev pub Tried : Type 0 → Type 0
Tried W = Verdict × Ring × W

-- Writes through `op->`.
abbrev pub with_op : Ring → ℕ → EngOp → Ring
with_op r p op = record r { ops = update r.ops p op }

abbrev pub waits_for : Ring → ℕ → ℕ → Ring
waits_for r p events = with_op r p (record (r.ops p) { wait_events = events })

-- `op->wait_events = events; return PARK;`
abbrev pub parked : {W : Type 0} → Ring → ℕ → ℕ → W → Tried W
parked r p events w = (parks, waits_for r p events, w)

-- The offset that liburing spells as -1.
abbrev pub off_is_current : ℕ → Bool
off_is_current off = off == 2 ^ 64 - 1

module _ {W : Type 0} (sys : Sys W) where
  -- What `set_nonblock` does with the flags that it read.
  abbrev pub add_nonblock : ℤ → Outcome × W → W
  add_nonblock fd (ok fl, w) =
      if bit_and fl o_nonblock == 0 then sys.setfl fd (fl + o_nonblock) w else w
  add_nonblock fd (failed e, w) = w

  unfoldable pub set_nonblock : ℤ → W → W
  set_nonblock fd w = add_nonblock fd (sys.getfl fd w)

  abbrev pub accept_one : Sqe → W → Outcome × W
  accept_one s w = sys.accept4 s.fd s.addr s.off s.rw_flags w
