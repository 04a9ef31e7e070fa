-- ===== src/Abi.antt =====
-- What the engine shares with the liburing headers that it includes: submission and completion
-- entries, opcodes and flags. A flags word is read bit by bit only, so its bits are Booleans; a
-- union is a field for each member that the source reads. Errno numbers are Linux's.
use slipstream_io.Base.{ℕ, Bool, false, ℤ, pos}

pub data Opcode : Type 0 where
  nop read write recv send recvmsg sendmsg accept connect socket bind listen shutdown : Opcode
  close poll_add poll_remove async_cancel statx unlinkat openat openat2 uring_cmd : Opcode
  msg_ring : Opcode
  other : ℕ → Opcode

-- `sqe->flags`: IOSQE_FIXED_FILE, IOSQE_IO_LINK, IOSQE_CQE_SKIP_SUCCESS, IOSQE_BUFFER_SELECT.
pub record SqeFlags : Type 0 where
  pub fixed_file : Bool
  pub io_link : Bool
  pub cqe_skip_success : Bool
  pub buffer_select : Bool

-- `struct io_uring_sqe`. `pad` is `__pad2[0]`.
pub record Sqe : Type 0 where
  pub opcode : Opcode
  pub flags : SqeFlags
  pub fd : ℤ
  pub off : ℕ
  pub addr : ℕ
  pub len : ℕ
  pub user_data : ℕ
  pub file_index : ℕ
  pub buf_group : ℕ
  pub addr3 : ℕ
  pub pad : ℕ
  pub rw_flags : ℕ
  pub poll32_events : ℕ
  pub msg_dontwait : Bool
  pub cancel_all : Bool
  pub cancel_fd : Bool
  pub accept_multishot : Bool
  pub recv_multishot : Bool
  pub recvsend_bundle : Bool
  pub poll_add_multi : Bool

-- `cqe->flags`: IORING_CQE_F_BUFFER with its buffer id, and IORING_CQE_F_MORE.
pub record CqeFlags : Type 0 where
  pub f_buffer : Bool
  pub bid : ℕ
  pub f_more : Bool

-- `struct io_uring_cqe`
pub record Cqe : Type 0 where
  pub user_data : ℕ
  pub res : ℤ
  pub flags : CqeFlags

abbrev pub no_flags : SqeFlags
no_flags = record {
  fixed_file = false;
  io_link = false;
  cqe_skip_success = false;
  buffer_select = false;
}

abbrev pub no_cqe_flags : CqeFlags
no_cqe_flags = record { f_buffer = false; bid = 0; f_more = false }

-- An entry of zero bytes.
abbrev pub zero_sqe : Sqe
zero_sqe = record {
  opcode = nop;
  flags = no_flags;
  fd = pos 0;
  off = 0;
  addr = 0;
  len = 0;
  user_data = 0;
  file_index = 0;
  buf_group = 0;
  addr3 = 0;
  pad = 0;
  rw_flags = 0;
  poll32_events = 0;
  msg_dontwait = false;
  cancel_all = false;
  cancel_fd = false;
  accept_multishot = false;
  recv_multishot = false;
  recvsend_bundle = false;
  poll_add_multi = false;
}

abbrev pub enoent : ℕ
enoent = 2

abbrev pub ebadf : ℕ
ebadf = 9

abbrev pub eagain : ℕ
eagain = 11

abbrev pub enomem : ℕ
enomem = 12

abbrev pub efault : ℕ
efault = 14

abbrev pub ebusy : ℕ
ebusy = 16

abbrev pub eexist : ℕ
eexist = 17

abbrev pub einval : ℕ
einval = 22

abbrev pub enfile : ℕ
enfile = 23

abbrev pub emfile : ℕ
emfile = 24

abbrev pub enxio : ℕ
enxio = 6

abbrev pub etime : ℕ
etime = 62

abbrev pub eopnotsupp : ℕ
eopnotsupp = 95

abbrev pub enobufs : ℕ
enobufs = 105

abbrev pub ealready : ℕ
ealready = 114

abbrev pub einprogress : ℕ
einprogress = 115

abbrev pub ecanceled : ℕ
ecanceled = 125

abbrev pub enosys : ℕ
enosys = 38

abbrev pub enotconn : ℕ
enotconn = 107
