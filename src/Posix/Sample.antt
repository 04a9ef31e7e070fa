-- ===== src/Posix/Sample.antt =====
-- A system in which every call on a descriptor has the same outcome.
use slipstream_io.Base.{some}
use slipstream_io.Posix.Sys.{Sys, Outcome, ok, readiness}

abbrev pub World : Type 0
World = Unit {0}

abbrev pub socket_with : Outcome → Sys World
socket_with o = record {
  close = λ fd w. (ok 0, w);
  getfl = λ fd w. (ok 0, w);
  setfl = λ fd fl w. w;
  fstat = λ fd w. some readiness;
  read = λ fd a n w. (o, w);
  pread = λ fd a n off w. (o, w);
  write = λ fd a n w. (o, w);
  pwrite = λ fd a n off w. (o, w);
  read_nowait = λ fd a n off w. (o, w);
  write_nowait = λ fd a n off w. (o, w);
  recv = λ fd a n fl d w. (o, w);
  send = λ fd a n fl d w. (o, w);
  recvmsg = λ fd a fl d w. (o, w);
  sendmsg = λ fd a fl d w. (o, w);
  recvmsg_into = λ fd h fl d w. (o, record { namelen = 0; controllen = 0; flags = 0 }, w);
  socket = λ d t p w. (o, w);
  bind = λ fd a n w. (o, w);
  listen = λ fd n w. (o, w);
  shutdown = λ fd n w. (o, w);
  accept4 = λ fd a n fl w. (o, w);
  connect = λ fd a n w. (o, w);
  so_error = λ fd w. (o, w);
  peer = λ fd w. (o, w);
  setsockopt = λ fd l n v s w. (o, w);
  getsockopt = λ fd l n v s w. (o, w);
  getsockname = λ fd a n w. (o, w);
  getpeername = λ fd a n w. (o, w);
  poll = λ fd e w. (some 0, w);
  statx = λ fd a fl m b w. (o, w);
  unlinkat = λ fd a fl w. (o, w);
  openat = λ fd a fl m w. (o, w);
  openat2 = λ fd a h n w. (o, w);
  buf_tail = λ w b. 0;
  buf_entry = λ w b i. record { addr = 0; len = 0; bid = 0 };
  msghdr_lens = λ w a. (0, 0);
  store_out = λ a out w. w;
}
