-- ===== src/Epoll.antt =====
-- src/engine_epoll.c: the backend's mirror of the parked set, in a table by descriptor. The op's `next` is
-- the order of the lists. The calls of the kernel are operations on the world.
pub mod Wait
pub mod Table
pub mod Sides
mod Tests
use slipstream_io.Base.{
  ℕ, zero, suc, ◌+◌, ◌-◌, ◌*◌, bit_and, ℤ, pos, negsuc, neg, Bool, true, false, not, ◌&&◌, ◌||◌,
  List, [], ◌∷◌, ◌++◌, length, get_elem?, set, take, Option, none, some, ltb, leb, ◌==◌,
  if◌then◌else◌,
}
use slipstream_io.Ring.{Ring, EngOp}
use slipstream_io.Posix.Sys.{Sys, pollin, pollpri, pollout}
use slipstream_io.Posix.Execute.{Readiness, finish_ready}

-- EPOLLIN, EPOLLOUT and EPOLLPRI
pub record Interest : Type 0 where
  pub reads : Bool
  pub writes : Bool
  pub urgent : Bool

abbrev pub no_interest : Interest
no_interest = record { reads = false; writes = false; urgent = false }

abbrev pub is_zero : Interest → Bool
is_zero i = not (i.reads || i.writes || i.urgent)

abbrev pub merge : Interest → Interest → Interest
merge a b = record {
  reads = a.reads || b.reads;
  writes = a.writes || b.writes;
  urgent = a.urgent || b.urgent;
}

abbrev pub without : Interest → Interest → Interest
without a b = record {
  reads = a.reads && not b.reads;
  writes = a.writes && not b.writes;
  urgent = a.urgent && not b.urgent;
}

-- `(a & b) == b`
abbrev pub covers : Interest → Interest → Bool
covers a b = (a.reads || not b.reads) && (a.writes || not b.writes) && (a.urgent || not b.urgent)

-- `ep_events_of`
abbrev pub ep_events_of : ℕ → Interest
ep_events_of events = record {
  reads = not (bit_and events pollin == 0);
  writes = not (bit_and events pollout == 0);
  urgent = not (bit_and events pollpri == 0);
}

-- `struct ep_fd`; the table's length is `n`.
pub record EpFd : Type 0 where
  pub interest : Interest
  pub readers : List ℕ
  pub writers : List ℕ

abbrev pub zero_fd : EpFd
zero_fd = record { interest = no_interest; readers = []; writers = [] }

abbrev pub zeros : ℕ → List EpFd
zeros zero = []
zeros (suc n) = zero_fd ∷ zeros n

pub data Ctl : Type 0 where
  add modify remove : Ctl

-- What a wait says of a descriptor; `broken` is EPOLLERR or EPOLLHUP.
pub record EpEvent : Type 0 where
  pub fd : ℕ
  pub reads : Bool
  pub writes : Bool
  pub urgent : Bool
  pub broken : Bool

-- The kernel's calls; `disagrees` says that the errno is EEXIST or ENOENT.
pub record Ep (V : Type 0) : Type 0 where
  pub memory : ℕ → V → Bool × V
  pub epoll_ctl : Ctl → ℤ → Interest → V → Option ℕ × V
  pub epoll_wait : Option ℕ → V → Option (List EpEvent) × V
  pub disagrees : ℕ → Bool
  pub ctl_r : ℕ
  pub ctl_drain : V → V

-- The loop that doubles the table until it has the descriptor.
unfoldable pub wanted : ℕ → ℕ → ℕ → ℕ
wanted zero want fd = want
wanted (suc f) want fd = let twice = wanted f (want * 2) fd in if leb want fd then twice else want

-- sizeof(struct ep_fd)
abbrev pub ep_fd_size : ℕ
ep_fd_size = 24

-- The side of its descriptor that an op waits on.
abbrev pub is_writer : ℕ → Bool
is_writer events = not (bit_and events pollout == 0)

abbrev pub side : Bool → EpFd → List ℕ
side true s = s.writers
side false s = s.readers

abbrev pub with_side : Bool → EpFd → List ℕ → EpFd
with_side true s ps = record s { writers = ps }
with_side false s ps = record s { readers = ps }

abbrev pub no_waiters : List ℕ → Bool
no_waiters [] = true
no_waiters (p ∷ ps) = false

-- The op out of its side, at its first place.
unfoldable pub unlink : ℕ → List ℕ → List ℕ
unlink p [] = []
unlink p (q ∷ qs) = let rest = unlink p qs in if q == p then qs else q ∷ rest

abbrev pub behind_first : List ℕ → List ℕ
behind_first [] = []
behind_first (p ∷ ps) = ps

abbrev pub slot_of : List EpFd → ℕ → EpFd
slot_of fds i = elim (get_elem? fds i) [ none ↦ zero_fd | some s ↦ s ]

unfoldable pub put_slot : List EpFd → ℕ → EpFd → List EpFd
put_slot [] i s = []
put_slot (x ∷ xs) zero s = s ∷ xs
put_slot (x ∷ xs) (suc i) s = x ∷ put_slot xs i s

module _ {V : Type 0} (sys : Ep V) where
  -- The table and the world.
  abbrev pub State : Type 0
  State = List EpFd × V

  abbrev pub grown_by : List EpFd → ℕ → ℕ → Bool × V → Option ℕ × State
  grown_by fds want fd (false, v) = (none, (fds, v))
  grown_by fds want fd (true, v) = (some fd, (fds ++ zeros (want - length fds), v))

  -- `ep_slot`: the place of a descriptor, in a table that has it.
  unfoldable pub ep_slot : ℤ → State → Option ℕ × State
  ep_slot (negsuc n) (fds, v) = (none, (fds, v))
  ep_slot (pos fd) (fds, v) =
      let start = if length fds == 0 then 64 else length fds in
      let want = wanted (suc fd) start fd in
      if leb (length fds) fd
      then grown_by fds want fd (sys.memory (want * ep_fd_size) v)
      else (some fd, (fds, v))

  abbrev pub interest_set : List EpFd → ℕ → Interest → List EpFd
  interest_set fds i e = put_slot fds i (record (slot_of fds i) { interest = e })

  abbrev pub modified : List EpFd → ℕ → Interest → Option ℕ × V → State
  modified fds i left (none, v) = (interest_set fds i left, v)
  modified fds i left (some e, v) = (fds, v)

  -- `ep_quiet`
  unfoldable pub ep_quiet : ℕ → Interest → State → State
  ep_quiet i unwanted (fds, v) =
      let left = without (slot_of fds i).interest unwanted in
      if is_zero left
      then (interest_set fds i no_interest, (sys.epoll_ctl remove (pos i) left v).1)
      else modified fds i left (sys.epoll_ctl modify (pos i) left v)

  -- The op is not on its side any more, and the table knows nothing of the descriptor.
  abbrev pub undone : List EpFd → ℕ → Bool → V → Bool × State
  undone fds i writer v =
      let s = slot_of fds i in
      (
        false,
        (
          put_slot fds i (record (with_side writer s (behind_first (side writer s))) {
            interest = no_interest;
          }),
          v,
        ),
      )

  -- The other call, where the table and the kernel disagree.
  unfoldable pub second_try : List EpFd → ℕ → Bool → Interest → Option ℕ × V → Bool × State
  second_try fds i writer merged (none, v) = (true, (interest_set fds i merged, v))
  second_try fds i writer merged (some e, v) = undone fds i writer v

  abbrev pub other_ctl : Bool → Ctl
  other_ctl true = modify
  other_ctl false = add

  unfoldable pub first_try : List EpFd → ℕ → Bool → Bool → Interest → Option ℕ × V → Bool × State
  first_try fds i writer added merged (none, v) = (true, (interest_set fds i merged, v))
  first_try fds i writer added merged (some e, v) =
      if sys.disagrees e
      then second_try fds i writer merged (sys.epoll_ctl (other_ctl added) (pos i) merged v)
      else undone fds i writer v

  -- The registration, of a table where the op stands on its side already.
  unfoldable pub ep_register : List EpFd → ℕ → Bool → Bool → Interest → V → Bool × State
  ep_register fds i writer idle want v =
      let old = (slot_of fds i).interest in
      let known = if idle then no_interest else old in
      let added = is_zero known in
      let merged = merge known want in
      if not idle && not (is_zero old) && covers old want
      then (true, (fds, v))
      else first_try (interest_set fds i known) i writer added merged
          (sys.epoll_ctl (if added then add else modify) (pos i) merged v)

  unfoldable pub arm_at : ℕ → ℕ → Option ℕ × State → Bool × State
  arm_at p events (none, s) = (false, s)
  arm_at p events (some i, (fds, v)) =
      let s = slot_of fds i in
      let writer = is_writer events in
      ep_register (put_slot fds i (with_side writer s (p ∷ side writer s))) i writer
        (no_waiters s.readers && no_waiters s.writers) (ep_events_of events) v

  -- `epoll_arm`
  unfoldable pub arm : Ring → ℕ → State → Bool × State
  arm r p s = arm_at p (r.ops p).wait_events (ep_slot (r.ops p).sqe.fd s)

  unfoldable pub disarm_at : ℕ → ℕ → Option ℕ × State → State
  disarm_at p events (none, s) = s
  disarm_at p events (some i, (fds, v)) =
      let s = slot_of fds i in
      let writer = is_writer events in
      (put_slot fds i (with_side writer s (unlink p (side writer s))), v)

  -- `epoll_disarm`
  unfoldable pub disarm : Ring → ℕ → State → State
  disarm r p s = disarm_at p (r.ops p).wait_events (ep_slot (r.ops p).sqe.fd s)

  unfoldable pub forget_at : Option ℕ × State → State
  forget_at (none, s) = s
  forget_at (some i, (fds, v)) = (put_slot fds i zero_fd, v)

  -- `epoll_forget`
  unfoldable pub forget : ℤ → State → State
  forget fd s = forget_at (ep_slot fd s)
