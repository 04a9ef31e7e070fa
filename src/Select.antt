-- ===== src/Select.antt =====
-- src/engine_select.c: the parked set by select(2), with its sets made anew for every wait.
pub mod Backed
pub mod Inline
pub mod Sample
mod Tests
use slipstream_io.Base.{
  ℕ, bit_and, ℤ, pos, negsuc, Bool, true, false, not, ◌&&◌, ◌||◌, List, [], ◌∷◌, Option, none, some,
  ltb, ◌==◌, if◌then◌else◌,
}
use slipstream_io.Ring.{Ring}
use slipstream_io.Posix.Sys.{Sys, pollin, pollpri, pollout}
use slipstream_io.Posix.Execute.{Readiness, finish_ready}

-- `slip_posix_carried_ops`, by number
abbrev pub posix_carried_ops : List ℕ
posix_carried_ops =
    0 ∷ 22 ∷ 23 ∷ 27 ∷ 26 ∷ 10 ∷ 9 ∷ 13 ∷ 16 ∷ 45 ∷ 56 ∷ 57 ∷ 34 ∷ 19 ∷ 6 ∷ 7 ∷ 14 ∷ 21 ∷ 36 ∷ 18
    ∷ 28 ∷ 46 ∷ []

-- FD_SETSIZE
abbrev pub fd_setsize : ℕ
fd_setsize = 1024

-- The three sets, as those whose bit is set.
pub record FdSets : Type 0 where
  pub rd : List ℕ
  pub wr : List ℕ
  pub ex : List ℕ

-- What the source calls: `select` answers the sets that it leaves, or a failure. The control pipe stays in
-- the world.
pub record Select (W : Type 0) : Type 0 where
  pub ctl_r : ℕ
  pub ctl_open : W → Bool × W
  pub ctl_close : W → W
  pub poke : W → W
  pub ctl_drain : W → W
  pub select : FdSets → Option ℕ → W → Option FdSets × W

-- FD_ISSET
unfoldable pub is_in : ℕ → List ℕ → Bool
is_in fd [] = false
is_in fd (x ∷ xs) = let later = is_in fd xs in (x == fd) || later

-- A descriptor that an fd_set has room for.
unfoldable pub fd_of : ℤ → Option ℕ
fd_of (pos n) = if ltb n fd_setsize then some n else none
fd_of (negsuc n) = none

abbrev pub has_fd : Option ℕ → Bool
has_fd none = false
has_fd (some n) = true

abbrev pub wants_read : ℕ → Bool
wants_read want = not (bit_and want pollin == 0) || not (bit_and want pollpri == 0)

abbrev pub wants_write : ℕ → Bool
wants_write want = not (bit_and want pollout == 0)

-- FD_SET for one parked op.
unfoldable pub put_fd : Option ℕ → ℕ → FdSets → FdSets
put_fd none want s = s
put_fd (some fd) want s = record {
  rd = if wants_read want then fd ∷ s.rd else s.rd;
  wr = if wants_write want then fd ∷ s.wr else s.wr;
  ex = fd ∷ s.ex;
}

unfoldable pub fill : Ring → List ℕ → FdSets → FdSets
fill r [] s = s
fill r (p ∷ ps) s = fill r ps (put_fd (fd_of (r.ops p).sqe.fd) (r.ops p).wait_events s)

unfoldable pub woke : Option ℕ → ℕ → FdSets → Bool
woke none want s = false
woke (some fd) want s =
    wants_read want && is_in fd s.rd || (wants_write want && is_in fd s.wr || is_in fd s.ex)

-- The parked ops that woke, in the order of their places.
unfoldable pub ready_of : Ring → FdSets → List ℕ → List ℕ
ready_of r s [] = []
ready_of r s (p ∷ ps) =
    let rest = ready_of r s ps in
    if woke (fd_of (r.ops p).sqe.fd) (r.ops p).wait_events s then p ∷ rest else rest

module _ {W : Type 0} (fds : Select W) (posix : Sys W) (started : W → Bool) where
  -- `slip_backend_select`, as the machinery sees it: `select_arm`, `select_disarm`.
  abbrev pub select_readiness : Readiness W
  select_readiness = record {
    arm = λ r p w. (has_fd (fd_of (r.ops p).sqe.fd), w);
    disarm = λ r p w. w;
    forget = none;
    submit_blocking = none;
    started = started;
  }

  unfoldable pub select_waited : ℕ → ℕ → Ring → Option FdSets × W → Option (List (ℕ × ℤ) × Ring × W)
  select_waited n max r (none, w) = some ([], r, w)
  select_waited n max r (some s, w) =
      finish_ready posix select_readiness n (ready_of r s r.waiting) max r
        (if is_in fds.ctl_r s.rd then fds.ctl_drain w else w)

  -- `select_wait`, with `n` rounds for a multishot loop.
  unfoldable pub select_wait : ℕ → ℕ → Option ℕ → Ring → W → Option (List (ℕ × ℤ) × Ring × W)
  select_wait n max timeout r w =
      select_waited n max r
        (fds.select (fill r r.waiting (record { rd = fds.ctl_r ∷ []; wr = []; ex = [] })) timeout w)
