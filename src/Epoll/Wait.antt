-- ===== src/Epoll/Wait.antt =====
-- src/engine_epoll.c: `epoll_wait_ready`, and the backend as the POSIX machinery sees it.
use slipstream_io.Base.{
  ℕ, ℤ, pos, Bool, ◌&&◌, ◌||◌, List, [], ◌∷◌, ◌++◌, take, Option, none, some, ◌==◌, if◌then◌else◌,
}
use slipstream_io.Ring.{Ring}
use slipstream_io.Posix.Sys.{Sys}
use slipstream_io.Posix.Execute.{Readiness, finish_ready}
use slipstream_io.Epoll.{
  Interest, is_zero, EpFd, EpEvent, Ep, no_waiters, slot_of, State, ep_slot, ep_quiet, arm, disarm,
  forget,
}

module _ {V : Type 0} (sys : Ep V) where
  -- What an event makes unwanted: a side that fired with nobody behind it.
  abbrev pub unwanted_of : EpEvent → EpFd → Interest
  unwanted_of ev s =
      if ev.broken && no_waiters s.readers && no_waiters s.writers then s.interest else record {
        reads = ev.reads && no_waiters s.readers;
        writes = ev.writes && no_waiters s.writers;
        urgent = ev.reads && no_waiters s.readers;
      }

  -- The ops that an event wakes.
  abbrev pub woken : EpEvent → EpFd → List ℕ
  woken ev s =
      (if ev.reads || ev.broken then s.readers else [])
      ++ (if ev.writes || ev.broken then s.writers else [])

  abbrev pub quieted : ℕ → EpEvent → State sys → State sys
  quieted i ev (fds, v) =
      let u = unwanted_of ev (slot_of fds i) in
      if is_zero u then (fds, v) else ep_quiet sys i u (fds, v)

  -- One event: the ready ops with those it wakes, as many as the pool has.
  unfoldable pub event_at : ℕ → EpEvent → List ℕ → Option ℕ × State sys → List ℕ × State sys
  event_at pool ev ready (none, s) = (ready, s)
  event_at pool ev ready (some i, (fds, v)) =
      (take pool (ready ++ woken ev (slot_of fds i)), quieted i ev (fds, v))

  unfoldable pub one_event : ℕ → EpEvent → List ℕ → State sys → List ℕ × State sys
  one_event pool ev ready (fds, v) =
      if ev.fd == sys.ctl_r
      then (ready, (fds, sys.ctl_drain v))
      else event_at pool ev ready (ep_slot sys (pos ev.fd) (fds, v))

  unfoldable pub all_events : ℕ → List EpEvent → List ℕ → State sys → List ℕ × State sys
  all_events pool [] ready s = (ready, s)
  all_events pool (ev ∷ evs) ready s =
      let (ready', t) = one_event pool ev ready s in all_events pool evs ready' t

  module _ (posix : Sys (State sys)) (started : State sys → Bool) where
    -- `slip_backend_epoll`, as the machinery sees it.
    abbrev pub readiness : Readiness (State sys)
    readiness = record {
      arm = arm sys;
      disarm = disarm sys;
      forget = some (forget sys);
      submit_blocking = none;
      started = started;
    }

    unfoldable pub ep_waited :
        ℕ
        → ℕ
        → Ring
        → List EpFd
        → Option (List EpEvent) × V
        → Option (List (ℕ × ℤ) × Ring × State sys)
    ep_waited n max r fds (none, v) = some ([], r, (fds, v))
    ep_waited n max r fds (some evs, v) =
        let (ready, s) = all_events r.op_pool_n evs [] (fds, v) in
        finish_ready posix readiness n ready max r s

    -- `epoll_wait_ready`, with `n` rounds for a multishot loop.
    unfoldable pub wait_ready :
        ℕ → ℕ → Option ℕ → Ring → State sys → Option (List (ℕ × ℤ) × Ring × State sys)
    wait_ready n max timeout r (fds, v) = ep_waited n max r fds (sys.epoll_wait timeout v)
