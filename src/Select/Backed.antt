-- ===== src/Select/Backed.antt =====
-- src/engine_select.c: `slip_backend_select`, over the POSIX machinery, as the core sees it.
use slipstream_io.Base.{
  ℕ, ◌≤◌, ◌≡◌, refl, arith, ℤ, neg, Bool, List, [], ◌∷◌, ◌++◌, count, Option, none, some,
  Bool-cases, inl, inr, if◌then◌else◌,
}
use slipstream_io.Abi.{enosys}
use slipstream_io.Ring.{Ring}
use slipstream_io.Backend.{Backend, Exec, done, handed_back}
use slipstream_io.Backend.Laws.{Laws}
use slipstream_io.Posix.Sys.{Sys}
use slipstream_io.Posix.Owned.{Owned}
use slipstream_io.Posix.Cancel.{is_followed}
use slipstream_io.Posix.Execute.{posix_execute}
use slipstream_io.Posix.Execute.Keep.{Answered, posix_execute-Answered}
use slipstream_io.Posix.Execute.Ready.{ReadyIf, finish_ready-ReadyIf}
use slipstream_io.Select.{
  posix_carried_ops, Select, FdSets, ready_of, woke, fd_of, select_readiness, select_waited,
  select_wait,
}

count-ready_of :
    (r : Ring) (s : FdSets) (ps : List ℕ) (q : ℕ) → count q (ready_of r s ps) ≤ count q ps
unfolding ready_of
count-ready_of r s [] q = omega arith
count-ready_of r s (p ∷ ps) q =
    let later = count-ready_of r s ps q in
    elim (Bool-cases (woke (fd_of (r.ops p).sqe.fd) (r.ops p).wait_events s)) [
      | inl x ↦ rw x (ground (arith, later))
      | inr x ↦ rw x (ground (arith, later))
    ]

-- Where the model leaves open what the code does, a step that touches nothing stands for it.
abbrev pub or_done : {W : Type 0} → Ring → W → Option (Exec × Ring × W) → Exec × Ring × W
or_done r w none = (done (neg enosys), r, w)
or_done r w (some y) = y

abbrev pub or_nothing :
    {W : Type 0} → Ring → W → Option (List (ℕ × ℤ) × Ring × W) → Option (List (ℕ × ℤ)) × Ring × W
or_nothing r w none = (some [], r, w)
or_nothing r w (some (out, s, v)) = (some out, s, v)

module _ {W : Type 0} (fds : Select W) (posix : Sys W) (started : W → Bool) (n : ℕ) where
  -- `slip_backend_select`, with `n` rounds for a multishot loop. Past
  -- those rounds, and where a cancel gives up the lock in its walk, it is a step that touches nothing.
  abbrev pub select_backend : Backend W
  select_backend = record {
    open_ring = λ r w. let (o, v) = fds.ctl_open w in (o, r, v);
    close_ring = λ r w. (r, fds.ctl_close w);
    poke = λ r w. fds.poke w;
    execute = λ r p w.
        if is_followed (r.ops p) r
        then or_done r w (posix_execute posix (select_readiness fds posix started) n r p w)
        else or_done r w none;
    wait = λ r max t w. or_nothing r w (select_wait fds posix started n max t r w);
    carried_ops = posix_carried_ops;
  }

  or_done-Answered :
      (held : List ℕ) (p : ℕ) (r : Ring) (w : W) (o : Option (Exec × Ring × W))
      → Owned (p ∷ held) r
      → ((y : Exec × Ring × W) → o ≡ some y → Answered held p r y)
      → Answered held p r (or_done r w o)
  or_done-Answered held p r w none h k = (h, omega arith)
  or_done-Answered held p r w (some y) h k = k y refl

  execute-Answered :
      (held : List ℕ) (r : Ring) (p : ℕ) (w : W)
      → Owned (p ∷ held) r
      → Answered held p r (select_backend.execute r p w)
  execute-Answered held r p w h = elim (Bool-cases (is_followed (r.ops p) r)) [
    | inl x ↦ rw x (
        or_done-Answered held p r w _ h (λ y g.
          posix_execute-Answered posix (select_readiness fds posix started) held n r p w y refl x h
            g))
    | inr x ↦ rw x (h, omega arith)
  ]

  Waited : List ℕ → Option (List (ℕ × ℤ)) × Ring × W → Type 0
  Waited held x = Owned (handed_back x.0 ++ held) x.1

  or_nothing-Waited :
      (held : List ℕ) (max : ℕ) (r : Ring) (w : W) (o : Option (List (ℕ × ℤ) × Ring × W))
      → Owned held r
      → ReadyIf posix (select_readiness fds posix started) held max o
      → Waited held (or_nothing r w o)
  unfolding Waited
  or_nothing-Waited held max r w none h k = h
  or_nothing-Waited held max r w (some (out, s, v)) h k = k.0

  select_waited-ReadyIf :
      (held : List ℕ) (max : ℕ) (r : Ring) (x : Option FdSets × W)
      → Owned held r
      → ReadyIf posix
          (select_readiness fds posix started)
          held
          max
          (select_waited fds posix started n max r x)
  unfolding select_waited
  select_waited-ReadyIf held max r (none, w) h = (h, omega arith)
  select_waited-ReadyIf held max r (some s, w) h =
      finish_ready-ReadyIf posix (select_readiness fds posix started) n held
        (ready_of r s r.waiting) max r _ (count-ready_of r s r.waiting) h

  -- The select backend over the POSIX machinery keeps the laws that the core relies on, whatever the system
  -- calls answer: on a ring whose ops have one holder each and whose parked ops know their places, an op is
  -- finished or taken, running one submits nothing new, and the ops that a wait answers are the core's again.
  -- Past its rounds for a multishot loop, and where a cancel gives up the lock in its walk, it is a step that
  -- touches nothing.
  pub select_backend-Laws : Laws W select_backend
  unfolding select_wait Waited
  select_backend-Laws = record {
    execute-Owned = λ held r p w h. (execute-Answered held r p w h).0;
    execute-queue = λ held r p w h. (execute-Answered held r p w h).1;
    wait-Owned = λ held r max t w h.
        or_nothing-Waited held max r w _ h (select_waited-ReadyIf held max r _ h);
  }
