-- ===== src/Backend/Laws.antt =====
-- What the core relies on of a backend: src/engine_internal.h, `struct eng_backend`.
use slipstream_io.Base.{ℕ, ◌≤◌, List, ◌∷◌, ◌++◌, Option, length}
use slipstream_io.Ring.{Ring}
use slipstream_io.Backend.{Backend, Exec, done, pending, handed_back}
use slipstream_io.Posix.Owned.{Owned}

-- After `execute` the core holds the op again beside `held`, or the ring has it.
abbrev pub OwnedAfter : List ℕ → ℕ → Exec → Ring → Type 0
OwnedAfter held p (done res) r = Owned (p ∷ held) r
OwnedAfter held p pending r = Owned held r

-- On a ring whose ops have one holder each and whose parked ops know their places, an op is finished or
-- taken, never both and never neither, and running one submits nothing new. The ops that a wait answers are
-- the core's again. The code holds `held` meanwhile.
pub record Laws (W : Type 0) (b : Backend W) : Type 0 where
  pub execute-Owned :
      (held : List ℕ) (r : Ring) (p : ℕ) (w : W)
      → Owned (p ∷ held) r
      → OwnedAfter held p (b.execute r p w).0 (b.execute r p w).1
  pub execute-queue :
      (held : List ℕ) (r : Ring) (p : ℕ) (w : W)
      → Owned (p ∷ held) r
      → length (b.execute r p w).1.queue ≤ length r.queue
  pub wait-Owned :
      (held : List ℕ) (r : Ring) (n : ℕ) (t : Option ℕ) (w : W)
      → Owned held r
      → Owned (handed_back (b.wait r n t w).0 ++ held) (b.wait r n t w).1
