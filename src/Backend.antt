-- ===== src/Backend.antt =====
-- src/engine_internal.h, `struct eng_backend`: the door between the core and a platform, with what
-- the core relies on. `W` is whatever the platform keeps outside the ring.
pub mod Laws
use slipstream_io.Base.{ℕ, ℤ, Bool, List, [], ◌∷◌, Option, none, some}
use slipstream_io.Ring.{Ring}

-- EXEC_DONE with its result, EXEC_PENDING
pub data Exec : Type 0 where
  done : ℤ → Exec
  pending : Exec

-- `wait` answers the ops that finished, or a failure; its timeout is `none` for -1.
pub record Backend (W : Type 0) : Type 0 where
  pub open_ring : Ring → W → Bool × Ring × W
  pub close_ring : Ring → W → Ring × W
  pub poke : Ring → W → W
  pub execute : Ring → ℕ → W → Exec × Ring × W
  pub wait : Ring → ℕ → Option ℕ → W → Option (List (ℕ × ℤ)) × Ring × W
  pub carried_ops : List ℕ

-- The slots of the ops that a wait answered.
abbrev pub slots : List (ℕ × ℤ) → List ℕ
slots [] = []
slots ((p, res) ∷ rest) = p ∷ slots rest

abbrev pub handed_back : Option (List (ℕ × ℤ)) → List ℕ
handed_back none = []
handed_back (some rest) = slots rest
