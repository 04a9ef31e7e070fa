-- ===== src/Engine/Chains.antt =====
-- What a submission with linked ops is to answer, said chain by chain: IOSQE_IO_LINK ties an op to
-- the next, a chain runs to its first failure, and the members after that are cancelled. The queue
-- runs as this says, where the backend finishes its ops at once.
pub mod Machine
pub mod Step
pub mod Refine
use slipstream_io.Base.{
  ℕ, ℤ, neg, is_neg, IsInt32, Bool, true, false, List, [], ◌∷◌, ◌++◌, map, if◌then◌else◌, ◌≡◌,
}
use slipstream_io.Abi.{Cqe, ecanceled}
use slipstream_io.Ring.{Ring, EngOp}
use slipstream_io.Completion.Order.{posted}
use slipstream_io.Backend.{Backend, done}

pub join : EngOp → List (List EngOp) → List (List EngOp)
join op [] = (op ∷ []) ∷ []
join op (c ∷ cs) = (op ∷ c) ∷ cs

-- The submission as its chains, each up to an op without the link.
unfoldable pub chains : List EngOp → List (List EngOp)
unfolding join
chains [] = []
chains (op ∷ ops) = if op.sqe.flags.io_link then join op (chains ops) else (op ∷ []) ∷ chains ops

abbrev pub cancel_cqe : EngOp → Cqe
cancel_cqe op = record { user_data = op.sqe.user_data; res = neg ecanceled; flags = op.cqe_flags }

-- The members behind a failure: -ECANCELED each, or nothing where the op that failed carries
-- IOSQE_CQE_SKIP_SUCCESS.
unfoldable pub cancelled : Bool → List EngOp → List Cqe
cancelled quiet ops = if quiet then [] else map cancel_cqe ops

module _ (answer : EngOp → ℤ) where
  unfoldable pub run_chain : List EngOp → List Cqe
  run_chain [] = []
  run_chain (op ∷ ops) =
      let rest = run_chain ops in
      posted op (answer op)
      ++ (if is_neg (answer op) then cancelled op.sqe.flags.cqe_skip_success ops else rest)

  unfoldable pub run_chains : List (List EngOp) → List Cqe
  run_chains [] = []
  run_chains (c ∷ cs) = run_chain c ++ run_chains cs

-- The ops of `at_once`, as the select backend's NOP, are finished by `execute` with an answer that the op
-- alone decides, and the ring is left as it is.
pub record IsInline (W : Type 0) (b : Backend W) (at_once : EngOp → Bool) (answer : EngOp → ℤ)
    : Type 0 where
  pub inline :
      (r : Ring) (p : ℕ) (w : W)
      → at_once (r.ops p) ≡ true
      → (v : W) × (b.execute r p w ≡ (done (answer (r.ops p)), r, v))
  pub int32 : (op : EngOp) → IsInt32 (answer op)
