-- ===== src/Engine/Chains/Machine.antt =====
-- The chain standing as a machine over the ops that follow, and that it runs chains.
use slipstream_io.Base.{
  ℤ, is_neg, Bool, true, false, ◌&&◌, List, [], ◌∷◌, ◌++◌, if◌then◌else◌, ◌≡◌, refl, ◌∙◌, sym, ap,
  append_assoc,
}
use slipstream_io.Abi.{Cqe}
use slipstream_io.Ring.{EngOp, Chain, holds, cancels, cancels_quietly, chain_failure_of}
use slipstream_io.Completion.Order.{posted}
use slipstream_io.Engine.Chains.{chains, join, cancel_cqe, cancelled, run_chain, run_chains}

abbrev pub is_quiet : Chain → Bool
is_quiet cancels_quietly = true
is_quiet _ = false

module _ (answer : EngOp → ℤ) where
  -- What one op leaves of the chain's standing.
  abbrev pub next_chain : Chain → EngOp → Chain
  next_chain holds op =
      if is_neg (answer op) && op.sqe.flags.io_link then chain_failure_of op else holds
  next_chain cancels op = if op.sqe.flags.io_link then cancels else holds
  next_chain cancels_quietly op = if op.sqe.flags.io_link then cancels_quietly else holds

  -- What it answers.
  abbrev pub answered : Chain → EngOp → List Cqe
  answered holds op = posted op (answer op)
  answered cancels op = cancel_cqe op ∷ []
  answered cancels_quietly op = []

  unfoldable pub machine : Chain → List EngOp → List Cqe
  machine c [] = []
  machine c (op ∷ ops) = answered c op ++ machine (next_chain c op) ops

  -- The rest of a failed chain, then the chains behind it.
  after_failure : Bool → List (List EngOp) → List Cqe
  after_failure quiet [] = []
  after_failure quiet (c ∷ cs) = cancelled quiet c ++ run_chains answer cs

  -- The chains of a submission, from its first op and the chains behind it.
  abbrev chains_from : Bool → EngOp → List (List EngOp) → List (List EngOp)
  chains_from l op cs = if l then join op cs else (op ∷ []) ∷ cs

  cancelled-nil : (q : Bool) → cancelled q [] ≡ []
  unfolding cancelled
  cancelled-nil false = refl
  cancelled-nil true = refl

  after_failure-chains_from :
      (q l : Bool) (op : EngOp) (cs : List (List EngOp))
      → after_failure q (chains_from l op cs)
        ≡ cancelled q (op ∷ []) ++ (if l then after_failure q cs else run_chains answer cs)
  unfolding after_failure join cancelled run_chains
  after_failure-chains_from false false op cs = refl
  after_failure-chains_from true false op cs = refl
  after_failure-chains_from false true op [] = refl
  after_failure-chains_from true true op [] = refl
  after_failure-chains_from false true op (c ∷ cs) = refl
  after_failure-chains_from true true op (c ∷ cs) = refl

  -- What a chain of which `op` is the first leaves to those behind it.
  abbrev behind : Bool → Bool → EngOp → List (List EngOp) → List Cqe
  behind failed l op cs =
      if failed && l then after_failure op.sqe.flags.cqe_skip_success cs else run_chains answer cs

  -- What follows the first op of its own chain, on either outcome.
  abbrev tail_of : Bool → EngOp → List EngOp → List Cqe
  tail_of failed op ops =
      if failed then cancelled op.sqe.flags.cqe_skip_success ops else run_chain answer ops

  tail-alone :
      (n l : Bool) (op : EngOp) (cs : List (List EngOp))
      → (if l then cs else []) ≡ []
      → tail_of n op [] ++ run_chains answer cs ≡ behind n l op cs
  unfolding after_failure run_chain run_chains
  tail-alone true false op cs e = rw cancelled-nil
  tail-alone false false op cs e = refl
  tail-alone true true op [] e = rw cancelled-nil
  tail-alone false true op [] e = refl
  tail-alone true true op (c ∷ cs) e = absurd (cc)
  tail-alone false true op (c ∷ cs) e = absurd (cc)

  tail-linked :
      (n : Bool) (op : EngOp) (c : List EngOp) (cs : List (List EngOp))
      → tail_of n op c ++ run_chains answer cs ≡ behind n true op (c ∷ cs)
  unfolding after_failure run_chains
  tail-linked true op c cs = refl
  tail-linked false op c cs = refl

  run_chains-chains_from :
      (l : Bool) (op : EngOp) (cs : List (List EngOp))
      → run_chains answer (chains_from l op cs)
        ≡ posted op (answer op) ++ behind (is_neg (answer op)) l op cs
  unfolding join run_chain run_chains
  run_chains-chains_from false op cs =
      append_assoc (posted op (answer op)) (tail_of (is_neg (answer op)) op [])
        (run_chains answer cs)
      ∙ ap (λ l. posted op (answer op) ++ l) (tail-alone (is_neg (answer op)) false op cs refl)
  run_chains-chains_from true op [] =
      append_assoc (posted op (answer op)) (tail_of (is_neg (answer op)) op []) []
      ∙ ap (λ l. posted op (answer op) ++ l) (tail-alone (is_neg (answer op)) true op [] refl)
  run_chains-chains_from true op (c ∷ cs) =
      append_assoc (posted op (answer op)) (tail_of (is_neg (answer op)) op c)
        (run_chains answer cs)
      ∙ ap (λ l. posted op (answer op) ++ l) (tail-linked (is_neg (answer op)) op c cs)

  -- What the machine answers from each standing, said by chains.
  abbrev expected : Chain → List (List EngOp) → List Cqe
  expected holds cs = run_chains answer cs
  expected cancels cs = after_failure false cs
  expected cancels_quietly cs = after_failure true cs

  expected-failure :
      (op : EngOp) (cs : List (List EngOp))
      → expected (chain_failure_of op) cs ≡ after_failure op.sqe.flags.cqe_skip_success cs
  expected-failure op cs = go op.sqe.flags.cqe_skip_success
    where
      go : (q : Bool) → expected (if q then cancels_quietly else cancels) cs ≡ after_failure q cs
      go true = refl
      go false = refl

  expected-next :
      (op : EngOp) (failed l : Bool) (cs : List (List EngOp))
      → expected (if failed && l then chain_failure_of op else holds) cs ≡ behind failed l op cs
  expected-next op true true cs = expected-failure op cs
  expected-next op true false cs = refl
  expected-next op false true cs = refl
  expected-next op false false cs = refl

  expected-linked :
      (c : Chain) (q l : Bool) (cs : List (List EngOp))
      → expected c cs ≡ after_failure q cs
      → expected (if l then c else holds) cs
        ≡ (if l then after_failure q cs else run_chains answer cs)
  expected-linked c q true cs e = e
  expected-linked c q false cs e = refl

  machine-expected : (c : Chain) (ops : List EngOp) → machine c ops ≡ expected c (chains ops)
  unfolding machine chains after_failure run_chains cancelled
  machine-expected holds [] = refl
  machine-expected cancels [] = refl
  machine-expected cancels_quietly [] = refl
  machine-expected holds (op ∷ ops) =
      ap (λ l. posted op (answer op) ++ l)
        (machine-expected (next_chain holds op) ops
          ∙ expected-next op (is_neg (answer op)) op.sqe.flags.io_link (chains ops))
      ∙ sym (run_chains-chains_from op.sqe.flags.io_link op (chains ops))
  machine-expected cancels (op ∷ ops) =
      ap (λ l. cancel_cqe op ∷ l)
        (machine-expected (next_chain cancels op) ops
          ∙ expected-linked cancels false op.sqe.flags.io_link (chains ops) refl)
      ∙ sym (after_failure-chains_from false op.sqe.flags.io_link op (chains ops))
  machine-expected cancels_quietly (op ∷ ops) =
      machine-expected (next_chain cancels_quietly op) ops
      ∙ expected-linked cancels_quietly true op.sqe.flags.io_link (chains ops) refl
      ∙ sym (after_failure-chains_from true op.sqe.flags.io_link op (chains ops))

  -- From a chain that holds, the machine runs the submission chain by chain.
  pub machine-chains : (ops : List EngOp) → machine holds ops ≡ run_chains answer (chains ops)
  machine-chains ops = machine-expected holds ops
