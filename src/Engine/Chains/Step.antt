-- ===== src/Engine/Chains/Step.antt =====
-- One round of the queue is one step of the chain machine.
use mathlib.Core.Path.{subst}
use slipstream_io.Base.{
  ℕ, ◌≡◌, ◌≢◌, refl, ◌∙◌, sym, ap, arith, ℤ, neg, is_neg, IsInt32, Bool, true, false, ◌&&◌, List,
  [], ◌∷◌, ◌++◌, if◌then◌else◌, update_off, append-nil,
}
use slipstream_io.Abi.{Cqe, ecanceled}
use slipstream_io.Ring.{
  Ring, EngOp, Chain, holds, cancels, cancels_quietly, is_failed, chain_failure_of,
}
use slipstream_io.Completion.{
  cq_avail, op_release, post_locked, backlog_locked, post_drained, drain_backlog_locked, post,
}
use slipstream_io.Completion.Cases.{post_drained_cases}
use slipstream_io.Completion.Window.{CqIsValid}
use slipstream_io.Completion.Order.{completions, CqIsValid-same, posted}
use slipstream_io.Completion.Owners.{Holds, post-Holds, post-Returned, drain-DrainFrame}
use slipstream_io.Completion.Post.{post-completions}
use slipstream_io.Engine.{settle, cancel_head, drop_head}
use slipstream_io.Engine.Chains.Machine.{next_chain, answered}

-- A completion writes to no op but its own.
ops-post_drained : (r : Ring) (p q : ℕ) (res : ℤ) → p ≢ q → (post_drained r p res).ops q ≡ r.ops q
unfolding op_release post_locked backlog_locked
ops-post_drained r p q res ne =
    post_drained_cases (λ s. s.ops q ≡ r.ops q) r p res (λ _. refl) (λ _ _. refl)
      (λ _ _. update_off r.ops _ ne)

ops-post : (r : Ring) (p q : ℕ) (res : ℤ) → p ≢ q → (post r p res).ops q ≡ r.ops q
unfolding post
ops-post r p q res ne =
    ops-post_drained (drain_backlog_locked r) p q res ne ∙ ap (λ o. o q) (drain-DrainFrame r).ops

-- What a round does to its ring: one op's answer, the chain's next standing, and nothing else.
pub record Stepped (k p : ℕ) (r s : Ring) (c : Chain) (out : List Cqe) : Type 0 where
  pub valid : CqIsValid k s
  pub owned : Holds [] s
  pub queue : s.queue ≡ r.queue
  pub blocking : s.blocking ≡ r.blocking
  pub chain : s.chain_failed ≡ c
  pub order : completions s ≡ completions r ++ out
  pub ops : (q : ℕ) → p ≢ q → s.ops q ≡ r.ops q

module _ (k p : ℕ) (r : Ring) (v : CqIsValid k r) (h : Holds (p ∷ []) r) where
  post-Stepped :
      (res : ℤ) → IsInt32 res → Stepped k p r (post r p res) r.chain_failed (posted (r.ops p) res)
  post-Stepped res i =
      let a = post-completions k p [] r res v i h in
      let f = (post-Returned r p res).frame in
      record {
        valid = a.valid;
        owned = post-Holds p [] r res h;
        queue = f.queue;
        blocking = f.blocking;
        chain = f.chain_failed;
        order = a.order;
        ops = λ q ne. ops-post r p q res ne;
      }

  release-Stepped : Stepped k p r (op_release r p) r.chain_failed []
  unfolding op_release cq_avail
  release-Stepped = record {
    valid = CqIsValid-same r _ refl refl refl refl v;
    owned = λ q. omega (arith, h q);
    queue = refl;
    blocking = refl;
    chain = refl;
    order = sym (append-nil (completions r));
    ops = λ q ne. refl;
  }

-- The standing is a word of its own.
stand :
    (k p : ℕ) (r s : Ring) (c d : Chain) (out : List Cqe)
    → Stepped k p r s c out
    → Stepped k p r (record s { chain_failed = d }) d out
unfolding cq_avail
stand k p r s c d out t = record {
  valid = CqIsValid-same s _ refl refl refl refl t.valid;
  owned = t.owned;
  queue = t.queue;
  blocking = t.blocking;
  chain = refl;
  order = t.order;
  ops = t.ops;
}

-- The last member of a chain resets the standing.
unlink :
    (k p : ℕ) (r s : Ring) (c : Chain) (out : List Cqe) (l : Bool)
    → Stepped k p r s c out
    → Stepped k p r
        (if l then s else record s { chain_failed = holds })
        (if l then c else holds)
        out
unlink k p r s c out true t = t
unlink k p r s c out false t = stand k p r s c holds out t

-- The other way round: an op that is answered after the standing was set.
stood :
    (k p : ℕ) (r s : Ring) (c d : Chain) (out : List Cqe)
    → Stepped k p (record r { chain_failed = d }) s c out
    → Stepped k p r s c out
unfolding cq_avail
stood k p r s c d out t = record {
  valid = t.valid;
  owned = t.owned;
  queue = t.queue;
  blocking = t.blocking;
  chain = t.chain;
  order = t.order;
  ops = t.ops;
}

module _ (answer : EngOp → ℤ) (int32 : (op : EngOp) → IsInt32 (answer op)) where
  drop_head-Stepped :
      (k p : ℕ) (r : Ring) (c : Chain)
      → CqIsValid k r
      → Holds (p ∷ []) r
      → is_failed c ≡ true
      → Stepped k p r (drop_head c r p) r.chain_failed (answered answer c (r.ops p))
  unfolding drop_head
  drop_head-Stepped k p r holds v h f = absurd (cc)
  drop_head-Stepped k p r cancels v h f = post-Stepped k p r v h (neg ecanceled) (omega arith)
  drop_head-Stepped k p r cancels_quietly v h f = release-Stepped k p r v h

  next_chain_linked :
      (c : Chain) (op : EngOp)
      → is_failed c ≡ true
      → next_chain answer c op ≡ (if op.sqe.flags.io_link then c else holds)
  next_chain_linked holds op f = absurd (cc)
  next_chain_linked cancels op f = refl
  next_chain_linked cancels_quietly op f = refl

  pub cancel_head-Stepped :
      (k p : ℕ) (r : Ring)
      → CqIsValid k r
      → Holds (p ∷ []) r
      → is_failed r.chain_failed ≡ true
      → Stepped k p r
          (cancel_head r p)
          (next_chain answer r.chain_failed (r.ops p))
          (answered answer r.chain_failed (r.ops p))
  unfolding cancel_head
  cancel_head-Stepped k p r v h f = rw (next_chain_linked r.chain_failed (r.ops p) f) (
      unlink k p r (drop_head r.chain_failed r p) r.chain_failed _ (r.ops p).sqe.flags.io_link
        (drop_head-Stepped k p r r.chain_failed v h f))

  pub settle-Stepped :
      (k p : ℕ) (r : Ring)
      → CqIsValid k r
      → Holds (p ∷ []) r
      → r.chain_failed ≡ holds
      → let res = answer (r.ops p) in
        Stepped k p r
          (post (settle r p res) p res)
          (next_chain answer holds (r.ops p))
          (answered answer holds (r.ops p))
  unfolding settle cq_avail
  settle-Stepped k p r v h e = settled (is_neg (answer (r.ops p)) && (r.ops p).sqe.flags.io_link)
    where
      res : ℤ
      res = answer (r.ops p)

      failure : Chain
      failure = chain_failure_of (r.ops p)

      settled :
          (n : Bool)
          → Stepped k p r
              (post (if n then record r { chain_failed = failure } else r) p res)
              (if n then failure else holds)
              (posted (r.ops p) res)
      settled true = stood k p r _ failure failure _ (
          post-Stepped k p (record r { chain_failed = failure })
            (CqIsValid-same r _ refl refl refl refl v) h res (int32 (r.ops p)))
      settled false =
          subst (λ c. Stepped k p r (post r p res) c (posted (r.ops p) res)) e
            (post-Stepped k p r v h res (int32 (r.ops p)))
