-- ===== src/Posix/Cancel/Lists.antt =====
-- The lists that a sweep walks, and what cancelling one op does to them.
use slipstream_io.Base.{
  if_both, ℕ, ◌+◌, ◌≤◌, ◌≡◌, refl, ◌∙◌, arith, ℤ, neg, List, ◌∷◌, length, count, none,
}
use slipstream_io.Abi.{ecanceled}
use slipstream_io.Ring.{Ring}
use slipstream_io.Completion.{post}
use slipstream_io.Completion.Owners.{owners, post-Returned}
use slipstream_io.Engine.{same_op}
use slipstream_io.Posix.Cancel.{cancel_settled, cancel_target, Listed, of_queue, of_wq}
use slipstream_io.Posix.Owned.{Owned, post-Owned}
use slipstream_io.Posix.Same.{Same, Same-refl, Same-chain, Same-Kept}

-- In how many of the lists that cancel looks at an op stands.
abbrev pub active : ℕ → Ring → ℕ
active p r = count p r.waiting + count p r.queue + count p r.wq

-- What a sweep asks of its list.
pub record IsListed (l : Listed) (get : Ring → List ℕ) : Type 0 where
  pub got : (r : Ring) (ps : List ℕ) → get (l.put r ps) ≡ ps
  pub owned :
      (r : Ring) (ps : List ℕ) (p : ℕ)
      → owners p (l.put r ps) + count p (get r) ≡ owners p r + count p ps
  pub active :
      (r : Ring) (ps : List ℕ) (p : ℕ)
      → active p (l.put r ps) + count p (get r) ≡ active p r + count p ps
  pub op_pool_n : (r : Ring) (ps : List ℕ) → (l.put r ps).op_pool_n ≡ r.op_pool_n
  pub waiting : (r : Ring) (ps : List ℕ) → (l.put r ps).waiting ≡ r.waiting
  pub ops : (r : Ring) (ps : List ℕ) → (l.put r ps).ops ≡ r.ops
  pub shorter :
      (r : Ring) (ps : List ℕ)
      → length ps ≤ length (get r)
      → length (l.put r ps).queue ≤ length r.queue
  pub posted : (r : Ring) (p : ℕ) (res : ℤ) → get (post r p res) ≡ get r
  pub settled : (r : Ring) (t : ℕ) → get (cancel_settled r t) ≡ get r

pub cancel_settled-Same : (r : Ring) (t : ℕ) → Same r (cancel_settled r t)
unfolding cancel_settled
cancel_settled-Same r t =
    if_both (Same r) (same_op r.blocking t) _ _ (Same-chain r none _)
      (if_both (Same r) (r.ops t).sqe.flags.io_link _ _ (Same-chain r r.blocking _) (Same-refl r))

pub queue-IsListed : IsListed of_queue (λ r. r.queue)
queue-IsListed = record {
  got = λ r ps. refl;
  owned = λ r ps p. omega arith;
  active = λ r ps p. omega arith;
  op_pool_n = λ r ps. refl;
  waiting = λ r ps. refl;
  ops = λ r ps. refl;
  shorter = λ r ps h. h;
  posted = λ r p res. (post-Returned r p res).frame.queue;
  settled = λ r t. (cancel_settled-Same r t).queue;
}

pub wq-IsListed : IsListed of_wq (λ r. r.wq)
wq-IsListed = record {
  got = λ r ps. refl;
  owned = λ r ps p. omega arith;
  active = λ r ps p. omega arith;
  op_pool_n = λ r ps. refl;
  waiting = λ r ps. refl;
  ops = λ r ps. refl;
  shorter = λ r ps h. omega arith;
  posted = λ r p res. (post-Returned r p res).frame.wq;
  settled = λ r t. (cancel_settled-Same r t).wq;
}

pub cancel_target-Owned :
    (held : List ℕ) (r : Ring) (t : ℕ) → Owned (t ∷ held) r → Owned held (cancel_target r t)
unfolding cancel_target
cancel_target-Owned held r t h =
    post-Owned t held (cancel_settled r t) (neg ecanceled)
      (Same-Kept (t ∷ held) r (cancel_settled r t) (cancel_settled-Same r t) h).owned

pub queue-cancel_target : (r : Ring) (t : ℕ) → (cancel_target r t).queue ≡ r.queue
unfolding cancel_target
queue-cancel_target r t =
    (post-Returned (cancel_settled r t) t (neg ecanceled)).frame.queue
    ∙ (cancel_settled-Same r t).queue

pub waiting-cancel_target : (r : Ring) (t : ℕ) → (cancel_target r t).waiting ≡ r.waiting
unfolding cancel_target
waiting-cancel_target r t =
    (post-Returned (cancel_settled r t) t (neg ecanceled)).frame.waiting
    ∙ (cancel_settled-Same r t).waiting
