-- ===== src/Posix/Execute/Keep.antt =====
-- `slip_posix_execute`: who holds the op after its answer, and how long the queue is.
use mathlib.Core.Path.{subst}
use slipstream_io.Base.{
  if_both, ℕ, ◌≤◌, ◌≡◌, refl, ap, arith, ℤ, Bool, true, false, ◌||◌, List, [], ◌∷◌, length,
  count-append, Option, none, some, if◌then◌else◌, Bool-cases, inl, inr,
}
use slipstream_io.Ring.{Ring}
use slipstream_io.Backend.{Exec, done}
use slipstream_io.Backend.Laws.{OwnedAfter}
use slipstream_io.Posix.{park, hand_to_worker, worker_start_once}
use slipstream_io.Posix.Sys.{Sys, ran, parks, file_op, Tried}
use slipstream_io.Posix.Try.Answers.{IsSingle, posix_try-HasAnswer}
use slipstream_io.Posix.Try.Keep.{posix_try-Kept}
use slipstream_io.Posix.Multishot.Keep.{TriedKept}
use slipstream_io.Posix.Cancel.{is_async_cancel, is_poll_remove, is_followed}
use slipstream_io.Posix.Cancel.Sweep.{Cut, cancel_matching-Cut}
use slipstream_io.Posix.Execute.{
  Readiness, park_answer, block_on, verdict_on, tried_on, cancelled_on, posix_execute,
}
use slipstream_io.Posix.Owned.{Owned, Kept, update-Owned}
use slipstream_io.Posix.Unpark.{AfterPark, park-AfterPark}

-- What an answer to an op leaves, where the code holds `held` beside it.
abbrev pub Answered : {W : Type 0} → List ℕ → ℕ → Ring → Exec × Ring × W → Type 0
Answered held p r (x, s, w) = OwnedAfter held p x s × (length s.queue ≤ length r.queue)

-- The op's place in the worker's list is its own.
hand_to_worker-Owned :
    (started : Bool) (p : ℕ) (held : List ℕ) (r : Ring)
    → Owned (p ∷ held) r
    → Owned held (hand_to_worker started r p)
unfolding hand_to_worker worker_start_once
hand_to_worker-Owned started p held r h =
    let op = record (r.ops p) {
      stalls_queue = if (r.ops p).sqe.flags.io_link then true else (r.ops p).stalls_queue;
    } in
    let o = update-Owned (p ∷ held) r p op refl h in
    elim (Bool-cases r.worker_live) [
      | inl e ↦ rw e (record {
        holds = λ x. omega (arith, h.holds x, count-append x r.wq (p ∷ []));
        places = o.places;
      })
      | inr e ↦ rw e (record {
        holds = λ x. omega (arith, h.holds x, count-append x r.wq (p ∷ []));
        places = o.places;
      })
    ]

queue-hand_to_worker :
    (started : Bool) (p : ℕ) (r : Ring) → (hand_to_worker started r p).queue ≡ r.queue
unfolding hand_to_worker worker_start_once
queue-hand_to_worker started p r = elim (Bool-cases r.worker_live) [
  | inl e ↦ rw e refl
  | inr e ↦ rw e refl
]

module _ {W : Type 0} (sys : Sys W) (b : Readiness W) (held : List ℕ) where
  park_answer-Answered :
      (p : ℕ) (r : Ring) (x : Bool × Ring × W)
      → AfterPark b.arm b.disarm p held r x
      → Answered held p r (park_answer sys b x)
  unfolding park_answer
  park_answer-Answered p r (true, s, w) (o, q, v) = (o, omega (arith, ap length q))
  park_answer-Answered p r (false, s, w) k = (k.owned, omega (arith, ap length k.queue))

  Answered-from :
      (p : ℕ) (r s : Ring) (y : Exec × Ring × W)
      → s.queue ≡ r.queue
      → Answered held p s y
      → Answered held p r y
  Answered-from p r s (x, t, w) e (a, l) = (a, omega (arith, l, ap length e))

  verdict_on-Answered :
      (p : ℕ) (r : Ring) (t : Tried W)
      → b.submit_blocking ≡ none
      → Kept (p ∷ held) r t.1
      → Answered held p r (verdict_on sys b p t)
  unfolding verdict_on block_on
  verdict_on-Answered p r (ran res, s, w) e k = (k.owned, omega (arith, ap length k.queue))
  verdict_on-Answered p r (parks, s, w) e k =
      Answered-from p r s (park_answer sys b (park b.arm b.disarm s p w)) k.queue (
        park_answer-Answered p s (park b.arm b.disarm s p w)
          (park-AfterPark b.arm b.disarm held s p w k.owned))
  verdict_on-Answered p r (file_op, s, w) e k = rw e (
    hand_to_worker-Owned (b.started w) p held s k.owned,
    omega (arith, ap length k.queue, ap length (queue-hand_to_worker (b.started w) p s)),
  )

  -- What an answer leaves, where one came.
  abbrev AnsweredIf : ℕ → Ring → Option (Exec × Ring × W) → Type 0
  AnsweredIf p r none = Unit
  AnsweredIf p r (some y) = Answered held p r y

  tried_on-Answered :
      (p : ℕ) (r : Ring) (t : Option (Tried W))
      → b.submit_blocking ≡ none
      → TriedKept (p ∷ held) r t
      → AnsweredIf p r (tried_on sys b p t)
  unfolding tried_on
  tried_on-Answered p r none e k = tt
  tried_on-Answered p r (some t) e k = verdict_on-Answered p r t e k

  cancelled_on-Answered :
      (p : ℕ) (r : Ring) (o : Option (ℤ × Ring × W))
      → ((y : ℤ × Ring × W) × (o ≡ some y) × Cut (p ∷ held) r y.1)
      → AnsweredIf p r (cancelled_on sys b o)
  unfolding cancelled_on
  cancelled_on-Answered p r o ((res, s, w), e, k) = rw e (k.owned, k.shorter)

  execute-AnsweredIf :
      (n : ℕ) (r : Ring) (p : ℕ) (w : W)
      → b.submit_blocking ≡ none
      → is_followed (r.ops p) r ≡ true
      → Owned (p ∷ held) r
      → AnsweredIf p r (posix_execute sys b n r p w)
  unfolding posix_execute
  execute-AnsweredIf n r p w e f h =
      if_both (AnsweredIf p r)
        (is_async_cancel (r.ops p).sqe.opcode || is_poll_remove (r.ops p).sqe.opcode) _ _
        (cancelled_on-Answered p r _
          (cancel_matching-Cut (r.ops p) b.arm b.disarm (p ∷ held) r w f h))
        (tried_on-Answered p r _ e (posix_try-Kept sys b.forget (p ∷ held) n r p w h))

  tried_on-answers :
      (p : ℕ) (o : Option (Tried W))
      → (t : Tried W) × (o ≡ some t)
      → (y : Exec × Ring × W) × (tried_on sys b p o ≡ some y)
  unfolding tried_on
  tried_on-answers p o (t, e) = rw e (verdict_on sys b p t, refl)

  cancelled_on-answers :
      (p : ℕ) (r : Ring) (o : Option (ℤ × Ring × W))
      → ((y : ℤ × Ring × W) × (o ≡ some y) × Cut (p ∷ held) r y.1)
      → (y : Exec × Ring × W) × (cancelled_on sys b o ≡ some y)
  unfolding cancelled_on
  cancelled_on-answers p r o ((res, s, w), e, k) = rw e ((done res, s, w), refl)

  execute-answers :
      (n : ℕ) (r : Ring) (p : ℕ) (w : W)
      → IsSingle (r.ops p).sqe
      → is_followed (r.ops p) r ≡ true
      → Owned (p ∷ held) r
      → (y : Exec × Ring × W) × (posix_execute sys b n r p w ≡ some y)
  unfolding posix_execute
  execute-answers n r p w k f h =
      if_both (λ (o : Option (Exec × Ring × W)). (y : Exec × Ring × W) × (o ≡ some y))
        (is_async_cancel (r.ops p).sqe.opcode || is_poll_remove (r.ops p).sqe.opcode) _ _
        (cancelled_on-answers p r _
          (cancel_matching-Cut (r.ops p) b.arm b.disarm (p ∷ held) r w f h))
        (tried_on-answers p _ (posix_try-HasAnswer sys b.forget n r p w k))

  -- Where the code holds the op and `held`, the backend shares the one worker and no live worker takes from a
  -- list that holds an op which a CANCEL_ALL names, an answer leaves each op of the pool with one holder and
  -- each parked op at its place, the op itself with the core or with one list of the ring, and the queue has
  -- not grown.
  pub posix_execute-Answered :
      (n : ℕ) (r : Ring) (p : ℕ) (w : W) (y : Exec × Ring × W)
      → b.submit_blocking ≡ none
      → is_followed (r.ops p) r ≡ true
      → Owned (p ∷ held) r
      → posix_execute sys b n r p w ≡ some y
      → Answered held p r y
  posix_execute-Answered n r p w y e f h g =
      subst (AnsweredIf p r) g (execute-AnsweredIf n r p w e f h)

  -- Where every op of the pool has one holder, the code holding this one and `held`, and each parked op knows
  -- its place, the backend shares the one worker, the op is not multishot, and no live worker takes from a
  -- list that holds an op which a CANCEL_ALL names, `slip_posix_execute` answers: it hands the op back to the
  -- core, or has put it where exactly one list of the ring holds it; every other op of the pool is held once
  -- too, each parked op knows its place, and the queue has not grown.
  pub posix_execute-answers :
      (n : ℕ) (r : Ring) (p : ℕ) (w : W)
      → b.submit_blocking ≡ none
      → IsSingle (r.ops p).sqe
      → is_followed (r.ops p) r ≡ true
      → Owned (p ∷ held) r
      → (y : Exec × Ring × W) × (posix_execute sys b n r p w ≡ some y) × Answered held p r y
  posix_execute-answers n r p w e k f h =
      let (y, g) = execute-answers n r p w k f h in (y, g, posix_execute-Answered n r p w y e f h g)
