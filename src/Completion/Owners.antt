-- ===== src/Completion/Owners.antt =====
-- Who holds each slot of the op pool: the free list, the backlog, the worker's queue, the submission
-- queue, the parked set, or the code that is running. A post gives the slot it was handed back to
-- the free list or to the backlog, and to nothing else.
use slipstream_io.Base.{
  ℕ, ◌+◌, ◌≡◌, refl, ◌∙◌, ap, sym, arith, List, [], ◌∷◌, some, ℤ, ltb, if◌then◌else◌, count,
  count-append, update, Bool-cases, Option-cases, inl, inr,
}
use slipstream_io.Abi.{CqeFlags}
use slipstream_io.Ring.{Ring, zero_op}
use mathlib.Core.Option.{some-injective}
use slipstream_io.Completion.Cases.{post_drained_cases}
use slipstream_io.Completion.{
  cq_room, post_locked, op_release, alloc_from, op_alloc_locked, drain_one, drain_from,
  drain_backlog_locked, backlog_locked, post_drained, post, emit_carried, emit_full, emit,
}

-- In how many of the ring's lists a slot stands.
abbrev pub owners : ℕ → Ring → ℕ
owners p r =
    count p r.op_free + count p r.backlog + count p r.wq + count p r.queue + count p r.waiting

-- Every slot of the pool is held once: by one of the ring's lists, or by the running code, which
-- holds those of `held`.
abbrev pub Holds : List ℕ → Ring → Type 0
Holds held r = (p : ℕ) → owners p r + count p held ≡ (if ltb p r.op_pool_n then 1 else 0)

-- What a completion's way out leaves alone.
abbrev pub Frame : Ring → Ring → Type 0
Frame r d = record {
  op_pool_n : d.op_pool_n ≡ r.op_pool_n;
  wq : d.wq ≡ r.wq;
  queue : d.queue ≡ r.queue;
  waiting : d.waiting ≡ r.waiting;
  blocking : d.blocking ≡ r.blocking;
  blocked_done : d.blocked_done ≡ r.blocked_done;
  chain_failed : d.chain_failed ≡ r.chain_failed;
}

pub Frame-refl : (r : Ring) → Frame r r
Frame-refl r = record {
  op_pool_n = refl;
  wq = refl;
  queue = refl;
  waiting = refl;
  blocking = refl;
  blocked_done = refl;
  chain_failed = refl;
}

pub Frame-trans : (r s t : Ring) → Frame r s → Frame s t → Frame r t
Frame-trans r s t a b = record {
  op_pool_n = b.op_pool_n ∙ a.op_pool_n;
  wq = b.wq ∙ a.wq;
  queue = b.queue ∙ a.queue;
  waiting = b.waiting ∙ a.waiting;
  blocking = b.blocking ∙ a.blocking;
  blocked_done = b.blocked_done ∙ a.blocked_done;
  chain_failed = b.chain_failed ∙ a.chain_failed;
}

-- A drain changes no op, and moves slots from the backlog to the free list only.
pub record DrainFrame (r d : Ring) : Type 0 where
  pub frame : Frame r d
  pub ops : d.ops ≡ r.ops
  pub freed :
      (p : ℕ) → count p d.op_free + count p d.backlog ≡ count p r.op_free + count p r.backlog

DrainFrame-refl : (r : Ring) → DrainFrame r r
DrainFrame-refl r = record { frame = Frame-refl r; ops = refl; freed = λ p. refl }

DrainFrame-trans : {r s t : Ring} → DrainFrame r s → DrainFrame s t → DrainFrame r t
DrainFrame-trans {r} {s} {t} a b = record {
  frame = Frame-trans r s t a.frame b.frame;
  ops = b.ops ∙ a.ops;
  freed = λ p. b.freed p ∙ a.freed p;
}

drain_one-DrainFrame :
    (q : ℕ) (rest : List ℕ) (r : Ring) → r.backlog ≡ q ∷ rest → DrainFrame r (drain_one q rest r)
unfolding drain_one op_release post_locked
drain_one-DrainFrame q rest r e = record {
  frame = Frame-refl r;
  ops = refl;
  freed = λ p. omega (arith, ap (count p) e);
}

backlog-drain_one : (q : ℕ) (rest : List ℕ) (r : Ring) → (drain_one q rest r).backlog ≡ rest
unfolding drain_one op_release post_locked
backlog-drain_one q rest r = refl

drain_from-DrainFrame : (bs : List ℕ) (r : Ring) → r.backlog ≡ bs → DrainFrame r (drain_from bs r)
unfolding drain_from
drain_from-DrainFrame [] r e = DrainFrame-refl r
drain_from-DrainFrame (q ∷ rest) r e = elim (Bool-cases (cq_room r)) [
  | inl room ↦
      rw (room, drain_from)
        (DrainFrame-trans (drain_one-DrainFrame q rest r e)
          (drain_from-DrainFrame rest (drain_one q rest r) (backlog-drain_one q rest r)))
  | inr full ↦ rw (full, drain_from) (DrainFrame-refl r)
]

pub drain-DrainFrame : (r : Ring) → DrainFrame r (drain_backlog_locked r)
unfolding drain_backlog_locked
drain-DrainFrame r = drain_from-DrainFrame r.backlog r refl

pub drain-Holds : (held : List ℕ) (r : Ring) → Holds held r → Holds held (drain_backlog_locked r)
drain-Holds held r h q =
    let d = drain-DrainFrame r in
    rw d.frame.op_pool_n (
      omega (
        arith,
        h q,
        d.freed q,
        ap (count q) d.frame.wq,
        ap (count q) d.frame.queue,
        ap (count q) d.frame.waiting,
      ))

-- What handing a slot back does to the pool's owners, and what it leaves alone.
pub record Returned (p : ℕ) (r d : Ring) : Type 0 where
  pub frame : Frame r d
  pub owned : (q : ℕ) → owners q d ≡ owners q r + count q (p ∷ [])

op_release-Returned : (r : Ring) (p : ℕ) → Returned p r (op_release r p)
unfolding op_release
op_release-Returned r p = record { frame = Frame-refl r; owned = λ q. omega arith }

op_release-post_locked-Returned :
    (r : Ring) (p u : ℕ) (res : ℤ) (f : CqeFlags)
    → Returned p r (op_release (post_locked r u res f) p)
unfolding op_release post_locked
op_release-post_locked-Returned r p u res f = record {
  frame = Frame-refl r;
  owned = λ q. omega arith;
}

backlog_locked-Returned : (r : Ring) (p : ℕ) (res : ℤ) → Returned p r (backlog_locked r p res)
unfolding backlog_locked
backlog_locked-Returned r p res = record {
  frame = Frame-refl r;
  owned = λ q. omega (arith, count-append q r.backlog (p ∷ []));
}

post_drained-Returned : (r : Ring) (p : ℕ) (res : ℤ) → Returned p r (post_drained r p res)
post_drained-Returned r p res =
    post_drained_cases (Returned p r) r p res (λ _. op_release-Returned r p)
      (λ _ _. op_release-post_locked-Returned r p _ res _) (λ _ _. backlog_locked-Returned r p res)

pub post-Returned : (r : Ring) (p : ℕ) (res : ℤ) → Returned p r (post r p res)
unfolding post
post-Returned r p res =
    let d = drain-DrainFrame r in
    let w = post_drained-Returned (drain_backlog_locked r) p res in
    record {
      frame = Frame-trans r (drain_backlog_locked r) (post r p res) d.frame w.frame;
      owned = λ q. omega (
        arith,
        w.owned q,
        d.freed q,
        ap (count q) d.frame.wq,
        ap (count q) d.frame.queue,
        ap (count q) d.frame.waiting,
      );
    }

-- Posting hands one held slot back, and every slot of the pool still has one holder.
pub post-Holds :
    (p : ℕ) (held : List ℕ) (r : Ring) (res : ℤ) → Holds (p ∷ held) r → Holds held (post r p res)
post-Holds p held r res h q =
    let w = post-Returned r p res in rw w.frame.op_pool_n (omega (arith, h q, w.owned q))

alloc_from_inv :
    (p : ℕ) (fs : List ℕ) (r s : Ring)
    → alloc_from fs r ≡ some (p, s)
    → (rest : List ℕ) × (fs ≡ p ∷ rest)
      × (s ≡ record r { op_free = rest; ops = update r.ops p zero_op })
unfolding alloc_from
alloc_from_inv p [] r s e = absurd (cc)
alloc_from_inv p (x ∷ rest) r s e =
    let e' = some-injective _ _ e in
    let x' : x ≡ p = ap (λ t. t.0) e' in
    (
      rest,
      ap (λ y. y ∷ rest) x',
      sym (ap (λ t. t.1) e')
          ∙ ap (λ y. record r { op_free = rest; ops = update r.ops y zero_op }) x',
    )

-- An allocation that succeeds took the head of the free list, and zeroed that op.
pub op_alloc_inv :
    (p : ℕ) (r s : Ring)
    → op_alloc_locked r ≡ some (p, s)
    → (rest : List ℕ) × (r.op_free ≡ p ∷ rest)
      × (s ≡ record r { op_free = rest; ops = update r.ops p zero_op })
unfolding op_alloc_locked
op_alloc_inv p r s e = alloc_from_inv p r.op_free r s e

-- An allocation takes a free slot into the code's hand.
pub op_alloc-Holds :
    (p : ℕ) (held : List ℕ) (r s : Ring)
    → op_alloc_locked r ≡ some (p, s)
    → Holds held r
    → Holds (p ∷ held) s
op_alloc-Holds p held r s e h q =
    let (rest, f, t) = op_alloc_inv p r s e in rw t (omega (arith, h q, ap (count q) f))

emit_carried-Holds :
    (held : List ℕ) (r : Ring) (p u : ℕ) (res : ℤ) (f : CqeFlags)
    → Holds (p ∷ held) r
    → Holds held (emit_carried r p u res f)
unfolding emit_carried backlog_locked
emit_carried-Holds held r p u res f h q = omega (arith, h q, count-append q r.backlog (p ∷ []))

emit_full-Holds :
    (held : List ℕ) (r : Ring) (u : ℕ) (res : ℤ) (f : CqeFlags)
    → Holds held r
    → Holds held (emit_full r u res f)
unfolding emit_full
emit_full-Holds held r u res f h = elim (Option-cases (op_alloc_locked r)) [
  | inl e ↦ rw (e, emit_full) h
  | inr ((p, s), e) ↦
      rw (e, emit_full) (emit_carried-Holds held s p u res f (op_alloc-Holds p held r s e h))
]

post_locked-Holds :
    (held : List ℕ) (r : Ring) (u : ℕ) (res : ℤ) (f : CqeFlags)
    → Holds held r
    → Holds held (post_locked r u res f)
unfolding post_locked
post_locked-Holds held r u res f h = h

-- A multishot emission changes no op's holder but its own carrier's.
pub emit-Holds :
    (held : List ℕ) (r : Ring) (u : ℕ) (res : ℤ) (f : CqeFlags)
    → Holds held r
    → Holds held (emit r u res f)
unfolding emit
emit-Holds held r u res f h = elim (Bool-cases (cq_room (drain_backlog_locked r))) [
  | inl room ↦ rw room (post_locked-Holds held _ u res f (drain-Holds held r h))
  | inr full ↦ rw full (emit_full-Holds held _ u res f (drain-Holds held r h))
]

-- A slot that the code holds stands in none of the ring's lists.
pub Holds-fresh : (p : ℕ) (held : List ℕ) (r : Ring) → Holds (p ∷ held) r → owners p r ≡ 0
Holds-fresh p held r h = let e = h p in ground (arith, e)

-- Nor does a free slot stand in the backlog.
pub Holds-free :
    (p : ℕ) (rest held : List ℕ) (r : Ring)
    → Holds held r
    → r.op_free ≡ p ∷ rest
    → count p r.backlog ≡ 0
Holds-free p rest held r h e = let a = h p in let b = ap (count p) e in ground (arith, a, b)

emit_full-Frame : (r : Ring) (u : ℕ) (res : ℤ) (f : CqeFlags) → Frame r (emit_full r u res f)
unfolding emit_full emit_carried backlog_locked
emit_full-Frame r u res f = elim (Option-cases (op_alloc_locked r)) [
  | inl e ↦ rw (e, emit_full) (Frame-refl r)
  | inr ((p, s), e) ↦ let (rest, g, t) = op_alloc_inv p r s e in rw (e, emit_full, t) (Frame-refl r)
]

pub emit-Frame : (r : Ring) (u : ℕ) (res : ℤ) (f : CqeFlags) → Frame r (emit r u res f)
unfolding emit post_locked
emit-Frame r u res f = elim (Bool-cases (cq_room (drain_backlog_locked r))) [
  | inl room ↦ rw room (drain-DrainFrame r).frame
  | inr full ↦ rw full (
      Frame-trans r (drain_backlog_locked r) (emit_full (drain_backlog_locked r) u res f)
        (drain-DrainFrame r).frame (emit_full-Frame (drain_backlog_locked r) u res f))
]
