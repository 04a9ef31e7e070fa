-- ===== src/Engine/Queue.antt =====
-- `process_queue`: how it ends, and who holds the ops then.
use mathlib.Core.Option.{some-injective}
use slipstream_io.Base.{
  ℕ, zero, suc, ◌≤◌, ◌≡◌, refl, ◌∙◌, sym, ap, arith, ℤ, neg, is_neg, to_s32, not, ◌&&◌, List, [],
  ◌∷◌, Option, none, some, length, ◌==◌, ==_iff, eq_refl, count, Bool-cases, List-cases,
  Option-cases, ◌⊎◌, inl, inr,
}
use slipstream_io.Abi.{Sqe, no_cqe_flags, ebadf, ecanceled}
use slipstream_io.Ring.{Ring, Chain, holds, cancels, cancels_quietly, is_failed, chain_failure_of}
use slipstream_io.Completion.{op_release, post}
use slipstream_io.Completion.Owners.{post-Returned, emit-Frame}
use slipstream_io.Posix.Owned.{Owned}
use slipstream_io.Fixed.{fixed_lookup}
use slipstream_io.Backend.{Backend, Exec, done, pending}
use slipstream_io.Backend.Laws.{Laws}
use slipstream_io.Engine.{
  Engine, put_ring, ring_of, msg_to, msg_ring_op, executed, run_head, process_head, process_queue,
  next_from, next_op, cancel_head, drop_head, refuse_head, resolve, settle, is_msg_ring, msg_data,
  wants_fixed,
}
use slipstream_io.Engine.Heads.{
  EngineOwned, EngineOwned-at, put-Owned, resolve-Owned, process_head-Owned,
}
use mathlib.Core.Path.{subst}

module _ {W : Type 0} where
  pub ring-put_ring : (e : Engine W) (i : ℕ) (r : Ring) → (put_ring e i r).rings i ≡ r
  ring-put_ring e i r = rw eq_refl

queue-post : (r : Ring) (p : ℕ) (res : ℤ) → (post r p res).queue ≡ r.queue
queue-post r p res = (post-Returned r p res).frame.queue

queue-settle : (r : Ring) (p : ℕ) (res : ℤ) → (settle r p res).queue ≡ r.queue
unfolding settle
queue-settle r p res = elim (Bool-cases (is_neg res && (r.ops p).sqe.flags.io_link)) [
  | inl e ↦ rw e
  | inr e ↦ rw e
]

queue-refuse_head : (r : Ring) (p : ℕ) → (refuse_head r p).queue ≡ r.queue
unfolding refuse_head
queue-refuse_head r p = elim (Bool-cases (r.ops p).sqe.flags.io_link) [
  | inl e ↦ rw e (queue-post (record r { chain_failed = chain_failure_of (r.ops p) }) p (neg ebadf))
  | inr e ↦ rw e (queue-post r p (neg ebadf))
]

queue-resolve : (r : Ring) (p : ℕ) (fd : ℤ) → (resolve r p fd).queue ≡ r.queue
unfolding resolve
queue-resolve r p fd = refl

le_of_queue : {a b : List ℕ} → a ≡ b → length a ≤ length b
le_of_queue e = omega (arith, ap length e)

next_from-some :
    (q : List ℕ) (o : Option ℕ) (p : ℕ) (r s : Ring)
    → next_from q o r ≡ some (p, s)
    → (rest : List ℕ) × (q ≡ p ∷ rest) × (s ≡ record r { queue = rest }) × (o ≡ none)
unfolding next_from
next_from-some [] o p r s e = absurd (cc)
next_from-some (x ∷ rest) (some y) p r s e = absurd (cc)
next_from-some (x ∷ rest) none p r s e =
    let e' = some-injective _ _ e in (rest, ap (λ t. t.0 ∷ rest) e', sym (ap (λ t. t.1) e'), refl)

pub next_op-some :
    (p : ℕ) (r s : Ring)
    → next_op r ≡ some (p, s)
    → (rest : List ℕ) × (r.queue ≡ p ∷ rest) × (s ≡ record r { queue = rest }) × (r.blocking ≡ none)
unfolding next_op
next_op-some p r s e = next_from-some r.queue r.blocking p r s e

next_from-none :
    (q : List ℕ) (o : Option ℕ) (r : Ring)
    → next_from q o r ≡ none
    → (q ≡ []) ⊎ ((p : ℕ) × (o ≡ some p))
unfolding next_from
next_from-none [] o r e = inl refl
next_from-none (x ∷ rest) (some y) r e = inr (y, refl)
next_from-none (x ∷ rest) none r e = absurd (cc)

next_op-none : (r : Ring) → next_op r ≡ none → (r.queue ≡ []) ⊎ ((p : ℕ) × (r.blocking ≡ some p))
unfolding next_op
next_op-none r e = next_from-none r.queue r.blocking r e

next_op-length :
    (r : Ring) (p : ℕ) (s : Ring) → next_op r ≡ some (p, s) → suc (length s.queue) ≡ length r.queue
next_op-length r p s e =
    let (rest, q, t, n) = next_op-some p r s e in
    omega (arith, ap length q, ap (λ x. length x.queue) t)

next_op-Owned :
    (held : List ℕ) (r : Ring) (p : ℕ) (s : Ring)
    → next_op r ≡ some (p, s)
    → Owned held r
    → Owned (p ∷ held) s
next_op-Owned held r p s e h =
    let (rest, q, t, n) = next_op-some p r s e in
    rw t (record { holds = λ x. omega (arith, h.holds x, ap (count x) q); places = h.places })

queue-drop_head : (c : Chain) (r : Ring) (p : ℕ) → (drop_head c r p).queue ≡ r.queue
unfolding drop_head op_release
queue-drop_head holds r p = queue-post r p (neg ecanceled)
queue-drop_head cancels r p = queue-post r p (neg ecanceled)
queue-drop_head cancels_quietly r p = refl

queue-cancel_head : (r : Ring) (p : ℕ) → (cancel_head r p).queue ≡ r.queue
unfolding cancel_head
queue-cancel_head r p = elim (Bool-cases (r.ops p).sqe.flags.io_link) [
  | inl e ↦ rw e (queue-drop_head r.chain_failed r p)
  | inr e ↦ rw e (queue-drop_head r.chain_failed r p)
]

module _ {W : Type 0} (b : Backend W) where
  queue-msg_to :
      (e : Engine W) (from i : ℕ) (s : Sqe) (t : Option ℕ)
      → ((msg_to b e from s t).1.rings i).queue ≡ (e.rings i).queue
  unfolding msg_to
  queue-msg_to e from i s none = refl
  queue-msg_to e from i s (some to) = elim (Bool-cases (to == i)) [
    | inl same ↦ rw same (
        (emit-Frame (e.rings to) s.off (to_s32 s.len) no_cqe_flags).queue
        ∙ ap (λ x. (e.rings x).queue) ((==_iff to i).0 same))
    | inr other ↦ rw other
  ]

  queue-msg_ring_op :
      (e : Engine W) (from i : ℕ) (s : Sqe)
      → ((msg_ring_op b e from s).1.rings i).queue ≡ (e.rings i).queue
  unfolding msg_ring_op
  queue-msg_ring_op e from i s = elim (Bool-cases (not (s.addr == msg_data))) [
    | inl x ↦ rw x
    | inr x ↦ rw x (queue-msg_to e from i s (ring_of e s.fd))
  ]

  queue-executed :
      (e : Engine W) (i p : ℕ) (x : Exec) (r : Ring) (w : W)
      → ((executed b e i p (x, r, w)).rings i).queue ≡ r.queue
  unfolding executed
  queue-executed e i p (done res) r w =
      rw eq_refl (queue-post (settle r p res) p res ∙ queue-settle r p res)
  queue-executed e i p pending r w =
      rw eq_refl (elim (Bool-cases (r.ops p).sqe.flags.io_link) [ inl l ↦ rw l | inr l ↦ rw l ])

  module _ (hand : ℕ → List ℕ) (laws : Laws W b) where
    queue-run_head :
        (e : Engine W) (i p : ℕ)
        → Owned (p ∷ hand i) (e.rings i)
        → length ((run_head b e i p).rings i).queue ≤ length (e.rings i).queue
    unfolding run_head
    queue-run_head e i p h = elim (Bool-cases (is_msg_ring ((e.rings i).ops p).sqe.opcode)) [
      | inl m ↦ rw m (answered (msg_ring_op b e i s) (queue-msg_ring_op e i i s))
      | inr m ↦ rw m (
          ran (b.execute (e.rings i) p e.world)
            (laws.execute-queue (hand i) (e.rings i) p e.world h))
    ]
      where
        s : Sqe
        s = ((e.rings i).ops p).sqe

        answered :
            (x : ℤ × Engine W)
            → (x.1.rings i).queue ≡ (e.rings i).queue
            → length ((put_ring x.1 i (post (x.1.rings i) p x.0)).rings i).queue
              ≤ length (e.rings i).queue
        answered (res, e') h = rw eq_refl (le_of_queue (queue-post (e'.rings i) p res ∙ h))

        ran :
            (x : Exec × Ring × W)
            → length x.1.queue ≤ length (e.rings i).queue
            → length ((executed b e i p x).rings i).queue ≤ length (e.rings i).queue
        ran (x, r, w) h = rw (queue-executed e i p x r w) h

    -- A round takes nothing into the queue.
    queue-process_head :
        (e : Engine W) (i p : ℕ)
        → Owned (p ∷ hand i) (e.rings i)
        → length ((process_head b e i p).rings i).queue ≤ length (e.rings i).queue
    unfolding process_head
    queue-process_head e i p h = elim (Bool-cases (is_failed (e.rings i).chain_failed)) [
      | inl f ↦ rw (f, eq_refl) (le_of_queue (queue-cancel_head (e.rings i) p))
      | inr f ↦ elim (Bool-cases (wants_fixed ((e.rings i).ops p))) [
        | inl x ↦ elim (Bool-cases (is_neg (fixed_lookup (e.rings i) ((e.rings i).ops p).sqe.fd))) [
          | inl y ↦ rw (f, x, y, eq_refl) (le_of_queue (queue-refuse_head (e.rings i) p))
          | inr y ↦ rw (f, x, y) (resolved (fixed_lookup (e.rings i) ((e.rings i).ops p).sqe.fd))
        ]
        | inr x ↦ rw (f, x) (queue-run_head e i p h)
      ]
    ]
      where
        resolved :
            (fd : ℤ)
            → length ((run_head b (put_ring e i (resolve (e.rings i) p fd)) i p).rings i).queue
              ≤ length (e.rings i).queue
        resolved fd =
            let same = ring-put_ring e i (resolve (e.rings i) p fd) in
            let o = resolve-Owned (p ∷ hand i) (e.rings i) p fd h in
            let e' = put_ring e i (resolve (e.rings i) p fd) in
            omega (
              arith,
              queue-run_head e' i p (subst (Owned (p ∷ hand i)) (sym same) o),
              ap (λ r. length r.queue) same,
              ap length (queue-resolve (e.rings i) p fd),
            )

    next_head-Owned :
        (e : Engine W) (i p : ℕ) (r : Ring)
        → next_op (e.rings i) ≡ some (p, r)
        → EngineOwned hand i (hand i) e
        → EngineOwned hand i (p ∷ hand i) (put_ring e i r)
    next_head-Owned e i p r n h =
        put-Owned hand i (hand i) (p ∷ hand i) e r h
          (next_op-Owned (hand i) (e.rings i) p r n (EngineOwned-at hand i (hand i) e h))

    next_round-Owned :
        (e : Engine W) (i p : ℕ) (r : Ring)
        → next_op (e.rings i) ≡ some (p, r)
        → EngineOwned hand i (hand i) e
        → EngineOwned hand i (hand i) (process_head b (put_ring e i r) i p)
    next_round-Owned e i p r n h =
        process_head-Owned b hand laws (put_ring e i r) i p (next_head-Owned e i p r n h)

    -- Where every op of every ring's pool has one holder, the workers holding those of `hand`, every parked op
    -- knows its place, and the backend keeps its laws on such rings, running the queue ends with it empty or
    -- with a pending linked op, and as many rounds as the queue has ops are enough.
    pub process_queue-ends :
        (fuel : ℕ) (e : Engine W) (i : ℕ)
        → length (e.rings i).queue ≤ fuel
        → EngineOwned hand i (hand i) e
        → (((process_queue b fuel e i).rings i).queue ≡ [])
          ⊎ ((p : ℕ) × (((process_queue b fuel e i).rings i).blocking ≡ some p))
    unfolding process_queue
    process_queue-ends zero e i l h = elim (List-cases (e.rings i).queue) [
      | inl q ↦ inl q
      | inr (p, rest, q) ↦ absurd (omega (arith, ap length q))
    ]
    process_queue-ends (suc fuel) e i l h = elim (Option-cases (next_op (e.rings i))) [
      | inl n ↦ rw (n, process_queue) (next_op-none (e.rings i) n)
      | inr ((p, r), n) ↦
          let o =
            EngineOwned-at hand i (p ∷ hand i) (put_ring e i r) (next_head-Owned e i p r n h) in
          rw (n, process_queue)
            (process_queue-ends fuel (process_head b (put_ring e i r) i p) i
              (omega (
                arith,
                queue-process_head (put_ring e i r) i p o,
                ap (λ x. length x.queue) (ring-put_ring e i r),
                next_op-length (e.rings i) p r n,
              ))
              (next_round-Owned e i p r n h))
    ]

    pub process_queue-Owned :
        (fuel : ℕ) (e : Engine W) (i : ℕ)
        → EngineOwned hand i (hand i) e
        → EngineOwned hand i (hand i) (process_queue b fuel e i)
    unfolding process_queue
    process_queue-Owned zero e i h = h
    process_queue-Owned (suc fuel) e i h = elim (Option-cases (next_op (e.rings i))) [
      | inl n ↦ rw (n, process_queue) h
      | inr ((p, r), n) ↦
          rw (n, process_queue)
            (process_queue-Owned fuel (process_head b (put_ring e i r) i p) i
              (next_round-Owned e i p r n h))
    ]
