-- ===== src/Engine/Heads.antt =====
-- `process_head`: who holds each op after one round of the queue.
use mathlib.Core.Path.{subst}
use slipstream_io.Base.{
  refl, ℕ, arith, ℤ, neg, is_neg, to_s32, Bool, true, false, not, ◌&&◌, List, ◌∷◌, Option, none,
  some, if◌then◌else◌, ◌==◌, ==_iff, eq_refl, Bool-cases, inl, inr,
}
use slipstream_io.Abi.{Sqe, no_cqe_flags, ebadf, ecanceled}
use slipstream_io.Ring.{Ring, Chain, holds, cancels, cancels_quietly, is_failed, chain_failure_of}
use slipstream_io.Completion.{op_release, post, emit}
use slipstream_io.Fixed.{fixed_lookup}
use slipstream_io.Backend.{Backend, Exec, done, pending}
use slipstream_io.Backend.Laws.{Laws, OwnedAfter}
use slipstream_io.Posix.Owned.{Owned, post-Owned, emit-Owned, update-Owned}
use slipstream_io.Engine.{
  Engine, put_ring, ring_of, msg_to, msg_ring_op, executed, run_head, process_head, cancel_head,
  drop_head, resolve, refuse_head, settle, is_msg_ring, msg_data, wants_fixed,
}

module _ {W : Type 0} (hand : ℕ → List ℕ) where
  -- Every slot of every ring's pool has one holder and every parked op knows its place. The code holds the
  -- slots `held` of ring `i`, and those that `hand` names of each other: the op that a worker runs.
  abbrev pub EngineOwned : ℕ → List ℕ → Engine W → Type 0
  EngineOwned i held e = (j : ℕ) → Owned (if i == j then held else hand j) (e.rings j)

  pub EngineOwned-at :
      (i : ℕ) (held : List ℕ) (e : Engine W) → EngineOwned i held e → Owned held (e.rings i)
  EngineOwned-at i held e h = rw (eq_refl i) at (h i)

  pub put-Owned :
      (i : ℕ) (held held' : List ℕ) (e : Engine W) (r : Ring)
      → EngineOwned i held e
      → Owned held' r
      → EngineOwned i held' (put_ring e i r)
  put-Owned i held held' e r h hr j = elim (Bool-cases (i == j)) [
    | inl same ↦ rw same hr
    | inr other ↦ rw other (rw other at (h j))
  ]

  -- A change of one ring that keeps whatever the code holds of it.
  modify-Owned :
      (i to : ℕ) (held : List ℕ) (e : Engine W) (f : Ring → Ring)
      → ((hs : List ℕ) (r : Ring) → Owned hs r → Owned hs (f r))
      → EngineOwned i held e
      → EngineOwned i held (put_ring e to (f (e.rings to)))
  modify-Owned i to held e f keep h j = elim (Bool-cases (to == j)) [
    | inl same ↦ rw same (
        subst (λ x. Owned (if i == x then held else hand x) (f (e.rings to))) ((==_iff to j).0 same)
          (keep _ _ (h to)))
    | inr other ↦ rw other (h j)
  ]

op_release-Owned :
    (p : ℕ) (held : List ℕ) (r : Ring) → Owned (p ∷ held) r → Owned held (op_release r p)
unfolding op_release
op_release-Owned p held r h = record { holds = λ q. omega (arith, h.holds q); places = h.places }

settle-Owned :
    (held : List ℕ) (r : Ring) (p : ℕ) (res : ℤ) → Owned held r → Owned held (settle r p res)
unfolding settle
settle-Owned held r p res h = elim (Bool-cases (is_neg res && (r.ops p).sqe.flags.io_link)) [
  | inl e ↦ rw e (record { holds = h.holds; places = h.places })
  | inr e ↦ rw e h
]

pub resolve-Owned :
    (held : List ℕ) (r : Ring) (p : ℕ) (fd : ℤ) → Owned held r → Owned held (resolve r p fd)
unfolding resolve
resolve-Owned held r p fd h = update-Owned held r p _ refl h

refuse_head-Owned :
    (held : List ℕ) (r : Ring) (p : ℕ) → Owned (p ∷ held) r → Owned held (refuse_head r p)
unfolding refuse_head
refuse_head-Owned held r p h = elim (Bool-cases (r.ops p).sqe.flags.io_link) [
  | inl e ↦ rw e (
      post-Owned p held (record r { chain_failed = chain_failure_of (r.ops p) }) (neg ebadf)
        (record { holds = h.holds; places = h.places }))
  | inr e ↦ rw e (post-Owned p held r (neg ebadf) h)
]

drop_head-Owned :
    (held : List ℕ) (c : Chain) (r : Ring) (p : ℕ)
    → Owned (p ∷ held) r
    → Owned held (drop_head c r p)
unfolding drop_head op_release
drop_head-Owned held holds r p h = post-Owned p held r (neg ecanceled) h
drop_head-Owned held cancels r p h = post-Owned p held r (neg ecanceled) h
drop_head-Owned held cancels_quietly r p h = op_release-Owned p held r h

-- A cancelled member leaves the code's hand, with a completion or, for a quiet chain, without.
cancel_head-Owned :
    (held : List ℕ) (r : Ring) (p : ℕ) → Owned (p ∷ held) r → Owned held (cancel_head r p)
unfolding cancel_head
cancel_head-Owned held r p h = elim (Bool-cases (r.ops p).sqe.flags.io_link) [
  | inl e ↦ rw e (drop_head-Owned held r.chain_failed r p h)
  | inr e ↦ rw e (reset (drop_head r.chain_failed r p) (drop_head-Owned held r.chain_failed r p h))
]
  where
    reset : (s : Ring) → Owned held s → Owned held (record s { chain_failed = holds })
    reset s o = record { holds = o.holds; places = o.places }

module _ {W : Type 0} (b : Backend W) (hand : ℕ → List ℕ) where
  msg_to-Owned :
      (e : Engine W) (from i : ℕ) (held : List ℕ) (s : Sqe) (t : Option ℕ)
      → EngineOwned hand i held e
      → EngineOwned hand i held (msg_to b e from s t).1
  unfolding msg_to
  msg_to-Owned e from i held s none h = h
  msg_to-Owned e from i held s (some to) h =
      modify-Owned hand i to held e (λ r. emit r s.off (to_s32 s.len) no_cqe_flags)
        (λ hs r. emit-Owned hs r s.off (to_s32 s.len) no_cqe_flags) h

  pub msg_ring_op-Owned :
      (e : Engine W) (from i : ℕ) (held : List ℕ) (s : Sqe)
      → EngineOwned hand i held e
      → EngineOwned hand i held (msg_ring_op b e from s).1
  unfolding msg_ring_op
  msg_ring_op-Owned e from i held s h = elim (Bool-cases (not (s.addr == msg_data))) [
    | inl x ↦ rw x h
    | inr x ↦ rw x (msg_to-Owned e from i held s (ring_of e s.fd) h)
  ]

  executed-Owned :
      (e : Engine W) (i p : ℕ) (x : Exec) (r : Ring) (w : W)
      → EngineOwned hand i (p ∷ hand i) e
      → OwnedAfter (hand i) p x r
      → EngineOwned hand i (hand i) (executed b e i p (x, r, w))
  unfolding executed
  executed-Owned e i p (done res) r w h a =
      put-Owned hand i (p ∷ hand i) (hand i) e (post (settle r p res) p res) h
        (post-Owned p (hand i) (settle r p res) res (settle-Owned (p ∷ hand i) r p res a))
  executed-Owned e i p pending r w h a =
      put-Owned hand i (p ∷ hand i) (hand i) e
        (if (r.ops p).sqe.flags.io_link then record r { blocking = some p } else r) h
        (waits (r.ops p).sqe.flags.io_link)
    where
      waits : (l : Bool) → Owned (hand i) (if l then record r { blocking = some p } else r)
      waits true = record { holds = a.holds; places = a.places }
      waits false = a

  run_head-Owned :
      Laws W b
      → (e : Engine W) (i p : ℕ) → EngineOwned hand i (p ∷ hand i) e
      → EngineOwned hand i (hand i) (run_head b e i p)
  unfolding run_head
  run_head-Owned laws e i p h = elim (Bool-cases (is_msg_ring ((e.rings i).ops p).sqe.opcode)) [
    | inl m ↦ rw m (answered (msg_ring_op b e i s) (msg_ring_op-Owned e i i (p ∷ hand i) s h))
    | inr m ↦ rw m (
        executed-Owned e i p (b.execute (e.rings i) p e.world).0 (b.execute (e.rings i) p e.world).1
          (b.execute (e.rings i) p e.world).2 h
          (laws.execute-Owned (hand i) (e.rings i) p e.world
            (EngineOwned-at hand i (p ∷ hand i) e h)))
  ]
    where
      s : Sqe
      s = ((e.rings i).ops p).sqe

      answered :
          (x : ℤ × Engine W)
          → EngineOwned hand i (p ∷ hand i) x.1
          → EngineOwned hand i (hand i) (put_ring x.1 i (post (x.1.rings i) p x.0))
      answered (res, e') h' =
          put-Owned hand i (p ∷ hand i) (hand i) e' (post (e'.rings i) p res) h'
            (post-Owned p (hand i) (e'.rings i) res (EngineOwned-at hand i (p ∷ hand i) e' h'))

  -- Where every op of every ring's pool has one holder, the code holding op `p` of ring `i` and a worker what
  -- `hand` says, every parked op knows its place, and the backend keeps its laws on such rings, a round of
  -- the queue for `p`, on whatever path, leaves it so, with `p` no longer in the code's hand.
  pub process_head-Owned :
      Laws W b
      → (e : Engine W) (i p : ℕ) → EngineOwned hand i (p ∷ hand i) e
      → EngineOwned hand i (hand i) (process_head b e i p)
  unfolding process_head
  process_head-Owned laws e i p h = elim (Bool-cases (is_failed (e.rings i).chain_failed)) [
    | inl f ↦ rw f (
        put-Owned hand i (p ∷ hand i) (hand i) e (cancel_head (e.rings i) p) h
          (cancel_head-Owned (hand i) (e.rings i) p held))
    | inr f ↦ elim (Bool-cases (wants_fixed ((e.rings i).ops p))) [
      | inl x ↦ elim (Bool-cases (is_neg (fixed_lookup (e.rings i) ((e.rings i).ops p).sqe.fd))) [
        | inl y ↦
            rw (f, x, y)
              (put-Owned hand i (p ∷ hand i) (hand i) e (refuse_head (e.rings i) p) h
                (refuse_head-Owned (hand i) (e.rings i) p held))
        | inr y ↦
            rw (f, x, y)
              (run_head-Owned laws (put_ring e i resolved) i p (
                put-Owned hand i (p ∷ hand i) (p ∷ hand i) e resolved h
                  (resolve-Owned (p ∷ hand i) (e.rings i) p realfd held)))
      ]
      | inr x ↦ rw (f, x) (run_head-Owned laws e i p h)
    ]
  ]
    where
      realfd : ℤ
      realfd = fixed_lookup (e.rings i) ((e.rings i).ops p).sqe.fd

      resolved : Ring
      resolved = resolve (e.rings i) p realfd

      held : Owned (p ∷ hand i) (e.rings i)
      held = EngineOwned-at hand i (p ∷ hand i) e h
