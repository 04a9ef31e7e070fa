-- ===== src/Completion/Post.antt =====
-- What the two doors do to the completions that the caller will read.
use mathlib.Core.Path.{subst, ap₂}
use mathlib.Core.Option.{none-ne-some}
use slipstream_io.Base.{
  ℕ, ◌+◌, ◌%◌, u32_mod, ◌≡◌, refl, ◌∙◌, sym, ap, arith, Bool, true, false, List, [], ◌∷◌, ◌++◌, ℤ,
  IsInt32, count, Bool-cases, List-cases, Option-cases, none, update, update_at, map-update_fresh,
  inl, inr, ◌||◌, if◌then◌else◌, append-nil,
}
use slipstream_io.Abi.{Cqe, CqeFlags, zero_sqe}
use slipstream_io.Ring.{Ring, EngOp, zero_op}
use slipstream_io.Completion.{
  cq_avail, cq_room, op_release, drain_backlog_locked, post_drained, post, emit, emit_carried,
  emit_full, op_alloc_locked, alloc_from,
}
use slipstream_io.Completion.Cases.{post_drained_cases}
use slipstream_io.Completion.Window.{CqIsValid, cq_contents}
use slipstream_io.Completion.Order.{
  Drained, drain_from-Drained, Adds, posted, completions, cqe_of, CqIsValid-same, op_release-Adds,
  post_locked-Adds, backlog_locked-Adds,
}
use slipstream_io.Completion.Owners.{
  Holds, Holds-fresh, Holds-free, op_alloc_inv, drain-Holds, drain-DrainFrame,
}

drain-Drained : (k : ℕ) (r : Ring) → CqIsValid k r → Drained k r (drain_backlog_locked r)
unfolding drain_backlog_locked
drain-Drained k r v = drain_from-Drained r.backlog k r v refl

-- Room after a drain means that the backlog is empty.
empty_of_room : {k : ℕ} {r d : Ring} → Drained k r d → cq_room d ≡ true → d.backlog ≡ []
empty_of_room w room = elim w.ended [ inl e ↦ e | inr full ↦ absurd (cc) ]

Adds-Drained :
    {k : ℕ} {r d s : Ring} {new : List Cqe} → Drained k r d → Adds k d s new → Adds k r s new
Adds-Drained {new} w a = record { valid = a.valid; order = a.order ∙ ap (λ l. l ++ new) w.same }

Adds-release :
    (k p : ℕ) (d e : Ring) (new : List Cqe) → Adds k d e new → Adds k d (op_release e p) new
Adds-release k p d e new a =
    let b = op_release-Adds k e a.valid p in
    record { valid = b.valid; order = b.order ∙ append-nil (completions e) ∙ a.order }

post_drained-Adds :
    (k p : ℕ) (d : Ring) (res : ℤ)
    → CqIsValid k d
    → (cq_room d ≡ true → d.backlog ≡ [])
    → IsInt32 res
    → count p d.backlog ≡ 0
    → Adds k d (post_drained d p res) (posted (d.ops p) res)
post_drained-Adds k p d res v empty i fresh =
    post_drained_cases (λ s. Adds k d s (posted (d.ops p) res)) d p res
      (λ s. rw s (op_release-Adds k d v p))
      (λ s room. rw s (Adds-release k p d _ _ (post_locked-Adds k d v _ res _ (empty room) room)))
      (λ s full. rw s (backlog_locked-Adds k d v p res i fresh))

-- The pool has an op to give.
abbrev pub is_cons : List ℕ → Bool
is_cons [] = false
is_cons (p ∷ rest) = true

abbrev pub has_free : Ring → Bool
has_free r = is_cons r.op_free

emit_carried-Adds :
    (k u : ℕ) (r : Ring) (p : ℕ) (rest : List ℕ) (res : ℤ) (f : CqeFlags)
    → CqIsValid k r
    → IsInt32 res
    → count p r.backlog ≡ 0
    → Adds k r
        (emit_carried (record r { op_free = rest; ops = update r.ops p zero_op }) p u res f)
        (record { user_data = u; res = res; flags = f } ∷ [])
unfolding emit_carried cq_avail
emit_carried-Adds k u r p rest res f v i fresh =
    let b =
      backlog_locked-Adds k written (CqIsValid-same r _ refl refl refl refl v) p res i fresh in
    record {
      valid = b.valid;
      order =
          b.order
          ∙ ap₂
              (λ xs (o : EngOp).
                xs ++ (record { user_data = o.sqe.user_data; res = res; flags = o.cqe_flags } ∷ []))
              same (update_at (update r.ops p zero_op) {p = p} carrier refl);
    }
  where
    carrier : EngOp
    carrier = record zero_op { sqe = record zero_sqe { user_data = u }; cqe_flags = f }

    written : Ring
    written = record r { op_free = rest; ops = update (update r.ops p zero_op) p carrier }

    same : completions written ≡ completions r
    same =
        ap (λ l. cq_contents r ++ l)
          (map-update_fresh cqe_of (update r.ops p zero_op) p carrier r.backlog fresh
            ∙ map-update_fresh cqe_of r.ops p zero_op r.backlog fresh)

has_free_of_cons : (r : Ring) (p : ℕ) (rest : List ℕ) → r.op_free ≡ p ∷ rest → has_free r ≡ true
has_free_of_cons r p rest e = ap is_cons e

not-has_free : (r : Ring) → op_alloc_locked r ≡ none → has_free r ≡ false
unfolding op_alloc_locked alloc_from
not-has_free r e = elim (List-cases r.op_free) [
  | inl f ↦ ap is_cons f
  | inr (p, rest, f) ↦ absurd (none-ne-some _ (rw (f, op_alloc_locked) at (sym e)))
]

same_queue :
    (k : ℕ) (r : Ring)
    → CqIsValid k r
    → Adds k r (record r { cq_overflow = (r.cq_overflow + 1) % u32_mod }) []
unfolding cq_avail
same_queue k r v = record {
  valid = CqIsValid-same r _ refl refl refl refl v;
  order = sym (append-nil (completions r));
}

emit_full-Adds :
    (k u : ℕ) (held : List ℕ) (r : Ring) (res : ℤ) (f : CqeFlags)
    → CqIsValid k r
    → IsInt32 res
    → Holds held r
    → Adds k r
        (emit_full r u res f)
        (if has_free r then record { user_data = u; res = res; flags = f } ∷ [] else [])
unfolding emit_full
emit_full-Adds k u held r res f v i h = elim (Option-cases (op_alloc_locked r)) [
  | inl e ↦ rw (e, not-has_free r e, emit_full) (same_queue k r v)
  | inr ((p, s), e) ↦
      let (rest, g, t) = op_alloc_inv p r s e in
      rw (e, has_free_of_cons r p rest g, emit_full, t)
        (emit_carried-Adds k u r p rest res f v i (Holds-free p rest held r h g))
]

-- Every completion that is posted is read by the caller after all earlier ones, whether the queue
-- has room or not, and none is lost: the completions after a post are those before it, then this
-- op's with its own user_data, result and flags, or none for a success under
-- IOSQE_CQE_SKIP_SUCCESS. The op is one that the poster holds and the result fits an `int`.
pub post-completions :
    (k p : ℕ) (held : List ℕ) (r : Ring) (res : ℤ)
    → CqIsValid k r
    → IsInt32 res
    → Holds (p ∷ held) r
    → Adds k r (post r p res) (posted (r.ops p) res)
unfolding post
post-completions k p held r res v i h =
    let w = drain-Drained k r v in
    let f = drain-DrainFrame r in
    subst (λ o. Adds k r (post r p res) (posted (o p) res)) f.ops
      (Adds-Drained w (
        post_drained-Adds k p (drain_backlog_locked r) res w.valid (empty_of_room w) i (
          omega (arith, Holds-fresh p held (drain_backlog_locked r) (drain-Holds (p ∷ held) r h)))))

-- An emission is the next completion too, and no op is spent on it while the queue has room. Where
-- the queue is full it takes an op to ride on; only where none is free is it lost, and then the
-- completions are those there were.
pub emit-completions :
    (k u : ℕ) (held : List ℕ) (r : Ring) (res : ℤ) (f : CqeFlags)
    → CqIsValid k r
    → IsInt32 res
    → Holds held r
    → Adds k r (emit r u res f) (
        if cq_room (drain_backlog_locked r) || has_free (drain_backlog_locked r)
        then record { user_data = u; res = res; flags = f } ∷ []
        else [])
unfolding emit
emit-completions k u held r res f v i h =
    let w = drain-Drained k r v in
    elim (Bool-cases (cq_room (drain_backlog_locked r))) [
      | inl room ↦
          rw room
            (Adds-Drained w (post_locked-Adds k _ w.valid u res f (empty_of_room w room) room))
      | inr full ↦
          rw full
            (Adds-Drained w (emit_full-Adds k u held _ res f w.valid i (drain-Holds held r h)))
    ]
