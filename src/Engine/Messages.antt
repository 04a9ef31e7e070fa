-- ===== src/Engine/Messages.antt =====
-- A message to another ring, `msg_ring`: the target's completion is an emission, the sender's own is
-- posted after it, and whatever it answers settles no chain.
use slipstream_io.Base.{
  ℕ, ◌≡◌, ◌≢◌, refl, sym, ap, ◌∙◌, pos, to_s32, to_s32-IsInt32, true, not, ◌||◌, List, [], ◌∷◌,
  Option, none, some, if◌then◌else◌, ◌==◌, ==_iff, eq_refl, Bool-cases, inl, inr, update_at,
  update_off,
}
use mathlib.Core.Path.{subst}
use slipstream_io.Abi.{Sqe, Cqe, no_cqe_flags}
use slipstream_io.Completion.{emit, cq_room, drain_backlog_locked}
use slipstream_io.Completion.Window.{CqIsValid}
use slipstream_io.Completion.Order.{Adds}
use slipstream_io.Completion.Owners.{Holds, post-Returned, emit-Frame}
use slipstream_io.Completion.Post.{has_free, emit-completions}
use slipstream_io.Backend.{Backend}
use slipstream_io.Engine.{Engine, ring_of, msg_data, msg_to, msg_ring_op, is_msg_ring, run_head}

module _ {W : Type 0} (b : Backend W) where
  msg_ring_op-msg_to :
      (e : Engine W) (from to : ℕ) (s : Sqe)
      → s.addr ≡ msg_data
      → ring_of e s.fd ≡ some to
      → msg_ring_op b e from s ≡ msg_to b e from s (some to)
  unfolding msg_ring_op
  msg_ring_op-msg_to e from to s a f = rw (a, f)

  rings-msg_to :
      (e : Engine W) (from to : ℕ) (s : Sqe)
      → (msg_to b e from s (some to)).1.rings to
        ≡ emit (e.rings to) s.off (to_s32 s.len) no_cqe_flags
  unfolding msg_to
  rings-msg_to e from to s = update_at e.rings _ refl

  rings-msg_to_ne :
      (e : Engine W) (from to j : ℕ) (s : Sqe)
      → to ≢ j
      → (msg_to b e from s (some to)).1.rings j ≡ e.rings j
  unfolding msg_to
  rings-msg_to_ne e from to j s n = update_off e.rings _ n

  -- A message of type IORING_MSG_DATA to a live ring is answered 0 and is that ring's next completion, with the sender's
  -- `off` as its user_data and `len` as its result, if the ring's queue has room or an op of its pool
  -- is free to carry it; every other ring is left alone. The target's
  -- queue is valid, and its ops have one holder each.
  pub msg_ring_op-Adds :
      (e : Engine W) (from to k : ℕ) (held : List ℕ) (s : Sqe)
      → s.addr ≡ msg_data
      → ring_of e s.fd ≡ some to
      → CqIsValid k (e.rings to)
      → Holds held (e.rings to)
      → let (res, e') = msg_ring_op b e from s in
        let d = drain_backlog_locked (e.rings to) in
        (res ≡ pos 0)
        × Adds k (e.rings to) (e'.rings to) (
            if cq_room d || has_free d
            then record { user_data = s.off; res = to_s32 s.len; flags = no_cqe_flags } ∷ []
            else [])
        × ((j : ℕ) → to ≢ j → e'.rings j ≡ e.rings j)
  unfolding msg_to
  msg_ring_op-Adds e from to k held s a f v h =
      let d = drain_backlog_locked (e.rings to) in
      let new : List Cqe =
        if cq_room d || has_free d
        then record { user_data = s.off; res = to_s32 s.len; flags = no_cqe_flags } ∷ []
        else [] in
      subst
        (λ x.
          (x.0 ≡ pos 0)
          × Adds k (e.rings to) (x.1.rings to) new
          × ((j : ℕ) → to ≢ j → x.1.rings j ≡ e.rings j))
        (sym (msg_ring_op-msg_to e from to s a f))
        (
          refl,
          subst (λ r. Adds k (e.rings to) r new) (sym (rings-msg_to e from to s))
              (emit-completions k s.off held (e.rings to) (to_s32 s.len) no_cqe_flags v
                (to_s32-IsInt32 s.len) h),
          λ j n. rings-msg_to_ne e from to j s n,
        )

  chain-msg_to :
      (e : Engine W) (from i : ℕ) (s : Sqe) (o : Option ℕ)
      → ((msg_to b e from s o).1.rings i).chain_failed ≡ (e.rings i).chain_failed
  unfolding msg_to
  chain-msg_to e from i s none = refl
  chain-msg_to e from i s (some to) = elim (Bool-cases (to == i)) [
    | inl x ↦ rw x (
        (emit-Frame (e.rings to) s.off (to_s32 s.len) no_cqe_flags).chain_failed
        ∙ ap (λ j. (e.rings j).chain_failed) ((==_iff to i).0 x))
    | inr x ↦ rw x
  ]

  chain-msg_ring_op :
      (e : Engine W) (from i : ℕ) (s : Sqe)
      → ((msg_ring_op b e from s).1.rings i).chain_failed ≡ (e.rings i).chain_failed
  unfolding msg_ring_op
  chain-msg_ring_op e from i s = elim (Bool-cases (not (s.addr == msg_data))) [
    | inl x ↦ rw x
    | inr x ↦ rw x (chain-msg_to e from i s (ring_of e s.fd))
  ]

  -- Where a MSG_RING is run, it leaves its chain as it stands: one that was linked and failed does not cancel
  -- the members behind it.
  pub chain-run_head :
      (e : Engine W) (i p : ℕ)
      → is_msg_ring ((e.rings i).ops p).sqe.opcode ≡ true
      → ((run_head b e i p).rings i).chain_failed ≡ (e.rings i).chain_failed
  unfolding run_head
  chain-run_head e i p m =
      let x = msg_ring_op b e i ((e.rings i).ops p).sqe in
      rw (m, eq_refl)
        ((post-Returned (x.1.rings i) p x.0).frame.chain_failed
          ∙ chain-msg_ring_op e i i ((e.rings i).ops p).sqe)
