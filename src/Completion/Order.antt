-- ===== src/Completion/Order.antt =====
-- Completions leave in the order in which they were made: what stands in the queue, then the
-- backlog. A post adds one at the end, whether or not the queue has room.
use mathlib.Core.Path.{ap₂}
use slipstream_io.Base.{
  ℕ, suc, ◌+◌, ◌-◌, ◌%◌, ◌^◌, ◌<◌, ◌≡◌, refl, ◌∙◌, sym, ap, append_assoc, arith, List, map, true,
  false, [], ◌∷◌, ◌++◌, ℤ, ltb→lt, eq_refl, if◌then◌else◌, not, ◌&&◌, is_neg, IsInt32,
  to_s32-to_u32, append-nil, map-append, map-update_fresh, count, update_at, update_off, to_s32,
  ◌⊎◌, Bool-cases, inl, inr,
}
use slipstream_io.Abi.{Cqe, CqeFlags}
use slipstream_io.Ring.{Ring, EngOp}
use slipstream_io.Completion.{
  cq_avail, cq_room, post_locked, op_release, drain_one, drain_from, backlog_locked,
}
use slipstream_io.Completion.Window.{
  window, window_congr, window-suc, read_at, cq_contents, mod-ne, CqIsValid, slot_of, slot_of_tail,
  entries_bound,
}

cq_room_lt : {k : ℕ} {r : Ring} → CqIsValid k r → cq_room r ≡ true → cq_avail r < 2 ^ k
unfolding cq_room
cq_room_lt v h = omega (arith, ltb→lt _ _ h, v.size)

cq_avail-post_locked :
    (k : ℕ) (r : Ring) (u : ℕ) (res : ℤ) (f : CqeFlags)
    → CqIsValid k r
    → cq_avail r < 2 ^ k
    → cq_avail (post_locked r u res f) ≡ suc (cq_avail r)
unfolding post_locked cq_avail
cq_avail-post_locked k r u res f v h = omega (arith, entries_bound v, v.head_lt, v.tail_lt, h)

-- Storing an entry and moving the tail adds it behind those that stand in the queue.
pub cq_contents-post_locked :
    (k : ℕ) (r : Ring) (u : ℕ) (res : ℤ) (f : CqeFlags)
    → CqIsValid k r
    → cq_avail r < 2 ^ k
    → cq_contents (post_locked r u res f)
      ≡ cq_contents r ++ (record { user_data = u; res = res; flags = f } ∷ [])
unfolding post_locked
cq_contents-post_locked k r u res f v h =
    ap (window (read_at (post_locked r u res f)) r.cq_head) (cq_avail-post_locked k r u res f v h)
    ∙ window-suc (read_at (post_locked r u res f)) r.cq_head (cq_avail r)
    ∙ ap₂ (λ l c. l ++ (c ∷ [])) old new
  where
    kept :
        (i : ℕ)
        → i < cq_avail r
        → read_at (post_locked r u res f) (r.cq_head + i) ≡ read_at r (r.cq_head + i)
    kept i l = update_off r.cqes _ λ e.
        mod-ne (2 ^ k) (r.cq_head + i) (cq_avail r - i) (omega arith) (omega arith) (
          sym (slot_of v (r.cq_head + i))
          ∙ sym e
          ∙ slot_of_tail v
          ∙ ap (λ a. a % 2 ^ k) (omega arith))

    old : window (read_at (post_locked r u res f)) r.cq_head (cq_avail r) ≡ cq_contents r
    old = window_congr _ _ r.cq_head (cq_avail r) kept

    new :
        read_at (post_locked r u res f) (r.cq_head + cq_avail r)
        ≡ record { user_data = u; res = res; flags = f }
    new = update_at r.cqes _ (slot_of_tail v ∙ sym (slot_of v (r.cq_head + cq_avail r)))

-- The completion that a backlogged op carries.
abbrev pub cqe_of : EngOp → Cqe
cqe_of op = record { user_data = op.sqe.user_data; res = to_s32 op.sqe.pad; flags = op.cqe_flags }

-- Every completion made and not yet taken by the caller, oldest first.
abbrev pub completions : Ring → List Cqe
completions r = cq_contents r ++ map (λ p. cqe_of (r.ops p)) r.backlog

post_locked-CqIsValid :
    (k : ℕ) (r : Ring) (u : ℕ) (res : ℤ) (f : CqeFlags)
    → CqIsValid k r
    → cq_avail r < 2 ^ k
    → CqIsValid k (post_locked r u res f)
unfolding post_locked
post_locked-CqIsValid k r u res f v h = record {
  narrow = v.narrow;
  size = v.size;
  mask = v.mask;
  head_lt = v.head_lt;
  tail_lt = omega arith;
  fits = omega (arith, cq_avail-post_locked k r u res f v h);
}

-- What a drain has done: the completions are those there were, and it stopped for want of work or
-- of room.
pub record Drained (k : ℕ) (r d : Ring) : Type 0 where
  pub valid : CqIsValid k d
  pub same : completions d ≡ completions r
  pub ended : (d.backlog ≡ []) ⊎ (cq_room d ≡ false)

-- The queue's state is its four words.
pub CqIsValid-same :
    {k : ℕ} (r s : Ring)
    → s.cq_entries ≡ r.cq_entries
    → s.cq_mask ≡ r.cq_mask
    → s.cq_head ≡ r.cq_head
    → s.cq_tail ≡ r.cq_tail
    → CqIsValid k r
    → CqIsValid k s
unfolding cq_avail
CqIsValid-same r s a b c d v = ground (arith, v)

drain_one-valid :
    (p : ℕ) (rest : List ℕ) (k : ℕ) (r : Ring)
    → CqIsValid k r
    → cq_room r ≡ true
    → CqIsValid k (drain_one p rest r)
unfolding drain_one op_release cq_room
drain_one-valid p rest k r v h = CqIsValid-same _ _ refl refl refl refl (
    post_locked-CqIsValid k (record r { backlog = rest }) _ _ _
      (CqIsValid-same r _ refl refl refl refl v) (cq_room_lt v h))

drain_one-completions :
    (p : ℕ) (rest : List ℕ) (k : ℕ) (r : Ring)
    → CqIsValid k r
    → cq_room r ≡ true
    → r.backlog ≡ p ∷ rest
    → completions (drain_one p rest r) ≡ completions r
unfolding drain_one op_release cq_room cq_avail post_locked
drain_one-completions p rest k r v h e =
    ap (λ l. l ++ map (λ q. cqe_of (r.ops q)) rest)
      (cq_contents-post_locked k (record r { backlog = rest }) _ _ _
        (CqIsValid-same r _ refl refl refl refl v) (cq_room_lt v h))
    ∙ append_assoc (cq_contents r) _ _
    ∙ sym (ap (λ l. cq_contents r ++ map (λ q. cqe_of (r.ops q)) l) e)

backlog-drain_one : (p : ℕ) (rest : List ℕ) (r : Ring) → (drain_one p rest r).backlog ≡ rest
unfolding drain_one op_release post_locked
backlog-drain_one p rest r = refl

pub drain_from-Drained :
    (bs : List ℕ) (k : ℕ) (r : Ring)
    → CqIsValid k r
    → r.backlog ≡ bs
    → Drained k r (drain_from bs r)
unfolding drain_from
drain_from-Drained [] k r v e = record { valid = v; same = refl; ended = inl e }
drain_from-Drained (p ∷ rest) k r v e = elim (Bool-cases (cq_room r)) [
  | inl room ↦
      let w : Drained k (drain_one p rest r) (drain_from rest (drain_one p rest r)) =
        drain_from-Drained rest k (drain_one p rest r) (drain_one-valid p rest k r v room)
          (backlog-drain_one p rest r) in
      rw (room, drain_from)
        (record {
          valid = w.valid;
          same = w.same ∙ drain_one-completions p rest k r v room e;
          ended = w.ended;
        })
  | inr full ↦ rw (full, drain_from) (record { valid = v; same = refl; ended = inr full })
]

-- What a post adds: nothing for a success under IOSQE_CQE_SKIP_SUCCESS, else the one completion.
abbrev pub posted : EngOp → ℤ → List Cqe
posted op res =
    if not (is_neg res) && op.sqe.flags.cqe_skip_success
    then []
    else record { user_data = op.sqe.user_data; res = res; flags = op.cqe_flags } ∷ []

-- What a door did: it left the queue valid and added `new` behind all earlier completions.
pub record Adds (k : ℕ) (r d : Ring) (new : List Cqe) : Type 0 where
  pub valid : CqIsValid k d
  pub order : completions d ≡ completions r ++ new

module _ (k : ℕ) (r : Ring) (v : CqIsValid k r) where
  pub op_release-Adds : (p : ℕ) → Adds k r (op_release r p) []
  unfolding op_release cq_avail
  op_release-Adds p = record {
    valid = CqIsValid-same r _ refl refl refl refl v;
    order = sym (append-nil (completions r));
  }

  -- With an empty backlog the entry goes straight to the queue.
  pub post_locked-Adds :
      (u : ℕ) (res : ℤ) (f : CqeFlags)
      → r.backlog ≡ []
      → cq_room r ≡ true
      → Adds k r (post_locked r u res f) (record { user_data = u; res = res; flags = f } ∷ [])
  unfolding post_locked
  post_locked-Adds u res f e room = record {
    valid = post_locked-CqIsValid k r u res f v (cq_room_lt v room);
    order =
        ap₂ (λ l b. l ++ map (λ q. cqe_of (r.ops q)) b)
          (cq_contents-post_locked k r u res f v (cq_room_lt v room)) e
        ∙ append-nil _
        ∙ ap (λ l. l ++ (record { user_data = u; res = res; flags = f } ∷ []))
            (sym (append-nil (cq_contents r))
              ∙ ap (λ b. cq_contents r ++ map (λ q. cqe_of (r.ops q)) b) (sym e));
  }

  -- With a full queue it goes to the end of the backlog, in an op that stands nowhere else.
  pub backlog_locked-Adds :
      (p : ℕ) (res : ℤ)
      → IsInt32 res
      → count p r.backlog ≡ 0
      → Adds k r (backlog_locked r p res) (
          record { user_data = (r.ops p).sqe.user_data; res = res; flags = (r.ops p).cqe_flags }
          ∷ [])
  unfolding backlog_locked cq_avail
  backlog_locked-Adds p res i fresh = record {
    valid = CqIsValid-same r _ refl refl refl refl v;
    order =
        ap (λ l. cq_contents r ++ l)
          (map-append _ r.backlog (p ∷ [])
            ∙ ap₂ (λ a b. a ++ (b ∷ [])) (map-update_fresh cqe_of r.ops p _ r.backlog fresh)
                carried)
        ∙ sym (append_assoc (cq_contents r) _ _);
  }
    where
      carried :
          cqe_of ((backlog_locked r p res).ops p)
          ≡ record { user_data = (r.ops p).sqe.user_data; res = res; flags = (r.ops p).cqe_flags }
      carried = rw eq_refl (
          ap
            (λ z. record {
              user_data = (r.ops p).sqe.user_data;
              res = z;
              flags = (r.ops p).cqe_flags;
            })
            (to_s32-to_u32 res i))
