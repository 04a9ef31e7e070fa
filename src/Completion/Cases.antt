-- ===== src/Completion/Cases.antt =====
-- The three ways out of a post, for proofs where the parts stay shut.
use slipstream_io.Base.{ℕ, ℤ, ◌≡◌, Bool, true, false, not, ◌&&◌, is_neg, Bool-cases, inl, inr}
use slipstream_io.Ring.{Ring}
use slipstream_io.Completion.{cq_room, post_locked, op_release, backlog_locked, post_drained}

-- An op that succeeds under IOSQE_CQE_SKIP_SUCCESS posts nothing.
abbrev pub is_silent : Ring → ℕ → ℤ → Bool
is_silent r p res = not (is_neg res) && (r.ops p).sqe.flags.cqe_skip_success

pub post_drained_cases {ℓ} :
    (P : Ring → Type ℓ) (r : Ring) (p : ℕ) (res : ℤ)
    → (is_silent r p res ≡ true → P (op_release r p))
    → (is_silent r p res ≡ false
        → cq_room r ≡ true
        → P (op_release (post_locked r (r.ops p).sqe.user_data res (r.ops p).cqe_flags) p))
    → (is_silent r p res ≡ false → cq_room r ≡ false → P (backlog_locked r p res))
    → P (post_drained r p res)
unfolding post_drained
post_drained_cases P r p res silent room full = elim (Bool-cases (is_silent r p res)) [
  | inl s ↦ rw s (silent s)
  | inr s ↦ elim (Bool-cases (cq_room r)) [
    | inl e ↦ rw (s, e) (room s e)
    | inr e ↦ rw (s, e) (full s e)
  ]
]
