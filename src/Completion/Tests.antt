-- ===== src/Completion/Tests.antt =====
-- A ring of two completions and three ops, tried at the doors of the completion queue.
use slipstream_io.Base.{refl, arith, neg, [], ◌∷◌, IsInt32, if◌then◌else◌, ◌||◌}
use slipstream_io.Abi.{no_cqe_flags, ecanceled}
use slipstream_io.Ring.{Ring, zero_ring, zero_op}
use slipstream_io.Completion.{post, emit, cq_room, cq_avail, drain_backlog_locked}
use slipstream_io.Completion.Window.{CqIsValid}
use slipstream_io.Completion.Order.{Adds, posted}
use slipstream_io.Completion.Owners.{Holds, post-Holds}
use slipstream_io.Completion.Post.{has_free, post-completions, emit-completions}

-- The code holds op 1.
abbrev two_free : Ring
two_free = record zero_ring { cq_entries = 2; cq_mask = 1; op_pool_n = 3; op_free = 0 ∷ 2 ∷ [] }

two_free-CqIsValid : CqIsValid 1 two_free
unfolding cq_avail
two_free-CqIsValid = record {
  narrow = omega arith;
  size = refl;
  mask = refl;
  head_lt = omega arith;
  tail_lt = omega arith;
  fits = omega arith;
}

two_free-Holds : Holds (1 ∷ []) two_free
two_free-Holds p = ground arith

ecanceled-IsInt32 : IsInt32 (neg ecanceled)
ecanceled-IsInt32 = omega arith

post-completions_example :
    Adds 1 two_free (post two_free 1 (neg ecanceled)) (posted zero_op (neg ecanceled))
post-completions_example =
    post-completions 1 1 [] two_free (neg ecanceled) two_free-CqIsValid ecanceled-IsInt32
      two_free-Holds

emit-completions_example : Adds 1 two_free (emit two_free 7 (neg ecanceled) no_cqe_flags) (
    if cq_room (drain_backlog_locked two_free) || has_free (drain_backlog_locked two_free)
    then record { user_data = 7; res = neg ecanceled; flags = no_cqe_flags } ∷ []
    else [])
emit-completions_example =
    emit-completions 1 7 (1 ∷ []) two_free (neg ecanceled) no_cqe_flags two_free-CqIsValid
      ecanceled-IsInt32 two_free-Holds

post-Holds_example : Holds [] (post two_free 1 (neg ecanceled))
post-Holds_example = post-Holds 1 [] two_free (neg ecanceled) two_free-Holds
