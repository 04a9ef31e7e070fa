-- ===== src/Engine/Tests.antt =====
-- A submission of three ops on the select backend: a linked op that it does not carry, the NOP that its link
-- cancels, and a NOP of its own.
use slipstream_io.Base.{
  ℕ, ◌+◌, ◌≡◌, ◌≢◌, ◌||◌, to_s32, refl, sym, ap, ◌∙◌, get_elem?, List, arith, pos, true, [], ◌∷◌,
  ◌++◌, map, some, if◌then◌else◌, ◌==◌, Bool-cases, ◌⊎◌, inl, inr,
}
use slipstream_io.Abi.{other, msg_ring, Sqe, no_cqe_flags, zero_sqe, no_flags}
use slipstream_io.Ring.{Ring, EngOp, zero_ring, zero_op}
use slipstream_io.Completion.{cq_avail, cq_room, drain_backlog_locked}
use slipstream_io.Completion.Post.{has_free}
use slipstream_io.Completion.Window.{CqIsValid}
use slipstream_io.Completion.Order.{completions, Adds}
use mathlib.Core.Option.{none-ne-some}
use slipstream_io.Posix.Owned.{Owned}
use slipstream_io.Posix.Parking.{PlacesAreKnown}
use slipstream_io.Posix.Sample.{World}
use slipstream_io.Select.Inline.{at_once, answer}
use slipstream_io.Select.Sample.{blocking_select, blocking_select-Laws, blocking_select-IsInline}
use slipstream_io.Engine.{Engine, ring_token, ring_of, msg_ring_op, process_head, process_queue}
use slipstream_io.Engine.Messages.{msg_ring_op-Adds}
use slipstream_io.Engine.Heads.{EngineOwned, process_head-Owned}
use slipstream_io.Engine.Queue.{process_queue-ends}
use slipstream_io.Engine.Chains.{chains, run_chains}
use slipstream_io.Engine.Chains.Refine.{process_queue-chains}

abbrev submitted : ℕ → EngOp
submitted p =
    if p == 0
    then record zero_op {
      sqe = record zero_sqe { opcode = other 99; flags = record no_flags { io_link = true } };
    }
    else record zero_op { sqe = record zero_sqe { user_data = p } }

abbrev three_queued : Ring
three_queued = record zero_ring {
  in_use = true;
  cq_entries = 2;
  cq_mask = 1;
  ops = submitted;
  op_pool_n = 3;
  queue = 0 ∷ 1 ∷ 2 ∷ [];
}

abbrev engine : Engine World
engine = record { rings = λ i. three_queued; world = tt }

three_queued-CqIsValid : CqIsValid 1 three_queued
unfolding cq_avail
three_queued-CqIsValid = record {
  narrow = omega arith;
  size = refl;
  mask = refl;
  head_lt = omega arith;
  tail_lt = omega arith;
  fits = omega arith;
}

no_places : (r : Ring) → r.waiting ≡ [] → PlacesAreKnown r
no_places r e k q g = absurd (none-ne-some _ (ap (λ xs. get_elem? xs k) (sym e) ∙ g))

three_queued-Owned : Owned [] three_queued
three_queued-Owned = record { holds = λ p. ground arith; places = no_places three_queued refl }

-- No worker has an op in hand.
abbrev idle : ℕ → List ℕ
idle j = []

engine-Owned : EngineOwned idle 5 [] engine
engine-Owned j = elim (Bool-cases (5 == j)) [
  | inl e ↦ rw e three_queued-Owned
  | inr e ↦ rw e three_queued-Owned
]

abbrev taken : Ring
taken = record three_queued { queue = 1 ∷ 2 ∷ [] }

taken-Owned : Owned (0 ∷ []) taken
taken-Owned = record { holds = λ p. ground arith; places = no_places taken refl }

abbrev one_taken : Engine World
one_taken = record { rings = λ i. if 5 == i then taken else three_queued; world = tt }

one_taken-Owned : EngineOwned idle 5 (0 ∷ []) one_taken
one_taken-Owned j = elim (Bool-cases (5 == j)) [
  | inl e ↦ rw e taken-Owned
  | inr e ↦ rw e three_queued-Owned
]

process_head-Owned_example : EngineOwned idle 5 [] (process_head blocking_select one_taken 5 0)
process_head-Owned_example =
    process_head-Owned blocking_select idle blocking_select-Laws one_taken 5 0 one_taken-Owned

process_queue-ends_example :
    (((process_queue blocking_select 3 engine 5).rings 5).queue ≡ [])
    ⊎ ((p : ℕ) × (((process_queue blocking_select 3 engine 5).rings 5).blocking ≡ some p))
process_queue-ends_example =
    process_queue-ends blocking_select idle blocking_select-Laws 3 engine 5 (omega arith)
      engine-Owned

process_queue-chains_example :
    completions ((process_queue blocking_select 3 engine 5).rings 5)
    ≡ completions three_queued ++ run_chains answer (chains (map submitted (0 ∷ 1 ∷ 2 ∷ [])))
process_queue-chains_example =
    process_queue-chains blocking_select at_once answer blocking_select-IsInline 1 3 engine 5
      (omega arith) refl refl three_queued-CqIsValid three_queued-Owned.holds
      ((refl, refl, refl), ((refl, refl, refl), ((refl, refl, refl), tt)))

-- A message from ring 5 to ring 3.
abbrev message : Sqe
message = record zero_sqe { opcode = msg_ring; fd = pos (ring_token + 3); off = 77; len = 8 }

msg_ring_op-Adds_example :
    let (res, e') = msg_ring_op blocking_select engine 5 message in
    let d = drain_backlog_locked three_queued in
    (res ≡ pos 0)
    × Adds 1 three_queued (e'.rings 3) (
        if cq_room d || has_free d
        then record { user_data = 77; res = to_s32 8; flags = no_cqe_flags } ∷ []
        else [])
    × ((j : ℕ) → 3 ≢ j → e'.rings j ≡ three_queued)
unfolding ring_of
msg_ring_op-Adds_example =
    msg_ring_op-Adds blocking_select engine 5 3 1 [] message refl refl three_queued-CqIsValid
      three_queued-Owned.holds
