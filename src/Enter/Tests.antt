-- ===== src/Enter/Tests.antt =====
-- Enter on a ring of three ops whose submission queue holds two entries: one names an SQE, the other
-- names none. The backend is select; the clock stands still.
use slipstream_io.Base.{
  ℕ, ◌+◌, ◌≤◌, ◌<◌, ◌≡◌, refl, sym, ap, ◌∙◌, get_elem?, List, arith, u32_mod, ℤ, pos, true, false,
  [], ◌∷◌, Option, none, some, if◌then◌else◌, ◌==◌, Bool-cases, inl, inr, to_s32,
}
use slipstream_io.Abi.{zero_sqe}
use slipstream_io.Ring.{Ring, zero_ring}
use slipstream_io.Completion.{
  cq_avail, cq_room, op_alloc_locked, alloc_from, op_release, post, post_drained, post_locked,
  drain_backlog_locked, drain_from,
}
use mathlib.Core.Option.{none-ne-some}
use slipstream_io.Posix.Owned.{Owned}
use slipstream_io.Posix.Parking.{PlacesAreKnown}
use slipstream_io.Posix.Sample.{World}
use slipstream_io.Posix.Cancel.{is_followed, is_all}
use slipstream_io.Posix.Try.{try_op, posix_try}
use slipstream_io.Posix.Execute.{posix_execute, tried_on, verdict_on}
use slipstream_io.Select.Sample.{blocking_select, blocking_select-Laws}
use slipstream_io.Engine.{
  Engine, ring_token, ring_of, process_queue, next_op, next_from, process_head, run_head, executed,
  settle, settle_worker_ticket,
}
use slipstream_io.Fixed.{fixed_lookup}
use slipstream_io.Enter.{
  Timespec, EnterFlags, enter, enter_at, enter_with, enter_until, deadline_of, submit, take_sqes,
  take_sqe, take_into, advance_head, run_queue, wait_for, getevents_arg_size,
}
use slipstream_io.Enter.Submit.{Submitted, take_sqes-Submitted}
use slipstream_io.Enter.Wait.{enter-count, enter-deadline}
use slipstream_io.Enter.Owners.{AllOwned, enter_deadline-AllOwned}

abbrev two_sent : Ring
two_sent = record zero_ring {
  in_use = true;
  sq_entries = 2;
  cq_entries = 4;
  sq_mask = 1;
  cq_mask = 3;
  sq_tail = 2;
  sq_array = λ i. if i == 0 then 1 else 9;
  sqes = λ i. record zero_sqe { user_data = i };
  op_pool_n = 3;
  op_free = 0 ∷ 1 ∷ 2 ∷ [];
}

abbrev engine : Engine World
engine = record { rings = λ i. if i == 5 then two_sent else zero_ring; world = tt }

abbrev noon : World → Timespec
noon w = record { sec = 43200; nsec = 0 }

abbrev token : ℤ
token = pos (ring_token + 5)

no_places : (r : Ring) → r.waiting ≡ [] → PlacesAreKnown r
no_places r e k q g = absurd (none-ne-some _ (ap (λ xs. get_elem? xs k) (sym e) ∙ g))

two_sent-Owned : Owned [] two_sent
two_sent-Owned = record { holds = λ p. ground arith; places = no_places two_sent refl }

zero_ring-Owned : Owned [] zero_ring
zero_ring-Owned = record { holds = λ p. ground arith; places = no_places zero_ring refl }

-- No worker has an op in hand.
abbrev idle : ℕ → List ℕ
idle j = []

engine-AllOwned : AllOwned idle engine
engine-AllOwned j = elim (Bool-cases (j == 5)) [
  | inl x ↦ rw x two_sent-Owned
  | inr x ↦ rw x zero_ring-Owned
]

engine-heads : (i : ℕ) → (engine.rings i).sq_head < u32_mod
engine-heads i = elim (Bool-cases (i == 5)) [
  | inl x ↦ rw x (omega arith)
  | inr x ↦ rw x (omega arith)
]

take_sqes-Submitted_example : Submitted 4 2 [] two_sent (take_sqes 4 2 two_sent)
take_sqes-Submitted_example = take_sqes-Submitted 4 2 [] two_sent (omega arith) two_sent-Owned.holds

abbrev waiting : EnterFlags
waiting = record { getevents = true; ext_arg = true }

enter-deadline_example :
    (answer : ℤ × Engine World) × (enter blocking_select noon 1 token 2 5 waiting
        (some (record { ts = some (noon tt); size = getevents_arg_size }))
        engine
      ≡ some answer)
enter-deadline_example = enter-deadline blocking_select noon token 2 5 waiting (noon tt) engine refl

abbrev one_asked : EnterFlags
one_asked = record { getevents = true; ext_arg = false }

-- What enter makes of it: both entries are submitted, one is answered.
abbrev entered : Option (ℤ × Engine World)
entered = enter blocking_select noon 1 token 2 1 one_asked none engine

abbrev engine_of : Option (ℤ × Engine World) → Engine World
engine_of none = engine
engine_of (some (res, e)) = e

entered-returns : entered ≡ some (pos 2, engine_of entered)
unfolding enter enter_at enter_with enter_until deadline_of submit take_sqes take_sqe take_into
    advance_head op_alloc_locked alloc_from ring_of run_queue wait_for process_queue next_op
    next_from process_head run_head executed settle post post_drained post_locked op_release cq_room
    cq_avail fixed_lookup drain_backlog_locked drain_from settle_worker_ticket to_s32 is_followed
    is_all posix_execute posix_try try_op tried_on verdict_on
entered-returns = refl

enter-count_example : 1 ≤ cq_avail ((engine_of entered).rings 5)
unfolding ring_of
enter-count_example =
    enter-count blocking_select noon 1 token 5 2 1 one_asked none (pos 2) engine (engine_of entered)
      refl refl entered-returns refl

enter_deadline-AllOwned_example :
    (answer : ℤ × Engine World) × (enter blocking_select noon 1 token 2 5 waiting
        (some (record { ts = some (noon tt); size = getevents_arg_size }))
        engine
      ≡ some answer)
    × AllOwned idle answer.1
enter_deadline-AllOwned_example =
    enter_deadline-AllOwned blocking_select idle blocking_select-Laws noon token 2 5 waiting
      (noon tt) engine refl engine-heads engine-AllOwned
