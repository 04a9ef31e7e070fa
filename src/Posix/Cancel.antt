-- ===== src/Posix/Cancel.antt =====
-- src/engine_posix.c: cancel, where the lock is kept through the walk over the worker's list.
pub mod Lists
pub mod Both
pub mod Sweep
pub mod All
pub mod Counted
use slipstream_io.Base.{
  ℕ, zero, suc, ◌+◌, ℤ, pos, neg, eq_ℤ, Bool, true, false, not, ◌&&◌, ◌||◌, List, [], ◌∷◌, ◌++◌,
  length, get_elem?, Option, none, some, ltb, ◌==◌, if◌then◌else◌,
}
use slipstream_io.Abi.{Opcode, poll_add, poll_remove, async_cancel, ecanceled, enoent, ealready}
use slipstream_io.Ring.{Ring, EngOp, chain_failure_of}
use slipstream_io.Completion.{post}
use slipstream_io.Engine.{same_op}
use slipstream_io.Posix.{unpark}

abbrev pub is_poll_add : Opcode → Bool
is_poll_add poll_add = true
is_poll_add _ = false

abbrev pub is_poll_remove : Opcode → Bool
is_poll_remove poll_remove = true
is_poll_remove _ = false

abbrev pub is_async_cancel : Opcode → Bool
is_async_cancel async_cancel = true
is_async_cancel _ = false

-- `cancel_names`
unfoldable pub cancel_names : EngOp → EngOp → Bool
cancel_names c t =
    if is_poll_remove c.sqe.opcode
    then is_poll_add t.sqe.opcode && t.sqe.user_data == c.sqe.addr
    else if c.sqe.cancel_fd
    then eq_ℤ t.sqe.fd c.sqe.fd
    else t.sqe.user_data == c.sqe.addr

-- The chain standing that `cancel_target` leaves.
unfoldable pub cancel_settled : Ring → ℕ → Ring
cancel_settled r t =
    if same_op r.blocking t
    then record r { blocking = none; chain_failed = chain_failure_of (r.ops t) }
    else if (r.ops t).sqe.flags.io_link
    then record r { chain_failed = chain_failure_of (r.ops t) }
    else r

unfoldable pub cancel_target : Ring → ℕ → Ring
cancel_target r t = post (cancel_settled r t) t (neg ecanceled)

-- CANCEL_ALL
unfoldable pub is_all : EngOp → Bool
is_all c = is_async_cancel c.sqe.opcode && c.sqe.cancel_all

-- Some op of the list is named.
unfoldable pub is_named_in : EngOp → Ring → List ℕ → Bool
is_named_in c r [] = false
is_named_in c r (t ∷ rest) = let later = is_named_in c r rest in cancel_names c (r.ops t) || later

-- Whether the walk over the worker's list keeps the lock to its end: the source gives it up for each op
-- that it cancels there and, with CANCEL_ALL, goes on with a pointer into the list, from which a live
-- worker takes meanwhile.
unfoldable pub is_followed : EngOp → Ring → Bool
is_followed c r = not (is_all c && r.worker_live && is_named_in c r r.wq)

-- A sweep's count so far, and whether it ended cancel.
pub record Swept : Type 0 where
  pub count : ℕ
  pub ended : Bool
  pub ring : Ring

-- A list of ops that a sweep walks.
pub record Listed : Type 0 where
  pub put : Ring → List ℕ → Ring

abbrev pub of_queue : Listed
of_queue = record { put = λ r ps. record r { queue = ps } }

abbrev pub of_wq : Listed
of_wq = record { put = λ r ps. record r { wq = ps } }

module _ (c : EngOp) where
  -- The loop over the queue, or over the worker's: `kept` stands before the pointer, and what
  -- follows it after.
  unfoldable pub sweep : Listed → List ℕ → List ℕ → ℕ → Ring → Swept
  sweep l kept [] n r = record { count = n; ended = false; ring = r }
  sweep l kept (t ∷ rest) n r = elim (cancel_names c (r.ops t)) [
    | true ↦ elim (is_all c) [
      | false ↦ record {
        count = n + 1;
        ended = true;
        ring = cancel_target (l.put r (kept ++ rest)) t;
      }
      | true ↦ sweep l kept rest (n + 1) (cancel_target (l.put r (kept ++ rest)) t)
    ]
    | false ↦ sweep l (kept ++ (t ∷ [])) rest n r
  ]

  -- What cancel answers where nothing ended it before.
  unfoldable pub cancel_answer : Swept → ℤ
  cancel_answer s =
      if ltb 0 s.count
      then (if is_all c then pos s.count else pos 0)
      else if not (is_none s.ring.blocking) && is_none s.ring.blocked_done
      then neg ealready
      else neg enoent
    where
      is_none : Option ℕ → Bool
      is_none none = true
      is_none (some p) = false

  unfoldable pub sweep_wq : Swept → ℤ × Ring
  sweep_wq s =
      let t = sweep of_wq [] s.ring.wq s.count s.ring in
      if t.ended then (pos 0, t.ring) else (cancel_answer t, t.ring)

  unfoldable pub sweep_queue : Swept → ℤ × Ring
  sweep_queue s =
      let t = sweep of_queue [] s.ring.queue s.count s.ring in
      if t.ended then (pos 0, t.ring) else sweep_wq t

  module _ {W : Type 0} (arm : Ring → ℕ → W → Bool × W) (disarm : Ring → ℕ → W → W) where
    -- The loop over the parked set, from place `i`; `none` where it would go on. A place that was
    -- freed is looked at again.
    unfoldable pub sweep_waiting : ℕ → ℕ → ℕ → Ring → W → Option (Swept × W)
    sweep_waiting zero i n r w = none
    sweep_waiting (suc f) i n r w = elim (get_elem? r.waiting i) [
      | none ↦ some (record { count = n; ended = false; ring = r }, w)
      | some t ↦ elim (cancel_names c (r.ops t)) [
        | true ↦
            let (s, w') = unpark arm disarm r t w in
            elim (is_all c) [
              | false ↦ some (record { count = n + 1; ended = true; ring = cancel_target s t }, w')
              | true ↦ sweep_waiting f i (n + 1) (cancel_target s t) w'
            ]
        | false ↦ sweep_waiting f (i + 1) n r w
      ]
    ]

    unfoldable pub swept_waiting : Option (Swept × W) → Option (ℤ × Ring × W)
    swept_waiting none = none
    swept_waiting (some (s, w)) =
        if s.ended
        then some (pos 0, s.ring, w)
        else (let (res, r) = sweep_queue s in some (res, r, w))

    -- `cancel_matching`; a round of the sweep either leaves a place behind or empties one. `none`
    -- where the walk over the worker's list gives up the lock and goes on: what it meets then is
    -- up to the worker.
    unfoldable pub cancel_matching : Ring → W → Option (ℤ × Ring × W)
    cancel_matching r w =
        if is_followed c r
        then swept_waiting (sweep_waiting (suc (length r.waiting)) 0 0 r w)
        else none
