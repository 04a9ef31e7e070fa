-- ===== src/Enter.antt =====
-- src/slipstream_engine.c: `slipstream_engine_enter`. It takes submissions off the ring, runs them,
-- and waits until as many completions stand in the queue as the caller asked for.
pub mod Submit
pub mod Wait
pub mod Owners
mod Tests
use slipstream_io.Base.{
  ℕ, zero, suc, ◌+◌, ◌-◌, ◌*◌, ◌/◌, ◌%◌, ◌^◌, min, bit_and, u32_mod, to_s32, ℤ, pos, neg, Bool,
  true, false, not, ◌&&◌, ◌||◌, List, [], ◌∷◌, ◌++◌, length, Option, none, some, ltb, leb, ◌==◌,
  if◌then◌else◌, update,
}
use slipstream_io.Abi.{ebadf, einval, etime}
use slipstream_io.Ring.{Ring}
use slipstream_io.Completion.{cq_avail, op_alloc_locked}
use slipstream_io.Backend.{Backend}
use slipstream_io.Engine.{Engine, ring_of, put_ring, complete, process_queue, settle_worker_ticket}

-- `struct timespec`, of a clock that has not been set before 1970.
pub record Timespec : Type 0 where
  pub sec : ℕ
  pub nsec : ℕ

-- What `arg` points to: IORING_ENTER_EXT_ARG's `ts`, `none` for NULL, in an argument of `size`
-- bytes.
pub record EnterArg : Type 0 where
  pub ts : Option Timespec
  pub size : ℕ

-- IORING_ENTER_GETEVENTS and IORING_ENTER_EXT_ARG
pub record EnterFlags : Type 0 where
  pub getevents : Bool
  pub ext_arg : Bool

-- sizeof(struct io_uring_getevents_arg)
abbrev pub getevents_arg_size : ℕ
getevents_arg_size = 24

-- One round of the submission loop, on the SQE that the op handed out takes.
unfoldable pub take_into : ℕ → Option (ℕ × Ring) → Option (List ℕ × Ring)
take_into i none = none
take_into i (some (p, r)) =
    some (p ∷ [], record r { ops = update r.ops p (record (r.ops p) { sqe = r.sqes i }) })

unfoldable pub advance_head : Ring → Ring
advance_head r = record r { sq_head = (r.sq_head + 1) % u32_mod }

-- An entry of the submission queue: taken into an op, or dropped and counted; `none` where the pool
-- is empty.
unfoldable pub take_sqe : Ring → Option (List ℕ × Ring)
take_sqe r =
    let i = r.sq_array (bit_and r.sq_head r.sq_mask) in
    if ltb i r.sq_entries
    then take_into i (op_alloc_locked r)
    else some ([], record r { sq_dropped = (r.sq_dropped + 1) % u32_mod })

-- The submission loop for at most `n` entries up to `tail`: how many it submitted, and the batch.
unfoldable pub take_sqes : ℕ → ℕ → Ring → ℕ × List ℕ × Ring
take_sqes zero tail r = (0, [], r)
take_sqes (suc n) tail r = elim (r.sq_head == tail) [
  | true ↦ (0, [], r)
  | false ↦ elim (take_sqe r) [
    | none ↦ (0, [], r)
    | some (batch, r') ↦
        let (submitted, batch', s) = take_sqes n tail (advance_head r') in
        (suc submitted, batch ++ batch', s)
  ]
]

abbrev pub is_empty : List ℕ → Bool
is_empty [] = true
is_empty (p ∷ ps) = false

-- The whole milliseconds left until the deadline, 0 where it has passed: the source's difference of
-- the seconds and of the nanoseconds, the latter cut toward zero.
unfoldable pub left_ms : Timespec → Timespec → ℕ
left_ms deadline now =
    deadline.sec * 1000
    + (deadline.nsec - now.nsec) / 1000000
    - (now.sec * 1000 + (now.nsec - deadline.nsec) / 1000000)

-- A relative time from now on, its nanoseconds carried once.
unfoldable pub after : Timespec → Timespec → Timespec
after now ts =
    let nsec = now.nsec + ts.nsec in
    if leb 1000000000 nsec
    then record { sec = now.sec + ts.sec + 1; nsec = nsec - 1000000000 }
    else record { sec = now.sec + ts.sec; nsec = nsec }

-- What `deadline_of` answers: an error, or the deadline if there is one.
pub data Deadline : Type 0 where
  refused : ℤ → Deadline
  no_deadline : Deadline
  until : Timespec → Deadline

unfoldable pub deadline_at : Timespec → Option Timespec → Deadline
deadline_at now none = no_deadline
deadline_at now (some ts) = until (after now ts)

unfoldable pub deadline_in : Timespec → Option EnterArg → Deadline
deadline_in now none = refused (neg einval)
deadline_in now (some a) =
    if a.size == getevents_arg_size then deadline_at now a.ts else refused (neg einval)

unfoldable pub deadline_of : EnterFlags → Timespec → Option EnterArg → Deadline
deadline_of flags now arg = if flags.ext_arg then deadline_in now arg else no_deadline

-- The loop that completes the ops which one wait handed back.
unfoldable pub complete_all : List (ℕ × ℤ) → Ring → Ring
complete_all [] r = r
complete_all ((p, res) ∷ done) r = complete_all done (complete r p res)

abbrev pub is_late : Option ℕ → Bool
is_late none = false
is_late (some ms) = ms == 0

abbrev pub is_set : Option Timespec → Bool
is_set none = false
is_set (some deadline) = true

-- A round of the wait loop ends enter, or does not.
pub data Waited (W : Type 0) : Type 0 where
  answered : ℤ → Engine W → Waited W
  again : Engine W → Waited W

-- `clock` is timespec_get.
module _ {W : Type 0} (b : Backend W) (clock : W → Timespec) where
  -- `process_queue`, with the fuel that it needs.
  unfoldable pub run_queue : Engine W → ℕ → Engine W
  run_queue e i = process_queue b (length (e.rings i).queue) e i

  -- The ops of one wait, and what the queue and the worker have to say then.
  unfoldable pub settle_wait : Engine W → ℕ → List (ℕ × ℤ) → Ring → W → Engine W
  settle_wait e i done r w =
      let ran = run_queue (record (put_ring e i (complete_all done r)) { world = w }) i in
      put_ring ran i (settle_worker_ticket (ran.rings i))

  -- The time that a wait may take: none for ever, or the milliseconds left, within an `int`.
  unfoldable pub timeout_of : Option Timespec → W → Option ℕ
  timeout_of none w = none
  timeout_of (some deadline) w = some (min (left_ms deadline (clock w)) (2 ^ 31 - 1))

  -- What follows one wait.
  unfoldable pub waited :
      ℕ → Option Timespec → Engine W → ℕ → Option (List (ℕ × ℤ)) × Ring × W → Waited W
  waited min_complete deadline e i (none, r, w) =
      answered (neg ebadf) (record (put_ring e i r) { world = w })
  waited min_complete deadline e i (some done, r, w) =
      let e' = settle_wait e i done r w in
      if ltb (cq_avail (e'.rings i)) min_complete && is_set deadline
      then answered (neg etime) e'
      else again e'

  -- One round of the wait loop.
  unfoldable pub wait_round : ℕ → Option Timespec → Engine W → ℕ → Waited W
  wait_round min_complete deadline e i =
      let timeout = timeout_of deadline e.world in
      if is_late timeout
      then answered (neg etime) e
      else waited min_complete deadline e i
          (b.wait (e.rings i) (e.rings i).op_pool_n timeout e.world)

  -- The wait loop of enter, for at most `waits` rounds; `none` where it would go on.
  unfoldable pub wait_for : ℕ → ℕ → Option Timespec → ℤ → Engine W → ℕ → Option (ℤ × Engine W)
  wait_for zero min_complete deadline submitted e i =
      if ltb (cq_avail (e.rings i)) min_complete then none else some (submitted, e)
  wait_for (suc waits) min_complete deadline submitted e i =
      elim (ltb (cq_avail (e.rings i)) min_complete) [
        | false ↦ some (submitted, e)
        | true ↦ elim (wait_round min_complete deadline e i) [
          | answered res e' ↦ some (res, e')
          | again e' ↦ wait_for waits min_complete deadline submitted e' i
        ]
      ]

  -- The submission half of enter: how many, and the engine after their run.
  unfoldable pub submit : ℕ → Engine W → ℕ → ℕ × Engine W
  submit to_submit e i =
      let (submitted, batch, r) = take_sqes to_submit (e.rings i).sq_tail (e.rings i) in
      let queued = put_ring e i (record r { queue = r.queue ++ batch }) in
      (submitted, if is_empty batch then put_ring e i r else run_queue queued i)

  unfoldable pub enter_until :
      ℕ → ℕ → ℕ → EnterFlags → Option Timespec → Engine W → ℕ → Option (ℤ × Engine W)
  enter_until waits to_submit min_complete flags deadline e i =
      let (submitted, e') = submit to_submit e i in
      if flags.getevents && ltb 0 min_complete
      then wait_for waits min_complete deadline (to_s32 submitted)
          (put_ring e' i (settle_worker_ticket (e'.rings i))) i
      else some (to_s32 submitted, e')

  unfoldable pub enter_with :
      ℕ → ℕ → ℕ → EnterFlags → Deadline → Engine W → ℕ → Option (ℤ × Engine W)
  enter_with waits to_submit min_complete flags (refused res) e i = some (res, e)
  enter_with waits to_submit min_complete flags no_deadline e i =
      enter_until waits to_submit min_complete flags none e i
  enter_with waits to_submit min_complete flags (until t) e i =
      enter_until waits to_submit min_complete flags (some t) e i

  unfoldable pub enter_at :
      ℕ → ℕ → ℕ → EnterFlags → Option EnterArg → Engine W → Option ℕ → Option (ℤ × Engine W)
  enter_at waits to_submit min_complete flags arg e none = some (neg ebadf, e)
  enter_at waits to_submit min_complete flags arg e (some i) =
      enter_with waits to_submit min_complete flags (deadline_of flags (clock e.world) arg) e i

  -- `slipstream_engine_enter`, for at most `waits` waits; `none` where it would wait again.
  unfoldable pub enter :
      ℕ → ℤ → ℕ → ℕ → EnterFlags → Option EnterArg → Engine W → Option (ℤ × Engine W)
  enter waits fd to_submit min_complete flags arg e =
      enter_at waits to_submit min_complete flags arg e (ring_of e fd)
