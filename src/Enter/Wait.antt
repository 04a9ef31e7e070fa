-- ===== src/Enter/Wait.antt =====
-- When enter comes back from waiting, and with what.
use slipstream_io.Base.{
  ℕ, zero, suc, ◌≤◌, ◌≡◌, refl, ap, ◌∙◌, arith, ℤ, neg, is_neg, Bool, true, false, ◌&&◌, List,
  Option, none, some, ltb, if◌then◌else◌, Bool-cases, Option-cases, ltb_false→le, le→ltb_false, inl,
  inr, ◌==◌,
}
use mathlib.Core.Path.{subst}
use slipstream_io.Abi.{ebadf}
use slipstream_io.Ring.{Ring}
use slipstream_io.Completion.{cq_avail}
use slipstream_io.Backend.{Backend}
use slipstream_io.Engine.{Engine, ring_of}
use slipstream_io.Enter.{
  Timespec, EnterArg, EnterFlags, Waited, answered, again, settle_wait, timeout_of, is_late, is_set,
  waited, wait_round, wait_for, enter_until, enter_with, enter_at, enter, Deadline, refused,
  no_deadline, until, deadline_of, deadline_in, deadline_at, after, getevents_arg_size,
}

-- What a round answered: an error, or word to go on, and not before the count where the caller set a
-- deadline.
abbrev Answer : {W : Type 0} → ℕ → Option Timespec → ℕ → Waited W → Type 0
Answer min_complete deadline i (answered res e) = is_neg res ≡ true
Answer min_complete deadline i (again e) =
    is_set deadline ≡ true → min_complete ≤ cq_avail (e.rings i)

abbrev Counted : {W : Type 0} → ℕ → ℕ → Option (ℤ × Engine W) → Type 0
Counted m i none = Unit {0}
Counted m i (some (res, e)) = is_neg res ≡ false → m ≤ cq_avail (e.rings i)

-- What `deadline_of` refuses, it refuses with an error.
abbrev IsRefusal : Deadline → Type 0
IsRefusal (refused res) = is_neg res ≡ true
IsRefusal no_deadline = Unit {0}
IsRefusal (until t) = Unit {0}

deadline_at-IsRefusal : (now : Timespec) (ts : Option Timespec) → IsRefusal (deadline_at now ts)
unfolding deadline_at
deadline_at-IsRefusal now none = tt
deadline_at-IsRefusal now (some ts) = tt

deadline_in-IsRefusal : (now : Timespec) (a : Option EnterArg) → IsRefusal (deadline_in now a)
unfolding deadline_in
deadline_in-IsRefusal now none = refl
deadline_in-IsRefusal now (some a) = elim (Bool-cases (a.size == getevents_arg_size)) [
  | inl x ↦ rw x (deadline_at-IsRefusal now a.ts)
  | inr x ↦ rw x refl
]

deadline_of-IsRefusal :
    (flags : EnterFlags) (now : Timespec) (a : Option EnterArg)
    → IsRefusal (deadline_of flags now a)
unfolding deadline_of
deadline_of-IsRefusal flags now a = elim (Bool-cases flags.ext_arg) [
  | inl x ↦ rw x (deadline_in-IsRefusal now a)
  | inr x ↦ rw x tt
]

deadline_of-until :
    (flags : EnterFlags) (now ts : Timespec)
    → flags.ext_arg ≡ true
    → deadline_of flags now (some (record { ts = some ts; size = getevents_arg_size }))
      ≡ until (after now ts)
unfolding deadline_of deadline_in deadline_at
deadline_of-until flags now ts x = ap (λ z. if z then until (after now ts) else no_deadline) x

and_false : (a : Bool) → (a && true) ≡ false → a ≡ false
and_false a e = ground arith

module _ {W : Type 0} (b : Backend W) (clock : W → Timespec) where
  waited-Answer :
      (min_complete : ℕ) (deadline : Option Timespec) (e : Engine W) (i : ℕ)
      (x : Option (List (ℕ × ℤ)) × Ring × W)
      → Answer min_complete deadline i (waited b clock min_complete deadline e i x)
  unfolding waited
  waited-Answer m d e i (none, r, w) = refl
  waited-Answer m d e i (some done, r, w) =
      elim (Bool-cases
        (ltb (cq_avail ((settle_wait b clock e i done r w).rings i)) m && is_set d)) [
          | inl x ↦ rw x refl
          | inr x ↦ rw x (λ set. ltb_false→le _ _ (and_false _ (rw set at x)))
        ]

  wait_round-Answer :
      (min_complete : ℕ) (deadline : Option Timespec) (e : Engine W) (i : ℕ)
      → Answer min_complete deadline i (wait_round b clock min_complete deadline e i)
  unfolding wait_round
  wait_round-Answer m d e i = elim (Bool-cases (is_late (timeout_of b clock d e.world))) [
    | inl x ↦ rw x refl
    | inr x ↦ rw x (waited-Answer m d e i _)
  ]

  wait_for-Counted :
      (waits min_complete : ℕ) (deadline : Option Timespec) (n : ℤ) (e : Engine W) (i : ℕ)
      → Counted min_complete i (wait_for b clock waits min_complete deadline n e i)
  unfolding wait_for
  wait_for-Counted zero m d n e i = elim (Bool-cases (ltb (cq_avail (e.rings i)) m)) [
    | inl x ↦ rw x tt
    | inr x ↦ rw x (λ p. ltb_false→le _ _ x)
  ]
  wait_for-Counted (suc waits) m d n e i = elim (Bool-cases (ltb (cq_avail (e.rings i)) m)) [
    | inl x ↦
        rw (x, wait_for)
          (goes_on (λ e'. wait_for-Counted waits m d n e' i) (wait_round b clock m d e i)
            (wait_round-Answer m d e i))
    | inr x ↦ rw (x, wait_for) (λ p. ltb_false→le _ _ x)
  ]
    where
      goes_on :
          ((e' : Engine W) → Counted m i (wait_for b clock waits m d n e' i))
          → (x : Waited W) → Answer m d i x
          → Counted m i (elim x [
            | answered res e' ↦ some (res, e')
            | again e' ↦ wait_for b clock waits m d n e' i
          ])
      goes_on later (answered res e') a = λ p. absurd (cc)
      goes_on later (again e') a = later e'

  module _ (waits i t m : ℕ) (flags : EnterFlags) (e : Engine W) (g : flags.getevents ≡ true) where
    with_until-Counted :
        (d : Option Timespec) → Counted m i (enter_until b clock waits t m flags d e i)
    unfolding enter_until
    with_until-Counted d = elim (Bool-cases (ltb 0 m)) [
      | inl x ↦ rw (g, x) (wait_for-Counted waits m d _ _ i)
      | inr x ↦ rw (g, x) (λ q. omega (arith, ltb_false→le _ _ x))
    ]

    with_deadline-Counted :
        (d : Deadline) → IsRefusal d → Counted m i (enter_with b clock waits t m flags d e i)
    unfolding enter_with
    with_deadline-Counted (refused r) n = λ q. absurd (cc)
    with_deadline-Counted no_deadline n = with_until-Counted none
    with_deadline-Counted (until d) n = with_until-Counted (some d)

  -- Whoever asks for events is not told of success before they are there: where enter, called for
  -- events, answers a count and no error, at least `min_complete` completions stand in the ring's
  -- queue.
  pub enter-count :
      (waits : ℕ) (fd : ℤ) (i to_submit min_complete : ℕ) (flags : EnterFlags)
      (arg : Option EnterArg) (res : ℤ) (e e' : Engine W)
      → flags.getevents ≡ true
      → ring_of e fd ≡ some i
      → enter b clock waits fd to_submit min_complete flags arg e ≡ some (res, e')
      → is_neg res ≡ false
      → min_complete ≤ cq_avail (e'.rings i)
  unfolding enter enter_at
  enter-count waits fd i t m flags arg res e e' g f h p =
      subst (Counted m i) h
        (rw f (
          with_deadline-Counted waits i t m flags e g (deadline_of flags (clock e.world) arg)
            (deadline_of-IsRefusal flags (clock e.world) arg)))
        p

  wait_for_ready :
      (m n : ℕ) (d : Option Timespec) (s : ℤ) (e : Engine W) (i : ℕ)
      → m ≤ cq_avail (e.rings i)
      → wait_for b clock n m d s e i ≡ some (s, e)
  unfolding wait_for
  wait_for_ready m zero d s e i h = rw (le→ltb_false (cq_avail (e.rings i)) m h)
  wait_for_ready m (suc n) d s e i h = rw (le→ltb_false (cq_avail (e.rings i)) m h, wait_for)

  -- One round under a deadline is the last.
  wait_for_deadline :
      (m : ℕ) (d : Timespec) (s : ℤ) (e : Engine W) (i : ℕ)
      → (x : ℤ × Engine W) × (wait_for b clock 1 m (some d) s e i ≡ some x)
  unfolding wait_for
  wait_for_deadline m d s e i = elim (Bool-cases (ltb (cq_avail (e.rings i)) m)) [
    | inl x ↦
        rw (x, wait_for)
          (last (wait_round b clock m (some d) e i) (wait_round-Answer m (some d) e i))
    | inr x ↦ rw (x, wait_for) ((s, e), refl)
  ]
    where
      last :
          (x : Waited W)
          → Answer m (some d) i x
          → (y : ℤ × Engine W) × (elim x [
            | answered res e' ↦ some (res, e')
            | again e' ↦ wait_for b clock 0 m (some d) s e' i
          ]
              ≡ some y)
      last (answered res e') a = ((res, e'), refl)
      last (again e') a = ((s, e'), wait_for_ready m 0 (some d) s e' i (a refl))

  enter_until_deadline :
      (t m : ℕ) (flags : EnterFlags) (d : Timespec) (e : Engine W) (i : ℕ)
      → (answer : ℤ × Engine W) × (enter_until b clock 1 t m flags (some d) e i ≡ some answer)
  unfolding enter_until
  enter_until_deadline t m flags d e i = elim (Bool-cases (flags.getevents && ltb 0 m)) [
    | inl x ↦ rw x (wait_for_deadline m d _ _ i)
    | inr x ↦ rw x (_, refl)
  ]

  -- Under a deadline enter waits at most once: whatever the backend's wait answers, one round is
  -- enough for enter to return. The caller passes IORING_ENTER_EXT_ARG with a time.
  pub enter-deadline :
      (fd : ℤ) (to_submit min_complete : ℕ) (flags : EnterFlags) (ts : Timespec) (e : Engine W)
      → flags.ext_arg ≡ true
      → (answer : ℤ × Engine W) × (enter b clock 1 fd to_submit min_complete flags
            (some (record { ts = some ts; size = getevents_arg_size }))
            e
          ≡ some answer)
  unfolding enter enter_at enter_with
  enter-deadline fd t m flags ts e x = elim (Option-cases (ring_of e fd)) [
    | inl n ↦ rw n ((neg ebadf, e), refl)
    | inr (i, n) ↦
        let (answer, y) = enter_until_deadline t m flags (after (clock e.world) ts) e i in
        (
          answer,
          rw n (
              ap (λ d. enter_with b clock 1 t m flags d e i)
                (deadline_of-until flags (clock e.world) ts x)
              ∙ y),
        )
  ]
