-- ===== src/Enter/Owners.antt =====
-- Enter: who holds each op of every ring, from the submission to the last wait.
use slipstream_io.Base.{
  ℕ, zero, suc, ◌<◌, ◌≡◌, arith, ℤ, true, is_neg, ◌&&◌, List, [], ◌∷◌, ◌++◌, Option, none, some,
  ltb, if◌then◌else◌, Bool-cases, Option-cases, inl, inr, ◌==◌, ==_iff, sym, ap, count,
  count-append, length, u32_mod,
}
use mathlib.Core.Path.{subst}
use slipstream_io.Ring.{Ring}
use slipstream_io.Completion.{cq_avail}
use slipstream_io.Posix.Owned.{Owned, post-Owned, drain-Owned, PlacesAreKnown-frame}
use slipstream_io.Posix.Parking.{PlacesAreKnown}
use slipstream_io.Backend.{Backend, slots, handed_back}
use slipstream_io.Backend.Laws.{Laws}
use slipstream_io.Engine.{
  Engine, ring_of, put_ring, same_op, complete, process_queue, settle_worker_ticket,
}
use slipstream_io.Engine.Heads.{EngineOwned, put-Owned}
use slipstream_io.Engine.Queue.{process_queue-Owned}
use slipstream_io.Enter.{
  Timespec, EnterArg, EnterFlags, is_empty, take_sqes, complete_all, run_queue, Waited, answered,
  again, settle_wait, timeout_of, is_late, is_set, waited, wait_round, wait_for, submit,
  getevents_arg_size, enter_until, enter_with, enter_at, enter, Deadline, refused, no_deadline,
  until, deadline_of,
}
use slipstream_io.Enter.Wait.{enter-deadline}
use slipstream_io.Enter.Submit.{Submitted, take_sqes-Submitted}

-- The batch's ops were free, so the parked ones keep their places.
Submitted-places :
    (n tail : ℕ) (held : List ℕ) (r : Ring) (x : ℕ × List ℕ × Ring)
    → Submitted n tail held r x
    → PlacesAreKnown r
    → PlacesAreKnown x.2
Submitted-places n tail held r x s h =
    PlacesAreKnown-frame r x.2 s.same.waiting (λ q l. ap (λ o. o.wait_slot) (s.kept q (fresh q l)))
      h
  where
    fresh : (q : ℕ) → 0 < count q r.waiting → count q x.1 ≡ 0
    fresh q l = ground (arith, l, s.owned q, count-append q x.1 held, ap (count q) s.same.waiting)

complete-Owned :
    (p : ℕ) (held : List ℕ) (r : Ring) (res : ℤ)
    → Owned (p ∷ held) r
    → Owned held (complete r p res)
unfolding complete
complete-Owned p held r res h = elim (Bool-cases (same_op r.blocking p)) [
  | inl x ↦ rw x (post-Owned p held _ res (record { holds = h.holds; places = h.places }))
  | inr x ↦ elim (Bool-cases (is_neg res && (r.ops p).sqe.flags.io_link)) [
    | inl y ↦ rw (x, y) (post-Owned p held _ res (record { holds = h.holds; places = h.places }))
    | inr y ↦ rw (x, y) (post-Owned p held _ res h)
  ]
]

complete_all-Owned :
    (held : List ℕ) (done : List (ℕ × ℤ)) (r : Ring)
    → Owned (slots done ++ held) r
    → Owned held (complete_all done r)
unfolding complete_all
complete_all-Owned held [] r h = h
complete_all-Owned held ((p, res) ∷ done) r h =
    complete_all-Owned held done (complete r p res) (complete-Owned p (slots done ++ held) r res h)

ticket-Owned : (held : List ℕ) (r : Ring) → Owned held r → Owned held (settle_worker_ticket r)
unfolding settle_worker_ticket
ticket-Owned held r h = elim (Option-cases r.blocked_done) [
  | inl n ↦ rw n (drain-Owned held r h)
  | inr (p, n) ↦ elim (Bool-cases (same_op r.blocking p)) [
    | inl x ↦ rw (n, x) (drain-Owned held _ (record { holds = h.holds; places = h.places }))
    | inr x ↦ rw (n, x) (drain-Owned held _ (record { holds = h.holds; places = h.places }))
  ]
]

module _ {W : Type 0} (hand : ℕ → List ℕ) where
  -- Between calls every slot of every ring stands in one of the ring's lists or in its worker's hand, and
  -- each parked op knows its place.
  abbrev pub AllOwned : Engine W → Type 0
  AllOwned e = (j : ℕ) → Owned (hand j) (e.rings j)

  AllOwned-EngineOwned : (i : ℕ) (e : Engine W) → AllOwned e → EngineOwned hand i (hand i) e
  AllOwned-EngineOwned i e h j = elim (Bool-cases (i == j)) [
    | inl x ↦ rw x (subst (λ k. Owned (hand k) (e.rings j)) (sym ((==_iff i j).0 x)) (h j))
    | inr x ↦ rw x (h j)
  ]

  EngineOwned-AllOwned : (i : ℕ) (e : Engine W) → EngineOwned hand i (hand i) e → AllOwned e
  EngineOwned-AllOwned i e h j = elim (Bool-cases (i == j)) [
    | inl x ↦ subst (λ k. Owned (hand k) (e.rings j)) ((==_iff i j).0 x) (rw x at (h j))
    | inr x ↦ rw x at (h j)
  ]

  put-AllOwned :
      (e : Engine W) (i : ℕ) (r : Ring) → AllOwned e → Owned (hand i) r → AllOwned (put_ring e i r)
  put-AllOwned e i r h x =
      EngineOwned-AllOwned i (put_ring e i r)
        (put-Owned hand i (hand i) (hand i) e r (AllOwned-EngineOwned i e h) x)

  abbrev Kept : Option (ℤ × Engine W) → Type 0
  Kept none = Unit {0}
  Kept (some (res, e)) = AllOwned e

  abbrev KeptRound : Waited W → Type 0
  KeptRound (answered res e) = AllOwned e
  KeptRound (again e) = AllOwned e

module _ {W : Type 0} (b : Backend W) (hand : ℕ → List ℕ) (laws : Laws W b)
    (clock : W → Timespec) where
  run_queue-AllOwned :
      (e : Engine W) (i : ℕ) → AllOwned hand e → AllOwned hand (run_queue b clock e i)
  unfolding run_queue
  run_queue-AllOwned e i h =
      EngineOwned-AllOwned hand i (process_queue b (length (e.rings i).queue) e i) (
        process_queue-Owned b hand laws (length (e.rings i).queue) e i
          (AllOwned-EngineOwned hand i e h))

  settle_wait-AllOwned :
      (e : Engine W) (i : ℕ) (done : List (ℕ × ℤ)) (r : Ring) (w : W)
      → AllOwned hand e
      → Owned (slots done ++ hand i) r
      → AllOwned hand (settle_wait b clock e i done r w)
  unfolding settle_wait
  settle_wait-AllOwned e i done r w h x =
      let completed = record (put_ring e i (complete_all done r)) { world = w } in
      let ran = run_queue b clock completed i in
      let kept : AllOwned hand ran =
        run_queue-AllOwned completed i
          (put-AllOwned hand e i (complete_all done r) h (complete_all-Owned (hand i) done r x)) in
      put-AllOwned hand ran i (settle_worker_ticket (ran.rings i)) kept
        (ticket-Owned (hand i) (ran.rings i) (kept i))

  waited-Kept :
      (m : ℕ) (d : Option Timespec) (e : Engine W) (i : ℕ) (x : Option (List (ℕ × ℤ)) × Ring × W)
      → AllOwned hand e
      → Owned (handed_back x.0 ++ hand i) x.1
      → KeptRound hand (waited b clock m d e i x)
  unfolding waited
  waited-Kept m d e i (none, r, w) h x = put-AllOwned hand e i r h x
  waited-Kept m d e i (some done, r, w) h x =
      elim (Bool-cases
        (ltb (cq_avail ((settle_wait b clock e i done r w).rings i)) m && is_set d)) [
          | inl y ↦ rw y (settle_wait-AllOwned e i done r w h x)
          | inr y ↦ rw y (settle_wait-AllOwned e i done r w h x)
        ]

  wait_round-Kept :
      (m : ℕ) (d : Option Timespec) (e : Engine W) (i : ℕ)
      → AllOwned hand e
      → KeptRound hand (wait_round b clock m d e i)
  unfolding wait_round
  wait_round-Kept m d e i h = elim (Bool-cases (is_late (timeout_of b clock d e.world))) [
    | inl x ↦ rw x h
    | inr x ↦ rw x (
        waited-Kept m d e i
          (b.wait (e.rings i) (e.rings i).op_pool_n (timeout_of b clock d e.world) e.world) h
          (laws.wait-Owned (hand i) (e.rings i) (e.rings i).op_pool_n (timeout_of b clock d e.world)
            e.world (h i)))
  ]

  wait_for-Kept :
      (waits m : ℕ) (d : Option Timespec) (n : ℤ) (e : Engine W) (i : ℕ)
      → AllOwned hand e
      → Kept hand (wait_for b clock waits m d n e i)
  unfolding wait_for
  wait_for-Kept zero m d n e i h = elim (Bool-cases (ltb (cq_avail (e.rings i)) m)) [
    | inl x ↦ rw x tt
    | inr x ↦ rw x h
  ]
  wait_for-Kept (suc waits) m d n e i h = elim (Bool-cases (ltb (cq_avail (e.rings i)) m)) [
    | inl x ↦
        rw (x, wait_for)
          (goes_on (λ e'. wait_for-Kept waits m d n e' i) (wait_round b clock m d e i)
            (wait_round-Kept m d e i h))
    | inr x ↦ rw (x, wait_for) h
  ]
    where
      goes_on :
          ((e' : Engine W) → AllOwned hand e' → Kept hand (wait_for b clock waits m d n e' i))
          → (x : Waited W) → KeptRound hand x
          → Kept hand (elim x [
            | answered res e' ↦ some (res, e')
            | again e' ↦ wait_for b clock waits m d n e' i
          ])
      goes_on later (answered res e') k = k
      goes_on later (again e') k = later e' k

  -- The batch goes behind the queue.
  queued-Owned :
      (held ps : List ℕ) (r : Ring)
      → Owned (ps ++ held) r
      → Owned held (record r { queue = r.queue ++ ps })
  queued-Owned held ps r h = record {
    holds = λ q. omega (arith, h.holds q, count-append q ps held, count-append q r.queue ps);
    places = h.places;
  }

  batch-AllOwned :
      (e : Engine W) (i n : ℕ) (ps : List ℕ) (r : Ring)
      → AllOwned hand e
      → Owned (ps ++ hand i) r
      → AllOwned hand (
          if is_empty ps
          then put_ring e i r
          else run_queue b clock (put_ring e i (record r { queue = r.queue ++ ps })) i)
  batch-AllOwned e i n [] r h x = put-AllOwned hand e i r h x
  batch-AllOwned e i n (p ∷ ps) r h x =
      run_queue-AllOwned (put_ring e i (record r { queue = r.queue ++ (p ∷ ps) })) i (
        put-AllOwned hand e i (record r { queue = r.queue ++ (p ∷ ps) }) h
          (queued-Owned (hand i) (p ∷ ps) r x))

  submit-AllOwned :
      (n : ℕ) (e : Engine W) (i : ℕ)
      → (e.rings i).sq_head < u32_mod
      → AllOwned hand e
      → AllOwned hand (submit b clock n e i).1
  unfolding submit
  submit-AllOwned n e i w h =
      let x = take_sqes n (e.rings i).sq_tail (e.rings i) in
      let s : Submitted n (e.rings i).sq_tail (hand i) (e.rings i) x =
        take_sqes-Submitted n (e.rings i).sq_tail (hand i) (e.rings i) w (h i).holds in
      batch-AllOwned e i x.0 x.1 x.2 h (record {
        holds = s.owned;
        places = Submitted-places n (e.rings i).sq_tail (hand i) (e.rings i) x s (h i).places;
      })

  enter_until-Kept :
      (waits n m : ℕ) (flags : EnterFlags) (d : Option Timespec) (e : Engine W) (i : ℕ)
      → (e.rings i).sq_head < u32_mod
      → AllOwned hand e
      → Kept hand (enter_until b clock waits n m flags d e i)
  unfolding enter_until
  enter_until-Kept waits n m flags d e i w h =
      let e' = (submit b clock n e i).1 in
      let k : AllOwned hand e' = submit-AllOwned n e i w h in
      elim (Bool-cases (flags.getevents && ltb 0 m)) [
        | inl x ↦ rw x (
            wait_for-Kept waits m d _ (put_ring e' i (settle_worker_ticket (e'.rings i))) i (
              put-AllOwned hand e' i (settle_worker_ticket (e'.rings i)) k
                (ticket-Owned (hand i) (e'.rings i) (k i))))
        | inr x ↦ rw x k
      ]

  enter_with-Kept :
      (waits n m : ℕ) (flags : EnterFlags) (d : Deadline) (e : Engine W) (i : ℕ)
      → (e.rings i).sq_head < u32_mod
      → AllOwned hand e
      → Kept hand (enter_with b clock waits n m flags d e i)
  unfolding enter_with
  enter_with-Kept waits n m flags (refused res) e i w h = h
  enter_with-Kept waits n m flags no_deadline e i w h =
      enter_until-Kept waits n m flags none e i w h
  enter_with-Kept waits n m flags (until d) e i w h =
      enter_until-Kept waits n m flags (some d) e i w h

  pub enter-AllOwned :
      (waits : ℕ) (fd : ℤ) (to_submit min_complete : ℕ) (flags : EnterFlags) (arg : Option EnterArg)
      (res : ℤ) (e e' : Engine W)
      → ((i : ℕ) → (e.rings i).sq_head < u32_mod)
      → AllOwned hand e
      → enter b clock waits fd to_submit min_complete flags arg e ≡ some (res, e')
      → AllOwned hand e'
  unfolding enter enter_at
  enter-AllOwned waits fd n m flags arg res e e' w h x = elim (Option-cases (ring_of e fd)) [
    | inl f ↦ subst (Kept hand) (rw f at x) h
    | inr (i, f) ↦
        subst (Kept hand) (rw f at x)
          (enter_with-Kept waits n m flags (deadline_of flags (clock e.world) arg) e i (w i) h)
  ]

  -- Under a deadline enter returns after one wait at most, and every op of every ring's pool has one holder and
  -- every parked op knows its place, if it was so before. The caller passes IORING_ENTER_EXT_ARG with a time,
  -- the workers hold the ops of `hand` meanwhile, the backend keeps its laws on such rings and the rings'
  -- heads are 32-bit words.
  pub enter_deadline-AllOwned :
      (fd : ℤ) (to_submit min_complete : ℕ) (flags : EnterFlags) (ts : Timespec) (e : Engine W)
      → flags.ext_arg ≡ true
      → ((i : ℕ) → (e.rings i).sq_head < u32_mod)
      → AllOwned hand e
      → (answer : ℤ × Engine W) × (enter b clock 1 fd to_submit min_complete flags
            (some (record { ts = some ts; size = getevents_arg_size }))
            e
          ≡ some answer)
        × AllOwned hand answer.1
  enter_deadline-AllOwned fd n m flags ts e k w h =
      let (x, q) = enter-deadline b clock fd n m flags ts e k in
      (x, q, enter-AllOwned 1 fd n m flags _ x.0 e x.1 w h q)
