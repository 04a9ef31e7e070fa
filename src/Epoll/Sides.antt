-- ===== src/Epoll/Sides.antt =====
-- An op that is armed stands on its side of its descriptor, and one that is not stands on none.
use mathlib.Core.Path.{subst}
use slipstream_io.Base.{
  if_both, ℕ, ◌<◌, ◌≡◌, ◌≢◌, refl, sym, ap, ◌∙◌, ℤ, pos, Bool, true, false, not, ◌&&◌, ◌||◌, List,
  ◌∷◌, length, Option, none, some, ◌==◌, if◌then◌else◌, Bool-cases, inl, inr, eq_refl, ==_iff,
}
use slipstream_io.Posix.Parking.{true-ne-false}
use slipstream_io.Ring.{Ring}
use slipstream_io.Epoll.{
  Interest, no_interest, is_zero, merge, covers, ep_events_of, EpFd, Ep, is_writer, side, with_side,
  behind_first, slot_of, put_slot, State, ep_slot, interest_set, undone, second_try, first_try,
  ep_register, arm_at, arm,
}
use slipstream_io.Epoll.Table.{
  slot_of-put_slot, slot_of-put_slot_off, length-put_slot, IsPlaced, ep_slot-IsPlaced,
}

or_not : (x y : Bool) → ((x || y) || not y) ≡ true
or_not true true = refl
or_not true false = refl
or_not false true = refl
or_not false false = refl

covers-merge : (a b : Interest) → covers (merge a b) b ≡ true
covers-merge a b =
    rw (or_not a.reads b.reads, or_not a.writes b.writes, or_not a.urgent b.urgent) refl

and_right : (x y : Bool) → (x && y) ≡ true → y ≡ true
and_right true y e = e
and_right false y e = absurd (true-ne-false (sym e))

side-with_side : (w : Bool) (s : EpFd) (ps : List ℕ) → side w (with_side w s ps) ≡ ps
side-with_side true s ps = refl
side-with_side false s ps = refl

-- No other descriptor's entry has changed.
abbrev pub OthersKept : ℕ → List EpFd → List EpFd → Type 0
OthersKept i fds fds' = (k : ℕ) → i ≢ k → slot_of fds' k ≡ slot_of fds k

module _ {V : Type 0} (sys : Ep V) where
  -- What a registration leaves: where the kernel took it, the table says at least what was asked for;
  -- where it did not, the op is off its side and the table says nothing.
  abbrev AfterRegister : List EpFd → ℕ → Bool → Interest → Bool × State sys → Type 0
  AfterRegister fds i writer want (true, (fds', v)) =
      ((b : Bool) → side b (slot_of fds' i) ≡ side b (slot_of fds i))
      × (covers (slot_of fds' i).interest want ≡ true)
      × OthersKept i fds fds'
  AfterRegister fds i writer want (false, (fds', v)) =
      ((b : Bool)
        → side b (slot_of fds' i)
          ≡ side b (with_side writer (slot_of fds i) (behind_first (side writer (slot_of fds i)))))
      × OthersKept i fds fds'

  side-interest :
      (b : Bool) (s : EpFd) (e : Interest) → side b (record s { interest = e }) ≡ side b s
  side-interest true s e = refl
  side-interest false s e = refl

  taken :
      (fds : List EpFd) (i : ℕ) (writer : Bool) (want known : Interest) (v : V)
      → i < length fds
      → AfterRegister fds i writer want (true, (interest_set sys fds i (merge known want), v))
  taken fds i writer want known v h =
      let e = slot_of-put_slot fds i (record (slot_of fds i) { interest = merge known want }) h in
      (
        (λ b. ap (side b) e ∙ side-interest b (slot_of fds i) (merge known want)),
        ap (λ z. covers z.interest want) e ∙ covers-merge known want,
        λ k n. slot_of-put_slot_off fds i k _ n,
      )

  undone-AfterRegister :
      (fds : List EpFd) (i : ℕ) (writer : Bool) (want : Interest) (v : V)
      → i < length fds
      → AfterRegister fds i writer want (undone sys fds i writer v)
  undone-AfterRegister fds i writer want v h =
      let s = slot_of fds i in
      (
        (λ b.
            ap (side b) (slot_of-put_slot fds i _ h)
            ∙ side-interest b (with_side writer s (behind_first (side writer s))) no_interest),
        λ k n. slot_of-put_slot_off fds i k _ n,
      )

  second_try-AfterRegister :
      (fds : List EpFd) (i : ℕ) (writer : Bool) (want known : Interest) (x : Option ℕ × V)
      → i < length fds
      → AfterRegister fds i writer want (second_try sys fds i writer (merge known want) x)
  unfolding second_try
  second_try-AfterRegister fds i writer want known (none, v) h = taken fds i writer want known v h
  second_try-AfterRegister fds i writer want known (some e, v) h =
      undone-AfterRegister fds i writer want v h

  first_try-AfterRegister :
      (fds : List EpFd) (i : ℕ) (writer added : Bool) (want known : Interest) (x : Option ℕ × V)
      → i < length fds
      → AfterRegister fds i writer want (first_try sys fds i writer added (merge known want) x)
  unfolding first_try
  first_try-AfterRegister fds i writer added want known (none, v) h =
      taken fds i writer want known v h
  first_try-AfterRegister fds i writer added want known (some e, v) h =
      if_both (AfterRegister fds i writer want) (sys.disagrees e) _ _
        (second_try-AfterRegister fds i writer want known _ h)
        (undone-AfterRegister fds i writer want v h)

  tail-interest :
      (b w : Bool) (s : EpFd) (e : Interest)
      → side b (
          with_side w
            (record s { interest = e })
            (behind_first (side w (record s { interest = e }))))
        ≡ side b (with_side w s (behind_first (side w s)))
  tail-interest true true s e = refl
  tail-interest true false s e = refl
  tail-interest false true s e = refl
  tail-interest false false s e = refl

  known_first :
      (fds : List EpFd) (i : ℕ) (writer : Bool) (want known : Interest) (x : Bool × State sys)
      → i < length fds
      → AfterRegister (interest_set sys fds i known) i writer want x
      → AfterRegister fds i writer want x
  known_first fds i writer want known (true, (fds', v)) h (a, c, o) =
      let e = slot_of-put_slot fds i (record (slot_of fds i) { interest = known }) h in
      (
        (λ b. a b ∙ ap (side b) e ∙ side-interest b (slot_of fds i) known),
        c,
        λ k n. o k n ∙ slot_of-put_slot_off fds i k _ n,
      )
  known_first fds i writer want known (false, (fds', v)) h (a, o) =
      let e = slot_of-put_slot fds i (record (slot_of fds i) { interest = known }) h in
      (
        (λ b.
            a b
            ∙ ap (λ s. side b (with_side writer s (behind_first (side writer s)))) e
            ∙ tail-interest b writer (slot_of fds i) known),
        λ k n. o k n ∙ slot_of-put_slot_off fds i k _ n,
      )

  ep_register-AfterRegister :
      (fds : List EpFd) (i : ℕ) (writer idle : Bool) (want : Interest) (v : V)
      → i < length fds
      → AfterRegister fds i writer want (ep_register sys fds i writer idle want v)
  unfolding ep_register
  ep_register-AfterRegister fds i writer idle want v h =
      let old = (slot_of fds i).interest in
      let known = if idle then no_interest else old in
      elim (Bool-cases (not idle && not (is_zero old) && covers old want)) [
        | inl x ↦ rw x (
          (λ b. refl),
          and_right (not idle && not (is_zero old)) (covers old want) x,
          λ k n. refl,
        )
        | inr x ↦ rw x (
            known_first fds i writer want known _ h (
              first_try-AfterRegister (interest_set sys fds i known) i writer (is_zero known) want
                known _ (subst (λ n. i < n) (sym (length-put_slot fds i _)) h)))
      ]

  -- What an arm leaves.
  abbrev pub AfterArm : ℤ → ℕ → ℕ → List EpFd → Bool × State sys → Type 0
  AfterArm fd p events fds (true, (fds', v)) =
      (i : ℕ) × (fd ≡ pos i)
      × (side (is_writer events) (slot_of fds' i) ≡ p ∷ side (is_writer events) (slot_of fds i))
      × (side (not (is_writer events)) (slot_of fds' i)
          ≡ side (not (is_writer events)) (slot_of fds i))
      × (covers (slot_of fds' i).interest (ep_events_of events) ≡ true)
      × OthersKept i fds fds'
  AfterArm fd p events fds (false, (fds', v)) =
      (b : Bool) (k : ℕ) → side b (slot_of fds' k) ≡ side b (slot_of fds k)

  other_side :
      (w : Bool) (s : EpFd) (ps : List ℕ) → side (not w) (with_side w s ps) ≡ side (not w) s
  other_side true s ps = refl
  other_side false s ps = refl

  popped :
      (b w : Bool) (s : EpFd) (p : ℕ)
      → side b (
          with_side w
            (with_side w s (p ∷ side w s))
            (behind_first (side w (with_side w s (p ∷ side w s)))))
        ≡ side b s
  popped true true s p = refl
  popped true false s p = refl
  popped false true s p = refl
  popped false false s p = refl

  settled_at :
      (fd : ℤ) (p events i : ℕ) (fds0 fds : List EpFd) (x : Bool × State sys)
      → (fd ≡ pos i) × (i < length fds)
      → ((k : ℕ) → slot_of fds k ≡ slot_of fds0 k)
      → AfterRegister
          (put_slot fds i (
            with_side
              (is_writer events)
              (slot_of fds i)
              (p ∷ side (is_writer events) (slot_of fds i))))
          i
          (is_writer events)
          (ep_events_of events)
          x
      → AfterArm fd p events fds0 x
  settled_at fd p events i fds0 fds (true, (fds', v)) (e, h) same (a, c, o) =
      let w = is_writer events in
      let s = slot_of fds i in
      let here = slot_of-put_slot fds i (with_side w s (p ∷ side w s)) h in
      (
        i,
        e,
        a w
            ∙ ap (side w) here
            ∙ side-with_side w s (p ∷ side w s)
            ∙ ap (λ z. p ∷ side w z) (same i),
        a (not w)
            ∙ ap (side (not w)) here
            ∙ other_side w s (p ∷ side w s)
            ∙ ap (side (not w)) (same i),
        c,
        λ k n. o k n ∙ slot_of-put_slot_off fds i k _ n ∙ same k,
      )
  settled_at fd p events i fds0 fds (false, (fds', v)) (e, h) same (a, o) = λ b k.
      let w = is_writer events in
      let s = slot_of fds i in
      let here = slot_of-put_slot fds i (with_side w s (p ∷ side w s)) h in
      elim (Bool-cases (i == k)) [
        | inl x ↦
            let at : i ≡ k = (==_iff i k).0 x in
            subst (λ z. side b (slot_of fds' z) ≡ side b (slot_of fds0 z)) at
              (a b
                ∙ ap (λ z. side b (with_side w z (behind_first (side w z)))) here
                ∙ popped b w s p
                ∙ ap (side b) (same i))
        | inr x ↦
            let n : i ≢ k =
              λ z. absurd (true-ne-false (sym (subst (λ y. (i == y) ≡ true) z (eq_refl i)) ∙ x)) in
            ap (side b) (o k n ∙ slot_of-put_slot_off fds i k _ n ∙ same k)
      ]

  arm_at-AfterArm :
      (fd : ℤ) (p events : ℕ) (fds0 : List EpFd) (x : Option ℕ × State sys)
      → IsPlaced fd fds0 x.0 x.1.0
      → AfterArm fd p events fds0 (arm_at sys p events x)
  unfolding arm_at
  arm_at-AfterArm fd p events fds0 (none, (fds, v)) h = λ b k. ap (side b) (h.kept k)
  arm_at-AfterArm fd p events fds0 (some i, (fds, v)) h =
      let (e, l) = h.own i refl in
      settled_at fd p events i fds0 fds _ (e, l) h.kept
        (ep_register-AfterRegister _ i (is_writer events) _ (ep_events_of events) v
          (subst (λ n. i < n) (sym (length-put_slot fds i _)) l))

  -- After an arm that succeeds the op is the first on its side of its descriptor, the entry asks for all
  -- that the op waits for, and the rest of the table is as it was; after one that fails every side of every
  -- descriptor is as it was, whether the table could not grow or the kernel refused.
  pub arm-AfterArm :
      (r : Ring) (p : ℕ) (fds : List EpFd) (v : V)
      → AfterArm (r.ops p).sqe.fd p (r.ops p).wait_events fds (arm sys r p (fds, v))
  unfolding arm
  arm-AfterArm r p fds v =
      arm_at-AfterArm (r.ops p).sqe.fd p (r.ops p).wait_events fds
        (ep_slot sys (r.ops p).sqe.fd (fds, v)) (ep_slot-IsPlaced sys (r.ops p).sqe.fd fds v)
