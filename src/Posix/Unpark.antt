-- ===== src/Posix/Unpark.antt =====
-- Parking and unparking hand an op over: from the code to the parked set, and back.
use slipstream_io.Base.{
  if_both, ◌==◌, ℕ, suc, ◌+◌, ◌-◌, ◌<◌, ◌≡◌, refl, ap, ◌∙◌, arith, Bool, true, false, not, ◌||◌,
  List, [], ◌∷◌, ◌++◌, length, get_elem?, set, take, count, count-append, Option, none, some, leb,
  eq_refl, Bool-cases, inl, inr, length-set,
}
use slipstream_io.Ring.{Ring}
use slipstream_io.Completion.Owners.{Holds}
use slipstream_io.Posix.{waits_at, swap_last, park_armed, park, unpark}
use slipstream_io.Posix.Parking.{
  PlacesAreKnown, parked_test, park_armed-PlacesAreKnown, unpark-PlacesAreKnown, get_elem?-set,
  get_elem?-take,
}
use slipstream_io.Posix.Owned.{sqe-update, Owned, Kept, Kept-refl}
use slipstream_io.Posix.Places.{
  place_of, tally, count-tally, length-take, tally-swap, count-swap, length_of, last_of,
}

swap_last-Holds :
    (r : Ring) (held : List ℕ) (m i p l : ℕ)
    → length r.waiting ≡ suc m
    → i < suc m
    → get_elem? r.waiting i ≡ some p
    → get_elem? r.waiting m ≡ some l
    → Holds held r
    → Holds (p ∷ held) (swap_last r i (some l))
unfolding swap_last
swap_last-Holds r held m i p l e b g last h x =
    let short : take (length r.waiting - 1) r.waiting ≡ take m r.waiting =
      ap (λ z. take z r.waiting) (omega (arith, e)) in
    omega
      (arith, h x, count-swap m r.waiting i p l x e b g last, ap (λ ys. count x (set ys i l)) short)

module _ {W : Type 0} (arm : Ring → ℕ → W → Bool × W) (disarm : Ring → ℕ → W → W) where
  -- An unpark gives a parked op into the code's hand.
  pub unpark-Owned :
      (held : List ℕ) (r : Ring) (p : ℕ) (w : W)
      → 0 < count p r.waiting
      → Owned held r
      → Owned (p ∷ held) (unpark arm disarm r p w).0
  unfolding unpark
  unpark-Owned held r p w n h =
      let (k, g) = place_of r.waiting p n in
      let slot = h.places k p g in
      let (m, e, b) = length_of r.waiting k p g in
      let (l, last) = last_of m r.waiting e in
      let at_last : get_elem? r.waiting (length r.waiting - 1) ≡ some l =
        ap (get_elem? r.waiting) (omega (arith, e)) ∙ last in
      record {
        holds =
            rw (parked_test r p (r.ops p).wait_slot k slot g, at_last)
              (swap_last-Holds r held m (r.ops p).wait_slot p l e (omega (arith, slot, b))
                (ap (get_elem? r.waiting) slot ∙ g) last h.holds);
        places = unpark-PlacesAreKnown arm disarm r p w h.places;
      }

  -- The set has one place fewer after it.
  pub length-unpark :
      (r : Ring) (p k : ℕ) (w : W)
      → get_elem? r.waiting k ≡ some p
      → PlacesAreKnown r
      → suc (length (unpark arm disarm r p w).0.waiting) ≡ length r.waiting
  unfolding unpark swap_last
  length-unpark r p k w g h =
      let slot = h k p g in
      let (m, e, b) = length_of r.waiting k p g in
      let (l, last) = last_of m r.waiting e in
      let at_last : get_elem? r.waiting (length r.waiting - 1) ≡ some l =
        ap (get_elem? r.waiting) (omega (arith, e)) ∙ last in
      rw (parked_test r p (r.ops p).wait_slot k slot g, at_last)
        (omega (
          arith,
          e,
          length-set (take (length r.waiting - 1) r.waiting) (r.ops p).wait_slot l,
          length-take (length r.waiting - 1) r.waiting (omega (arith, e)),
        ))

  -- The op left the set, and no other did.
  pub tally-unpark :
      (f : ℕ → Bool) (r : Ring) (p k : ℕ) (w : W)
      → get_elem? r.waiting k ≡ some p
      → PlacesAreKnown r
      → tally f (unpark arm disarm r p w).0.waiting + tally f (p ∷ []) ≡ tally f r.waiting
  unfolding unpark swap_last
  tally-unpark f r p k w g h =
      let slot = h k p g in
      let (m, e, b) = length_of r.waiting k p g in
      let (l, last) = last_of m r.waiting e in
      let at_last : get_elem? r.waiting (length r.waiting - 1) ≡ some l =
        ap (get_elem? r.waiting) (omega (arith, e)) ∙ last in
      let short : take (length r.waiting - 1) r.waiting ≡ take m r.waiting =
        ap (λ z. take z r.waiting) (omega (arith, e)) in
      rw (parked_test r p (r.ops p).wait_slot k slot g, at_last)
        (omega (
          arith,
          tally-swap f m r.waiting (r.ops p).wait_slot p l e (omega (arith, slot, b))
              (ap (get_elem? r.waiting) slot ∙ g) last,
          ap (λ ys. tally f (set ys (r.ops p).wait_slot l)) short,
        ))

  pub count-unpark :
      (r : Ring) (p : ℕ) (w : W) (x : ℕ)
      → 0 < count p r.waiting
      → PlacesAreKnown r
      → count x (unpark arm disarm r p w).0.waiting + count x (p ∷ []) ≡ count x r.waiting
  count-unpark r p w x n h =
      let (k, g) = place_of r.waiting p n in
      omega (
        arith,
        tally-unpark (λ q. x == q) r p k w g h,
        count-tally x (unpark arm disarm r p w).0.waiting,
        count-tally x r.waiting,
      )

  -- An unpark changes no submission.
  pub sqe-unpark :
      (r : Ring) (p q : ℕ) (w : W) → ((unpark arm disarm r p w).0.ops q).sqe ≡ (r.ops q).sqe
  unfolding unpark swap_last
  sqe-unpark r p q w =
      if_both (λ (z : Ring × W). (z.0.ops q).sqe ≡ (r.ops q).sqe)
        (leb (length r.waiting) (r.ops p).wait_slot || not (waits_at r (r.ops p).wait_slot p)) _ _
        refl (swapped (get_elem? r.waiting (length r.waiting - 1)))
    where
      swapped : (o : Option ℕ) → ((swap_last r (r.ops p).wait_slot o).ops q).sqe ≡ (r.ops q).sqe
      swapped none = refl
      swapped (some l) = sqe-update r.ops l _ refl q

  -- Nor does a park.
  pub sqe-park :
      (r : Ring) (p q : ℕ) (w : W) → ((park arm disarm r p w).1.ops q).sqe ≡ (r.ops q).sqe
  unfolding park park_armed
  sqe-park r p q w =
      if_both (λ (z : Bool × Ring × W). (z.1.ops q).sqe ≡ (r.ops q).sqe)
        (leb r.op_pool_n (length r.waiting)) _ _ refl (armed (arm r p w))
    where
      armed : (x : Bool × W) → ((park_armed arm disarm r p x).1.ops q).sqe ≡ (r.ops q).sqe
      armed (false, v) = refl
      armed (true, v) = sqe-update r.ops p _ refl q

  queue-swap_last : (r : Ring) (i : ℕ) (o : Option ℕ) → (swap_last r i o).queue ≡ r.queue
  unfolding swap_last
  queue-swap_last r i none = refl
  queue-swap_last r i (some l) = refl

  pub queue-unpark : (r : Ring) (p : ℕ) (w : W) → (unpark arm disarm r p w).0.queue ≡ r.queue
  unfolding unpark
  queue-unpark r p w =
      elim (Bool-cases
        (leb (length r.waiting) (r.ops p).wait_slot || not (waits_at r (r.ops p).wait_slot p))) [
          | inl x ↦ rw x
          | inr x ↦ rw x (queue-swap_last r (r.ops p).wait_slot _)
        ]

  -- The other places are as they were, but the last.
  pub unpark-below :
      (r : Ring) (p i k q : ℕ) (w : W)
      → get_elem? r.waiting i ≡ some p
      → PlacesAreKnown r
      → k < i
      → get_elem? (unpark arm disarm r p w).0.waiting k ≡ some q
      → get_elem? r.waiting k ≡ some q
  unfolding unpark swap_last
  unpark-below r p i k q w g h b =
      let slot = h i p g in
      rw (parked_test r p (r.ops p).wait_slot i slot g)
        (swapped (get_elem? r.waiting (length r.waiting - 1)) slot)
    where
      swapped :
          (o : Option ℕ)
          → (r.ops p).wait_slot ≡ i
          → get_elem? (swap_last r (r.ops p).wait_slot o).waiting k ≡ some q
          → get_elem? r.waiting k ≡ some q
      swapped none slot e = e
      swapped (some l) slot e =
          elim (get_elem?-set (take (length r.waiting - 1) r.waiting) (r.ops p).wait_slot l k q e) [
            | inl (x, y) ↦ absurd (omega (arith, b, slot, x))
            | inr (x, y) ↦ (get_elem?-take (length r.waiting - 1) r.waiting k q y).1
          ]

  wq-swap_last : (r : Ring) (i : ℕ) (o : Option ℕ) → (swap_last r i o).wq ≡ r.wq
  unfolding swap_last
  wq-swap_last r i none = refl
  wq-swap_last r i (some l) = refl

  pub wq-unpark : (r : Ring) (p : ℕ) (w : W) → (unpark arm disarm r p w).0.wq ≡ r.wq
  unfolding unpark
  wq-unpark r p w =
      if_both (λ (z : Ring × W). z.0.wq ≡ r.wq)
        (leb (length r.waiting) (r.ops p).wait_slot || not (waits_at r (r.ops p).wait_slot p)) _ _
        refl (wq-swap_last r (r.ops p).wait_slot _)

  -- After a park the parked set has the op, or the code has it still.
  abbrev pub AfterPark : ℕ → List ℕ → Ring → Bool × Ring × W → Type 0
  AfterPark p held r (true, s, w) =
      Owned held s × (s.queue ≡ r.queue) × (s.waiting ≡ r.waiting ++ (p ∷ []))
  AfterPark p held r (false, s, w) = Kept (p ∷ held) r s

  park_armed-AfterPark :
      (held : List ℕ) (r : Ring) (p : ℕ) (x : Bool × W)
      → PlacesAreKnown (park_armed arm disarm r p x).1
      → Owned (p ∷ held) r
      → AfterPark p held r (park_armed arm disarm r p x)
  unfolding park_armed
  park_armed-AfterPark held r p (false, w) k h = Kept-refl (p ∷ held) r h
  park_armed-AfterPark held r p (true, w) k h = (
    record { holds = λ x. grind (arith, h.holds x, count-append x r.waiting (p ∷ [])); places = k },
    refl,
    refl,
  )

  -- The place that the op is given is behind all others.
  pub park-AfterPark :
      (held : List ℕ) (r : Ring) (p : ℕ) (w : W)
      → Owned (p ∷ held) r
      → AfterPark p held r (park arm disarm r p w)
  unfolding park
  park-AfterPark held r p w h = elim (Bool-cases (leb r.op_pool_n (length r.waiting))) [
    | inl x ↦ rw x (Kept-refl (p ∷ held) r h)
    | inr x ↦
        let self : 0 < count p (p ∷ held) = rw (eq_refl p) (omega arith) in
        let k =
          park_armed-PlacesAreKnown arm disarm r p (arm r p w) (grind (arith, h.holds p, self))
            h.places in
        rw x (park_armed-AfterPark held r p (arm r p w) k h)
  ]
