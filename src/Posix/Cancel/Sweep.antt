-- ===== src/Posix/Cancel/Sweep.antt =====
-- `cancel_matching`: who holds the ops, and how long the queue is, after it cancelled.
use slipstream_io.Base.{
  if_both, ℕ, zero, suc, ◌+◌, ◌≤◌, ◌<◌, ◌≡◌, refl, sym, ap, ◌∙◌, arith, ℤ, pos, neg, Bool, true,
  List, [], ◌∷◌, ◌++◌, length, get_elem?, count, count-append, append_assoc, length-append, Option,
  none, some, Bool-cases, Option-cases, inl, inr,
}
use slipstream_io.Abi.{ecanceled}
use slipstream_io.Ring.{Ring, EngOp}
use slipstream_io.Posix.{unpark}
use slipstream_io.Posix.Cancel.{
  cancel_names, cancel_settled, cancel_target, is_all, Swept, Listed, of_queue, of_wq, sweep,
  sweep_wq, sweep_queue, sweep_waiting, swept_waiting, is_followed, cancel_matching,
}
use slipstream_io.Posix.Owned.{Owned}
use slipstream_io.Posix.Unpark.{unpark-Owned, length-unpark, queue-unpark}
use slipstream_io.Posix.Parking.{count-get_elem?, get_elem?-lt}
use slipstream_io.Posix.Cancel.Lists.{
  IsListed, queue-IsListed, wq-IsListed, cancel_target-Owned, queue-cancel_target,
  waiting-cancel_target,
}

-- A ring from which ops were cancelled, and to which none were submitted.
pub record Cut (held : List ℕ) (r s : Ring) : Type 0 where
  pub owned : Owned held s
  pub shorter : length s.queue ≤ length r.queue

Cut-refl : (held : List ℕ) (r : Ring) → Owned held r → Cut held r r
Cut-refl held r h = record { owned = h; shorter = omega arith }

Cut-trans :
    (held : List ℕ) (r s t : Ring) → length s.queue ≤ length r.queue → Cut held s t → Cut held r t
Cut-trans held r s t a b = record { owned = b.owned; shorter = omega (arith, a, b.shorter) }

module _ (c : EngOp) (l : Listed) (get : Ring → List ℕ) (is : IsListed l get) where
  -- The op taken out of the list is in the code's hand.
  pub put-Owned :
      (held kept rest : List ℕ) (t : ℕ) (r : Ring)
      → get r ≡ kept ++ (t ∷ rest)
      → Owned held r
      → Owned (t ∷ held) (l.put r (kept ++ rest))
  put-Owned held kept rest t r e h = record {
    holds = λ p. rw (is.op_pool_n r (kept ++ rest)) (
        omega (
          arith,
          h.holds p,
          is.owned r (kept ++ rest) p,
          ap (count p) e,
          count-append p kept (t ∷ rest),
          count-append p kept rest,
        ));
    places = λ k q. rw (is.waiting r (kept ++ rest), is.ops r (kept ++ rest)) (h.places k q);
  }

  put-shorter :
      (kept rest : List ℕ) (t : ℕ) (r : Ring)
      → get r ≡ kept ++ (t ∷ rest)
      → length (l.put r (kept ++ rest)).queue ≤ length r.queue
  put-shorter kept rest t r e =
      is.shorter r (kept ++ rest)
        (omega (arith, ap length e, length-append kept (t ∷ rest), length-append kept rest))

  -- One op taken out of the list and cancelled.
  pub cancel_target-Cut :
      (held kept rest : List ℕ) (t : ℕ) (r : Ring)
      → get r ≡ kept ++ (t ∷ rest)
      → Owned held r
      → Cut held r (cancel_target (l.put r (kept ++ rest)) t)
  cancel_target-Cut held kept rest t r e h = record {
    owned = cancel_target-Owned held _ t (put-Owned held kept rest t r e h);
    shorter = omega (
      arith,
      put-shorter kept rest t r e,
      ap length (queue-cancel_target (l.put r (kept ++ rest)) t),
    );
  }

  pub get-cut :
      (kept rest : List ℕ) (t : ℕ) (r : Ring)
      → get (cancel_target (l.put r (kept ++ rest)) t) ≡ kept ++ rest
  unfolding cancel_target
  get-cut kept rest t r =
      is.posted (cancel_settled (l.put r (kept ++ rest)) t) t (neg ecanceled)
      ∙ is.settled (l.put r (kept ++ rest)) t
      ∙ is.got r (kept ++ rest)

  sweep-Cut :
      (held kept xs : List ℕ) (n : ℕ) (r : Ring)
      → get r ≡ kept ++ xs
      → Owned held r
      → Cut held r (sweep c l kept xs n r).ring
  unfolding sweep
  sweep-Cut held kept [] n r e h = Cut-refl held r h
  sweep-Cut held kept (t ∷ rest) n r e h =
      let cut = cancel_target-Cut held kept rest t r e h in
      elim (Bool-cases (cancel_names c (r.ops t))) [
        | inr x ↦
            rw (x, sweep)
              (sweep-Cut held (kept ++ (t ∷ [])) rest n r
                (e ∙ sym (append_assoc kept (t ∷ []) rest)) h)
        | inl x ↦ elim (Bool-cases (is_all c)) [
          | inr y ↦ rw (x, y, sweep) cut
          | inl y ↦
              rw (x, y, sweep)
                (Cut-trans held r _ _ cut.shorter
                  (sweep-Cut held kept rest (n + 1) _ (get-cut kept rest t r) cut.owned))
        ]
      ]

module _ (c : EngOp) (held : List ℕ) where
  sweep_wq-Cut : (s : Swept) → Owned held s.ring → Cut held s.ring (sweep_wq c s).1
  unfolding sweep_wq
  sweep_wq-Cut s h =
      let k = sweep-Cut c of_wq (λ r. r.wq) wq-IsListed held [] s.ring.wq s.count s.ring refl h in
      if_both (λ (z : ℤ × Ring). Cut held s.ring z.1) _ _ _ k k

  sweep_queue-Cut : (s : Swept) → Owned held s.ring → Cut held s.ring (sweep_queue c s).1
  unfolding sweep_queue
  sweep_queue-Cut s h =
      let t = sweep c of_queue [] s.ring.queue s.count s.ring in
      let k =
        sweep-Cut c of_queue (λ r. r.queue) queue-IsListed held [] s.ring.queue s.count s.ring refl
          h in
      if_both (λ (z : ℤ × Ring). Cut held s.ring z.1) t.ended _ _ k
        (Cut-trans held s.ring t.ring _ k.shorter (sweep_wq-Cut t k.owned))

-- The sweep of the parked set is over after one round for each place, and one more.
module _ {W : Type 0} (c : EngOp) (arm : Ring → ℕ → W → Bool × W) (disarm : Ring → ℕ → W → W) where
  abbrev Done : List ℕ → Ring → Option (Swept × W) → Type 0
  Done held r none = ⊥
  Done held r (some (s, w)) = Cut held r s.ring

  Done-trans :
      (held : List ℕ) (r s : Ring) (x : Option (Swept × W))
      → length s.queue ≤ length r.queue
      → Done held s x
      → Done held r x
  Done-trans held r s none a b = b
  Done-trans held r s (some (t, w)) a b = Cut-trans held r s t.ring a b

  unparked-Cut :
      (held : List ℕ) (r : Ring) (t i : ℕ) (w : W)
      → get_elem? r.waiting i ≡ some t
      → Owned held r
      → Cut held r (cancel_target (unpark arm disarm r t w).0 t)
  unparked-Cut held r t i w g h =
      let s = (unpark arm disarm r t w).0 in
      record {
        owned =
            cancel_target-Owned held s t
              (unpark-Owned arm disarm held r t w (count-get_elem? r.waiting i t g) h);
        shorter =
            omega (
              arith,
              ap length (queue-cancel_target s t),
              ap length (queue-unpark arm disarm r t w),
            );
      }

  sweep_waiting-Done :
      (held : List ℕ) (f i n : ℕ) (r : Ring) (w : W)
      → length r.waiting < f + i
      → i ≤ length r.waiting
      → Owned held r
      → Done held r (sweep_waiting c arm disarm f i n r w)
  unfolding sweep_waiting
  sweep_waiting-Done held zero i n r w a b h = absurd (omega (arith, a, b))
  sweep_waiting-Done held (suc f) i n r w a b h = elim (Option-cases (get_elem? r.waiting i)) [
    | inl g ↦ rw (g, sweep_waiting) (Cut-refl held r h)
    | inr (t, g) ↦
        let k = unparked-Cut held r t i w g h in
        let s = (unpark arm disarm r t w).0 in
        elim (Bool-cases (cancel_names c (r.ops t))) [
          | inr x ↦
              rw (g, x, sweep_waiting)
                (sweep_waiting-Done held f (i + 1) n r w (omega (arith, a))
                  (omega (arith, get_elem?-lt r.waiting i t g)) h)
          | inl x ↦ elim (Bool-cases (is_all c)) [
            | inr y ↦ rw (g, x, y, sweep_waiting) k
            | inl y ↦
                let fewer = length-unpark arm disarm r t i w g h.places in
                let same = ap length (waiting-cancel_target s t) in
                rw (g, x, y, sweep_waiting)
                  (Done-trans held r (cancel_target s t) _ k.shorter (
                    sweep_waiting-Done held f i (n + 1) (cancel_target s t)
                      (unpark arm disarm r t w).1 (omega (arith, a, fewer, same))
                      (omega (arith, fewer, same, get_elem?-lt r.waiting i t g)) k.owned))
          ]
        ]
  ]

  swept_waiting-Done :
      (held : List ℕ) (r : Ring) (x : Option (Swept × W))
      → Done held r x
      → (y : ℤ × Ring × W) × (swept_waiting c arm disarm x ≡ some y) × Cut held r y.1
  unfolding swept_waiting
  swept_waiting-Done held r none h = absurd h
  swept_waiting-Done held r (some (s, w)) h = elim (Bool-cases s.ended) [
    | inl e ↦ ((pos 0, s.ring, w), rw e refl, h)
    | inr e ↦
        let (res, t) = sweep_queue c s in
        (
          (res, t, w),
          rw e refl,
          Cut-trans held r s.ring t h.shorter (sweep_queue-Cut c held s h.owned),
        )
  ]

  -- Where its walk over the worker's list keeps the lock, cancelling ends with an answer; each op of the
  -- pool has one holder again, each parked one knows its place, and no op was submitted.
  pub cancel_matching-Cut :
      (held : List ℕ) (r : Ring) (w : W)
      → is_followed c r ≡ true
      → Owned held r
      → (y : ℤ × Ring × W) × (cancel_matching c arm disarm r w ≡ some y) × Cut held r y.1
  unfolding cancel_matching
  cancel_matching-Cut held r w k h = rw k (
      swept_waiting-Done held r _
        (sweep_waiting-Done held (suc (length r.waiting)) 0 0 r w (omega arith) (omega arith) h))
