-- ===== src/Posix/Cancel/Counted.antt =====
-- What `cancel_matching` answers to IORING_ASYNC_CANCEL_ALL, and what it leaves.
use slipstream_io.Base.{
  ℕ, zero, suc, ◌+◌, ◌≤◌, ◌<◌, ◌≡◌, refl, sym, ap, ◌∙◌, arith, ℤ, pos, Bool, true, false, List, [],
  ◌∷◌, length, get_elem?, count, Option, none, some, Bool-cases, Option-cases, inl, inr,
}
use slipstream_io.Ring.{Ring, EngOp}
use slipstream_io.Posix.{unpark}
use slipstream_io.Posix.Cancel.{
  cancel_names, cancel_target, is_all, Swept, sweep_queue, sweep_waiting, swept_waiting,
  is_followed, cancel_matching,
}
use slipstream_io.Posix.Cancel.Lists.{
  cancel_target-Owned, queue-cancel_target, waiting-cancel_target,
}
use slipstream_io.Posix.Cancel.All.{
  unnamed, Names, names-sqe, cancel_target-Names, wq-cancel_target,
}
use slipstream_io.Posix.Owned.{Owned}
use slipstream_io.Posix.Parking.{count-get_elem?, get_elem?-lt, get_elem?-none}
use slipstream_io.Posix.Unpark.{
  unpark-Owned, length-unpark, queue-unpark, wq-unpark, tally-unpark, count-unpark, sqe-unpark,
  unpark-below,
}
use slipstream_io.Posix.Places.{tally}
use slipstream_io.Posix.Cancel.Both.{
  IsClear, tally-IsClear, one_more-IsClear, sweep_queue-BothSwept,
}

module _ {W : Type 0} (c : EngOp) (f : ℕ → Bool) (arm : Ring → ℕ → W → Bool × W)
    (disarm : Ring → ℕ → W → W) where
  -- What the sweep of the parked set leaves.
  record IsCleared (held : List ℕ) (n : ℕ) (r : Ring) (s : Swept) : Type 0 where
    owned : Owned held s.ring
    names : Names c f s.ring
    none_left : tally f s.ring.waiting ≡ 0
    counted : s.count ≡ n + tally f r.waiting
    goes_on : s.ended ≡ false
    queue : s.ring.queue ≡ r.queue
    wq : s.ring.wq ≡ r.wq

  abbrev ClearedIf : List ℕ → ℕ → Ring → Option (Swept × W) → Type 0
  ClearedIf held n r none = ⊥
  ClearedIf held n r (some (s, w)) = IsCleared held n r s

  unpark-Names :
      (held : List ℕ) (r : Ring) (t i : ℕ) (w : W)
      → get_elem? r.waiting i ≡ some t
      → Owned held r
      → Names c f r
      → Names c f (unpark arm disarm r t w).0
  unpark-Names held r t i w g h k q a =
      let u = (unpark arm disarm r t w).0 in
      names-sqe c f (u.ops q) (r.ops q) (sqe-unpark arm disarm r t q w)
      ∙ k q (
          omega (
            arith,
            a,
            ap (count q) (queue-unpark arm disarm r t w),
            ap (count q) (wq-unpark arm disarm r t w),
            count-unpark arm disarm r t w q (count-get_elem? r.waiting i t g) h.places,
          ))

  -- The sweep goes on behind an op that was cancelled.
  after_one :
      (held : List ℕ) (n : ℕ) (r : Ring) (t i : ℕ) (w : W) (o : Option (Swept × W))
      → get_elem? r.waiting i ≡ some t
      → f t ≡ true
      → Owned held r
      → ClearedIf held (n + 1) (cancel_target (unpark arm disarm r t w).0 t) o
      → ClearedIf held n r o
  after_one held n r t i w none g x h d = d
  after_one held n r t i w (some (s, v)) g x h d =
      let u = (unpark arm disarm r t w).0 in
      record {
        owned = d.owned;
        names = d.names;
        none_left = d.none_left;
        counted = omega (
          arith,
          d.counted,
          ap (tally f) (waiting-cancel_target u t),
          tally-unpark arm disarm f r t i w g h.places,
          one x,
        );
        goes_on = d.goes_on;
        queue = d.queue ∙ queue-cancel_target u t ∙ queue-unpark arm disarm r t w;
        wq = d.wq ∙ wq-cancel_target u t ∙ wq-unpark arm disarm r t w;
      }
    where
      one : f t ≡ true → tally f (t ∷ []) ≡ 1
      one y = rw y refl

  sweep_waiting-ClearedIf :
      (held : List ℕ) (fuel i n : ℕ) (r : Ring) (w : W)
      → is_all c ≡ true
      → length r.waiting < fuel + i
      → i ≤ length r.waiting
      → IsClear f i r.waiting
      → Owned held r
      → Names c f r
      → ClearedIf held n r (sweep_waiting c arm disarm fuel i n r w)
  unfolding sweep_waiting
  sweep_waiting-ClearedIf held zero i n r w y a b z h k = absurd (omega (arith, a, b))
  sweep_waiting-ClearedIf held (suc fuel) i n r w y a b z h k =
      elim (Option-cases (get_elem? r.waiting i)) [
        | inl g ↦
            let all_clear : tally f r.waiting ≡ 0 =
              tally-IsClear f r.waiting
                (λ j q l e. z j q (omega (arith, l, get_elem?-none r.waiting i g)) e) in
            rw (g, sweep_waiting)
              (record {
                owned = h;
                names = k;
                none_left = all_clear;
                counted = omega (arith, all_clear);
                goes_on = refl;
                queue = refl;
                wq = refl;
              })
        | inr (t, g) ↦
            let parked = count-get_elem? r.waiting i t g in
            let says = k t (omega (arith, parked)) in
            elim (Bool-cases (f t)) [
              | inr x ↦
                  rw (g, says ∙ x, sweep_waiting)
                    (sweep_waiting-ClearedIf held fuel (i + 1) n r w y (omega (arith, a))
                      (omega (arith, get_elem?-lt r.waiting i t g))
                      (one_more-IsClear f r.waiting i t g x z) h k)
              | inl x ↦
                  let u = (unpark arm disarm r t w).0 in
                  let fewer = length-unpark arm disarm r t i w g h.places in
                  let same = waiting-cancel_target u t in
                  let o = unpark-Owned arm disarm held r t w parked h in
                  rw (g, says ∙ x, y, sweep_waiting)
                    (after_one held n r t i w _ g x h (
                      sweep_waiting-ClearedIf held fuel i (n + 1) (cancel_target u t)
                        (unpark arm disarm r t w).1 y (omega (arith, a, fewer, ap length same))
                        (omega (arith, fewer, ap length same, get_elem?-lt r.waiting i t g))
                        (λ j q l e. z j q l (
                          unpark-below arm disarm r t i j q w g h.places l
                            (ap (λ xs. get_elem? xs j) (sym same) ∙ e)))
                        (cancel_target-Owned held u t o)
                        (cancel_target-Names c f held u t o (unpark-Names held r t i w g h k))))
            ]
      ]

-- What a cancel of all that it names leaves in a ring, and what it answers.
pub record AllCancelled (f : ℕ → Bool) (held : List ℕ) (r : Ring) (res : ℤ) (s : Ring)
    : Type 0 where
  pub owned : Owned held s
  pub queue : s.queue ≡ unnamed f r.queue
  pub wq : s.wq ≡ unnamed f r.wq
  pub none_parked : tally f s.waiting ≡ 0
  pub answer :
      0 < tally f r.waiting + tally f r.queue + tally f r.wq
      → res ≡ pos (tally f r.waiting + tally f r.queue + tally f r.wq)

module _ {W : Type 0} (c : EngOp) (arm : Ring → ℕ → W → Bool × W) (disarm : Ring → ℕ → W → W) where
  swept-AllCancelled :
      (f : ℕ → Bool) (held : List ℕ) (r : Ring) (o : Option (Swept × W))
      → is_all c ≡ true
      → ClearedIf c f arm disarm held 0 r o
      → (y : ℤ × Ring × W) × (swept_waiting c arm disarm o ≡ some y) × AllCancelled f held r y.0 y.1
  unfolding swept_waiting
  swept-AllCancelled f held r none a d = absurd d
  swept-AllCancelled f held r (some (s, w)) a d =
      let x = sweep_queue c s in
      let b = sweep_queue-BothSwept c f held s a d.owned d.names in
      let total : s.count + tally f s.ring.queue + tally f s.ring.wq
          ≡ tally f r.waiting + tally f r.queue + tally f r.wq =
        omega (arith, d.counted, ap (tally f) d.queue, ap (tally f) d.wq) in
      (
        (x.0, x.1, w),
        rw d.goes_on refl,
        record {
          owned = b.owned;
          queue = b.queue ∙ ap (unnamed f) d.queue;
          wq = b.wq ∙ ap (unnamed f) d.wq;
          none_parked = ap (tally f) b.waiting ∙ d.none_left;
          answer = λ l. b.answer (omega (arith, l, total)) ∙ ap pos total;
        },
      )

  -- Where no live worker takes from a list that holds an op that it names, every op has one holder and each
  -- parked op knows its place, a cancel with IORING_ASYNC_CANCEL_ALL ends; the queue and the worker's list are then what is left of them
  -- without the ops that it names, in their order, no parked op is named, and the answer is the count of all
  -- that were, if there was one. Each op of the pool has one holder again.
  pub cancel_matching-AllCancelled :
      (held : List ℕ) (r : Ring) (w : W)
      → is_all c ≡ true
      → is_followed c r ≡ true
      → Owned held r
      → (y : ℤ × Ring × W) × (cancel_matching c arm disarm r w ≡ some y)
        × AllCancelled (λ q. cancel_names c (r.ops q)) held r y.0 y.1
  unfolding cancel_matching
  cancel_matching-AllCancelled held r w a g h =
      let f : ℕ → Bool = λ q. cancel_names c (r.ops q) in
      rw g (
        swept-AllCancelled f held r _ a (
          sweep_waiting-ClearedIf c f arm disarm held (suc (length r.waiting)) 0 0 r w a
            (omega arith) (omega arith) (λ k q l e. absurd (omega (arith, l))) h (λ q l. refl)))
