-- ===== src/Posix/Cancel/Both.antt =====
-- The sweeps of the queue and of the worker's list for IORING_ASYNC_CANCEL_ALL.
use mathlib.Core.Path.{subst}
use mathlib.Core.Option.{some-injective}
use slipstream_io.Base.{
  pick_false, ℕ, suc, ◌+◌, ◌<◌, ◌≡◌, refl, sym, ap, ◌∙◌, arith, ℤ, pos, Bool, true, false, List, [],
  ◌∷◌, ◌++◌, length, get_elem?, some, Bool-cases, inl, inr, lt→ltb, dec_lt,
}
use slipstream_io.Ring.{Ring, EngOp}
use slipstream_io.Posix.Cancel.{
  cancel_names, cancel_target, is_all, Swept, Listed, of_queue, of_wq, sweep, cancel_answer,
  sweep_wq, sweep_queue,
}
use slipstream_io.Posix.Cancel.Lists.{
  queue-IsListed, wq-IsListed, queue-cancel_target, waiting-cancel_target,
}
use slipstream_io.Posix.Cancel.All.{unnamed, Names, wq-cancel_target, sweep-IsSwept}
use slipstream_io.Posix.Owned.{Owned}
use slipstream_io.Posix.Places.{tally}

-- None of the first `i` ops of a list is named.
abbrev pub IsClear : (ℕ → Bool) → ℕ → List ℕ → Type 0
IsClear f i xs = (k q : ℕ) → k < i → get_elem? xs k ≡ some q → f q ≡ false

pub tally-IsClear : (f : ℕ → Bool) (xs : List ℕ) → IsClear f (length xs) xs → tally f xs ≡ 0
tally-IsClear f [] h = refl
tally-IsClear f (x ∷ xs) h =
    rw (h 0 x (omega arith) refl)
      (omega (arith, tally-IsClear f xs (λ k q b e. h (suc k) q (omega (arith, b)) e)))

pub one_more-IsClear :
    (f : ℕ → Bool) (xs : List ℕ) (i t : ℕ)
    → get_elem? xs i ≡ some t
    → f t ≡ false
    → IsClear f i xs
    → IsClear f (i + 1) xs
one_more-IsClear f xs i t g x z j q l e = elim (dec_lt j i) [
  | yes b ↦ z j q b e
  | no b ↦
      let here : j ≡ i = omega (arith, l) in
      let same : t ≡ q = some-injective _ _ (sym g ∙ ap (get_elem? xs) (sym here) ∙ e) in
      subst (λ y. f y ≡ false) same x
]

-- A list that a sweep does not put and a completion does not touch is left alone.
pub sweep-keeps :
    (c : EngOp) (l : Listed) (g : Ring → List ℕ)
    → ((r : Ring) (ps : List ℕ) → g (l.put r ps) ≡ g r)
    → ((r : Ring) (t : ℕ) → g (cancel_target r t) ≡ g r)
    → (kept xs : List ℕ) (n : ℕ) (r : Ring) → g (sweep c l kept xs n r).ring ≡ g r
unfolding sweep
sweep-keeps c l g a b kept [] n r = refl
sweep-keeps c l g a b kept (t ∷ rest) n r = elim (Bool-cases (cancel_names c (r.ops t))) [
  | inr x ↦ rw (x, sweep) (sweep-keeps c l g a b (kept ++ (t ∷ [])) rest n r)
  | inl x ↦ elim (Bool-cases (is_all c)) [
    | inr y ↦ rw (x, y, sweep) (b (l.put r (kept ++ rest)) t ∙ a r (kept ++ rest))
    | inl y ↦
        rw (x, y, sweep)
          (sweep-keeps c l g a b kept rest (n + 1) (cancel_target (l.put r (kept ++ rest)) t)
            ∙ b (l.put r (kept ++ rest)) t
            ∙ a r (kept ++ rest))
  ]
]

pub cancel_answer-all :
    (c : EngOp) (s : Swept) → is_all c ≡ true → 0 < s.count → cancel_answer c s ≡ pos s.count
unfolding cancel_answer
cancel_answer-all c s y h = rw (lt→ltb 0 s.count h, y) refl

-- The sweeps of the queue and of the worker's list, in this order.
pub record BothSwept (c : EngOp) (f : ℕ → Bool) (held : List ℕ) (s : Swept) (x : ℤ × Ring)
    : Type 0 where
  pub owned : Owned held x.1
  pub queue : x.1.queue ≡ unnamed f s.ring.queue
  pub wq : x.1.wq ≡ unnamed f s.ring.wq
  pub waiting : x.1.waiting ≡ s.ring.waiting
  pub answer :
      0 < s.count + tally f s.ring.queue + tally f s.ring.wq
      → x.0 ≡ pos (s.count + tally f s.ring.queue + tally f s.ring.wq)

pub sweep_queue-BothSwept :
    (c : EngOp) (f : ℕ → Bool) (held : List ℕ) (s : Swept)
    → is_all c ≡ true
    → Owned held s.ring
    → Names c f s.ring
    → BothSwept c f held s (sweep_queue c s)
unfolding sweep_queue sweep_wq
sweep_queue-BothSwept c f held s y h k =
    let t = sweep c of_queue [] s.ring.queue s.count s.ring in
    let d =
      sweep-IsSwept c f of_queue (λ r. r.queue) queue-IsListed held [] s.ring.queue s.count s.ring y
        refl h k in
    let u = sweep c of_wq [] t.ring.wq t.count t.ring in
    let e =
      sweep-IsSwept c f of_wq (λ r. r.wq) wq-IsListed held [] t.ring.wq t.count t.ring y refl
        d.owned d.names in
    let wq_kept : t.ring.wq ≡ s.ring.wq =
      sweep-keeps c of_queue (λ r. r.wq) (λ r ps. refl) wq-cancel_target [] s.ring.queue s.count
        s.ring in
    let both : sweep_queue c s ≡ (cancel_answer c u, u.ring) =
      pick_false _ _ _ d.goes_on ∙ pick_false _ _ _ e.goes_on in
    subst (BothSwept c f held s) (sym both) (record {
      owned = e.owned;
      queue =
          sweep-keeps c of_wq (λ r. r.queue) (λ r ps. refl) queue-cancel_target [] t.ring.wq t.count
            t.ring
          ∙ d.list;
      wq = e.list ∙ ap (unnamed f) wq_kept;
      waiting =
          sweep-keeps c of_wq (λ r. r.waiting) (λ r ps. refl) waiting-cancel_target [] t.ring.wq
            t.count t.ring
          ∙ sweep-keeps c of_queue (λ r. r.waiting) (λ r ps. refl) waiting-cancel_target []
              s.ring.queue s.count s.ring;
      answer = λ a.
          let total : u.count ≡ s.count + tally f s.ring.queue + tally f s.ring.wq =
            omega (arith, e.counted, d.counted, ap (tally f) wq_kept) in
          cancel_answer-all c u y (omega (arith, a, total)) ∙ ap pos total;
    })
