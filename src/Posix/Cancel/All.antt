-- ===== src/Posix/Cancel/All.antt =====
-- What a cancel of all ops that it names leaves: the ops that it does not name, and the count of the rest.
use slipstream_io.Base.{
  ℕ, ◌+◌, ◌<◌, ◌≡◌, ◌≢◌, refl, sym, ap, ◌∙◌, arith, ℤ, neg, Bool, true, false, List, [], ◌∷◌, ◌++◌,
  append_assoc, count, count-append, if◌then◌else◌, Bool-cases, inl, inr, update_off, eq_refl,
}
use slipstream_io.Abi.{ecanceled}
use slipstream_io.Ring.{Ring, EngOp, zero_op}
use slipstream_io.Completion.{
  drain_backlog_locked, post_locked, post_drained, op_release, backlog_locked, post,
}
use slipstream_io.Completion.Cases.{post_drained_cases}
use slipstream_io.Completion.Owners.{Holds-fresh, drain-DrainFrame, post-Returned}
use slipstream_io.Posix.Cancel.{
  cancel_names, cancel_settled, cancel_target, is_all, Swept, Listed, sweep,
}
use slipstream_io.Posix.Cancel.Sweep.{cancel_target-Cut, put-Owned, get-cut}
use slipstream_io.Posix.Cancel.Lists.{active, IsListed, cancel_settled-Same}
use slipstream_io.Posix.Owned.{Owned}
use slipstream_io.Posix.Places.{tally}

-- Those of these ops that `f` does not name.
abbrev pub unnamed : (ℕ → Bool) → List ℕ → List ℕ
unnamed f [] = []
unnamed f (p ∷ ps) = let rest = unnamed f ps in if f p then rest else p ∷ rest

sqe-post_drained :
    (r : Ring) (p q : ℕ) (res : ℤ) → p ≢ q → ((post_drained r p res).ops q).sqe ≡ (r.ops q).sqe
unfolding op_release post_locked backlog_locked
sqe-post_drained r p q res n =
    post_drained_cases (λ s. (s.ops q).sqe ≡ (r.ops q).sqe) r p res (λ _. refl) (λ _ _. refl)
      (λ _ _. ap (λ o. o.sqe) (update_off r.ops _ n))

-- A completion changes no other op's submission.
sqe-post : (r : Ring) (p q : ℕ) (res : ℤ) → p ≢ q → ((post r p res).ops q).sqe ≡ (r.ops q).sqe
unfolding post
sqe-post r p q res n =
    sqe-post_drained (drain_backlog_locked r) p q res n
    ∙ ap (λ o. (o q).sqe) (drain-DrainFrame r).ops

sqe-cancel_target : (r : Ring) (t q : ℕ) → t ≢ q → ((cancel_target r t).ops q).sqe ≡ (r.ops q).sqe
unfolding cancel_target
sqe-cancel_target r t q n =
    sqe-post (cancel_settled r t) t q (neg ecanceled) n
    ∙ ap (λ o. (o q).sqe) (cancel_settled-Same r t).ops

pub wq-cancel_target : (r : Ring) (t : ℕ) → (cancel_target r t).wq ≡ r.wq
unfolding cancel_target
wq-cancel_target r t =
    (post-Returned (cancel_settled r t) t (neg ecanceled)).frame.wq ∙ (cancel_settled-Same r t).wq

active-cancel_target : (r : Ring) (t q : ℕ) → active q (cancel_target r t) ≡ active q r
unfolding cancel_target
active-cancel_target r t q =
    let p = (post-Returned (cancel_settled r t) t (neg ecanceled)).frame in
    let s = cancel_settled-Same r t in rw (p.waiting, p.queue, p.wq, s.waiting, s.queue, s.wq) refl

module _ (c : EngOp) (f : ℕ → Bool) where
  -- `f` says which of the ops that cancel looks at it names.
  abbrev pub Names : Ring → Type 0
  Names r = (q : ℕ) → 0 < active q r → cancel_names c (r.ops q) ≡ f q

  pub names-sqe : (s t : EngOp) → s.sqe ≡ t.sqe → cancel_names c s ≡ cancel_names c t
  unfolding cancel_names
  names-sqe s t e = ap (λ z. cancel_names c (record zero_op { sqe = z })) e

  -- The op that is cancelled is in none of the lists, and what is keeps its name.
  pub cancel_target-Names :
      (held : List ℕ) (r : Ring) (t : ℕ) → Owned (t ∷ held) r → Names r → Names (cancel_target r t)
  cancel_target-Names held r t h k q a =
      let in_list : 0 < active q r = omega (arith, a, active-cancel_target r t q) in
      let apart : t ≢ q = λ e.
        absurd (omega (arith, in_list, Holds-fresh t held r h.holds, ap (λ z. active z r) e)) in
      names-sqe ((cancel_target r t).ops q) (r.ops q) (sqe-cancel_target r t q apart) ∙ k q in_list

  module _ (l : Listed) (get : Ring → List ℕ) (is : IsListed l get) where
    put-Names :
        (kept rest : List ℕ) (t : ℕ) (r : Ring)
        → get r ≡ kept ++ (t ∷ rest)
        → Names r
        → Names (l.put r (kept ++ rest))
    put-Names kept rest t r e k q a =
        ap (λ o. cancel_names c (o q)) (is.ops r (kept ++ rest))
        ∙ k q (
            omega (
              arith,
              a,
              is.active r (kept ++ rest) q,
              ap (count q) e,
              count-append q kept (t ∷ rest),
              count-append q kept rest,
            ))

    -- What the sweep of a list leaves.
    pub record IsSwept (held kept xs : List ℕ) (n : ℕ) (s : Swept) : Type 0 where
      pub owned : Owned held s.ring
      pub names : Names s.ring
      pub list : get s.ring ≡ kept ++ unnamed f xs
      pub counted : s.count ≡ n + tally f xs
      pub goes_on : s.ended ≡ false

    head_active :
        (kept rest : List ℕ) (t : ℕ) (r : Ring) → get r ≡ kept ++ (t ∷ rest) → 0 < active t r
    head_active kept rest t r e =
        omega (arith, is.active r [] t, ap (count t) e, count-append t kept (t ∷ rest), self)
      where
        self : 0 < count t (t ∷ rest)
        self = rw (eq_refl t) (omega arith)

    -- A sweep of the queue or of the worker's list for all that the cancel names leaves exactly the ops that
    -- it does not name, in their order, and counts the others.
    pub sweep-IsSwept :
        (held kept xs : List ℕ) (n : ℕ) (r : Ring)
        → is_all c ≡ true
        → get r ≡ kept ++ xs
        → Owned held r
        → Names r
        → IsSwept held kept xs n (sweep c l kept xs n r)
    unfolding sweep
    sweep-IsSwept held kept [] n r y e h k = record {
      owned = h;
      names = k;
      list = e;
      counted = omega arith;
      goes_on = refl;
    }
    sweep-IsSwept held kept (t ∷ rest) n r y e h k =
        let says = k t (head_active kept rest t r e) in
        elim (Bool-cases (f t)) [
          | inr x ↦
              let d =
                sweep-IsSwept held (kept ++ (t ∷ [])) rest n r y
                  (e ∙ sym (append_assoc kept (t ∷ []) rest)) h k in
              rw (says ∙ x, sweep)
                (record {
                  owned = d.owned;
                  names = d.names;
                  list =
                      d.list
                      ∙ append_assoc kept (t ∷ []) (unnamed f rest)
                      ∙ ap (λ z. kept ++ z) (kept_on x);
                  counted = omega (arith, d.counted, uncounted x);
                  goes_on = d.goes_on;
                })
          | inl x ↦
              let u = l.put r (kept ++ rest) in
              let o = put-Owned c l get is held kept rest t r e h in
              let d =
                sweep-IsSwept held kept rest (n + 1) (cancel_target u t) y
                  (get-cut c l get is kept rest t r)
                  (cancel_target-Cut c l get is held kept rest t r e h).owned
                  (cancel_target-Names held u t o (put-Names kept rest t r e k)) in
              rw (says ∙ x, y, sweep)
                (record {
                  owned = d.owned;
                  names = d.names;
                  list = d.list ∙ ap (λ z. kept ++ z) (left_out x);
                  counted = omega (arith, d.counted, counted_in x);
                  goes_on = d.goes_on;
                })
        ]
      where
        kept_on : f t ≡ false → t ∷ unnamed f rest ≡ unnamed f (t ∷ rest)
        kept_on x = rw x refl

        left_out : f t ≡ true → unnamed f rest ≡ unnamed f (t ∷ rest)
        left_out x = rw x refl

        uncounted : f t ≡ false → tally f (t ∷ rest) ≡ tally f rest
        uncounted x = rw x (omega arith)

        counted_in : f t ≡ true → tally f (t ∷ rest) ≡ 1 + tally f rest
        counted_in x = rw x refl
