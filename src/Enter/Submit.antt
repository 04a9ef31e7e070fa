-- ===== src/Enter/Submit.antt =====
-- The submission loop: entries become ops in the order of the queue, and each op is one of the
-- pool's.
use slipstream_io.Base.{
  ℕ, zero, suc, ◌+◌, ◌≤◌, ◌<◌, ◌≡◌, ◌≢◌, refl, sym, ap, ◌∙◌, arith, bit_and, u32_mod, ◌%◌, true,
  List, [], ◌∷◌, ◌++◌, map, none, some, ltb, ◌==◌, if◌then◌else◌, Bool-cases, ==_iff, Option-cases,
  ◌⊎◌, inl, inr, count, count-append, update_at, update_off, update, eq_refl, map-append,
}
use mathlib.Core.Path.{subst, ap₂}
use mathlib.Core.Option.{some-injective, none-ne-some}
use slipstream_io.Abi.{Sqe}
use slipstream_io.Ring.{Ring}
use slipstream_io.Completion.{op_alloc_locked}
use slipstream_io.Completion.Owners.{Holds, op_alloc_inv, op_alloc-Holds}
use slipstream_io.Enter.{take_into, advance_head, take_sqe, take_sqes}

-- The submission that the array names at the word `h`, or nothing where it names none.
abbrev pub sqe_at : Ring → ℕ → List Sqe
sqe_at r h =
    let i = r.sq_array (bit_and h r.sq_mask) in if ltb i r.sq_entries then r.sqes i ∷ [] else []

-- The submissions of `n` places from the word `h` on.
unfoldable pub sqes_from : ℕ → ℕ → Ring → List Sqe
sqes_from zero h r = []
sqes_from (suc n) h r = sqe_at r h ++ sqes_from n ((h + 1) % u32_mod) r

-- The words that the loop does not write.
pub record SameQueue (r s : Ring) : Type 0 where
  pub sq_array : s.sq_array ≡ r.sq_array
  pub sq_mask : s.sq_mask ≡ r.sq_mask
  pub sq_entries : s.sq_entries ≡ r.sq_entries
  pub sqes : s.sqes ≡ r.sqes
  pub queue : s.queue ≡ r.queue
  pub waiting : s.waiting ≡ r.waiting

abbrev pub sqe_of : Ring → ℕ → Sqe
sqe_of r p = (r.ops p).sqe

-- One entry of the queue, taken or dropped, with the slots of `held` in hand before.
record Taken (held : List ℕ) (r : Ring) (batch : List ℕ) (s : Ring) : Type 0 where
  pub same : SameQueue r s
  pub head : s.sq_head ≡ r.sq_head
  pub owned : Holds (batch ++ held) s
  pub kept : (q : ℕ) → count q batch ≡ 0 → s.ops q ≡ r.ops q
  pub carries : map (sqe_of s) batch ≡ sqe_at r r.sq_head

SameQueue-sqe_at : (r s : Ring) (h : ℕ) → SameQueue r s → sqe_at s h ≡ sqe_at r h
SameQueue-sqe_at r s h w = rw (w.sq_array, w.sq_mask, w.sq_entries, w.sqes)

SameQueue-sqes_from :
    (n : ℕ) (r s : Ring) (h : ℕ) → SameQueue r s → sqes_from n h s ≡ sqes_from n h r
unfolding sqes_from
SameQueue-sqes_from zero r s h w = refl
SameQueue-sqes_from (suc n) r s h w =
    ap₂ ◌++◌ (SameQueue-sqe_at r s h w) (SameQueue-sqes_from n r s ((h + 1) % u32_mod) w)

ne_of_fresh : (p q : ℕ) → count q (p ∷ []) ≡ 0 → p ≢ q
ne_of_fresh p q n e = ground arith

abbrev named_at : Ring → ℕ
named_at r = r.sq_array (bit_and r.sq_head r.sq_mask)

-- What an allocation and the copy of the entry give.
Taken-op :
    (p : ℕ) (held : List ℕ) (r s : Ring)
    → op_alloc_locked r ≡ some (p, s)
    → Holds held r
    → ltb (named_at r) r.sq_entries ≡ true
    → Taken held r
        (p ∷ [])
        (record s { ops = update s.ops p (record (s.ops p) { sqe = s.sqes (named_at r) }) })
Taken-op p held r s e h room =
    let (rest, f, t) = op_alloc_inv p r s e in
    record {
      same = rw t (record {
        sq_array = refl;
        sq_mask = refl;
        sq_entries = refl;
        sqes = refl;
        queue = refl;
        waiting = refl;
      });
      head = rw t;
      owned = op_alloc-Holds p held r s e h;
      kept = λ q n.
          update_off s.ops _ (ne_of_fresh p q n)
          ∙ ap (λ x. x.ops q) t
          ∙ update_off r.ops _ (ne_of_fresh p q n);
      carries =
          ap (λ o. o.sqe ∷ [])
            (update_at s.ops (record (s.ops p) { sqe = s.sqes (named_at r) }) refl)
          ∙ rw room (ap (λ x. x.sqes (named_at r) ∷ []) t);
    }

take_sqe-Taken :
    (held batch : List ℕ) (r s : Ring)
    → take_sqe r ≡ some (batch, s)
    → Holds held r
    → Taken held r batch s
unfolding take_sqe take_into
take_sqe-Taken held batch r s e h = elim (Bool-cases (ltb (named_at r) r.sq_entries)) [
  | inl room ↦ elim (Option-cases (op_alloc_locked r)) [
    | inl n ↦ absurd (none-ne-some _ (rw (room, n) at e))
    | inr ((p, t), n) ↦
        let x = some-injective _ _ (rw (room, n) at e) in
        subst (λ z. Taken held r z.0 z.1) x (Taken-op p held r t n h room)
  ]
  | inr out ↦
      let x = some-injective _ _ (rw out at e) in
      subst (λ z. Taken held r z.0 z.1) x
        (record {
          same = record {
            sq_array = refl;
            sq_mask = refl;
            sq_entries = refl;
            sqes = refl;
            queue = refl;
            waiting = refl;
          };
          head = refl;
          owned = h;
          kept = λ q n. refl;
          carries = rw out;
        })
]

-- What the loop did for at most `n` entries up to `tail`: the batch is the submissions that stand at
-- the head, in their order, each in a slot of its own, and it ended for one of three reasons.
pub record Submitted (n tail : ℕ) (held : List ℕ) (r : Ring) (x : ℕ × List ℕ × Ring) : Type 0 where
  pub same : SameQueue r x.2
  pub head : x.2.sq_head ≡ (r.sq_head + x.0) % u32_mod
  pub owned : Holds (x.1 ++ held) x.2
  pub kept : (q : ℕ) → count q x.1 ≡ 0 → x.2.ops q ≡ r.ops q
  pub carries : map (sqe_of x.2) x.1 ≡ sqes_from x.0 r.sq_head r
  pub bounded : x.0 ≤ n
  pub ended : (x.0 ≡ n) ⊎ ((x.2.sq_head ≡ tail) ⊎ (op_alloc_locked x.2 ≡ none))

nothing-Submitted :
    (n tail : ℕ) (held : List ℕ) (r : Ring)
    → r.sq_head < u32_mod
    → Holds held r
    → (0 ≡ n) ⊎ ((r.sq_head ≡ tail) ⊎ (op_alloc_locked r ≡ none))
    → Submitted n tail held r (0, [], r)
unfolding sqes_from
nothing-Submitted n tail held r w h e = record {
  same = record {
    sq_array = refl;
    sq_mask = refl;
    sq_entries = refl;
    sqes = refl;
    queue = refl;
    waiting = refl;
  };
  head = omega arith;
  owned = h;
  kept = λ q n. refl;
  carries = refl;
  bounded = omega arith;
  ended = e;
}

take_sqe-none : (r : Ring) → take_sqe r ≡ none → op_alloc_locked r ≡ none
unfolding take_sqe take_into
take_sqe-none r e = elim (Bool-cases (ltb (named_at r) r.sq_entries)) [
  | inl room ↦ elim (Option-cases (op_alloc_locked r)) [
    | inl n ↦ n
    | inr ((p, t), n) ↦ absurd (none-ne-some _ (sym (rw (room, n) at e)))
  ]
  | inr out ↦ absurd (none-ne-some _ (sym (rw out at e)))
]

-- A slot in hand is not handed out again.
batch-fresh :
    (q : ℕ) (batch more held : List ℕ) (s : Ring)
    → Holds (more ++ (batch ++ held)) s
    → 0 < count q batch
    → count q more ≡ 0
batch-fresh q batch more held s h n =
    ground (arith, h q, count-append q more (batch ++ held), count-append q batch held)

map_kept :
    (r s : Ring) (batch : List ℕ)
    → ((q : ℕ) → 0 < count q batch → s.ops q ≡ r.ops q)
    → map (sqe_of s) batch ≡ map (sqe_of r) batch
map_kept r s [] k = refl
map_kept r s (p ∷ ps) k =
    ap₂ ◌∷◌ (ap (λ o. o.sqe) (k p (rw (eq_refl p) (omega arith))))
      (map_kept r s ps (λ q n. k q (omega arith)))

-- One entry and then the rest.
more-Submitted :
    (n tail m : ℕ) (held batch more : List ℕ) (r r' s : Ring)
    → Taken held r batch r'
    → Submitted n tail (batch ++ held) (advance_head r') (m, more, s)
    → Submitted (suc n) tail held r (suc m, batch ++ more, s)
unfolding advance_head sqes_from
more-Submitted n tail m held batch more r r' s t w = record {
  same = record {
    sq_array = w.same.sq_array ∙ t.same.sq_array;
    sq_mask = w.same.sq_mask ∙ t.same.sq_mask;
    sq_entries = w.same.sq_entries ∙ t.same.sq_entries;
    sqes = w.same.sqes ∙ t.same.sqes;
    queue = w.same.queue ∙ t.same.queue;
    waiting = w.same.waiting ∙ t.same.waiting;
  };
  head = omega (arith, w.head, t.head);
  owned = λ q. omega (
    arith,
    w.owned q,
    count-append q more (batch ++ held),
    count-append q batch held,
    count-append q (batch ++ more) held,
    count-append q batch more,
  );
  kept = λ q n.
      w.kept q (omega (arith, n, count-append q batch more))
      ∙ t.kept q (omega (arith, n, count-append q batch more));
  carries =
      map-append (sqe_of s) batch more
      ∙ ap₂ ◌++◌
          (map_kept r' s batch (λ q n. w.kept q (batch-fresh q batch more held s w.owned n))
            ∙ t.carries)
          (w.carries
            ∙ SameQueue-sqes_from m r' (advance_head r') _ unwritten
            ∙ SameQueue-sqes_from m r r' _ t.same
            ∙ ap (λ h. sqes_from m ((h + 1) % u32_mod) r) t.head);
  bounded = let a = w.bounded in omega arith;
  ended = elim w.ended [ inl x ↦ inl (omega (arith, x)) | inr x ↦ inr x ];
}
  where
    unwritten : SameQueue r' (advance_head r')
    unwritten = record {
      sq_array = refl;
      sq_mask = refl;
      sq_entries = refl;
      sqes = refl;
      queue = refl;
      waiting = refl;
    }

-- The submission loop takes the entries at the head of the queue, in their order: the SQEs that the
-- batch carries are those that the array names there (an index outside the SQE array names none), the
-- head moves on by as many places as the loop answers, every op of the batch and of the pool has one
-- holder, and the loop ends at its bound, at the caller's tail, or with the pool empty. The head is a
-- 32-bit word and every op has one holder before.
pub take_sqes-Submitted :
    (n tail : ℕ) (held : List ℕ) (r : Ring)
    → r.sq_head < u32_mod
    → Holds held r
    → Submitted n tail held r (take_sqes n tail r)
unfolding take_sqes advance_head
take_sqes-Submitted zero tail held r w h = nothing-Submitted zero tail held r w h (inl refl)
take_sqes-Submitted (suc n) tail held r w h = elim (Bool-cases (r.sq_head == tail)) [
  | inl e ↦
      rw (e, take_sqes)
        (nothing-Submitted (suc n) tail held r w h (inr (inl ((==_iff r.sq_head tail).0 e))))
  | inr e ↦ elim (Option-cases (take_sqe r)) [
    | inl x ↦
        rw (e, take_sqes, x)
          (nothing-Submitted (suc n) tail held r w h (inr (inr (take_sqe-none r x))))
    | inr ((batch, r'), x) ↦
        let t = take_sqe-Taken held batch r r' x h in
        rw (e, take_sqes, x)
          (more-Submitted n tail _ held batch _ r r' _ t
            (take_sqes-Submitted n tail (batch ++ held) (advance_head r') (omega arith) t.owned))
  ]
]
