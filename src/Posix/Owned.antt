-- ===== src/Posix/Owned.antt =====
-- What every step of the POSIX machinery keeps: each op of the pool has one holder, and each parked op
-- knows its place.
use mathlib.Core.Path.{subst}
use slipstream_io.Base.{
  ℕ, ◌+◌, ◌<◌, ◌≡◌, ◌≢◌, refl, sym, ap, ◌∙◌, arith, ℤ, false, List, ◌∷◌, count, get_elem?, ◌==◌,
  update, Bool-cases, Option-cases, inl, inr, ==_iff,
}
use slipstream_io.Abi.{CqeFlags}
use slipstream_io.Ring.{Ring, EngOp}
use slipstream_io.Completion.{
  cq_room, post_locked, op_release, op_alloc_locked, drain_backlog_locked, backlog_locked,
  post_drained, post, emit_carried, emit_full, emit,
}
use slipstream_io.Completion.Cases.{post_drained_cases}
use slipstream_io.Completion.Owners.{
  Holds, drain-DrainFrame, drain-Holds, emit-Frame, emit-Holds, post-Holds, post-Returned,
  op_alloc_inv,
}
use slipstream_io.Posix.Parking.{PlacesAreKnown, count-get_elem?}

-- Who stands where in the parked set is known after a step that leaves the set and its places alone.
pub PlacesAreKnown-frame :
    (r s : Ring)
    → s.waiting ≡ r.waiting
    → ((q : ℕ) → 0 < count q r.waiting → (s.ops q).wait_slot ≡ (r.ops q).wait_slot)
    → PlacesAreKnown r
    → PlacesAreKnown s
PlacesAreKnown-frame r s e f h k q g =
    let g' = ap (λ xs. get_elem? xs k) (sym e) ∙ g in
    f q (count-get_elem? r.waiting k q g') ∙ h k q g'

-- The code holds the slots of `held`.
pub record Owned (held : List ℕ) (r : Ring) : Type 0 where
  pub holds : Holds held r
  pub places : PlacesAreKnown r

-- A write to an op that keeps its place.
pub slot-update :
    (f : ℕ → EngOp) (p : ℕ) (op : EngOp)
    → op.wait_slot ≡ (f p).wait_slot
    → (q : ℕ) → (update f p op q).wait_slot ≡ (f q).wait_slot
slot-update f p op e q = elim (Bool-cases (p == q)) [
  | inl x ↦ rw x (e ∙ ap (λ z. (f z).wait_slot) ((==_iff p q).0 x))
  | inr x ↦ rw x
]

slot-post_drained :
    (r : Ring) (p q : ℕ) (res : ℤ) → ((post_drained r p res).ops q).wait_slot ≡ (r.ops q).wait_slot
unfolding op_release post_locked backlog_locked
slot-post_drained r p q res =
    post_drained_cases (λ s. (s.ops q).wait_slot ≡ (r.ops q).wait_slot) r p res (λ _. refl)
      (λ _ _. refl) (λ _ _. slot-update r.ops p _ refl q)

-- A completion moves no parked op.
pub slot-post :
    (r : Ring) (p q : ℕ) (res : ℤ) → ((post r p res).ops q).wait_slot ≡ (r.ops q).wait_slot
unfolding post
slot-post r p q res =
    slot-post_drained (drain_backlog_locked r) p q res
    ∙ ap (λ o. (o q).wait_slot) (drain-DrainFrame r).ops

pub drain-Owned : (held : List ℕ) (r : Ring) → Owned held r → Owned held (drain_backlog_locked r)
drain-Owned held r h =
    let d = drain-DrainFrame r in
    record {
      holds = drain-Holds held r h.holds;
      places =
          PlacesAreKnown-frame r (drain_backlog_locked r) d.frame.waiting
            (λ q n. ap (λ o. (o q).wait_slot) d.ops) h.places;
    }

pub post-Owned :
    (p : ℕ) (held : List ℕ) (r : Ring) (res : ℤ) → Owned (p ∷ held) r → Owned held (post r p res)
post-Owned p held r res h = record {
  holds = post-Holds p held r res h.holds;
  places =
      PlacesAreKnown-frame r (post r p res) (post-Returned r p res).frame.waiting
        (λ q n. slot-post r p q res) h.places;
}

-- A slot on the free list is neither parked nor in the code's hand.
kept_not_free :
    (p q : ℕ) (rest held : List ℕ) (r : Ring)
    → Holds held r
    → r.op_free ≡ p ∷ rest
    → 0 < count q r.waiting + count q held
    → p ≢ q
kept_not_free p q rest held r h e n x =
    let a = h p in
    let b = ap (count p) e in
    let c : 0 < count p r.waiting + count p held =
      subst (λ z. 0 < count z r.waiting + count z held) (sym x) n in
    ground (arith, a, b, c)

op-emit_full :
    (q u : ℕ) (held : List ℕ) (r : Ring) (res : ℤ) (f : CqeFlags)
    → Holds held r
    → 0 < count q r.waiting + count q held
    → (emit_full r u res f).ops q ≡ r.ops q
unfolding emit_full emit_carried backlog_locked
op-emit_full q u held r res f h n = elim (Option-cases (op_alloc_locked r)) [
  | inl e ↦ rw (e, emit_full)
  | inr ((p, s), e) ↦
      let (rest, g, t) = op_alloc_inv p r s e in
      let ne = kept_not_free p q rest held r h g n in
      let apart : (p == q) ≡ false = ground arith in rw (e, emit_full, t, apart)
]

-- An emission writes to no op that is parked or in the code's hand.
op-emit :
    (q u : ℕ) (held : List ℕ) (r : Ring) (res : ℤ) (f : CqeFlags)
    → Holds held r
    → 0 < count q r.waiting + count q held
    → (emit r u res f).ops q ≡ r.ops q
unfolding emit post_locked
op-emit q u held r res f h n =
    let d = drain-DrainFrame r in
    let same = ap (λ o. o q) d.ops in
    elim (Bool-cases (cq_room (drain_backlog_locked r))) [
      | inl room ↦ rw room same
      | inr full ↦ rw full (
          op-emit_full q u held (drain_backlog_locked r) res f (drain-Holds held r h)
            (subst (λ xs. 0 < count q xs + count q held) (sym d.frame.waiting) n)
          ∙ same)
    ]

pub emit-Owned :
    (held : List ℕ) (r : Ring) (u : ℕ) (res : ℤ) (f : CqeFlags)
    → Owned held r
    → Owned held (emit r u res f)
emit-Owned held r u res f h = record {
  holds = emit-Holds held r u res f h.holds;
  places =
      PlacesAreKnown-frame r (emit r u res f) (emit-Frame r u res f).waiting
        (λ q n. ap (λ o. o.wait_slot) (op-emit q u held r res f h.holds (omega (arith, n))))
        h.places;
}

-- A write to an op that keeps its submission.
pub sqe-update :
    (f : ℕ → EngOp) (p : ℕ) (op : EngOp)
    → op.sqe ≡ (f p).sqe
    → (q : ℕ) → (update f p op q).sqe ≡ (f q).sqe
sqe-update f p op e q = elim (Bool-cases (p == q)) [
  | inl x ↦ rw x (e ∙ ap (λ z. (f z).sqe) ((==_iff p q).0 x))
  | inr x ↦ rw x
]

-- A write to an op that keeps its place.
pub update-Owned :
    (held : List ℕ) (r : Ring) (p : ℕ) (op : EngOp)
    → op.wait_slot ≡ (r.ops p).wait_slot
    → Owned held r
    → Owned held (record r { ops = update r.ops p op })
update-Owned held r p op e h = record {
  holds = h.holds;
  places =
      PlacesAreKnown-frame r (record r { ops = update r.ops p op }) refl
        (λ q n. slot-update r.ops p op e q) h.places;
}

-- What one step did while the code held the slots of `held`: they are still its own, it submitted nothing,
-- and they and the parked ops carry what they carried.
pub record Kept (held : List ℕ) (r s : Ring) : Type 0 where
  pub owned : Owned held s
  pub queue : s.queue ≡ r.queue
  pub waiting : s.waiting ≡ r.waiting
  pub sqes : (q : ℕ) → 0 < count q r.waiting + count q held → (s.ops q).sqe ≡ (r.ops q).sqe

module _ (held : List ℕ) where
  pub Kept-refl : (r : Ring) → Owned held r → Kept held r r
  Kept-refl r h = record { owned = h; queue = refl; waiting = refl; sqes = λ q n. refl }

  pub Kept-trans : (r s t : Ring) → Kept held r s → Kept held s t → Kept held r t
  Kept-trans r s t a b = record {
    owned = b.owned;
    queue = b.queue ∙ a.queue;
    waiting = b.waiting ∙ a.waiting;
    sqes = λ q n. b.sqes q (omega (arith, n, ap (count q) a.waiting)) ∙ a.sqes q n;
  }

  pub emit-Kept :
      (r : Ring) (u : ℕ) (res : ℤ) (f : CqeFlags) → Owned held r → Kept held r (emit r u res f)
  emit-Kept r u res f h = record {
    owned = emit-Owned held r u res f h;
    queue = (emit-Frame r u res f).queue;
    waiting = (emit-Frame r u res f).waiting;
    sqes = λ q n. ap (λ o. o.sqe) (op-emit q u held r res f h.holds n);
  }

  pub update-Kept :
      (r : Ring) (p : ℕ) (op : EngOp)
      → op.wait_slot ≡ (r.ops p).wait_slot
      → op.sqe ≡ (r.ops p).sqe
      → Owned held r
      → Kept held r (record r { ops = update r.ops p op })
  update-Kept r p op e k h = record {
    owned = update-Owned held r p op e h;
    queue = refl;
    waiting = refl;
    sqes = λ q n. sqe-update r.ops p op k q;
  }
