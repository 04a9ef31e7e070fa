-- ===== src/Posix/Same.antt =====
-- What touches the fixed file table or a group of buffers moves no op.
use slipstream_io.Base.{
  ℕ, zero, suc, ◌+◌, ◌≡◌, not, neg, inl, inr, Bool-cases, refl, ap, ◌∙◌, ℤ, List, Option, none,
  some, leb, is_neg, set, ◌==◌, if_both,
}
use slipstream_io.Ring.{Ring, Chain, Buf, BufRing}
use slipstream_io.Fixed.{
  slot_at, store_at, is_null, alloc_scan, fixed_install, fixed_clear, bufring_of,
}
use slipstream_io.Posix.{unget_at, unget_of, bufring_unget, take_entry, take_of, bufring_take}
use slipstream_io.Posix.Owned.{Owned, Kept}

-- Two rings with the same ops in the same lists.
pub record Same (r s : Ring) : Type 0 where
  pub op_pool_n : s.op_pool_n ≡ r.op_pool_n
  pub op_free : s.op_free ≡ r.op_free
  pub backlog : s.backlog ≡ r.backlog
  pub wq : s.wq ≡ r.wq
  pub queue : s.queue ≡ r.queue
  pub waiting : s.waiting ≡ r.waiting
  pub ops : s.ops ≡ r.ops

pub Same-refl : (r : Ring) → Same r r
Same-refl r = record {
  op_pool_n = refl;
  op_free = refl;
  backlog = refl;
  wq = refl;
  queue = refl;
  waiting = refl;
  ops = refl;
}

-- A write to the table, to its hint or to the groups.
pub Same-update :
    (r : Ring) (t : Option (List ℤ)) (hint : ℕ) (bs : List BufRing)
    → Same r (record r { fixed = t; alloc_hint = hint; bufrings = bs })
Same-update r t hint bs = record {
  op_pool_n = refl;
  op_free = refl;
  backlog = refl;
  wq = refl;
  queue = refl;
  waiting = refl;
  ops = refl;
}

-- A write to the standing of the chain.
pub Same-chain :
    (r : Ring) (o : Option ℕ) (f : Chain) → Same r (record r { blocking = o; chain_failed = f })
Same-chain r o f = record {
  op_pool_n = refl;
  op_free = refl;
  backlog = refl;
  wq = refl;
  queue = refl;
  waiting = refl;
  ops = refl;
}

Same-trans : (r s t : Ring) → Same r s → Same s t → Same r t
Same-trans r s t a b = record {
  op_pool_n = b.op_pool_n ∙ a.op_pool_n;
  op_free = b.op_free ∙ a.op_free;
  backlog = b.backlog ∙ a.backlog;
  wq = b.wq ∙ a.wq;
  queue = b.queue ∙ a.queue;
  waiting = b.waiting ∙ a.waiting;
  ops = b.ops ∙ a.ops;
}

pub Same-Kept : (held : List ℕ) (r s : Ring) → Same r s → Owned held r → Kept held r s
Same-Kept held r s e h = record {
  owned = record {
    holds = λ p. rw (e.op_pool_n, e.op_free, e.backlog, e.wq, e.queue, e.waiting) (h.holds p);
    places = λ k q. rw (e.waiting, e.ops) (h.places k q);
  };
  queue = e.queue;
  waiting = e.waiting;
  sqes = λ q n. ap (λ o. (o q).sqe) e.ops;
}

store_at-Same : (r : Ring) (i : ℕ) (fd : ℤ) → Same r (store_at r i fd)
unfolding store_at
store_at-Same r i fd = on_table r.fixed
  where
    on_table :
        (o : Option (List ℤ))
        → Same r (elim o [ none ↦ r | some t ↦ record r { fixed = some (set t i fd) } ])
    on_table none = Same-refl r
    on_table (some t) = Same-update r (some (set t i fd)) r.alloc_hint r.bufrings

alloc_scan-Same : (n probe : ℕ) (r : Ring) (fd : ℤ) → Same r (alloc_scan n probe r fd).1
unfolding alloc_scan
alloc_scan-Same zero probe r fd = Same-refl r
alloc_scan-Same (suc n) probe r fd = elim (Bool-cases (is_neg (slot_at r probe))) [
  | inl e ↦
      rw (e, alloc_scan)
        (Same-trans r (store_at r probe fd) _ (store_at-Same r probe fd)
          (Same-update (store_at r probe fd) _ (probe + 1) _))
  | inr e ↦ rw (e, alloc_scan) (alloc_scan-Same n _ r fd)
]

pub fixed_install-Same : (r : Ring) (o : Option ℕ) (fd : ℤ) → Same r (fixed_install r o fd).1
unfolding fixed_install
fixed_install-Same r none fd =
    if_both (λ (z : ℤ × Ring). Same r z.1) (is_null r) _ _ (Same-refl r) (alloc_scan-Same _ _ r fd)
fixed_install-Same r (some i) fd =
    if_both (λ (z : ℤ × Ring). Same r z.1) (is_null r) _ _ (Same-refl r)
      (if_both (λ (z : ℤ × Ring). Same r z.1) (leb r.fixed_n _) _ _ (Same-refl r)
        (if_both (λ (z : ℤ × Ring). Same r z.1) (not (is_neg _)) _ _ (Same-refl r)
          (store_at-Same r _ fd)))

pub fixed_clear-Same : (r : Ring) (slot : ℕ) → Same r (fixed_clear r slot).1
unfolding fixed_clear
fixed_clear-Same r slot =
    if_both (λ (z : ℤ × Ring). Same r z.1) _ _ _ (Same-refl r)
      (Same-trans r (store_at r slot (neg 1)) _ (store_at-Same r slot (neg 1))
        (Same-update (store_at r slot (neg 1)) _ _ _))

unget_at-Same : (r : Ring) (i : ℕ) (o : Option BufRing) → Same r (unget_at r i o)
unfolding unget_at
unget_at-Same r i none = Same-refl r
unget_at-Same r i (some b) = Same-update r r.fixed r.alloc_hint _

pub bufring_unget-Same : (r : Ring) (bgid : ℕ) → Same r (bufring_unget r bgid)
unfolding bufring_unget unget_of
bufring_unget-Same r bgid = found (bufring_of r bgid)
  where
    found : (o : Option ℕ) → Same r (unget_of r o)
    found none = Same-refl r
    found (some i) = unget_at-Same r i _

-- What a group handed out, if it did.
abbrev pub TakenSame : Ring → Option (Buf × Ring) → Type 0
TakenSame r none = Unit
TakenSame r (some (b, s)) = Same r s

module _ (tail_at : ℕ → ℕ) (entry_at : ℕ → ℕ → Buf) where
  take_entry-Same :
      (r : Ring) (i : ℕ) (o : Option BufRing) → TakenSame r (take_entry tail_at entry_at r i o)
  unfolding take_entry
  take_entry-Same r i none = tt
  take_entry-Same r i (some b) = elim (Bool-cases (tail_at b.bufs == b.head)) [
    | inl e ↦ rw e tt
    | inr e ↦ rw e (Same-update r r.fixed r.alloc_hint _)
  ]

  take_of-Same : (r : Ring) (o : Option ℕ) → TakenSame r (take_of tail_at entry_at r o)
  unfolding take_of
  take_of-Same r none = tt
  take_of-Same r (some i) = take_entry-Same r i _

  pub bufring_take-Same : (r : Ring) (bgid : ℕ) → TakenSame r (bufring_take tail_at entry_at r bgid)
  unfolding bufring_take
  bufring_take-Same r bgid = take_of-Same r (bufring_of r bgid)
