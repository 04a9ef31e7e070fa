-- ===== src/Inotify/Reads.antt =====
-- A read hands over whole records, oldest first, as many as fit the caller's buffer.
use mathlib.Core.Path.{subst}
use slipstream_io.Posix.Parking.{true-ne-false}
use slipstream_io.Base.{
  pick_true, pick_false, ℕ, ◌+◌, ◌-◌, ◌≤◌, ◌<◌, ◌≡◌, refl, ap, arith, ℤ, pos, neg, inl, inr, ◌≢◌,
  sym, ◌∙◌, false, List, [], ◌∷◌, ◌++◌, ltb, ◌==◌, ltb→lt, ltb_false→le, Bool-cases, ==_iff,
}
use slipstream_io.Abi.{einval}
use slipstream_io.Inotify.{Event, Inst, Kq}
use slipstream_io.Inotify.Queue.{size_of, fit, bytes_of, taken_out}
use slipstream_io.Inotify.Calls.{read_out}
use slipstream_io.Inotify.Room.{HasRoom, bytes_of-append}

fit-append :
    (qlen len out : ℕ) (xs : List Event) → (fit qlen len out xs).0 ++ (fit qlen len out xs).1 ≡ xs
unfolding fit
fit-append qlen len out [] = refl
fit-append qlen len out (ev ∷ rest) = elim (Bool-cases (ltb out qlen)) [
  | inr x ↦ rw (x, fit) refl
  | inl x ↦ elim (Bool-cases (ltb len (out + size_of ev))) [
    | inl y ↦ rw (x, y, fit) refl
    | inr y ↦ rw (x, y, fit) (ap (λ ys. ev ∷ ys) (fit-append qlen len (out + size_of ev) rest))
  ]
]

fit-le :
    (qlen len out : ℕ) (xs : List Event) → out ≤ len → out + bytes_of (fit qlen len out xs).0 ≤ len
unfolding fit
fit-le qlen len out [] h = omega (arith, h)
fit-le qlen len out (ev ∷ rest) h = elim (Bool-cases (ltb out qlen)) [
  | inr x ↦ rw (x, fit) (omega (arith, h))
  | inl x ↦ elim (Bool-cases (ltb len (out + size_of ev))) [
    | inl y ↦ rw (x, y, fit) (omega (arith, h))
    | inr y ↦
        rw (x, y, fit)
          (omega (
            arith,
            fit-le qlen len (out + size_of ev) rest (ltb_false→le len (out + size_of ev) y),
          ))
  ]
]

-- Nothing is left, or the next record is too long for what is left of the buffer.
abbrev pub IsFull : ℕ → List Event → List Event → Type 0
IsFull len taken [] = Unit
IsFull len taken (ev ∷ rest) = len < bytes_of taken + size_of ev

fit-IsFull :
    (qlen len out : ℕ) (xs : List Event) (room : ℕ)
    → out + bytes_of xs ≤ qlen
    → len ≡ out + room
    → IsFull room (fit qlen len out xs).0 (fit qlen len out xs).1
unfolding fit
fit-IsFull qlen len out [] room h e = tt
fit-IsFull qlen len out (ev ∷ rest) room h e = elim (Bool-cases (ltb out qlen)) [
  | inr x ↦ absurd (omega (arith, h, ltb_false→le out qlen x))
  | inl x ↦ elim (Bool-cases (ltb len (out + size_of ev))) [
    | inl y ↦ rw (x, y, fit) (omega (arith, e, ltb→lt len (out + size_of ev) y))
    | inr y ↦
        let l = ltb_false→le len (out + size_of ev) y in
        rw (x, y, fit)
          (widened (room - size_of ev) (fit qlen len (out + size_of ev) rest).1
            (omega (arith, l, e))
            (fit-IsFull qlen len (out + size_of ev) rest (room - size_of ev) (omega (arith, h))
              (omega (arith, l, e))))
  ]
]
  where
    widened :
        (smaller : ℕ) (left : List Event)
        → room ≡ size_of ev + smaller
        → IsFull smaller (fit qlen len (out + size_of ev) rest).0 left
        → IsFull room (ev ∷ (fit qlen len (out + size_of ev) rest).0) left
    widened smaller [] a b = tt
    widened smaller (x ∷ left) a b = omega (arith, a, b)

-- The answer of a read of this queue that hands these records over.
abbrev pub answer_of : List Event → List Event → ℤ
answer_of [] evs = pos 0
answer_of (q ∷ queue) [] = neg einval
answer_of (q ∷ queue) (ev ∷ evs) = pos (bytes_of (ev ∷ evs))

-- What a read of an instance leaves.
pub record IsRead (len : ℕ) (i : Inst) (res : ℤ) (evs : List Event) (j : Inst) : Type 0 where
  pub order : evs ++ j.queue ≡ i.queue
  pub whole : bytes_of evs ≤ len
  pub full : IsFull len evs j.queue
  pub room : HasRoom j
  pub answer : res ≡ answer_of i.queue evs

no_bytes : (xs : List Event) → bytes_of xs ≡ 0 → xs ≡ []
no_bytes [] e = refl
no_bytes (x ∷ xs) e = absurd (omega (arith, e))

taken_out-IsRead :
    (len : ℕ) (i : Inst) (x : List Event × List Event)
    → x.0 ++ x.1 ≡ i.queue
    → bytes_of x.0 ≤ len
    → IsFull len x.0 x.1
    → i.queue ≢ []
    → HasRoom i
    → IsRead len i (taken_out i x).0 (taken_out i x).1 (taken_out i x).2
unfolding taken_out
taken_out-IsRead len i ([], left) e l f g h = record {
  order = refl;
  whole = omega arith;
  full = subst (IsFull len []) e f;
  room = h;
  answer = short i.queue g;
}
  where
    short : (q : List Event) → q ≢ [] → neg einval ≡ answer_of q []
    short [] n = absurd (n refl)
    short (x ∷ q) n = refl
taken_out-IsRead len i (ev ∷ taken, left) e l f g h =
    let all = bytes_of-append (ev ∷ taken) left in
    record {
      order = e;
      whole = l;
      full = f;
      room = record {
        counted = omega (arith, h.counted, all, ap bytes_of e);
        bounded = omega (arith, h.bounded);
        inside = omega (arith, h.inside);
        cap = h.cap;
      };
      answer = whole_of i.queue e;
    }
  where
    whole_of :
        (q : List Event)
        → (ev ∷ taken) ++ left ≡ q
        → pos (bytes_of (ev ∷ taken)) ≡ answer_of q (ev ∷ taken)
    whole_of [] d = absurd (cc)
    whole_of (x ∷ q) d = refl

module _ {W : Type 0} (sys : Kq W) where
  -- Where the queue's account is right, a read hands over the oldest records of the queue, whole and in
  -- their order, and leaves the others: as many as fit the buffer, so that the next one would not. It
  -- answers 0 for an empty queue, -EINVAL where there are records and not even the first fits, and else
  -- the bytes of those it handed over; the queue's account stays right.
  pub read_out-IsRead :
      (len : ℕ) (i : Inst) (w : W)
      → HasRoom i
      → (res : ℤ) × (evs : List Event) × (j : Inst) × (read_out sys len (i, w) ≡ ((res, evs), j, w))
        × IsRead len i res evs j
  unfolding read_out
  read_out-IsRead len i w h = elim (Bool-cases (i.qlen == 0)) [
    | inl x ↦
        let nothing : i.queue ≡ [] =
          no_bytes i.queue (omega (arith, h.counted, (==_iff i.qlen 0).0 x)) in
        (
          pos 0,
          [],
          i,
          pick_true _ _ _ x,
          record {
            order = refl;
            whole = omega arith;
            full = rw nothing tt;
            room = h;
            answer = sym (ap (λ q. answer_of q []) nothing);
          },
        )
    | inr x ↦
        let t = taken_out i (fit i.qlen len 0 i.queue) in
        (
          t.0,
          t.1,
          t.2,
          pick_false _ _ _ x,
          taken_out-IsRead len i (fit i.qlen len 0 i.queue) (fit-append i.qlen len 0 i.queue)
              (omega (arith, fit-le i.qlen len 0 i.queue (omega arith)))
              (fit-IsFull i.qlen len 0 i.queue len (omega (arith, h.counted)) (omega arith))
              (some_bytes x) h,
        )
  ]
    where
      some_bytes : (i.qlen == 0) ≡ false → i.queue ≢ []
      some_bytes x e =
          true-ne-false (sym ((==_iff i.qlen 0).1 (omega (arith, h.counted, ap bytes_of e))) ∙ x)
