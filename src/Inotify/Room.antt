-- ===== src/Inotify/Room.antt =====
-- The queue of an instance stays within its bound and within its memory, whatever is reported.
use slipstream_io.Base.{
  if_both, two_pow-pos, ℕ, zero, suc, ◌+◌, ◌*◌, ◌^◌, bit_and, bit_or, ◌≤◌, ◌<◌, ◌≡◌, refl, arith,
  Bool, true, false, List, [], ◌∷◌, ◌++◌, length, Option, none, some, ltb, ◌==◌, ltb→lt,
  ltb_false→le, Bool-cases, ◌⊎◌, inl, inr, ==_iff,
}
use slipstream_io.Inotify.{Bytes, Event, event_size, Watch, Inst, Kq}
use slipstream_io.Inotify.Queue.{
  queue_max, name_len, size_of, doubled, grown, record_of, overflow_record, overflow, push, always,
  bytes_of, push_grown, emit, emit_masked,
}

-- The sizes that the queue's memory takes: nothing, or 4096 bytes doubled some times, up to the bound.
abbrev pub IsCap : ℕ → Type 0
IsCap c = (c ≡ 0) ⊎ ((k : ℕ) × (k ≤ 8) × (c ≡ 4096 * 2 ^ k))

-- `qlen` counts the bytes of the records, which stand in the memory that the queue has.
pub record HasRoom (i : Inst) : Type 0 where
  pub counted : i.qlen ≡ bytes_of i.queue
  pub bounded : i.qlen ≤ queue_max
  pub inside : i.qlen ≤ i.qcap
  pub cap : IsCap i.qcap

pub bytes_of-append : (xs ys : List Event) → bytes_of (xs ++ ys) ≡ bytes_of xs + bytes_of ys
bytes_of-append [] ys = omega arith
bytes_of-append (x ∷ xs) ys = omega (arith, bytes_of-append xs ys)

-- A name as a directory can hold it.
abbrev pub IsName : Option Bytes → Type 0
IsName none = Unit
IsName (some name) = length name ≤ 255

name_len-le : (name : Option Bytes) → IsName name → name_len name ≤ 256
name_len-le none h = omega arith
name_len-le (some name) h = omega (arith, h)

-- The memory that holds nearly all of the bound is as large as the bound.
full_cap : (k c n : ℕ) → k ≤ 8 → c ≡ 4096 * 2 ^ k → n ≤ c → 2 ^ 19 < n → c ≡ 2 ^ 20
full_cap zero c n h e a b = absurd (omega (arith, e, a, b))
full_cap (suc zero) c n h e a b = absurd (omega (arith, e, a, b))
full_cap (suc (suc zero)) c n h e a b = absurd (omega (arith, e, a, b))
full_cap (suc (suc (suc zero))) c n h e a b = absurd (omega (arith, e, a, b))
full_cap (suc (suc (suc (suc zero)))) c n h e a b = absurd (omega (arith, e, a, b))
full_cap (suc (suc (suc (suc (suc zero))))) c n h e a b = absurd (omega (arith, e, a, b))
full_cap (suc (suc (suc (suc (suc (suc zero)))))) c n h e a b = absurd (omega (arith, e, a, b))
full_cap (suc (suc (suc (suc (suc (suc (suc zero))))))) c n h e a b =
    absurd (omega (arith, e, a, b))
full_cap (suc (suc (suc (suc (suc (suc (suc (suc zero)))))))) c n h e a b = e
full_cap (suc (suc (suc (suc (suc (suc (suc (suc (suc k))))))))) c n h e a b =
    absurd (omega (arith, h))

-- A step of the doubling stays among the sizes while it is below what the bound allows.
next_cap :
    (k c n : ℕ)
    → k ≤ 8
    → c ≡ 4096 * 2 ^ k
    → c < n
    → n ≤ queue_max
    → (suc k ≤ 8) × (c * 2 ≡ 4096 * 2 ^ suc k)
next_cap zero c n h e a b = (omega arith, omega (arith, e))
next_cap (suc zero) c n h e a b = (omega arith, omega (arith, e))
next_cap (suc (suc zero)) c n h e a b = (omega arith, omega (arith, e))
next_cap (suc (suc (suc zero))) c n h e a b = (omega arith, omega (arith, e))
next_cap (suc (suc (suc (suc zero)))) c n h e a b = (omega arith, omega (arith, e))
next_cap (suc (suc (suc (suc (suc zero))))) c n h e a b = (omega arith, omega (arith, e))
next_cap (suc (suc (suc (suc (suc (suc zero)))))) c n h e a b = (omega arith, omega (arith, e))
next_cap (suc (suc (suc (suc (suc (suc (suc zero))))))) c n h e a b =
    (omega arith, omega (arith, e))
next_cap (suc (suc (suc (suc (suc (suc (suc (suc zero)))))))) c n h e a b =
    absurd (omega (arith, e, a, b))
next_cap (suc (suc (suc (suc (suc (suc (suc (suc (suc k))))))))) c n h e a b =
    absurd (omega (arith, h))

-- The doubling ends with room for the record, in one of the sizes.
doubled-fits :
    (f k want need : ℕ)
    → k ≤ 8
    → want ≡ 4096 * 2 ^ k
    → need ≤ queue_max
    → need ≤ f + want
    → (need ≤ doubled f want need) × IsCap (doubled f want need)
unfolding doubled
doubled-fits zero k want need h e b l = (omega (arith, l), inr (k, h, e))
doubled-fits (suc f) k want need h e b l = elim (Bool-cases (ltb want need)) [
  | inr x ↦ rw (x, doubled) (ltb_false→le want need x, inr (k, h, e))
  | inl x ↦
      let a = ltb→lt want need x in
      let (h', e') = next_cap k want need h e a b in
      rw (x, doubled)
        (doubled-fits f (suc k) (want * 2) need h' e' b (omega (arith, l, a, e, two_pow-pos k)))
]

grown-fits :
    (qcap need : ℕ)
    → IsCap qcap
    → qcap < need
    → need ≤ queue_max
    → (need ≤ grown qcap need) × IsCap (grown qcap need)
grown-fits qcap need (inl e) a b =
    rw e (doubled-fits need 0 4096 need (omega arith) refl b (omega arith))
grown-fits qcap need (inr (k, h, e)) a b =
    let (h', e') = next_cap k qcap need h e a b in
    elim (Bool-cases (qcap == 0)) [
      | inl z ↦
          let zeroed : qcap ≡ 0 = (==_iff qcap 0).0 z in
          rw zeroed (doubled-fits need 0 4096 need (omega arith) refl b (omega arith))
      | inr z ↦ rw z (doubled-fits need (suc k) (qcap * 2) need h' e' b (omega arith))
    ]

-- A record that fits the bound and the memory.
push-HasRoom :
    (i : Inst) (ev : Event)
    → HasRoom i
    → i.qlen + size_of ev ≤ queue_max
    → i.qlen + size_of ev ≤ i.qcap
    → HasRoom (push i ev)
unfolding push
push-HasRoom i ev h a b = record {
  counted = omega (arith, h.counted, bytes_of-append i.queue (ev ∷ []));
  bounded = a;
  inside = b;
  cap = h.cap;
}

-- Where a record does not fit the bound any more the memory is as large as the bound, so that the overflow
-- record, which is written without a look at the memory, stands inside it.
overflow-HasRoom : (i : Inst) → HasRoom i → 2 ^ 19 < i.qlen → HasRoom (overflow i)
unfolding overflow
overflow-HasRoom i h a =
    if_both HasRoom i.overflowed _ _ h (elim (Bool-cases (ltb queue_max (i.qlen + event_size))) [
      | inl y ↦ rw y h
      | inr y ↦
          let b = ltb_false→le queue_max (i.qlen + event_size) y in
          rw y (record {
            counted = omega (arith, h.counted, bytes_of-append i.queue (overflow_record ∷ []));
            bounded = b;
            inside = omega (arith, b, full i.qcap h.cap h.inside);
            cap = h.cap;
          })
    ])
  where
    full : (c : ℕ) → IsCap c → i.qlen ≤ c → c ≡ 2 ^ 20
    full c (inl e) l = absurd (omega (arith, e, l, a))
    full c (inr (k, p, e)) l = full_cap k c i.qlen p e l a

module _ {W : Type 0} (sys : Kq W) where
  push_grown-HasRoom :
      (i : Inst) (ev : Event) (want : ℕ) (x : Bool × W)
      → HasRoom i
      → i.qlen + size_of ev ≤ queue_max
      → i.qlen + size_of ev ≤ want
      → IsCap want
      → HasRoom (push_grown sys i ev want x).0
  unfolding push_grown
  push_grown-HasRoom i ev want (false, w) h a b c = h
  push_grown-HasRoom i ev want (true, w) h a b c =
      push-HasRoom (record i { qcap = want }) ev
        (record { counted = h.counted; bounded = h.bounded; inside = omega (arith, b); cap = c }) a
        b

  -- Reporting an event, whether it fits, makes the queue grow, finds no memory or overflows, keeps the
  -- queue within 2^20 bytes and inside its memory, and `qlen` its length, if the name has at most 255
  -- bytes.
  pub emit-HasRoom :
      (wd mask cookie : ℕ) (name : Option Bytes) (s : Inst × W)
      → IsName name
      → HasRoom s.0
      → HasRoom (emit sys wd mask cookie name s).0
  unfolding emit
  emit-HasRoom wd mask cookie name (i, w) n h =
      let short = name_len-le name n in
      elim (Bool-cases (ltb queue_max (i.qlen + (event_size + name_len name)))) [
        | inl x ↦ rw x (
            overflow-HasRoom i h
              (omega (arith, short, ltb→lt queue_max (i.qlen + (event_size + name_len name)) x)))
        | inr x ↦
            let a = ltb_false→le queue_max (i.qlen + (event_size + name_len name)) x in
            elim (Bool-cases (ltb i.qcap (i.qlen + (event_size + name_len name)))) [
              | inl y ↦
                  let (b, c) =
                    grown-fits i.qcap (i.qlen + (event_size + name_len name)) h.cap
                      (ltb→lt i.qcap (i.qlen + (event_size + name_len name)) y) a in
                  rw (x, y) (push_grown-HasRoom i (record_of wd mask cookie name) _ _ h a b c)
              | inr y ↦
                  rw (x, y)
                    (push-HasRoom i (record_of wd mask cookie name) h a
                      (ltb_false→le i.qcap (i.qlen + (event_size + name_len name)) y))
            ]
      ]

  pub emit_masked-HasRoom :
      (a : Watch) (mask cookie : ℕ) (name : Option Bytes) (isdir : Bool) (s : Inst × W)
      → IsName name
      → HasRoom s.0
      → HasRoom (emit_masked sys a mask cookie name isdir s).0
  unfolding emit_masked
  emit_masked-HasRoom a mask cookie name isdir s n h =
      elim (Bool-cases (bit_and mask (bit_or a.mask always) == 0)) [
        | inl x ↦ rw x h
        | inr x ↦ rw x (emit-HasRoom a.wd _ cookie name s n h)
      ]
