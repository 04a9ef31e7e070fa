-- ===== src/Epoll/Table.antt =====
-- The table by descriptor: what a write to it and its growth leave alone.
use mathlib.Core.Option.{some-injective, none-ne-some}
use slipstream_io.Base.{
  ℕ, zero, suc, ◌+◌, ◌-◌, ◌*◌, ◌≤◌, ◌<◌, ◌≡◌, ◌≢◌, refl, ap, arith, ℤ, pos, negsuc, Bool, true,
  false, List, [], ◌∷◌, ◌++◌, length, length-append, Option, some, leb, ◌==◌, if◌then◌else◌,
  leb_false→lt, Bool-cases, inl, inr, ==_iff,
}
use slipstream_io.Epoll.{EpFd, zero_fd, zeros, Ep, wanted, slot_of, put_slot, grown_by, ep_slot}

pub slot_of-put_slot :
    (fds : List EpFd) (i : ℕ) (s : EpFd) → i < length fds → slot_of (put_slot fds i s) i ≡ s
unfolding put_slot
slot_of-put_slot [] i s h = absurd (omega (arith, h))
slot_of-put_slot (x ∷ xs) zero s h = refl
slot_of-put_slot (x ∷ xs) (suc i) s h = slot_of-put_slot xs i s (omega (arith, h))

pub slot_of-put_slot_off :
    (fds : List EpFd) (i k : ℕ) (s : EpFd) → i ≢ k → slot_of (put_slot fds i s) k ≡ slot_of fds k
unfolding put_slot
slot_of-put_slot_off [] i k s n = refl
slot_of-put_slot_off (x ∷ xs) zero zero s n = absurd (n refl)
slot_of-put_slot_off (x ∷ xs) zero (suc k) s n = refl
slot_of-put_slot_off (x ∷ xs) (suc i) zero s n = refl
slot_of-put_slot_off (x ∷ xs) (suc i) (suc k) s n =
    slot_of-put_slot_off xs i k s (λ e. n (ap suc e))

pub length-put_slot : (fds : List EpFd) (i : ℕ) (s : EpFd) → length (put_slot fds i s) ≡ length fds
unfolding put_slot
length-put_slot [] i s = refl
length-put_slot (x ∷ xs) zero s = refl
length-put_slot (x ∷ xs) (suc i) s = ap suc (length-put_slot xs i s)

length-zeros : (n : ℕ) → length (zeros n) ≡ n
length-zeros zero = refl
length-zeros (suc n) = ap suc (length-zeros n)

slot_of-zeros : (n k : ℕ) → slot_of (zeros n) k ≡ zero_fd
slot_of-zeros zero k = refl
slot_of-zeros (suc n) zero = refl
slot_of-zeros (suc n) (suc k) = slot_of-zeros n k

slot_of-append : (fds : List EpFd) (n k : ℕ) → slot_of (fds ++ zeros n) k ≡ slot_of fds k
slot_of-append [] n k = slot_of-zeros n k
slot_of-append (x ∷ xs) n zero = refl
slot_of-append (x ∷ xs) n (suc k) = slot_of-append xs n k

-- The doubling ends with room for the descriptor, and never shrinks.
wanted-fits :
    (f want fd : ℕ) → 0 < want → fd < f + want → (fd < wanted f want fd) × (want ≤ wanted f want fd)
unfolding wanted
wanted-fits zero want fd a b = (omega (arith, b), omega arith)
wanted-fits (suc f) want fd a b = elim (Bool-cases (leb want fd)) [
  | inr x ↦ rw (x, wanted) (leb_false→lt want fd x, omega arith)
  | inl x ↦
      let (c, d) = wanted-fits f (want * 2) fd (omega (arith, a)) (omega (arith, a, b)) in
      rw (x, wanted) (c, omega (arith, d))
]

-- What a look for a descriptor's place leaves: where it gives one, that is the descriptor's own, inside the
-- table; and no entry has changed.
pub record IsPlaced (fd : ℤ) (fds : List EpFd) (o : Option ℕ) (fds' : List EpFd) : Type 0 where
  pub own : (i : ℕ) → o ≡ some i → (fd ≡ pos i) × (i < length fds')
  pub kept : (k : ℕ) → slot_of fds' k ≡ slot_of fds k

module _ {V : Type 0} (sys : Ep V) where
  grown_by-IsPlaced :
      (fds : List EpFd) (want fd : ℕ) (x : Bool × V)
      → fd < want
      → length fds ≤ want
      → IsPlaced (pos fd) fds (grown_by sys fds want fd x).0 (grown_by sys fds want fd x).1.0
  grown_by-IsPlaced fds want fd (false, v) a b = record {
    own = λ i e. absurd (none-ne-some _ e);
    kept = λ k. refl;
  }
  grown_by-IsPlaced fds want fd (true, v) a b = record {
    own = λ i e. (
      ap pos (some-injective _ _ e),
      omega (
        arith,
        a,
        b,
        some-injective _ _ e,
        length-append fds (zeros (want - length fds)),
        length-zeros (want - length fds),
      ),
    );
    kept = λ k. slot_of-append fds (want - length fds) k;
  }

  -- Looking for a descriptor's place, whether the table has it, grows or cannot: the place is inside the
  -- table and the descriptor's own, what was in the table is as it was, and what was not is zero.
  pub ep_slot-IsPlaced :
      (fd : ℤ) (fds : List EpFd) (v : V)
      → IsPlaced fd fds (ep_slot sys fd (fds, v)).0 (ep_slot sys fd (fds, v)).1.0
  unfolding ep_slot
  ep_slot-IsPlaced (negsuc n) fds v = record {
    own = λ i e. absurd (none-ne-some _ e);
    kept = λ k. refl;
  }
  ep_slot-IsPlaced (pos fd) fds v = elim (Bool-cases (leb (length fds) fd)) [
    | inr x ↦ rw x (record {
      own = λ i e. (
        ap pos (some-injective _ _ e),
        omega (arith, some-injective _ _ e, leb_false→lt (length fds) fd x),
      );
      kept = λ k. refl;
    })
    | inl x ↦
        let start = if length fds == 0 then 64 else length fds in
        let above : (length fds ≤ start) × (0 < start) = elim (Bool-cases (length fds == 0)) [
          | inl z ↦ rw z (omega (arith, (==_iff (length fds) 0).0 z), omega arith)
          | inr z ↦ rw z (omega arith, ground (arith, z))
        ] in
        let (a, b) = wanted-fits (suc fd) start fd above.1 (omega arith) in
        rw x (grown_by-IsPlaced fds (wanted (suc fd) start fd) fd _ a (omega (arith, b, above.0)))
  ]
