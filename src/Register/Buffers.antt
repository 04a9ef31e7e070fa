-- ===== src/Register/Buffers.antt =====
-- Provided-buffer rings by their group.
use slipstream_io.Base.{
  ℕ, suc, ◌+◌, ◌-◌, ◌^◌, bit_and, ◌≡◌, refl, sym, ap, ◌∙◌, arith, ℤ, pos, true, false, not, ◌||◌,
  List, [], ◌∷◌, get_elem?, Option, none, some, ltb, ◌==◌, eq_refl, Bool-cases, Option-cases, inl,
  inr,
}
use mathlib.Core.Path.{subst}
use mathlib.Core.Option.{some-injective, none-ne-some}
use slipstream_io.Ring.{Ring, BufRing}
use slipstream_io.Fixed.{bufring_from, bufring_of}
use slipstream_io.Register.{
  BufReg, bufring_for, take_bufring, place_bufring, is_some, register_bufring,
}

-- Where the lookup finds the group's entry: past `k` others, at place `j` of the rest.
record Found (k bgid : ℕ) (bs : List BufRing) (b : BufRing) : Type 0 where
  pub place : ℕ
  pub found : bufring_from bs k bgid ≡ some (k + place)
  pub stands : get_elem? bs place ≡ some b

-- An entry put where there was none of its group is the one that the lookup finds.
take_bufring-Found :
    (new : BufRing) (bs bs' : List BufRing) (k : ℕ)
    → new.in_use ≡ true
    → bufring_from bs k new.bgid ≡ none
    → take_bufring new bs ≡ some bs'
    → Found k new.bgid bs' new
unfolding take_bufring bufring_from
take_bufring-Found new [] bs' k u f h = absurd (none-ne-some _ h)
take_bufring-Found new (b ∷ bs) bs' k u f h = elim (Bool-cases b.in_use) [
  | inl x ↦ elim (Bool-cases (b.bgid == new.bgid)) [
    | inl y ↦ absurd (none-ne-some _ (sym (rw (x, y) at f)))
    | inr y ↦ elim (Option-cases (take_bufring new bs)) [
      | inl n ↦ absurd (none-ne-some _ (rw (x, take_bufring, n) at h))
      | inr (cs, n) ↦
          let w = take_bufring-Found new bs cs (k + 1) u (rw (x, y) at f) n in
          subst (λ z. Found k new.bgid z new) (some-injective _ _ (rw (x, take_bufring, n) at h))
            (record {
              place = suc w.place;
              found = rw (x, y) (w.found ∙ ap some (omega arith));
              stands = w.stands;
            })
    ]
  ]
  | inr x ↦
      subst (λ z. Found k new.bgid z new) (some-injective _ _ (rw (x, take_bufring) at h))
        (record { place = 0; found = rw (u, eq_refl) (ap some (omega arith)); stands = refl })
]

-- The answer 0 comes with the group's entry.
abbrev Registered : BufReg → ℤ × Ring → Type 0
Registered reg (res, s) =
    res ≡ pos 0
    → (i : ℕ) × (bufring_of s reg.bgid ≡ some i) × (get_elem? s.bufrings i ≡ some (bufring_for reg))

place_bufring-Registered :
    (reg : BufReg) (r : Ring) (o : Option (List BufRing))
    → take_bufring (bufring_for reg) r.bufrings ≡ o
    → bufring_of r reg.bgid ≡ none
    → Registered reg (place_bufring r o)
unfolding place_bufring bufring_of
place_bufring-Registered reg r none e n = λ h. absurd (cc)
place_bufring-Registered reg r (some bs) e n = λ h.
    let w = take_bufring-Found (bufring_for reg) r.bufrings bs 0 refl n e in
    (w.place, w.found ∙ ap some (omega arith), w.stands)

none_of_is_some : (o : Option ℕ) → is_some o ≡ false → o ≡ none
none_of_is_some none h = refl
none_of_is_some (some i) h = absurd (cc)

register_bufring-Registered : (reg : BufReg) (r : Ring) → Registered reg (register_bufring reg r)
unfolding register_bufring
register_bufring-Registered reg r = elim (Bool-cases (not (reg.flags == 0) || reg.ring_addr == 0)) [
  | inl x ↦ rw x (λ h. absurd (cc))
  | inr x ↦
      elim (Bool-cases (
        reg.ring_entries == 0
        || not (bit_and reg.ring_entries (reg.ring_entries - 1) == 0)
        || ltb (2 ^ 15) reg.ring_entries)) [
          | inl y ↦ rw (x, y) (λ h. absurd (cc))
          | inr y ↦ elim (Bool-cases (is_some (bufring_of r reg.bgid))) [
            | inl z ↦ rw (x, y, z) (λ h. absurd (cc))
            | inr z ↦
                rw (x, y, z)
                  (place_bufring-Registered reg r (take_bufring (bufring_for reg) r.bufrings) refl
                    (none_of_is_some (bufring_of r reg.bgid) z))
          ]
        ]
]

-- A group that register answered 0 for is found: the lookup of its id gives the entry that holds its
-- address and its size, unread so far.
pub register_bufring-bufring_of :
    (reg : BufReg) (r s : Ring)
    → register_bufring reg r ≡ (pos 0, s)
    → (i : ℕ) × (bufring_of s reg.bgid ≡ some i) × (get_elem? s.bufrings i ≡ some (bufring_for reg))
register_bufring-bufring_of reg r s h =
    subst (Registered reg) h (register_bufring-Registered reg r) refl
