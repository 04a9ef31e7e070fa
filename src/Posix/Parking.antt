-- ===== src/Posix/Parking.antt =====
-- Every parked op knows its place in the set, whatever is parked and unparked.
use slipstream_io.Base.{
  ℕ, zero, suc, ◌-◌, ◌≤◌, ◌<◌, ◌≡◌, ◌≢◌, refl, sym, ap, ◌∙◌, arith, Bool, true, false, not, ◌||◌,
  List, [], ◌∷◌, ◌++◌, length, get_elem?, set, take, count, Option, none, some, leb, leb_false→lt,
  eq_refl, update_at, update_off, Bool-cases, ◌⊎◌, inl, inr, length-set,
}
use mathlib.Core.Option.{some-injective, none-ne-some}
use slipstream_io.Ring.{Ring}
use slipstream_io.Posix.{waits_at, swap_last, park_armed, park, unpark}

-- The op at place `k` of the set says so itself.
abbrev pub PlacesAreKnown : Ring → Type 0
PlacesAreKnown r = (k q : ℕ) → get_elem? r.waiting k ≡ some q → (r.ops q).wait_slot ≡ k

pub get_elem?-take :
    (m : ℕ) (xs : List ℕ) (k x : ℕ)
    → get_elem? (take m xs) k ≡ some x
    → (k < m) × (get_elem? xs k ≡ some x)
get_elem?-take zero xs k x h = absurd (none-ne-some _ h)
get_elem?-take (suc m) [] k x h = absurd (none-ne-some _ h)
get_elem?-take (suc m) (y ∷ ys) zero x h = (omega arith, h)
get_elem?-take (suc m) (y ∷ ys) (suc k) x h =
    let (a, b) = get_elem?-take m ys k x h in (omega arith, b)

get_elem?-snoc :
    (xs : List ℕ) (p k x : ℕ)
    → get_elem? (xs ++ (p ∷ [])) k ≡ some x
    → (get_elem? xs k ≡ some x) ⊎ ((k ≡ length xs) × (p ≡ x))
get_elem?-snoc [] p zero x h = inr (refl, some-injective _ _ h)
get_elem?-snoc [] p (suc k) x h = absurd (none-ne-some _ h)
get_elem?-snoc (y ∷ ys) p zero x h = inl h
get_elem?-snoc (y ∷ ys) p (suc k) x h = elim (get_elem?-snoc ys p k x h) [
  | inl a ↦ inl a
  | inr (a, b) ↦ inr (omega (arith, a), b)
]

pub get_elem?-set :
    (xs : List ℕ) (i v k x : ℕ)
    → get_elem? (set xs i v) k ≡ some x
    → ((k ≡ i) × (v ≡ x)) ⊎ ((k ≢ i) × (get_elem? xs k ≡ some x))
get_elem?-set [] i v k x h = absurd (none-ne-some _ h)
get_elem?-set (y ∷ ys) zero v zero x h = inl (refl, some-injective _ _ h)
get_elem?-set (y ∷ ys) zero v (suc k) x h = inr ((λ e. omega (arith, e)), h)
get_elem?-set (y ∷ ys) (suc i) v zero x h = inr ((λ e. omega (arith, e)), h)
get_elem?-set (y ∷ ys) (suc i) v (suc k) x h = elim (get_elem?-set ys i v k x h) [
  | inl (a, b) ↦ inl (ap suc a, b)
  | inr (a, b) ↦ inr ((λ e. a (omega (arith, e))), b)
]

pub count-get_elem? : (xs : List ℕ) (k x : ℕ) → get_elem? xs k ≡ some x → 0 < count x xs
count-get_elem? [] k x h = absurd (none-ne-some _ h)
count-get_elem? (y ∷ ys) zero x h = rw (some-injective _ _ h, eq_refl) (omega arith)
count-get_elem? (y ∷ ys) (suc k) x h = omega (arith, count-get_elem? ys k x h)

lt→leb_false : (a c : ℕ) → c < a → leb a c ≡ false
lt→leb_false a c h = ground arith

pub true-ne-false : true ≡ false → ⊥
true-ne-false e = absurd (cc)

pub get_elem?-lt : (xs : List ℕ) (k x : ℕ) → get_elem? xs k ≡ some x → k < length xs
get_elem?-lt [] k x h = absurd (none-ne-some _ h)
get_elem?-lt (y ∷ ys) zero x h = omega arith
get_elem?-lt (y ∷ ys) (suc k) x h = omega (arith, get_elem?-lt ys k x h)

pub get_elem?-none : (xs : List ℕ) (k : ℕ) → get_elem? xs k ≡ none → length xs ≤ k
get_elem?-none [] k h = omega arith
get_elem?-none (y ∷ ys) zero h = absurd (none-ne-some _ (sym h))
get_elem?-none (y ∷ ys) (suc k) h = omega (arith, get_elem?-none ys k h)

-- A parked op whose place is known is found there.
pub parked_test :
    (r : Ring) (p i k : ℕ)
    → i ≡ k
    → get_elem? r.waiting k ≡ some p
    → (leb (length r.waiting) i || not (waits_at r i p)) ≡ false
parked_test r p i k e g =
    rw (e, lt→leb_false _ _ (get_elem?-lt r.waiting k p g), waits_at, g, eq_refl)

length-take : (m : ℕ) (xs : List ℕ) → length (take m xs) ≤ m
length-take zero xs = omega arith
length-take (suc m) [] = omega arith
length-take (suc m) (y ∷ ys) = omega (arith, length-take m ys)

or_left : (a c : Bool) → (a || c) ≡ false → a ≡ false
or_left a c h = ground arith

module _ {W : Type 0} (arm : Ring → ℕ → W → Bool × W) (disarm : Ring → ℕ → W → W) where
  pub park_armed-PlacesAreKnown :
      (r : Ring) (p : ℕ) (x : Bool × W)
      → count p r.waiting ≡ 0
      → PlacesAreKnown r
      → PlacesAreKnown (park_armed arm disarm r p x).1
  unfolding park_armed
  park_armed-PlacesAreKnown r p (false, w) n h k q g = h k q g
  park_armed-PlacesAreKnown r p (true, w) n h k q g = elim (get_elem?-snoc r.waiting p k q g) [
    | inl a ↦
        ap (λ o. o.wait_slot)
          (update_off r.ops (record (r.ops p) { wait_slot = length r.waiting })
            (λ e.
              absurd
                (omega (arith, n, count-get_elem? r.waiting k q a, ap (λ z. count z r.waiting) e))))
        ∙ h k q a
    | inr (a, b) ↦
        ap (λ o. o.wait_slot)
          (update_at r.ops (record (r.ops p) { wait_slot = length r.waiting }) b)
        ∙ sym a
  ]

  pub swap_last-PlacesAreKnown :
      (r : Ring) (i q : ℕ)
      → i < length r.waiting
      → get_elem? r.waiting (length r.waiting - 1) ≡ some q
      → PlacesAreKnown r
      → PlacesAreKnown (swap_last r i (some q))
  unfolding swap_last
  swap_last-PlacesAreKnown r i q l last h k x g =
      elim (get_elem?-set (take (length r.waiting - 1) r.waiting) i q k x g) [
        | inl (a, b) ↦
            ap (λ o. o.wait_slot) (update_at r.ops (record (r.ops q) { wait_slot = i }) b) ∙ sym a
        | inr (a, b) ↦
            let (m, c) = get_elem?-take (length r.waiting - 1) r.waiting k x b in
            ap (λ o. o.wait_slot)
              (update_off r.ops (record (r.ops q) { wait_slot = i })
                (λ e. omega (
                  arith,
                  m,
                  h k x c,
                  h (length r.waiting - 1) q last,
                  ap (λ z. (r.ops z).wait_slot) e,
                )))
            ∙ h k x c
      ]

  -- Parking an op that is not parked yet keeps every place known, whether the backend arms it or not.
  pub park-PlacesAreKnown :
      (r : Ring) (p : ℕ) (w : W)
      → count p r.waiting ≡ 0
      → PlacesAreKnown r
      → PlacesAreKnown (park arm disarm r p w).1
  unfolding park
  park-PlacesAreKnown r p w n h = elim (Bool-cases (leb r.op_pool_n (length r.waiting))) [
    | inl x ↦ rw x h
    | inr x ↦ rw x (park_armed-PlacesAreKnown r p (arm r p w) n h)
  ]

  -- Unparking keeps every place known: the op that takes over the free place is told, and an op that
  -- is not parked leaves the set alone.
  pub unpark-PlacesAreKnown :
      (r : Ring) (p : ℕ) (w : W) → PlacesAreKnown r → PlacesAreKnown (unpark arm disarm r p w).0
  unfolding unpark swap_last
  unpark-PlacesAreKnown r p w h =
      elim (Bool-cases
        (leb (length r.waiting) (r.ops p).wait_slot || not (waits_at r (r.ops p).wait_slot p))) [
          | inl x ↦ rw x h
          | inr x ↦ rw x (
              moved (get_elem? r.waiting (length r.waiting - 1)) refl
                (leb_false→lt _ _ (or_left _ _ x)))
        ]
    where
      moved :
          (o : Option ℕ)
          → get_elem? r.waiting (length r.waiting - 1) ≡ o
          → (r.ops p).wait_slot < length r.waiting
          → PlacesAreKnown (swap_last r (r.ops p).wait_slot o)
      moved none e l = h
      moved (some q) e l = swap_last-PlacesAreKnown r (r.ops p).wait_slot q l e h

  -- Where the op took the last place out, it stands in none of those that are left.
  swap_last-gone :
      (r : Ring) (p q : ℕ)
      → get_elem? r.waiting (length r.waiting - 1) ≡ some q
      → PlacesAreKnown r
      → (k : ℕ) → get_elem? (swap_last r (r.ops p).wait_slot (some q)).waiting k ≢ some p
  unfolding swap_last
  swap_last-gone r p q last h k g =
      elim (get_elem?-set (take (length r.waiting - 1) r.waiting) (r.ops p).wait_slot q k p g) [
        | inl (a, b) ↦ omega (
          arith,
          a,
          h (length r.waiting - 1) q last,
          ap (λ z. (r.ops z).wait_slot) b,
          get_elem?-lt _ k p g,
          length-set (take (length r.waiting - 1) r.waiting) (r.ops p).wait_slot q,
          length-take (length r.waiting - 1) r.waiting,
        )
        | inr (a, b) ↦
            let (m, c) = get_elem?-take (length r.waiting - 1) r.waiting k p b in a (sym (h k p c))
      ]

  -- After an unpark the op stands nowhere in the set, whether it was parked before or not, if every
  -- place is known.
  pub unpark-gone :
      (r : Ring) (p : ℕ) (w : W)
      → PlacesAreKnown r
      → (k : ℕ) → get_elem? (unpark arm disarm r p w).0.waiting k ≢ some p
  unfolding unpark swap_last
  unpark-gone r p w h k =
      elim (Bool-cases
        (leb (length r.waiting) (r.ops p).wait_slot || not (waits_at r (r.ops p).wait_slot p))) [
          | inl x ↦ rw x (λ g. absurd (true-ne-false (sym x ∙ parked_test r p _ k (h k p g) g)))
          | inr x ↦ rw x (moved (get_elem? r.waiting (length r.waiting - 1)) refl)
        ]
    where
      moved :
          (o : Option ℕ)
          → get_elem? r.waiting (length r.waiting - 1) ≡ o
          → get_elem? (swap_last r (r.ops p).wait_slot o).waiting k ≢ some p
      moved none e = λ g. omega (arith, get_elem?-none r.waiting _ e, get_elem?-lt r.waiting k p g)
      moved (some q) e = swap_last-gone r p q e h k
