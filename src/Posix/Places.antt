-- ===== src/Posix/Places.antt =====
-- Places in the parked set: who stands where, and how many of its ops a test names.
use mathlib.Core.Option.{some-injective, none-ne-some}
use slipstream_io.Base.{
  ◌==◌, if◌then◌else◌, ℕ, zero, suc, ◌+◌, ◌≤◌, ◌<◌, ◌≡◌, refl, sym, ap, ◌∙◌, arith, Bool, List, [],
  ◌∷◌, length, get_elem?, set, take, count, some, Bool-cases, inl, inr, dec_lt,
}

-- Where an op that is in a list stands.
pub place_of : (xs : List ℕ) (p : ℕ) → 0 < count p xs → (k : ℕ) × (get_elem? xs k ≡ some p)
place_of [] p n = elim n [ ]
place_of (x ∷ xs) p n = elim (Bool-cases (p == x)) [
  | inl e ↦ (0, ap some (ground arith))
  | inr e ↦ let (k, g) = place_of xs p (ground (arith, n, e)) in (suc k, g)
]

-- How many of these ops `f` names.
abbrev pub tally : (ℕ → Bool) → List ℕ → ℕ
tally f [] = 0
tally f (p ∷ ps) = (if f p then 1 else 0) + tally f ps

pub count-tally : (x : ℕ) (ps : List ℕ) → count x ps ≡ tally (λ q. x == q) ps
count-tally x [] = refl
count-tally x (p ∷ ps) = omega (arith, count-tally x ps)

pub tally-take_last :
    (f : ℕ → Bool) (m : ℕ) (xs : List ℕ) (l : ℕ)
    → length xs ≡ suc m
    → get_elem? xs m ≡ some l
    → tally f (take m xs) + tally f (l ∷ []) ≡ tally f xs
tally-take_last f m [] l e g = absurd (none-ne-some _ g)
tally-take_last f zero (y ∷ []) l e g =
    omega (arith, ap (λ z. tally f (z ∷ [])) (some-injective _ _ g))
tally-take_last f zero (y ∷ (z ∷ zs)) l e g = absurd (omega (arith, e))
tally-take_last f (suc m) (y ∷ ys) l e g =
    omega (arith, tally-take_last f m ys l (omega (arith, e)) g)

pub tally-set :
    (f : ℕ → Bool) (xs : List ℕ) (i p v : ℕ)
    → get_elem? xs i ≡ some p
    → tally f (set xs i v) + tally f (p ∷ []) ≡ tally f xs + tally f (v ∷ [])
tally-set f [] i p v g = absurd (none-ne-some _ g)
tally-set f (y ∷ ys) zero p v g = omega (arith, ap (λ z. tally f (z ∷ [])) (some-injective _ _ g))
tally-set f (y ∷ ys) (suc i) p v g = omega (arith, tally-set f ys i p v g)

pub set_past : (xs : List ℕ) (i v : ℕ) → length xs ≤ i → set xs i v ≡ xs
set_past [] i v h = refl
set_past (y ∷ ys) zero v h = absurd (omega (arith, h))
set_past (y ∷ ys) (suc i) v h = ap (λ zs. y ∷ zs) (set_past ys i v (omega (arith, h)))

pub get_elem?-take_lt :
    (m : ℕ) (xs : List ℕ) (k : ℕ) → k < m → get_elem? (take m xs) k ≡ get_elem? xs k
get_elem?-take_lt zero xs k h = absurd (omega (arith, h))
get_elem?-take_lt (suc m) [] k h = refl
get_elem?-take_lt (suc m) (y ∷ ys) zero h = refl
get_elem?-take_lt (suc m) (y ∷ ys) (suc k) h = get_elem?-take_lt m ys k (omega (arith, h))

pub length-take_le : (m : ℕ) (xs : List ℕ) → length (take m xs) ≤ m
length-take_le zero xs = omega arith
length-take_le (suc m) [] = omega arith
length-take_le (suc m) (y ∷ ys) = omega (arith, length-take_le m ys)

pub length-take : (m : ℕ) (xs : List ℕ) → m ≤ length xs → length (take m xs) ≡ m
length-take zero xs h = refl
length-take (suc m) [] h = absurd (omega (arith, h))
length-take (suc m) (y ∷ ys) h = ap suc (length-take m ys (omega (arith, h)))

-- The swap with the last place takes one op out, and no other.
pub tally-swap :
    (f : ℕ → Bool) (m : ℕ) (xs : List ℕ) (i p l : ℕ)
    → length xs ≡ suc m
    → i < suc m
    → get_elem? xs i ≡ some p
    → get_elem? xs m ≡ some l
    → tally f (set (take m xs) i l) + tally f (p ∷ []) ≡ tally f xs
tally-swap f m xs i p l e h g last = elim (dec_lt i m) [
  | yes a ↦ omega (
    arith,
    tally-set f (take m xs) i p l (get_elem?-take_lt m xs i a ∙ g),
    tally-take_last f m xs l e last,
  )
  | no a ↦
      let at_end : i ≡ m = omega arith in
      let same : l ≡ p = some-injective _ _ (sym last ∙ ap (get_elem? xs) (sym at_end) ∙ g) in
      omega (
        arith,
        ap (tally f) (set_past (take m xs) i l (omega (arith, length-take_le m xs))),
        ap (λ z. tally f (z ∷ [])) same,
        tally-take_last f m xs l e last,
      )
]

pub count-swap :
    (m : ℕ) (xs : List ℕ) (i p l x : ℕ)
    → length xs ≡ suc m
    → i < suc m
    → get_elem? xs i ≡ some p
    → get_elem? xs m ≡ some l
    → count x (set (take m xs) i l) + count x (p ∷ []) ≡ count x xs
count-swap m xs i p l x e h g last = omega (
  arith,
  tally-swap (λ q. x == q) m xs i p l e h g last,
  count-tally x (set (take m xs) i l),
  count-tally x xs,
)

pub length_of :
    (xs : List ℕ) (k x : ℕ) → get_elem? xs k ≡ some x → (m : ℕ) × (length xs ≡ suc m) × (k < suc m)
length_of [] k x g = absurd (none-ne-some _ g)
length_of (y ∷ ys) zero x g = (length ys, refl, omega arith)
length_of (y ∷ ys) (suc k) x g =
    let (m, e, l) = length_of ys k x g in (suc m, omega (arith, e), omega (arith, l))

pub last_of : (m : ℕ) (xs : List ℕ) → length xs ≡ suc m → (l : ℕ) × (get_elem? xs m ≡ some l)
last_of m [] e = absurd (omega (arith, e))
last_of zero (y ∷ ys) e = (y, refl)
last_of (suc m) (y ∷ ys) e = last_of m ys (omega (arith, e))
