-- ===== src/Inotify/Own.antt =====
-- Lists of watches whose descriptors ascend.
use mathlib.Core.Path.{subst}
use mathlib.Core.Option.{some-injective, none-ne-some}
use slipstream_io.Base.{
  pick_true, pick_false, ℕ, zero, suc, ◌+◌, ◌≤◌, ◌<◌, ◌≡◌, refl, ap, arith, inl, inr, List, [], ◌∷◌,
  ◌++◌, Option, none, some, ◌==◌, Bool-cases, ==_iff,
}
use slipstream_io.Inotify.{Bytes, eq_bytes, Watch, Inst}
use slipstream_io.Inotify.Changes.{remove_at}
use slipstream_io.Inotify.Calls.{remask, watch_of_wd}

-- The descriptors stand in ascending order, from `lo` on and below `top`.
abbrev pub Ascend : ℕ → List Watch → ℕ → Type 0
Ascend lo [] top = lo ≤ top
Ascend lo (a ∷ rest) top = (lo ≤ a.wd) × Ascend (suc a.wd) rest top

-- Those of an instance are below the next one that it gives.
abbrev pub AreOwn : Inst → Type 0
AreOwn i = Ascend 0 i.watches i.next_wd

pub Ascend-lower :
    (lo lo' : ℕ) (as' : List Watch) (top : ℕ) → lo' ≤ lo → Ascend lo as' top → Ascend lo' as' top
Ascend-lower lo lo' [] top l h = omega (arith, l, h)
Ascend-lower lo lo' (a ∷ rest) top l (x, h) = (omega (arith, l, x), h)

pub Ascend-snoc :
    (lo : ℕ) (as' : List Watch) (a : Watch) (top : ℕ)
    → a.wd ≡ top
    → Ascend lo as' top
    → Ascend lo (as' ++ (a ∷ [])) (top + 1)
Ascend-snoc lo [] a top e h = (omega (arith, e, h), omega (arith, e))
Ascend-snoc lo (x ∷ rest) a top e (l, h) = (l, Ascend-snoc (suc x.wd) rest a top e h)

pub remove_at-Ascend :
    (at lo : ℕ) (as' : List Watch) (top : ℕ) → Ascend lo as' top → Ascend lo (remove_at at as') top
unfolding remove_at
remove_at-Ascend zero lo [] top h = h
remove_at-Ascend (suc at) lo [] top h = h
remove_at-Ascend zero lo (a ∷ rest) top (l, h) =
    Ascend-lower (suc a.wd) lo rest top (omega (arith, l)) h
remove_at-Ascend (suc at) lo (a ∷ rest) top (l, h) = (l, remove_at-Ascend at (suc a.wd) rest top h)

-- No watch has this descriptor.
abbrev pub IsGone : ℕ → List Watch → Type 0
IsGone wd as' = (at : ℕ) → watch_of_wd wd as' at ≡ none

watch_of_wd-below :
    (wd lo : ℕ) (as' : List Watch) (top : ℕ) → wd < lo → Ascend lo as' top → IsGone wd as'
unfolding watch_of_wd
watch_of_wd-below wd lo [] top b h at = refl
watch_of_wd-below wd lo (a ∷ rest) top b (l, h) at = elim (Bool-cases (a.wd == wd)) [
  | inl x ↦ absurd (omega (arith, b, l, (==_iff a.wd wd).0 x))
  | inr x ↦ rw (x, watch_of_wd-below wd (suc a.wd) rest top (omega (arith, b, l)) h (at + 1)) refl
]

-- The watch that was found, taken out: no other has its descriptor.
pub remove_at-IsGone :
    (wd lo base at : ℕ) (a : Watch) (as' : List Watch) (top : ℕ)
    → watch_of_wd wd as' base ≡ some (at, a)
    → Ascend lo as' top
    → (k : ℕ) × (at ≡ base + k) × IsGone wd (remove_at k as')
unfolding watch_of_wd remove_at
remove_at-IsGone wd lo base at a [] top e h = absurd (none-ne-some _ e)
remove_at-IsGone wd lo base at a (x ∷ rest) top e (l, h) = elim (Bool-cases (x.wd == wd)) [
  | inl y ↦
      let here : some (base, x) ≡ some (at, a) =
        subst (λ z. z ≡ some (at, a)) (pick_true _ _ _ y) e in
      (
        0,
        omega (arith, ap (λ (z : ℕ × Watch). z.0) (some-injective _ _ here)),
        watch_of_wd-below wd (suc x.wd) rest top (omega (arith, (==_iff x.wd wd).0 y)) h,
      )
  | inr y ↦
      let later : watch_of_wd wd rest (base + 1) ≡ some (at, a) =
        subst (λ z. z ≡ some (at, a)) (pick_false _ _ _ y) e in
      let (k, d, g) = remove_at-IsGone wd (suc x.wd) (base + 1) at a rest top later h in
      (suc k, omega (arith, d), λ n. rw (y, g (n + 1)) refl)
]

-- The watch of a path takes a mask and keeps its descriptor.
abbrev pub RemaskedAscend : ℕ → ℕ → Option (ℕ × List Watch) → Type 0
RemaskedAscend lo top none = Unit
RemaskedAscend lo top (some (wd, as')) = Ascend lo as' top

pub remask-Ascend :
    (path : Bytes) (mask lo : ℕ) (as' : List Watch) (top : ℕ)
    → Ascend lo as' top
    → RemaskedAscend lo top (remask path mask as')
unfolding remask
remask-Ascend path mask lo [] top h = tt
remask-Ascend path mask lo (a ∷ rest) top (l, h) = elim (Bool-cases (eq_bytes a.path path)) [
  | inl x ↦ rw (x, remask) (l, h)
  | inr x ↦
      rw (x, remask)
        (behind (remask path mask rest) (remask-Ascend path mask (suc a.wd) rest top h))
]
  where
    behind :
        (o : Option (ℕ × List Watch))
        → RemaskedAscend (suc a.wd) top o
        → RemaskedAscend lo top (elim o [ none ↦ none | some (wd, rest') ↦ some (wd, a ∷ rest') ])
    behind none k = tt
    behind (some (wd, rest')) k = (l, k)
