-- ===== src/Posix/Execute/Ready.antt =====
-- `slip_posix_finish_ready`: who holds the ops after it.
use slipstream_io.Base.{
  ℕ, zero, suc, ◌+◌, ◌≤◌, ◌<◌, ◌≡◌, ap, arith, ℤ, Bool, true, false, List, [], ◌∷◌, ◌++◌, length,
  count, count-append, Option, none, some, eq_refl,
}
use slipstream_io.Ring.{Ring}
use slipstream_io.Backend.{slots}
use slipstream_io.Posix.{park, unpark}
use slipstream_io.Posix.Sys.{Sys, ran, parks, file_op, Tried}
use slipstream_io.Posix.Try.Keep.{posix_try-Kept}
use slipstream_io.Posix.Multishot.Keep.{TriedKept}
use slipstream_io.Posix.Execute.{
  Readiness, Retried, finished, waits_on, park_again, retry_verdict, retried_on, retry,
  finish_ready,
}
use slipstream_io.Posix.Owned.{Owned, Kept}
use slipstream_io.Posix.Unpark.{AfterPark, park-AfterPark, unpark-Owned, count-unpark}

-- The ops of `ready` are parked, each once.
abbrev pub AreParked : List ℕ → Ring → Type 0
AreParked ready r = (q : ℕ) → count q ready ≤ count q r.waiting

-- What one round leaves: the op is the code's where it finished, and parked where it did not; the
-- others that were parked are.
abbrev pub RetriedKept : {W : Type 0} → ℕ → List ℕ → Ring → Retried W → Type 0
RetriedKept p held r (finished res s w) =
    Owned (p ∷ held) s × ((q : ℕ) → count q r.waiting ≡ count q s.waiting)
RetriedKept p held r (waits_on s w) =
    Owned held s × ((q : ℕ) → count q r.waiting + count q (p ∷ []) ≡ count q s.waiting)

module _ {W : Type 0} (sys : Sys W) (b : Readiness W) where
  park_again-Kept :
      (p : ℕ) (held : List ℕ) (r : Ring) (x : Bool × Ring × W)
      → AfterPark b.arm b.disarm p held r x
      → RetriedKept p held r (park_again sys b x)
  unfolding park_again
  park_again-Kept p held r (true, s, w) (o, q, v) =
      (o, λ x. omega (arith, ap (count x) v, count-append x r.waiting (p ∷ [])))
  park_again-Kept p held r (false, s, w) k = (k.owned, λ x. omega (arith, ap (count x) k.waiting))

  retry_verdict-Kept :
      (p : ℕ) (held : List ℕ) (r : Ring) (t : Tried W)
      → Kept (p ∷ held) r t.1
      → RetriedKept p held r (retry_verdict sys b p t)
  unfolding retry_verdict
  retry_verdict-Kept p held r (ran res, s, w) k =
      (k.owned, λ x. omega (arith, ap (count x) k.waiting))
  retry_verdict-Kept p held r (file_op, s, w) k =
      (k.owned, λ x. omega (arith, ap (count x) k.waiting))
  retry_verdict-Kept p held r (parks, s, w) k =
      moved (park_again sys b (park b.arm b.disarm s p w)) (
        park_again-Kept p held s (park b.arm b.disarm s p w)
          (park-AfterPark b.arm b.disarm held s p w k.owned))
    where
      moved : (y : Retried W) → RetriedKept p held s y → RetriedKept p held r y
      moved (finished res t v) (o, c) = (o, λ x. omega (arith, c x, ap (count x) k.waiting))
      moved (waits_on t v) (o, c) = (o, λ x. omega (arith, c x, ap (count x) k.waiting))

  abbrev pub RetriedIf : ℕ → List ℕ → Ring → Option (Retried W) → Type 0
  RetriedIf p held r none = Unit
  RetriedIf p held r (some y) = RetriedKept p held r y

  retried_on-Kept :
      (p : ℕ) (held : List ℕ) (r : Ring) (o : Option (Tried W))
      → TriedKept (p ∷ held) r o
      → RetriedIf p held r (retried_on sys b p o)
  unfolding retried_on
  retried_on-Kept p held r none k = tt
  retried_on-Kept p held r (some t) k = retry_verdict-Kept p held r t k

  pub retry-Kept :
      (n p : ℕ) (held : List ℕ) (r : Ring) (w : W)
      → 0 < count p r.waiting
      → Owned held r
      → RetriedIf p held (unpark b.arm b.disarm r p w).0 (retry sys b n r p w)
  unfolding retry
  retry-Kept n p held r w l h = retried_on-Kept p held (unpark b.arm b.disarm r p w).0 _ (
      posix_try-Kept sys b.forget (p ∷ held) n (unpark b.arm b.disarm r p w).0 p _
        (unpark-Owned b.arm b.disarm held r p w l h))

  -- What a run over the ready ops leaves.
  abbrev pub ReadyIf : List ℕ → ℕ → Option (List (ℕ × ℤ) × Ring × W) → Type 0
  ReadyIf held room none = Unit
  ReadyIf held room (some (out, s, w)) = Owned (slots out ++ held) s × (length out ≤ room)

  one_more :
      (p : ℕ) (res : ℤ) (held : List ℕ) (room : ℕ) (o : Option (List (ℕ × ℤ) × Ring × W))
      → ReadyIf (p ∷ held) room o
      → ReadyIf held
          (suc room)
          (elim o [ none ↦ none | some (out, t, u) ↦ some ((p, res) ∷ out, t, u) ])
  one_more p res held room none k = tt
  one_more p res held room (some (out, t, u)) (o, l) = (
    record {
      holds = λ x. omega (
        arith,
        o.holds x,
        count-append x (slots out) (p ∷ held),
        count-append x (slots out) held,
      );
      places = o.places;
    },
    omega (arith, l),
  )

  pub finish_ready-ReadyIf :
      (n : ℕ) (held ready : List ℕ) (room : ℕ) (r : Ring) (w : W)
      → AreParked ready r
      → Owned held r
      → ReadyIf held room (finish_ready sys b n ready room r w)
  unfolding finish_ready
  finish_ready-ReadyIf n held [] room r w a h = (h, omega arith)
  finish_ready-ReadyIf n held (p ∷ ready) zero r w a h = (h, omega arith)
  finish_ready-ReadyIf n held (p ∷ ready) (suc room) r w a h =
      went (retry sys b n r p w) (retry-Kept n p held r w first h)
        (λ s v k o. finish_ready-ReadyIf n held ready (suc room) s v k o)
        (λ s v k o. finish_ready-ReadyIf n (p ∷ held) ready room s v k o)
    where
      self : 0 < count p (p ∷ ready)
      self = rw (eq_refl p) (omega arith)

      first : 0 < count p r.waiting
      first = omega (arith, a p, self)

      out_of :
          (q : ℕ)
          → count q (unpark b.arm b.disarm r p w).0.waiting + count q (p ∷ []) ≡ count q r.waiting
      out_of q = count-unpark b.arm b.disarm r p w q first h.places

      went :
          (y : Option (Retried W))
          → RetriedIf p held (unpark b.arm b.disarm r p w).0 y
          → ((s : Ring) (v : W)
              → AreParked ready s
              → Owned held s
              → ReadyIf held (suc room) (finish_ready sys b n ready (suc room) s v))
          → ((s : Ring) (v : W)
              → AreParked ready s
              → Owned (p ∷ held) s
              → ReadyIf (p ∷ held) room (finish_ready sys b n ready room s v))
          → ReadyIf held (suc room) (elim y [
            | none ↦ none
            | some (waits_on s v) ↦ finish_ready sys b n ready (suc room) s v
            | some (finished res s v) ↦ elim (finish_ready sys b n ready room s v) [
              | none ↦ none
              | some (out, t, u) ↦ some ((p, res) ∷ out, t, u)
            ]
          ])
      went none k f g = tt
      went (some (waits_on s v)) (o, c) f g = f s v (λ q. omega (arith, a q, c q, out_of q)) o
      went (some (finished res s v)) (o, c) f g =
          one_more p res held room _ (g s v (λ q. omega (arith, a q, c q, out_of q)) o)
