-- ===== src/Posix/Execute/Tries.antt =====
-- `slip_posix_finish_ready` against a run that tries each ready op once.
use mathlib.Core.Path.{subst}
use slipstream_io.Base.{
  ℕ, zero, suc, ◌+◌, ◌≤◌, ◌<◌, ◌≡◌, refl, sym, ap, ◌∙◌, arith, ℤ, Bool, true, false, List, [], ◌∷◌,
  ◌++◌, length, count, count-append, some, eq_refl,
}
use slipstream_io.Ring.{Ring}
use slipstream_io.Backend.{slots}
use slipstream_io.Posix.{park, unpark}
use slipstream_io.Posix.Sys.{Sys, ran, parks, file_op, Tried}
use slipstream_io.Posix.Try.Answers.{IsSingle, posix_try-HasAnswer}
use slipstream_io.Posix.Try.Keep.{posix_try-Kept}
use slipstream_io.Posix.Multishot.Keep.{TriedKept}
use slipstream_io.Posix.Execute.{
  Readiness, Retried, finished, waits_on, park_again, retry_verdict, retried_on, retry,
  finish_ready,
}
use slipstream_io.Posix.Execute.Ready.{AreParked, RetriedKept, RetriedIf, retry-Kept}
use slipstream_io.Posix.Owned.{Owned, Kept}
use slipstream_io.Posix.Unpark.{unpark-Owned, count-unpark, sqe-unpark, sqe-park}

-- The parked ops carry what they carried.
abbrev pub SameSqes : {W : Type 0} → Ring → Retried W → Type 0
SameSqes r (finished res s w) = (q : ℕ) → 0 < count q r.waiting → (s.ops q).sqe ≡ (r.ops q).sqe
SameSqes r (waits_on s w) = (q : ℕ) → 0 < count q r.waiting → (s.ops q).sqe ≡ (r.ops q).sqe

-- No ready op is multishot.
abbrev pub AreSingle : List ℕ → Ring → Type 0
AreSingle ready r = (q : ℕ) → 0 < count q ready → IsSingle (r.ops q).sqe

module _ {W : Type 0} (sys : Sys W) (b : Readiness W) (n : ℕ) where
  -- Each ready op is tried once, in their order: those that finish are the answers, the others wait again.
  pub data Tries : List ℕ → Ring → W → List (ℕ × ℤ) → Ring → W → Type 0 where
    all_tried : (r : Ring) (w : W) → Tries [] r w [] r w
    answers :
        (p : ℕ) (ready : List ℕ) (r s t : Ring) (w v u : W) (res : ℤ) (out : List (ℕ × ℤ))
        → retry sys b n r p w ≡ some (finished res s v)
        → Tries ready s v out t u
        → Tries (p ∷ ready) r w ((p, res) ∷ out) t u
    stays :
        (p : ℕ) (ready : List ℕ) (r s t : Ring) (w v u : W) (out : List (ℕ × ℤ))
        → retry sys b n r p w ≡ some (waits_on s v)
        → Tries ready s v out t u
        → Tries (p ∷ ready) r w out t u

  park_again-SameSqes :
      (r : Ring) (x : Bool × Ring × W)
      → ((q : ℕ) → 0 < count q r.waiting → (x.1.ops q).sqe ≡ (r.ops q).sqe)
      → SameSqes r (park_again sys b x)
  unfolding park_again
  park_again-SameSqes r (true, s, w) k = k
  park_again-SameSqes r (false, s, w) k = k

  retry_verdict-SameSqes :
      (p : ℕ) (r : Ring) (t : Tried W)
      → ((q : ℕ) → 0 < count q r.waiting → (t.1.ops q).sqe ≡ (r.ops q).sqe)
      → SameSqes r (retry_verdict sys b p t)
  unfolding retry_verdict
  retry_verdict-SameSqes p r (ran res, s, w) k = k
  retry_verdict-SameSqes p r (file_op, s, w) k = k
  retry_verdict-SameSqes p r (parks, s, w) k =
      park_again-SameSqes r (park b.arm b.disarm s p w)
        (λ q l. sqe-park b.arm b.disarm s p q w ∙ k q l)

  -- A retry of a parked op that is not multishot ends.
  retry-ends :
      (p : ℕ) (held : List ℕ) (r : Ring) (w : W)
      → 0 < count p r.waiting
      → Owned held r
      → IsSingle (r.ops p).sqe
      → (y : Retried W) × (retry sys b n r p w ≡ some y)
        × RetriedKept p held (unpark b.arm b.disarm r p w).0 y
        × SameSqes r y
  unfolding retry retried_on
  retry-ends p held r w l h k =
      let u = unpark b.arm b.disarm r p w in
      let (t, e) =
        posix_try-HasAnswer sys b.forget n u.0 p u.1
          (subst IsSingle (sym (sqe-unpark b.arm b.disarm r p p w)) k) in
      let kept : Kept (p ∷ held) u.0 t.1 = subst (TriedKept (p ∷ held) u.0) e (
        posix_try-Kept sys b.forget (p ∷ held) n u.0 p u.1
          (unpark-Owned b.arm b.disarm held r p w l h)) in
      let same : retry sys b n r p w ≡ some (retry_verdict sys b p t) = ap (retried_on sys b p) e in
      (
        retry_verdict sys b p t,
        same,
        subst (RetriedIf sys b p held u.0) same (retry-Kept sys b n p held r w l h),
        retry_verdict-SameSqes p r t (λ q m.
            kept.sqes q (omega (arith, m, count-unpark b.arm b.disarm r p w q l h.places))
            ∙ sqe-unpark b.arm b.disarm r p q w),
      )

  -- What the run leaves: each ready op was tried.
  abbrev pub AllTried : List ℕ → List ℕ → ℕ → Ring → W → Type 0
  AllTried held ready room r w =
      (out : List (ℕ × ℤ)) × (s : Ring) × (v : W) × (finish_ready sys b n ready room r w
        ≡ some (out, s, v))
      × Tries ready r w out s v
      × Owned (slots out ++ held) s

  rest_of :
      (p : ℕ) (ready : List ℕ) (r s : Ring)
      → AreParked (p ∷ ready) r
      → AreSingle (p ∷ ready) r
      → ((q : ℕ) → 0 < count q r.waiting → (s.ops q).sqe ≡ (r.ops q).sqe)
      → AreSingle ready s
  rest_of p ready r s a k e q l =
      let m : 0 < count q (p ∷ ready) = omega arith in
      subst IsSingle (sym (e q (omega (arith, a q, m)))) (k q m)

  -- Where the ready ops are parked, each once, none of them is multishot, the answers have room for all, every
  -- op of the pool has one holder, the code holding `held`, and each parked op knows its place,
  -- `slip_posix_finish_ready` ends and has tried each ready op once, in their order: its answers are those that
  -- finished, which the core holds, the others wait again, every op of the pool has one holder and each parked op
  -- knows its place.
  pub finish_ready-AllTried :
      (held ready : List ℕ) (room : ℕ) (r : Ring) (w : W)
      → length ready ≤ room
      → AreParked ready r
      → AreSingle ready r
      → Owned held r
      → AllTried held ready room r w
  unfolding finish_ready
  finish_ready-AllTried held [] room r w l a k h = ([], r, w, refl, all_tried r w, h)
  finish_ready-AllTried held (p ∷ ready) zero r w l a k h = absurd (omega (arith, l))
  finish_ready-AllTried held (p ∷ ready) (suc room) r w l a k h =
      went (retry-ends p held r w first h (k p self))
        (λ s v x y z. finish_ready-AllTried held ready (suc room) s v (omega (arith, l)) x y z)
        (λ s v x y z. finish_ready-AllTried (p ∷ held) ready room s v (omega (arith, l)) x y z)
    where
      self : 0 < count p (p ∷ ready)
      self = rw (eq_refl p) (omega arith)

      first : 0 < count p r.waiting
      first = omega (arith, a p, self)

      out_of :
          (q : ℕ)
          → count q (unpark b.arm b.disarm r p w).0.waiting + count q (p ∷ []) ≡ count q r.waiting
      out_of q = count-unpark b.arm b.disarm r p w q first h.places

      answered_by :
          (s t : Ring) (v u : W) (res : ℤ) (out : List (ℕ × ℤ))
          → retry sys b n r p w ≡ some (finished res s v)
          → finish_ready sys b n ready room s v ≡ some (out, t, u)
          → finish_ready sys b n (p ∷ ready) (suc room) r w ≡ some ((p, res) ∷ out, t, u)
      answered_by s t v u res out e g = rw (e, finish_ready, g) refl

      waits_by :
          (s t : Ring) (v u : W) (out : List (ℕ × ℤ))
          → retry sys b n r p w ≡ some (waits_on s v)
          → finish_ready sys b n ready (suc room) s v ≡ some (out, t, u)
          → finish_ready sys b n (p ∷ ready) (suc room) r w ≡ some (out, t, u)
      waits_by s t v u out e g = rw (e, finish_ready) g

      went :
          ((y : Retried W) × (retry sys b n r p w ≡ some y)
            × RetriedKept p held (unpark b.arm b.disarm r p w).0 y
            × SameSqes r y)
          → ((s : Ring) (v : W)
              → AreParked ready s
              → AreSingle ready s
              → Owned held s
              → AllTried held ready (suc room) s v)
          → ((s : Ring) (v : W)
              → AreParked ready s
              → AreSingle ready s
              → Owned (p ∷ held) s
              → AllTried (p ∷ held) ready room s v)
          → AllTried held (p ∷ ready) (suc room) r w
      went (waits_on s v, e, (o, c), j) f g =
          let (out, t, u, eq, tr, own) =
            f s v (λ q. omega (arith, a q, c q, out_of q)) (rest_of p ready r s a k j) o in
          (out, t, u, waits_by s t v u out e eq, stays p ready r s t w v u out e tr, own)
      went (finished res s v, e, (o, c), j) f g =
          let (out, t, u, eq, tr, own) =
            g s v (λ q. omega (arith, a q, c q, out_of q)) (rest_of p ready r s a k j) o in
          (
            (p, res) ∷ out,
            t,
            u,
            answered_by s t v u res out e eq,
            answers p ready r s t w v u res out e tr,
            record {
              holds = λ x. omega (
                arith,
                own.holds x,
                count-append x (slots out) (p ∷ held),
                count-append x (slots out) held,
              );
              places = own.places;
            },
          )
