-- ===== src/Close/Laws.antt =====
-- A mapping is known to munmap as long as its ring lives, and a closed ring is gone.
use slipstream_io.Base.{
  ℕ, zero, suc, ◌+◌, ◌-◌, ◌≤◌, ◌<◌, ◌≡◌, ◌≢◌, sym, ap, ◌∙◌, arith, ℤ, pos, negsuc, neg, Bool, true,
  false, not, ◌||◌, none, some, ltb, leb, ◌==◌, if◌then◌else◌, Bool-cases, Option-cases, eq_refl,
  ==_iff, leb_false→lt, inl, inr,
}
use mathlib.Core.Path.{subst}
use mathlib.Core.Option.{some-injective, none-ne-some}
use slipstream_io.Abi.{ebadf}
use slipstream_io.Ring.{Ring}
use slipstream_io.Backend.{Backend}
use slipstream_io.Engine.{Engine, rings_max, ring_token, ring_of}
use slipstream_io.Close.{part_at, map_on, mmap, is_part, is_mapped, munmap, close_on, close}

part_at-is_part :
    (r : Ring) (length offset addr : ℕ)
    → r.in_use ≡ true
    → part_at r length offset ≡ some addr
    → is_part r addr ≡ true
unfolding part_at
part_at-is_part r length offset addr u h = ground arith

or_false : (a c : Bool) → (a || c) ≡ false → (a ≡ false) × (c ≡ false)
or_false a c h = (ground arith, ground arith)

or_true : (a : Bool) → (a || true) ≡ true
or_true a = ground arith

not-false : (a : Bool) → not a ≡ false → a ≡ true
not-false a h = ground arith

ne_of_test : (i j : ℕ) → (i == j) ≡ false → i ≢ j
ne_of_test i j x y = ground arith

module _ {W : Type 0} where
  -- What a token names: the index past the token's bit, inside the array, and live.
  ring_of_pos :
      (e : Engine W) (fd i : ℕ)
      → ring_of e (pos fd) ≡ some i
      → (ltb fd ring_token ≡ false)
        × (i ≡ fd - ring_token)
        × (i < rings_max)
        × ((e.rings i).in_use ≡ true)
  unfolding ring_of
  ring_of_pos e fd i h =
      elim (Bool-cases (
        ltb fd ring_token
        || leb rings_max (fd - ring_token)
        || not (e.rings (fd - ring_token)).in_use)) [
          | inl t ↦ absurd (none-ne-some _ (rw t at h))
          | inr f ↦
              let x : fd - ring_token ≡ i = some-injective _ _ (rw f at h) in
              let (a, c) =
                or_false (ltb fd ring_token || leb rings_max (fd - ring_token))
                  (not (e.rings (fd - ring_token)).in_use) f in
              let (l, m) = or_false (ltb fd ring_token) (leb rings_max (fd - ring_token)) a in
              (
                l,
                sym x,
                omega (arith, leb_false→lt _ _ m, x),
                subst (λ z. (e.rings z).in_use ≡ true) x (not-false _ c),
              )
        ]

  ring_of-unused :
      (e : Engine W) (fd i : ℕ)
      → i ≡ fd - ring_token
      → (e.rings i).in_use ≡ false
      → ring_of e (pos fd) ≡ none
  unfolding ring_of
  ring_of-unused e fd i x u =
      let y : (e.rings (fd - ring_token)).in_use ≡ false =
        subst (λ z. (e.rings z).in_use ≡ false) x u in
      let test : (ltb fd ring_token
            || leb rings_max (fd - ring_token)
            || not (e.rings (fd - ring_token)).in_use)
          ≡ true =
        ap (λ z. ltb fd ring_token || leb rings_max (fd - ring_token) || not z) y
        ∙ or_true (ltb fd ring_token || leb rings_max (fd - ring_token)) in
      ap (λ z. if z then none else some (fd - ring_token)) test

  ring_of-live :
      (e : Engine W) (fd : ℤ) (i : ℕ)
      → ring_of e fd ≡ some i
      → (i < rings_max) × ((e.rings i).in_use ≡ true)
  unfolding ring_of
  ring_of-live e (negsuc n) i h = absurd (none-ne-some _ h)
  ring_of-live e (pos fd) i h = let (l, x, m, u) = ring_of_pos e fd i h in (m, u)

  is_mapped-part :
      (n i j : ℕ) (e : Engine W) (addr : ℕ)
      → i ≤ j
      → j < i + n
      → is_part (e.rings j) addr ≡ true
      → is_mapped n i e addr ≡ true
  unfolding is_mapped
  is_mapped-part zero i j e addr a c h = absurd (omega arith)
  is_mapped-part (suc n) i j e addr a c h = elim (Bool-cases (i == j)) [
    | inl x ↦ let y = (==_iff i j).0 x in rw (y, h)
    | inr x ↦
        let y : i ≢ j = ne_of_test i j x in
        ap (λ z. is_part (e.rings i) addr || z)
          (is_mapped-part n (i + 1) j e addr (ground arith) (omega arith) h)
        ∙ or_true (is_part (e.rings i) addr)
  ]

  -- Whatever address mmap answers, munmap knows it: the mapping is answered 0.
  pub munmap-mmap :
      (e : Engine W) (length offset addr : ℕ) (fd : ℤ)
      → mmap e length fd offset ≡ some addr
      → munmap e addr ≡ pos 0
  unfolding mmap map_on munmap
  munmap-mmap e length offset addr fd h = elim (Option-cases (ring_of e fd)) [
    | inl n ↦ absurd (none-ne-some _ (rw n at h))
    | inr (i, n) ↦
        let (bound, live) = ring_of-live e fd i n in
        rw (
          is_mapped-part rings_max 0 i e addr (omega arith) (omega arith)
            (part_at-is_part (e.rings i) length offset addr live (rw n at h)))
  ]

module _ {W : Type 0} (b : Backend W) (join : Ring → W → Ring × W) (fd_close : ℤ → W → W) where
  close_on-ring_of :
      (e : Engine W) (fd : ℤ) (i : ℕ)
      → ring_of e fd ≡ some i
      → ring_of (close_on b join fd_close e (some i)).1 fd ≡ none
  unfolding close_on ring_of
  close_on-ring_of e (negsuc n) i h = absurd (none-ne-some _ h)
  close_on-ring_of e (pos fd) i h =
      let (l, x, m, u) = ring_of_pos e fd i h in
      ring_of-unused (close_on b join fd_close e (some i)).1 fd i x (rw eq_refl)

  -- A ring is closed once: the call after a close of the same token, whatever that one answered,
  -- answers -EBADF.
  pub close-twice :
      (e : Engine W) (fd : ℤ)
      → (close b join fd_close (close b join fd_close e fd).1 fd).0 ≡ neg ebadf
  unfolding close close_on
  close-twice e fd = elim (Option-cases (ring_of e fd)) [
    | inl n ↦ rw (n, n)
    | inr (i, n) ↦ rw (n, close_on-ring_of e fd i n)
  ]
