-- ===== src/Posix/Buffers.antt =====
-- A buffer that is taken and then not filled goes back.
use slipstream_io.Base.{
  ℕ, zero, suc, ◌+◌, ◌%◌, ◌<◌, ◌≡◌, refl, sym, ap, ◌∙◌, arith, ◌&&◌, List, [], ◌∷◌, get_elem?,
  Option, some, ◌==◌, if◌then◌else◌, Bool-cases, Option-cases, inl, inr,
}
use mathlib.Core.Path.{subst}
use mathlib.Core.Option.{some-injective, none-ne-some}
use slipstream_io.Ring.{Ring, Buf, BufRing}
use slipstream_io.Fixed.{bufring_from, bufring_of}
use slipstream_io.Posix.{
  u16_mod, set_head, unget_at, unget_of, bufring_unget, take_entry, take_of, bufring_take,
}

-- A head does not tell which group an entry is of.
bufring_from-set_head :
    (bs : List BufRing) (i h k g : ℕ) → bufring_from (set_head bs i h) k g ≡ bufring_from bs k g
unfolding bufring_from set_head
bufring_from-set_head [] i h k g = refl
bufring_from-set_head (b ∷ bs) zero h k g = refl
bufring_from-set_head (b ∷ bs) (suc i) h k g =
    ap (λ z. if b.in_use && b.bgid == g then some k else z) (bufring_from-set_head bs i h (k + 1) g)

get_elem?-set_head :
    (bs : List BufRing) (i h : ℕ) (b : BufRing)
    → get_elem? bs i ≡ some b
    → get_elem? (set_head bs i h) i ≡ some (record b { head = h })
unfolding set_head
get_elem?-set_head [] i h b e = absurd (none-ne-some _ e)
get_elem?-set_head (c ∷ bs) zero h b e =
    let f : BufRing → Option BufRing = λ z. some (record z { head = h }) in
    ap f (some-injective _ _ e)
get_elem?-set_head (c ∷ bs) (suc i) h b e = get_elem?-set_head bs i h b e

set_head-set_head :
    (bs : List BufRing) (i h g : ℕ) (b : BufRing)
    → get_elem? bs i ≡ some b
    → g ≡ b.head
    → set_head (set_head bs i h) i g ≡ bs
unfolding set_head
set_head-set_head [] i h g b e f = refl
set_head-set_head (c ∷ bs) zero h g b e f =
    ap (λ z. record c { head = z } ∷ bs) (f ∙ sym (ap (λ z. z.head) (some-injective _ _ e)))
set_head-set_head (c ∷ bs) (suc i) h g b e f = ap (λ z. c ∷ z) (set_head-set_head bs i h g b e f)

-- Where the entry's head is a 16-bit word, stepping it back undoes the take.
unget_at-set_head :
    (r : Ring) (i : ℕ) (b : BufRing)
    → get_elem? r.bufrings i ≡ some b
    → b.head < u16_mod
    → unget_at
        (record r { bufrings = set_head r.bufrings i ((b.head + 1) % u16_mod) })
        i
        (some (record b { head = (b.head + 1) % u16_mod }))
      ≡ r
unfolding unget_at
unget_at-set_head r i b e l =
    ap (λ z. record r { bufrings = z })
      (set_head-set_head r.bufrings i ((b.head + 1) % u16_mod) _ b e (omega arith))

restored :
    (r : Ring) (i bgid : ℕ) (b : BufRing)
    → bufring_of r bgid ≡ some i
    → get_elem? r.bufrings i ≡ some b
    → b.head < u16_mod
    → bufring_unget (record r { bufrings = set_head r.bufrings i ((b.head + 1) % u16_mod) }) bgid
      ≡ r
unfolding bufring_unget unget_of bufring_of
restored r i bgid b n m l =
    let r' : Ring = record r { bufrings = set_head r.bufrings i ((b.head + 1) % u16_mod) } in
    ap (unget_of r') (bufring_from-set_head r.bufrings i ((b.head + 1) % u16_mod) 0 bgid ∙ n)
    ∙ ap (unget_at r' i) (get_elem?-set_head r.bufrings i ((b.head + 1) % u16_mod) b m)
    ∙ unget_at-set_head r i b m l

module _ (tail_at : ℕ → ℕ) (entry_at : ℕ → ℕ → Buf) where
  -- A buffer that was taken for a group goes back whole: after `bufring_unget` the ring is what it was
  -- before `bufring_take`. The heads of the ring's groups are 16-bit words.
  pub bufring_unget-bufring_take :
      (r s : Ring) (bgid : ℕ) (buf : Buf)
      → ((i : ℕ) (b : BufRing) → get_elem? r.bufrings i ≡ some b → b.head < u16_mod)
      → bufring_take tail_at entry_at r bgid ≡ some (buf, s)
      → bufring_unget s bgid ≡ r
  unfolding bufring_take take_of take_entry
  bufring_unget-bufring_take r s bgid buf w h = elim (Option-cases (bufring_of r bgid)) [
    | inl n ↦ absurd (none-ne-some _ (rw n at h))
    | inr (i, n) ↦ elim (Option-cases (get_elem? r.bufrings i)) [
      | inl m ↦ absurd (none-ne-some _ (rw (n, m) at h))
      | inr (b, m) ↦ elim (Bool-cases (tail_at b.bufs == b.head)) [
        | inl x ↦ absurd (none-ne-some _ (rw (n, m, x) at h))
        | inr x ↦
            subst (λ z. bufring_unget z bgid ≡ r)
              (ap (λ z. z.1) (some-injective _ _ (rw (n, m, x) at h)))
              (restored r i bgid b n m (w i b m))
      ]
    ]
  ]
