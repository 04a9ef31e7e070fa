-- ===== src/Setup/Ready.antt =====
-- A ring that setup answered is one that the engine's operations keep: an empty completion queue
-- of a power of two, and a pool whose every op is free.
use slipstream_io.Base.{
  ℕ, zero, suc, ◌+◌, ◌*◌, ◌%◌, ◌^◌, ◌≤◌, ◌<◌, ◌≡◌, ◌≢◌, refl, ap, ◌∙◌, arith, dec_lt, u32_mod,
  Option, some, ltb, true, false, Bool-cases, inl, inr, if◌then◌else◌, List, [], ◌∷◌, count, pos,
  two_pow-pos, ◌==◌, eq_refl, update_off,
}
use native.Mathlib.Nat.{pow-suc}
use mathlib.Core.Option.{some-injective}
use slipstream_io.Ring.{Ring}
use slipstream_io.Completion.{cq_avail}
use slipstream_io.Completion.Window.{CqIsValid}
use slipstream_io.Completion.Order.{completions}
use slipstream_io.Completion.Owners.{Holds}
use slipstream_io.Backend.{Backend}
use slipstream_io.Engine.{Engine, rings_max, ring_token, put_ring}
use slipstream_io.Setup.{
  Params, is_refused, free_ring, carve, carved, opened, open_answer, open_on, setup_at, setup_with,
  setup, round_up_pow2, answer_params, block_align, block_size, sq_bytes, cq_bytes, sqes_bytes,
  ◌>>=◌,
}
use slipstream_io.Setup.Pow2.{IsLeast, pow_le, round_up_pow2-IsLeast}

count-carve :
    (p n : ℕ) (free : List ℕ) → count p (carve n free) ≡ (if ltb p n then 1 else 0) + count p free
unfolding carve
count-carve p zero free = ground arith
count-carve p (suc n) free = ground (arith, count-carve p n (n ∷ free))

opened-Holds : (sq cq at : ℕ) → Holds [] (opened (carved sq cq at))
unfolding opened carved
opened-Holds sq cq at p = omega (arith, count-carve p cq [])

opened-CqIsValid : (sq k at : ℕ) → k ≤ 31 → CqIsValid k (opened (carved sq (2 ^ k) at))
unfolding opened carved cq_avail
opened-CqIsValid sq k at h =
    let low = two_pow-pos k in
    let high = pow_le k 31 h in
    record {
      narrow = h;
      size = refl;
      mask = omega arith;
      head_lt = omega arith;
      tail_lt = omega arith;
      fits = omega arith;
    }

opened-empty : (sq cq at : ℕ) → completions (opened (carved sq cq at)) ≡ []
unfolding opened carved cq_avail
opened-empty sq cq at = refl

module _ {W : Type 0} where
  free_ring-free :
      (n i j : ℕ) (e : Engine W)
      → free_ring n i e ≡ some j
      → (i ≤ j) × (j < i + n) × ((e.rings j).in_use ≡ false)
  unfolding free_ring
  free_ring-free zero i j e h = absurd (cc)
  free_ring-free (suc n) i j e h = elim (Bool-cases (e.rings i).in_use) [
    | inl u ↦
        let (a, b, c) = free_ring-free n (i + 1) j e (rw (u, free_ring) at h) in
        (omega arith, omega arith, c)
    | inr u ↦
        let e' : i ≡ j = some-injective _ _ (rw (u, free_ring) at h) in
        (omega (arith, e'), omega (arith, e'), rw e' at u)
  ]

block_align_le : (n : ℕ) → n ≤ block_align n
unfolding block_align
block_align_le n = omega arith

-- The parts of the block that the caller is handed do not overlap, each is as long as setup says, and
-- they end before the block does.
pub carved-apart :
    (sq cq at : ℕ)
    → let r = carved sq cq at in
      (r.sq_block + r.sq_size ≤ r.cq_block)
      × (r.cq_block + r.cq_size ≤ r.sqes_block)
      × (r.sqes_block + r.sqes_size ≤ at + block_size sq cq)
unfolding carved block_size
carved-apart sq cq at = (
  omega (arith, block_align_le (sq_bytes sq)),
  omega (arith, block_align_le (cq_bytes cq)),
  omega (arith, block_align_le (sqes_bytes sq)),
)

-- What setup of a ring for `entries` leaves in place `i`.
pub record Ready (W : Type 0) (k i entries : ℕ) (e e' : Engine W) : Type 0 where
  pub bound : i < rings_max
  pub unused : (e.rings i).in_use ≡ false
  pub live : (e'.rings i).in_use ≡ true
  pub enough : entries ≤ (e'.rings i).sq_entries
  pub valid : CqIsValid k (e'.rings i)
  pub owned : Holds [] (e'.rings i)
  pub empty : completions (e'.rings i) ≡ []
  pub others : (j : ℕ) → i ≢ j → e'.rings j ≡ e.rings j

-- The two sizes that a count of at most 2 ^ 30 gives.
cq_size :
    (sq c : ℕ)
    → (v : ℕ) → v ≤ 2 ^ 30
    → IsLeast v sq
    → c ≤ 2 ^ 31
    → (k : ℕ) × (k ≤ 31)
      × ((if c == 0 then some (sq * 2 % u32_mod) else round_up_pow2 c) ≡ some (2 ^ k))
cq_size sq c v w l h = elim (Bool-cases (c == 0)) [
  | inl z ↦ (suc l.exponent, doubles, rw (z, pow-suc) (ap some (omega (arith, l.power, small))))
  | inr z ↦
      let (n, e, m) = round_up_pow2-IsLeast c h in
      (m.exponent, m.narrow, rw z (e ∙ ap some m.power))
]
  where
    small : sq ≤ 2 ^ 30
    small = l.least 30 w

    doubles : suc l.exponent ≤ 31
    doubles = elim (dec_lt l.exponent 31) [
      | yes a ↦ a
      | no a ↦ absurd (omega (arith, pow_le 31 l.exponent (omega arith), small, l.power))
    ]

module _ {W : Type 0} (b : Backend W) (calloc : ℕ → Option ℕ) where
  setup_at-cases :
      (e : Engine W) (i entries sq cq at : ℕ) (p : Params) (w : W)
      → round_up_pow2 entries ≡ some sq
      → (if p.cq_entries == 0 then some (sq * 2 % u32_mod) else round_up_pow2 p.cq_entries)
        ≡ some cq
      → calloc (block_size sq cq) ≡ some at
      → b.open_ring (carved sq cq at) e.world ≡ (true, carved sq cq at, w)
      → setup_at b calloc true e i entries p
        ≡ some (
          pos (ring_token + i),
          answer_params p (carved sq cq at),
          record (put_ring e i (opened (carved sq cq at))) { world = w },
        )
  unfolding setup_at open_on open_answer
  setup_at-cases e i entries sq cq at p w a c d o = rw (a, ◌>>=◌, c, ◌>>=◌, d, o)

  opened-Ready :
      (e : Engine W) (i entries sq k at : ℕ) (w : W)
      → free_ring rings_max 0 e ≡ some i
      → k ≤ 31
      → entries ≤ sq
      → Ready W k i entries e (record (put_ring e i (opened (carved sq (2 ^ k) at))) { world = w })
  unfolding opened carved cq_avail
  opened-Ready e i entries sq k at w f h n =
      let (low, high, unused) = free_ring-free rings_max 0 i e f in
      record {
        bound = omega arith;
        unused = unused;
        live = rw eq_refl;
        enough = rw eq_refl n;
        valid = rw eq_refl (opened-CqIsValid sq k at h);
        owned = rw eq_refl (opened-Holds sq (2 ^ k) at);
        empty = rw eq_refl;
        others = λ j d. update_off e.rings _ d;
      }

  -- Setup answers the token of a ring that was unused and is now ready to run: live, with room for
  -- the entries asked for, an empty and valid completion queue, and every op free; no other ring is
  -- touched. The count asked for is 1 to 2 ^ 30, the completion count at most 2 ^ 31, the flags are
  -- none that setup refuses, a ring is free, and the allocation, the locks and the backend's
  -- open_ring succeed.
  pub setup-Ready :
      (e : Engine W) (i entries : ℕ) (p : Params)
      → 0 < entries
      → entries ≤ 2 ^ 30
      → p.cq_entries ≤ 2 ^ 31
      → is_refused p.flags ≡ false
      → free_ring rings_max 0 e ≡ some i
      → ((n : ℕ) → (at : ℕ) × (calloc n ≡ some at))
      → ((r : Ring) (w : W) → (w' : W) × (b.open_ring r w ≡ (true, r, w')))
      → (k : ℕ) × (q : Params) × (e' : Engine W) × (setup b calloc true e entries (some p)
          ≡ some (pos (ring_token + i), some q, e'))
        × Ready W k i entries e e'
  unfolding setup setup_with
  setup-Ready e i entries p a c d f g mem opens =
      let (sq, s, l) = round_up_pow2-IsLeast entries (omega arith) in
      let (k, h, t) = cq_size sq p.cq_entries entries c l d in
      let (at, m) = mem (block_size sq (2 ^ k)) in
      let (w, o) = opens (carved sq (2 ^ k) at) e.world in
      let z : (entries == 0) ≡ false = ground arith in
      (
        k,
        answer_params p (carved sq (2 ^ k) at),
        record (put_ring e i (opened (carved sq (2 ^ k) at))) { world = w },
        rw (z, f, g, setup_at-cases e i entries sq (2 ^ k) at p w s t m o, ◌>>=◌),
        opened-Ready e i entries sq k at w g h l.enough,
      )
