-- ===== src/Setup.antt =====
-- src/slipstream_engine.c: `slipstream_engine_setup`, with the power of two that the ring's sizes
-- are rounded to and the one block that the ring is carved from. Sizes of structs are those of an
-- LP64 platform; a `size_t` sum of a ring's parts stays far below 2 ^ 64, and so does not wrap.
pub mod Pow2
pub mod Ready
mod Tests
use slipstream_io.Base.{
  ℕ, zero, suc, ◌+◌, ◌-◌, ◌*◌, ◌/◌, ◌%◌, u32_mod, ℤ, pos, neg, Bool, true, false, not, ◌&&◌, ◌||◌,
  List, [], ◌∷◌, Option, none, some, ltb, leb, ◌==◌, if◌then◌else◌,
}
use slipstream_io.Abi.{einval, emfile, enomem}
use slipstream_io.Ring.{Ring, zero_ring, zero_op}
use slipstream_io.Backend.{Backend}
use slipstream_io.Engine.{Engine, rings_max, ring_token, put_ring}

unfoldable pub block_align : ℕ → ℕ
block_align n = (n + 63) / 64 * 64

-- The loop of `round_up_pow2`, `none` where the rounds do not end it.
unfoldable pub double_up : ℕ → ℕ → ℕ → Option ℕ
double_up zero n v = none
double_up (suc rounds) n v =
    let rest = double_up rounds (n * 2 % u32_mod) v in if ltb n v then rest else some n

-- `round_up_pow2`: after 32 shifts of an `unsigned` every later round is the same, so 33 rounds
-- tell whether the loop ends.
unfoldable pub round_up_pow2 : ℕ → Option ℕ
unfolding double_up
round_up_pow2 v = double_up 33 1 v

-- The flags of `struct io_uring_params` that setup reads.
pub record SetupFlags : Type 0 where
  pub iopoll : Bool
  pub sqpoll : Bool
  pub sqe128 : Bool
  pub cqe32 : Bool
  pub no_mmap : Bool
  pub no_sqarray : Bool

-- `struct io_sqring_offsets` and `struct io_cqring_offsets`
pub record SqOffsets : Type 0 where
  pub head : ℕ
  pub tail : ℕ
  pub ring_mask : ℕ
  pub ring_entries : ℕ
  pub flags : ℕ
  pub dropped : ℕ
  pub array : ℕ

pub record CqOffsets : Type 0 where
  pub head : ℕ
  pub tail : ℕ
  pub ring_mask : ℕ
  pub ring_entries : ℕ
  pub overflow : ℕ
  pub cqes : ℕ
  pub flags : ℕ

-- `struct io_uring_params`; `feat_ext_arg` is IORING_FEAT_EXT_ARG, the one bit of `features`.
pub record Params : Type 0 where
  pub flags : SetupFlags
  pub sq_entries : ℕ
  pub cq_entries : ℕ
  pub feat_ext_arg : Bool
  pub sq_off : SqOffsets
  pub cq_off : CqOffsets

abbrev pub is_refused : SetupFlags → Bool
is_refused f = f.sqpoll || f.sqe128 || f.cqe32 || f.iopoll || f.no_mmap || f.no_sqarray

-- The first of the `n` rings from `i` on that is not in use.
unfoldable pub free_ring : {W : Type 0} → ℕ → ℕ → Engine W → Option ℕ
free_ring zero i e = none
free_ring (suc n) i e =
    let rest = free_ring n (i + 1) e in if (e.rings i).in_use then rest else some i

-- The loop that strings the pool's ops on the free list, from the last slot to the first.
unfoldable pub carve : ℕ → List ℕ → List ℕ
carve zero free = free
carve (suc i) free = carve i (i ∷ free)

-- sizeof: struct sq_ring and struct cq_ring are six `unsigned`.
abbrev pub ring_head_size : ℕ
ring_head_size = 24

abbrev pub sq_bytes : ℕ → ℕ
sq_bytes n = ring_head_size + n * 4

abbrev pub cq_bytes : ℕ → ℕ
cq_bytes n = ring_head_size + n * 16

abbrev pub sqes_bytes : ℕ → ℕ
sqes_bytes n = n * 64

-- The size of the block, for `sq` submission and `cq` completion entries.
unfoldable pub block_size : ℕ → ℕ → ℕ
block_size sq cq =
    block_align (sq_bytes sq)
    + block_align (cq_bytes cq)
    + block_align (sqes_bytes sq)
    + block_align (cq * 104)
    + 2 * block_align (cq * 8)
    + block_align (cq * 16)

-- The ring's fields over a block at address `at`.
unfoldable pub carved : ℕ → ℕ → ℕ → Ring
carved sq cq at = record zero_ring {
  sq_entries = sq;
  cq_entries = cq;
  sq_size = sq_bytes sq;
  cq_size = cq_bytes cq;
  sqes_size = sqes_bytes sq;
  op_pool_n = cq;
  op_free = carve cq [];
  sq_block = at;
  cq_block = at + block_align (sq_bytes sq);
  sqes_block = at + block_align (sq_bytes sq) + block_align (cq_bytes cq);
}

-- What setup writes to the two rings' heads, and the mark that the ring is live.
unfoldable pub opened : Ring → Ring
opened r = record r {
  sq_mask = (r.sq_entries + u32_mod - 1) % u32_mod;
  cq_mask = (r.cq_entries + u32_mod - 1) % u32_mod;
  in_use = true;
}

unfoldable pub answer_params : Params → Ring → Params
answer_params p r = record p {
  sq_entries = r.sq_entries;
  cq_entries = r.cq_entries;
  feat_ext_arg = true;
  sq_off = record {
    head = 0;
    tail = 4;
    ring_mask = 8;
    ring_entries = 12;
    flags = 16;
    dropped = 20;
    array = ring_head_size;
  };
  cq_off = record {
    head = 0;
    tail = 4;
    ring_mask = 8;
    ring_entries = 12;
    overflow = 16;
    cqes = ring_head_size;
    flags = 20;
  };
}

infixl 5 ◌>>=◌
abbrev pub ◌>>=◌ : {A B : Type 0} → Option A → (A → Option B) → Option B
◌>>=◌ o f = elim o [ none ↦ none | some a ↦ f a ]

-- `calloc` answers the address of so many zeroed bytes; `locks` says that mtx_init and cnd_init
-- succeeded.
module _ {W : Type 0} (b : Backend W) (calloc : ℕ → Option ℕ) (locks : Bool) where
  -- The backend's part of setup, on the ring it was handed, and what follows.
  unfoldable pub open_answer : Engine W → ℕ → Params → Bool × Ring × W → ℤ × Params × Engine W
  open_answer e i p (true, r, w) =
      (pos (ring_token + i), answer_params p r, record (put_ring e i (opened r)) { world = w })
  open_answer e i p (false, r, w) = (neg enomem, p, record (put_ring e i zero_ring) { world = w })

  -- The block is there, or not.
  unfoldable pub open_on : Engine W → ℕ → Params → ℕ → ℕ → Option ℕ → ℤ × Params × Engine W
  open_on e i p sq cq none = (neg enomem, p, put_ring e i zero_ring)
  open_on e i p sq cq (some at) =
      if locks
      then open_answer e i p (b.open_ring (carved sq cq at) e.world)
      else (neg enomem, p, put_ring e i zero_ring)

  -- Setup of ring `i`; `none` where a size is one that `round_up_pow2` does not come back from.
  unfoldable pub setup_at : Engine W → ℕ → ℕ → Params → Option (ℤ × Params × Engine W)
  setup_at e i entries p = do
    sq ← round_up_pow2 entries
    cq ← if p.cq_entries == 0 then some (sq * 2 % u32_mod) else round_up_pow2 p.cq_entries
    some (open_on e i p sq cq (calloc (block_size sq cq)))

  unfoldable pub setup_with : Engine W → ℕ → Params → Option (ℤ × Params × Engine W)
  setup_with e entries p =
      if entries == 0 || is_refused p.flags
      then some (neg einval, p, e)
      else elim (free_ring rings_max 0 e) [
        | none ↦ some (neg emfile, p, e)
        | some i ↦ setup_at e i entries p
      ]

  -- `slipstream_engine_setup`; the parameters are `none` for NULL.
  unfoldable pub setup : Engine W → ℕ → Option Params → Option (ℤ × Option Params × Engine W)
  setup e entries none = some (neg einval, none, e)
  setup e entries (some p) = do (res, q, e') ← setup_with e entries p; some (res, some q, e')
