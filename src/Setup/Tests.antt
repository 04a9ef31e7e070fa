-- ===== src/Setup/Tests.antt =====
-- Setup of an eight-entry ring where none is in use.
use slipstream_io.Base.{ℕ, ◌+◌, ◌≤◌, ◌^◌, ◌≡◌, refl, arith, pos, true, false, [], none, some}
use slipstream_io.Ring.{zero_ring}
use slipstream_io.Backend.{Backend, pending}
use slipstream_io.Engine.{Engine, ring_token}
use slipstream_io.Setup.{Params, setup, free_ring, round_up_pow2, double_up, carved, block_size}
use slipstream_io.Setup.Pow2.{IsLeast, round_up_pow2-IsLeast, double_up-diverges}
use slipstream_io.Setup.Ready.{Ready, setup-Ready, carved-apart}

abbrev idle_backend : Backend (Unit {0})
idle_backend = record {
  open_ring = λ r w. (true, r, w);
  close_ring = λ r w. (r, w);
  poke = λ r w. w;
  execute = λ r p w. (pending, r, w);
  wait = λ r n t w. (some [], r, w);
  carried_ops = [];
}

abbrev no_rings : Engine Unit
no_rings = record { rings = λ i. zero_ring; world = tt }

abbrev plain_params : Params
plain_params = record {
  flags = record {
    iopoll = false;
    sqpoll = false;
    sqe128 = false;
    cqe32 = false;
    no_mmap = false;
    no_sqarray = false;
  };
  sq_entries = 0;
  cq_entries = 0;
  feat_ext_arg = false;
  sq_off = record {
    head = 0;
    tail = 0;
    ring_mask = 0;
    ring_entries = 0;
    flags = 0;
    dropped = 0;
    array = 0;
  };
  cq_off = record {
    head = 0;
    tail = 0;
    ring_mask = 0;
    ring_entries = 0;
    overflow = 0;
    cqes = 0;
    flags = 0;
  };
}

setup-Ready_example :
    (k : ℕ) × (q : Params) × (e' : Engine Unit) × (setup idle_backend some true no_rings 8
        (some plain_params)
      ≡ some (pos (ring_token + 0), some q, e'))
    × Ready Unit k 0 8 no_rings e'
unfolding free_ring
setup-Ready_example =
    setup-Ready idle_backend some no_rings 0 8 plain_params (omega arith) (omega arith)
      (omega arith) refl refl (λ n. (n, refl)) (λ r w. (w, refl))

round_up_pow2-IsLeast_example : (n : ℕ) × (round_up_pow2 100 ≡ some n) × IsLeast 100 n
round_up_pow2-IsLeast_example = round_up_pow2-IsLeast 100 (omega arith)

carved-apart_example :
    let r = carved 8 16 4096 in
    (r.sq_block + r.sq_size ≤ r.cq_block)
    × (r.cq_block + r.cq_size ≤ r.sqes_block)
    × (r.sqes_block + r.sqes_size ≤ 4096 + block_size 8 16)
carved-apart_example = carved-apart 8 16 4096

double_up-diverges_example : double_up 33 1 (2 ^ 31 + 1) ≡ none
double_up-diverges_example = double_up-diverges 33 (2 ^ 31 + 1) (omega arith)
