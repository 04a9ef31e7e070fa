-- ===== src/Close/Tests.antt =====
-- The one live ring of an engine, mapped and closed.
use slipstream_io.Base.{◌+◌, ◌≡◌, refl, ℤ, pos, neg, true, if◌then◌else◌, List, [], ◌∷◌, some, ◌==◌}
use slipstream_io.Abi.{ebadf}
use slipstream_io.Ring.{zero_ring}
use slipstream_io.Backend.{Backend, pending}
use slipstream_io.Engine.{Engine, ring_token, ring_of}
use slipstream_io.Close.{off_cq_ring, mmap, munmap, close, map_on, part_at}
use slipstream_io.Close.Laws.{munmap-mmap, close-twice}

-- The world is the list of the descriptors closed.
abbrev log_backend : Backend (List ℤ)
log_backend = record {
  open_ring = λ r w. (true, r, w);
  close_ring = λ r w. (r, w);
  poke = λ r w. w;
  execute = λ r p w. (pending, r, w);
  wait = λ r n t w. (some [], r, w);
  carried_ops = [];
}

abbrev one_ring : Engine (List ℤ)
one_ring = record {
  rings = λ i.
      if i == 2
      then record zero_ring {
        in_use = true;
        sq_size = 64;
        cq_size = 64;
        sqes_size = 256;
        sq_block = 4096;
        cq_block = 4160;
        sqes_block = 4224;
        fixed = some (pos 5 ∷ neg 1 ∷ pos 6 ∷ []);
        fixed_n = 3;
      }
      else zero_ring;
  world = [];
}

abbrev token : ℤ
token = pos (ring_token + 2)

munmap-mmap_example : munmap one_ring 4160 ≡ pos 0
unfolding mmap map_on part_at ring_of
munmap-mmap_example = munmap-mmap one_ring 64 off_cq_ring 4160 token refl

close-twice_example :
    (close log_backend
      (λ r w. (r, w))
      (λ fd w. fd ∷ w)
      (close log_backend (λ r w. (r, w)) (λ fd w. fd ∷ w) one_ring token).1
      token).0
    ≡ neg ebadf
close-twice_example = close-twice log_backend (λ r w. (r, w)) (λ fd w. fd ∷ w) one_ring token
