-- ===== src/Posix/Tests.antt =====
-- A group of buffers, and a parked set of three ops with a backend that arms every op.
use slipstream_io.Base.{
  ◌≡◌, ◌+◌, ◌*◌, ◌<◌, ap, ℕ, zero, suc, ◌≢◌, refl, arith, Bool, true, [], ◌∷◌, get_elem?, some,
  if◌then◌else◌, ◌==◌,
}
use mathlib.Core.Option.{none-ne-some, some-injective}
use slipstream_io.Fixed.{bufring_of, bufring_from}
use slipstream_io.Posix.Buffers.{bufring_unget-bufring_take}
use slipstream_io.Ring.{Buf, BufRing, Ring, zero_ring, zero_op}
use slipstream_io.Posix.{
  u16_mod, set_head, bufring_unget, bufring_take, take_of, take_entry, park, unpark,
}
use slipstream_io.Posix.Parking.{
  PlacesAreKnown, park-PlacesAreKnown, unpark-PlacesAreKnown, unpark-gone,
}

-- Ops 4, 6 and 5, in this order.
abbrev three_parked : Ring
three_parked = record zero_ring {
  op_pool_n = 8;
  ops = λ p. record zero_op { wait_slot = if p == 4 then 0 else if p == 6 then 1 else 2 };
  waiting = 4 ∷ 6 ∷ 5 ∷ [];
}

three_parked-PlacesAreKnown : PlacesAreKnown three_parked
three_parked-PlacesAreKnown zero q h = ground (arith, some-injective _ _ h)
three_parked-PlacesAreKnown (suc zero) q h = ground (arith, some-injective _ _ h)
three_parked-PlacesAreKnown (suc (suc zero)) q h = ground (arith, some-injective _ _ h)
three_parked-PlacesAreKnown (suc (suc (suc k))) q h = absurd (none-ne-some _ h)

abbrev arm_all : Ring → ℕ → Unit {0} → Bool × Unit {0}
arm_all r p w = (true, w)

abbrev forget : Ring → ℕ → Unit {0} → Unit {0}
forget r p w = w

park-PlacesAreKnown_example : PlacesAreKnown (park arm_all forget three_parked 7 tt).1
park-PlacesAreKnown_example =
    park-PlacesAreKnown arm_all forget three_parked 7 tt refl three_parked-PlacesAreKnown

unpark-PlacesAreKnown_example : PlacesAreKnown (unpark arm_all forget three_parked 6 tt).0
unpark-PlacesAreKnown_example =
    unpark-PlacesAreKnown arm_all forget three_parked 6 tt three_parked-PlacesAreKnown

unpark-gone_example : get_elem? (unpark arm_all forget three_parked 6 tt).0.waiting 1 ≢ some 6
unpark-gone_example = unpark-gone arm_all forget three_parked 6 tt three_parked-PlacesAreKnown 1

-- A ring with one group of four buffers, of which the caller gave two; the head is at its wrap.
abbrev one_group : Ring
one_group = record zero_ring {
  bufrings = record { bufs = 4096; entries = 4; bgid = 7; head = 65535; in_use = true } ∷ [];
}

abbrev entry : ℕ → ℕ → Buf
entry bufs i = record { addr = 8192 + i * 512; len = 512; bid = i }

abbrev taken : Ring
taken = record one_group {
  bufrings = record { bufs = 4096; entries = 4; bgid = 7; head = 0; in_use = true } ∷ [];
}

one_group-heads : (i : ℕ) (b : BufRing) → get_elem? one_group.bufrings i ≡ some b → b.head < u16_mod
one_group-heads zero b h = omega (arith, ap (λ z. z.head) (some-injective _ _ h))
one_group-heads (suc i) b h = absurd (none-ne-some _ h)

bufring_unget-bufring_take_example : bufring_unget taken 7 ≡ one_group
unfolding bufring_take take_of take_entry set_head bufring_of bufring_from
bufring_unget-bufring_take_example =
    bufring_unget-bufring_take (λ bufs. 1) entry one_group taken 7 (entry 4096 3) one_group-heads
      refl
