-- ===== src/Posix.antt =====
-- src/engine_posix.c, "parking" and "provided buffers": the set of ops that wait for a descriptor, the
-- hand-over to the worker, and the rings of buffers that a recv selects from. `arm` and `disarm` are
-- the backend's.
pub mod Sample
pub mod Places
pub mod Sys
pub mod Multishot
pub mod Socket
pub mod Try
pub mod Worker
pub mod Cancel
pub mod Execute
pub mod Owned
pub mod Same
pub mod Unpark
pub mod Parking
pub mod Buffers
mod Tests
use slipstream_io.Base.{
  zero, ◌+◌, ◌%◌, ◌^◌, bit_and, ℕ, suc, ◌-◌, Bool, true, false, not, ◌||◌, List, [], ◌∷◌, ◌++◌,
  length, get_elem?, set, take, Option, none, some, leb, ◌==◌, if◌then◌else◌, update,
}
use slipstream_io.Ring.{Ring, Buf, BufRing}
use slipstream_io.Fixed.{bufring_of}

-- `unsigned short`
abbrev pub u16_mod : ℕ
u16_mod = 2 ^ 16

-- `r->waiting[i] == op`
abbrev pub waits_at : Ring → ℕ → ℕ → Bool
waits_at r i p = elim (get_elem? r.waiting i) [ none ↦ false | some q ↦ q == p ]

-- The op at the end of the set moves to place `i`, and the set is shorter by one.
unfoldable pub swap_last : Ring → ℕ → Option ℕ → Ring
swap_last r i none = r
swap_last r i (some q) = record r {
  waiting = set (take (length r.waiting - 1) r.waiting) i q;
  ops = update r.ops q (record (r.ops q) { wait_slot = i });
}

-- `worker_start_once`; `started` says that thrd_create succeeded.
unfoldable pub worker_start_once : Bool → Ring → Ring
worker_start_once started r = if r.worker_live then r else record r { worker_live = started }

-- `slip_posix_hand_to_worker`
unfoldable pub hand_to_worker : Bool → Ring → ℕ → Ring
hand_to_worker started r p = worker_start_once started (record r {
  ops = update r.ops p (record (r.ops p) {
    stalls_queue = if (r.ops p).sqe.flags.io_link then true else (r.ops p).stalls_queue;
  });
  wq = r.wq ++ (p ∷ []);
})

module _ {W : Type 0} (arm : Ring → ℕ → W → Bool × W) (disarm : Ring → ℕ → W → W) where
  unfoldable pub park_armed : Ring → ℕ → Bool × W → Bool × Ring × W
  park_armed r p (false, w) = (false, r, w)
  park_armed r p (true, w) = (
    true,
    record r {
      ops = update r.ops p (record (r.ops p) { wait_slot = length r.waiting });
      waiting = r.waiting ++ (p ∷ []);
    },
    w,
  )

  unfoldable pub park : Ring → ℕ → W → Bool × Ring × W
  park r p w =
      if leb r.op_pool_n (length r.waiting) then (false, r, w) else park_armed r p (arm r p w)

  unfoldable pub unpark : Ring → ℕ → W → Ring × W
  unpark r p w =
      let i = (r.ops p).wait_slot in
      let s = swap_last r i (get_elem? r.waiting (length r.waiting - 1)) in
      if leb (length r.waiting) i || not (waits_at r i p) then (r, w) else (s, disarm s p w)

-- A write of one entry's head, at its index in the array.
unfoldable pub set_head : List BufRing → ℕ → ℕ → List BufRing
set_head [] i h = []
set_head (b ∷ bs) zero h = record b { head = h } ∷ bs
set_head (b ∷ bs) (suc i) h = b ∷ set_head bs i h

-- `bufring_unget`, at the entry that the group's lookup found.
unfoldable pub unget_at : Ring → ℕ → Option BufRing → Ring
unget_at r i none = r
unget_at r i (some b) = record r {
  bufrings = set_head r.bufrings i ((b.head + u16_mod - 1) % u16_mod);
}

unfoldable pub unget_of : Ring → Option ℕ → Ring
unget_of r none = r
unget_of r (some i) = unget_at r i (get_elem? r.bufrings i)

unfoldable pub bufring_unget : Ring → ℕ → Ring
bufring_unget r bgid = unget_of r (bufring_of r bgid)

-- The caller's memory: the tail that overlays the first entry, and the entries.
module _ (tail_at : ℕ → ℕ) (entry_at : ℕ → ℕ → Buf) where
  unfoldable pub take_entry : Ring → ℕ → Option BufRing → Option (Buf × Ring)
  take_entry r i none = none
  take_entry r i (some b) =
      if tail_at b.bufs == b.head
      then none
      else some (
        entry_at b.bufs (bit_and b.head (b.entries - 1)),
        record r { bufrings = set_head r.bufrings i ((b.head + 1) % u16_mod) },
      )

  unfoldable pub take_of : Ring → Option ℕ → Option (Buf × Ring)
  take_of r none = none
  take_of r (some i) = take_entry r i (get_elem? r.bufrings i)

  -- `bufring_take`; `none` is -ENOBUFS.
  unfoldable pub bufring_take : Ring → ℕ → Option (Buf × Ring)
  bufring_take r bgid = take_of r (bufring_of r bgid)
