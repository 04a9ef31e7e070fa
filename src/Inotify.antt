-- ===== src/Inotify.antt =====
-- src/slipstream_inotify.c, the kqueue arm: an instance with its watches and its queue of records. A string
-- is its bytes without the NUL. What the system answers is an operation on the world.
pub mod Queue
pub mod Room
pub mod Changes
pub mod Calls
pub mod Watches
pub mod Own
pub mod Reads
pub mod Still
pub mod Sound
pub mod Short
pub mod Events
mod Tests
use slipstream_io.Base.{
  ℕ, zero, suc, ◌+◌, ◌*◌, ◌/◌, ℤ, Bool, true, false, ◌&&◌, List, [], ◌∷◌, Option, ◌==◌, ◌⊎◌,
  if◌then◌else◌,
}

abbrev pub Bytes : Type 0
Bytes = List ℕ

-- `strcmp(a, b) == 0`
abbrev pub eq_bytes : Bytes → Bytes → Bool
eq_bytes [] [] = true
eq_bytes [] (b ∷ bs) = false
eq_bytes (a ∷ as') [] = false
eq_bytes (a ∷ as') (b ∷ bs) = (a == b) && eq_bytes as' bs

abbrev pub in_modify : ℕ
in_modify = 2

abbrev pub in_attrib : ℕ
in_attrib = 4

abbrev pub in_moved_from : ℕ
in_moved_from = 64

abbrev pub in_moved_to : ℕ
in_moved_to = 128

abbrev pub in_create : ℕ
in_create = 256

abbrev pub in_delete : ℕ
in_delete = 512

abbrev pub in_delete_self : ℕ
in_delete_self = 1024

abbrev pub in_move_self : ℕ
in_move_self = 2048

abbrev pub in_all_events : ℕ
in_all_events = 4095

abbrev pub in_unmount : ℕ
in_unmount = 8192

abbrev pub in_q_overflow : ℕ
in_q_overflow = 16384

abbrev pub in_ignored : ℕ
in_ignored = 32768

abbrev pub in_isdir : ℕ
in_isdir = 1073741824

-- A record of the queue: `struct slipstream_inotify_event`, and the name that stands behind it in
-- `len` bytes.
pub record Event : Type 0 where
  pub wd : ℤ
  pub mask : ℕ
  pub cookie : ℕ
  pub len : ℕ
  pub name : Option Bytes

-- sizeof(struct slipstream_inotify_event)
abbrev pub event_size : ℕ
event_size = 16

-- What `lstat` says of a name; `is_dir` is its S_ISDIR.
pub record Stat : Type 0 where
  pub ino : ℕ
  pub mtime_sec : ℤ
  pub mtime_nsec : ℕ
  pub size : ℕ
  pub mode : ℕ

-- `struct entry`
pub record Entry : Type 0 where
  pub name : Bytes
  pub stat : Stat
  pub seen : Bool

-- `struct watch`
pub record Watch : Type 0 where
  pub wd : ℕ
  pub fd : ℕ
  pub path : Bytes
  pub mask : ℕ
  pub is_dir : Bool
  pub kids : List Entry

-- `struct inst`. The source's `int next_wd` is its 32-bit word, as is a watch's `int wd`; that of a
-- watch descriptor past the last `int` is taken to wrap, where C leaves it open.
pub record Inst : Type 0 where
  pub kq : ℕ
  pub used : Bool
  pub nonblock : Bool
  pub next_wd : ℕ
  pub next_cookie : ℕ
  pub queue : List Event
  pub qlen : ℕ
  pub qcap : ℕ
  pub overflowed : Bool
  pub watches : List Watch

-- The bits of `fflags` that the source reads.
pub record Notes : Type 0 where
  pub write : Bool
  pub extend : Bool
  pub link : Bool
  pub attrib : Bool
  pub delete : Bool
  pub rename : Bool
  pub revoke : Bool

pub record Kevent : Type 0 where
  pub ident : ℕ
  pub notes : Notes

-- What the source calls. An errno is the failure of a call; `memory` is an allocation of that many
-- bytes, and whether it was given. `kevent` blocks where its flag says so.
pub record Kq (W : Type 0) : Type 0 where
  pub memory : ℕ → W → Bool × W
  pub s_isdir : ℕ → Bool
  pub read_dir : Bytes → W → Option (List Bytes) × W
  pub lstat : Bytes → W → Option Stat × W
  pub stat : Bytes → W → (ℕ ⊎ Stat) × W
  pub open_path : Bytes → W → (ℕ ⊎ ℕ) × W
  pub add_vnode : ℕ → ℕ → W → Option ℕ × W
  pub kevent : ℕ → Bool → W → List Kevent × W
  pub kqueue : W → (ℕ ⊎ ℕ) × W
  pub set_cloexec : ℕ → W → W
  pub close : ℕ → W → Option ℕ × W
