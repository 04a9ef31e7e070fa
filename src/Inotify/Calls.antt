-- ===== src/Inotify/Calls.antt =====
-- src/slipstream_inotify.c, the kqueue arm: `take_events` and the five calls. The table of instances is a
-- list of SLIPSTREAM_INOTIFY_MAX places.
use slipstream_io.Base.{
  ℕ, zero, suc, ◌+◌, ◌*◌, ◌%◌, u32_mod, to_s32, bit_and, ℤ, pos, neg, Bool, true, false, not, ◌&&◌,
  ◌⊎◌, inl, inr, List, [], ◌∷◌, ◌++◌, length, Option, none, some, ltb, ◌==◌, if◌then◌else◌,
}
use slipstream_io.Abi.{efault, einval, ebadf, emfile, enomem}
use slipstream_io.Inotify.{
  Bytes, eq_bytes, Event, event_size, Stat, Watch, Inst, Kevent, Kq, in_all_events, in_ignored,
}
use slipstream_io.Inotify.Queue.{State, emit, fit, taken_out}
use slipstream_io.Inotify.Changes.{Scan, scan, forget, translate}

-- SLIPSTREAM_INOTIFY_MAX
abbrev pub inst_max : ℕ
inst_max = 64

-- A place of the table, zeroed.
abbrev pub free_inst : Inst
free_inst = record {
  kq = 0;
  used = false;
  nonblock = false;
  next_wd = 0;
  next_cookie = 0;
  queue = [];
  qlen = 0;
  qcap = 0;
  overflowed = false;
  watches = [];
}

-- The place of the instance with this descriptor, and the instance: `inst_of`.
unfoldable pub inst_from : ℕ → List Inst → ℕ → Option (ℕ × Inst)
inst_from fd [] at = none
inst_from fd (i ∷ rest) at =
    let later = inst_from fd rest (at + 1) in if i.used && i.kq == fd then some (at, i) else later

unfoldable pub inst_of : ℕ → List Inst → Option (ℕ × Inst)
inst_of fd table = inst_from fd table 0

-- sizeof(struct watch)
abbrev pub watch_size : ℕ
watch_size = 40

-- The first place that is free.
unfoldable pub free_from : List Inst → ℕ → Option ℕ
free_from [] at = none
free_from (i ∷ rest) at = let later = free_from rest (at + 1) in if i.used then later else some at

unfoldable pub store_inst : List Inst → ℕ → Inst → List Inst
store_inst [] at i = []
store_inst (j ∷ rest) zero i = i ∷ rest
store_inst (j ∷ rest) (suc at) i = j ∷ store_inst rest at i

-- The two flags of `init1`, and whether any other bit was set.
pub record InitFlags : Type 0 where
  pub cloexec : Bool
  pub nonblock : Bool
  pub others : Bool

-- The new mask of a path that is watched already, and its descriptor.
unfoldable pub remask : Bytes → ℕ → List Watch → Option (ℕ × List Watch)
remask path mask [] = none
remask path mask (a ∷ rest) =
    let later = remask path mask rest in
    if eq_bytes a.path path
    then some (a.wd, record a { mask = mask } ∷ rest)
    else elim later [ none ↦ none | some (wd, rest') ↦ some (wd, a ∷ rest') ]

-- The watch of a watch descriptor, and its place.
unfoldable pub watch_of_wd : ℕ → List Watch → ℕ → Option (ℕ × Watch)
watch_of_wd wd [] at = none
watch_of_wd wd (a ∷ rest) at =
    let later = watch_of_wd wd rest (at + 1) in if a.wd == wd then some (at, a) else later

module _ {W : Type 0} (sys : Kq W) where
  unfoldable pub translate_all : List Kevent → State sys → State sys
  translate_all [] s = s
  translate_all (k ∷ ks) s = translate_all ks (translate sys k s)

  -- `take_events`, for at most `n` rounds; `none` where it would go on. Only the first round waits.
  unfoldable pub take_events : ℕ → Bool → State sys → Option (State sys)
  take_events zero waits s = none
  take_events (suc n) waits (i, w) =
      let (ks, v) = sys.kevent i.kq waits w in
      let t = translate_all ks (i, v) in
      let rest = take_events n false t in if length ks == 32 then rest else some t

  abbrev pub Table : Type 0
  Table = List Inst × W

  unfoldable pub inst_opened : InitFlags → List Inst → ℕ → (ℕ ⊎ ℕ) × W → ℤ × List Inst × W
  inst_opened f table at (inl e, w) = (neg e, table, w)
  inst_opened f table at (inr kq, w) = (
    pos kq,
    store_inst table at
        (record free_inst { kq = kq; used = true; next_wd = 1; nonblock = f.nonblock }),
    if f.cloexec then sys.set_cloexec kq w else w,
  )

  unfoldable pub init_at : InitFlags → List Inst → Option ℕ → W → ℤ × List Inst × W
  init_at f table none w = (neg emfile, table, w)
  init_at f table (some at) w = inst_opened f table at (sys.kqueue w)

  -- `slipstream_inotify_init1`
  unfoldable pub init1 : InitFlags → Table → ℤ × List Inst × W
  init1 f (table, w) =
      if f.others then (neg einval, table, w) else init_at f table (free_from table 0) w

  -- The new watch, once it is on the kqueue and its array has grown.
  unfoldable pub appended : Watch → Inst → Bool × W → ℤ × Inst × W
  appended a i (false, w) = (neg enomem, i, (sys.close a.fd w).1)
  appended a i (true, w) = (
    to_s32 a.wd,
    record i { watches = i.watches ++ (a ∷ []); next_wd = (i.next_wd + 1) % u32_mod },
    w,
  )

  unfoldable pub armed : Watch → Inst → Option ℕ × W → ℤ × Inst × W
  armed a i (some e, w) = (neg e, i, (sys.close a.fd w).1)
  armed a i (none, w) = appended a i (sys.memory (suc (length i.watches) * watch_size) w)

  unfoldable pub first_look : Watch → Inst → Scan × W → ℤ × Inst × W
  first_look a i (s, w) = armed (record a { kids = s.entries }) i (sys.add_vnode i.kq a.fd w)

  unfoldable pub copied : Bytes → ℕ → Bool → ℕ → Inst → Bool × W → ℤ × Inst × W
  copied path mask is_dir wfd i (false, w) = (neg enomem, i, (sys.close wfd w).1)
  copied path mask is_dir wfd i (true, w) =
      let a : Watch = record {
        wd = i.next_wd;
        fd = wfd;
        path = path;
        mask = mask;
        is_dir = is_dir;
        kids = [];
      } in
      if is_dir then first_look a i (scan sys path w) else armed a i (sys.add_vnode i.kq wfd w)

  unfoldable pub path_opened : Bytes → ℕ → Bool → Inst → (ℕ ⊎ ℕ) × W → ℤ × Inst × W
  path_opened path mask is_dir i (inl e, w) = (neg e, i, w)
  path_opened path mask is_dir i (inr wfd, w) =
      copied path mask is_dir wfd i (sys.memory (length path + 1) (sys.set_cloexec wfd w))

  -- A path that is watched takes the new mask; one that is not gets a watch.
  unfoldable pub watch_path : Bytes → ℕ → Bool → Inst → Option (ℕ × List Watch) → W → ℤ × Inst × W
  watch_path path mask is_dir i (some (wd, as')) w = (to_s32 wd, record i { watches = as' }, w)
  watch_path path mask is_dir i none w = path_opened path mask is_dir i (sys.open_path path w)

  unfoldable pub statted : Bytes → ℕ → Inst → (ℕ ⊎ Stat) × W → ℤ × Inst × W
  statted path mask i (inl e, w) = (neg e, i, w)
  statted path mask i (inr st, w) =
      watch_path path mask (sys.s_isdir st.mode) i (remask path mask i.watches) w

  -- `slipstream_inotify_add_watch`, on the instance.
  unfoldable pub add_watch_on : Bytes → ℕ → State sys → ℤ × Inst × W
  add_watch_on path mask (i, w) = statted path mask i (sys.stat path w)

  -- The instance at its place again.
  abbrev pub put_back : List Inst → ℕ → ℤ × Inst × W → ℤ × List Inst × W
  put_back table at (res, i, w) = (res, store_inst table at i, w)

  unfoldable pub add_watch_at : Bytes → ℕ → List Inst → Option (ℕ × Inst) → W → ℤ × List Inst × W
  add_watch_at path mask table none w = (neg ebadf, table, w)
  add_watch_at path mask table (some (at, i)) w = put_back table at (add_watch_on path mask (i, w))

  unfoldable pub add_watch : ℕ → Option Bytes → ℕ → Table → ℤ × List Inst × W
  add_watch fd none mask (table, w) = (neg efault, table, w)
  add_watch fd (some path) mask (table, w) =
      if bit_and mask in_all_events == 0
      then (neg einval, table, w)
      else add_watch_at path mask table (inst_of fd table) w

  unfoldable pub rm_watch_at : ℕ → Option (ℕ × Watch) → State sys → ℤ × Inst × W
  rm_watch_at wd none (i, w) = (neg einval, i, w)
  rm_watch_at wd (some (at, a)) s =
      let (i, w) = forget sys at a.fd (emit sys wd in_ignored 0 none s) in (pos 0, i, w)

  -- `slipstream_inotify_rm_watch`, on the instance.
  unfoldable pub rm_watch_on : ℕ → State sys → ℤ × Inst × W
  rm_watch_on wd (i, w) = rm_watch_at wd (watch_of_wd wd i.watches 0) (i, w)

  unfoldable pub rm_watch_of : ℕ → List Inst → Option (ℕ × Inst) → W → ℤ × List Inst × W
  rm_watch_of wd table none w = (neg ebadf, table, w)
  rm_watch_of wd table (some (at, i)) w = put_back table at (rm_watch_on wd (i, w))

  unfoldable pub rm_watch : ℕ → ℕ → Table → ℤ × List Inst × W
  rm_watch fd wd (table, w) = rm_watch_of wd table (inst_of fd table) w

  -- What a read hands over: its answer, and the records.
  unfoldable pub read_out : ℕ → State sys → (ℤ × List Event) × Inst × W
  read_out len (i, w) =
      let (res, evs, j) = taken_out i (fit i.qlen len 0 i.queue) in
      if i.qlen == 0 then ((pos 0, []), i, w) else ((res, evs), j, w)

  unfoldable pub read_from : ℕ → Option (State sys) → Option ((ℤ × List Event) × Inst × W)
  read_from len none = none
  read_from len (some s) = some (read_out len s)

  -- `slipstream_inotify_read`, on the instance, with `n` rounds of `kevent`.
  unfoldable pub read_on : ℕ → ℕ → State sys → Option ((ℤ × List Event) × Inst × W)
  read_on n len (i, w) =
      if i.qlen == 0
      then read_from len (take_events n (not i.nonblock) (i, w))
      else some (read_out len (i, w))

  abbrev pub put_back_read :
      List Inst
      → ℕ
      → Option ((ℤ × List Event) × Inst × W)
      → Option ((ℤ × List Event) × List Inst × W)
  put_back_read table at none = none
  put_back_read table at (some (x, i, w)) = some (x, store_inst table at i, w)

  unfoldable pub read_of :
      ℕ → ℕ → List Inst → Option (ℕ × Inst) → W → Option ((ℤ × List Event) × List Inst × W)
  read_of n len table none w = some ((neg ebadf, []), table, w)
  read_of n len table (some (at, i)) w =
      if ltb len event_size
      then some ((neg einval, []), table, w)
      else put_back_read table at (read_on n len (i, w))

  -- `has_buf` says that `buf` is not NULL.
  unfoldable pub read : ℕ → Bool → ℕ → ℕ → Table → Option ((ℤ × List Event) × List Inst × W)
  read n has_buf fd len (table, w) =
      if has_buf
      then read_of n len table (inst_of fd table) w
      else some ((neg efault, []), table, w)

  -- The watches go from the last to the first.
  unfoldable pub close_watches : List Watch → W → W
  close_watches [] w = w
  close_watches (a ∷ rest) w = (sys.close a.fd (close_watches rest w)).1

  abbrev pub closed : Option ℕ × W → List Inst → ℤ × List Inst × W
  closed (none, w) table = (pos 0, table, w)
  closed (some e, w) table = (neg e, table, w)

  unfoldable pub close_at : List Inst → Option (ℕ × Inst) → W → ℤ × List Inst × W
  close_at table none w = (neg ebadf, table, w)
  close_at table (some (at, i)) w =
      closed (sys.close i.kq (close_watches i.watches w)) (store_inst table at free_inst)

  -- `slipstream_inotify_close`
  unfoldable pub close : ℕ → Table → ℤ × List Inst × W
  close fd (table, w) = close_at table (inst_of fd table) w
