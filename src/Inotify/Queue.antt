-- ===== src/Inotify/Queue.antt =====
-- src/slipstream_inotify.c: `name_len`, `emit`, `emit_masked`, and the way out of the queue in
-- `slipstream_inotify_read`.
use slipstream_io.Base.{
  ℕ, zero, suc, ◌+◌, ◌-◌, ◌*◌, ◌/◌, bit_and, bit_or, ◌^◌, ℤ, to_s32, pos, neg, Bool, true, false,
  List, [], ◌∷◌, ◌++◌, length, Option, none, some, ltb, ◌==◌, if◌then◌else◌,
}
use slipstream_io.Abi.{einval}
use slipstream_io.Inotify.{
  Bytes, Event, event_size, Watch, Inst, Kq, in_q_overflow, in_ignored, in_unmount, in_isdir,
}

-- SLIPSTREAM_INOTIFY_QUEUE_MAX
abbrev pub queue_max : ℕ
queue_max = 2 ^ 20

-- `(n + 15) & ~15` is the next multiple of 16.
abbrev pub name_len : Option Bytes → ℕ
name_len none = 0
name_len (some name) = (length name + 1 + 15) / 16 * 16

abbrev pub size_of : Event → ℕ
size_of ev = event_size + ev.len

-- The loop that doubles the room until the record fits.
unfoldable pub doubled : ℕ → ℕ → ℕ → ℕ
doubled zero want need = want
doubled (suc f) want need = if ltb want need then doubled f (want * 2) need else want

-- Room for `need` bytes, from a queue with room for `qcap`.
abbrev pub grown : ℕ → ℕ → ℕ
grown qcap need = doubled need (if qcap == 0 then 4096 else qcap * 2) need

abbrev pub record_of : ℕ → ℕ → ℕ → Option Bytes → Event
record_of wd mask cookie name = record {
  wd = to_s32 wd;
  mask = mask;
  cookie = cookie;
  len = name_len name;
  name = name;
}

abbrev pub overflow_record : Event
overflow_record = record { wd = neg 1; mask = in_q_overflow; cookie = 0; len = 0; name = none }

-- A record that does not fit any more: one overflow record for the whole run of them.
unfoldable pub overflow : Inst → Inst
overflow i =
    if i.overflowed then i else if ltb queue_max (i.qlen + event_size) then i else record i {
      queue = i.queue ++ (overflow_record ∷ []);
      qlen = i.qlen + event_size;
      overflowed = true;
    }

unfoldable pub push : Inst → Event → Inst
push i ev = record i {
  queue = i.queue ++ (ev ∷ []);
  qlen = i.qlen + size_of ev;
  overflowed = false;
}

-- What is reported beyond what the watch asked for.
abbrev pub always : ℕ
always = bit_or in_ignored (bit_or in_q_overflow in_unmount)

-- What `read` moves out: whole records, as long as they fit the buffer; `out` bytes are moved so far,
-- of `qlen`.
unfoldable pub fit : ℕ → ℕ → ℕ → List Event → List Event × List Event
fit qlen len out [] = ([], [])
fit qlen len out (ev ∷ rest) =
    if ltb out qlen
    then (if ltb len (out + size_of ev)
        then ([], ev ∷ rest)
        else (let (taken, left) = fit qlen len (out + size_of ev) rest in (ev ∷ taken, left)))
    else ([], ev ∷ rest)

abbrev pub bytes_of : List Event → ℕ
bytes_of [] = 0
bytes_of (ev ∷ rest) = size_of ev + bytes_of rest

-- The copy out, and the queue that is left.
unfoldable pub taken_out : Inst → List Event × List Event → ℤ × List Event × Inst
taken_out i ([], left) = (neg einval, [], i)
taken_out i (ev ∷ taken, left) =
    let out = bytes_of (ev ∷ taken) in
    (pos out, ev ∷ taken, record i { queue = left; qlen = i.qlen - out })

module _ {W : Type 0} (sys : Kq W) where
  abbrev pub State : Type 0
  State = Inst × W

  unfoldable pub push_grown : Inst → Event → ℕ → Bool × W → State
  push_grown i ev want (false, w) = (i, w)
  push_grown i ev want (true, w) = (push (record i { qcap = want }) ev, w)

  -- `emit`
  unfoldable pub emit : ℕ → ℕ → ℕ → Option Bytes → State → State
  emit wd mask cookie name (i, w) =
      let ev = record_of wd mask cookie name in
      let total = event_size + name_len name in
      if ltb queue_max (i.qlen + total)
      then (overflow i, w)
      else if ltb i.qcap (i.qlen + total)
      then (let want = grown i.qcap (i.qlen + total) in push_grown i ev want (sys.memory want w))
      else (push i ev, w)

  -- `emit_masked`, of a watch's descriptor and mask.
  unfoldable pub emit_masked : Watch → ℕ → ℕ → Option Bytes → Bool → State → State
  emit_masked a mask cookie name isdir s =
      if bit_and mask (bit_or a.mask always) == 0
      then s
      else emit a.wd (bit_or mask (if isdir then in_isdir else 0)) cookie name s
