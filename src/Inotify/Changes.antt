-- ===== src/Inotify/Changes.antt =====
-- src/slipstream_inotify.c: `scan`, `directory_changed`, `forget` and `translate`.
use slipstream_io.Base.{
  ℕ, zero, suc, ◌+◌, ◌*◌, ◌%◌, u32_mod, eq_ℤ, Bool, true, false, not, ◌&&◌, ◌||◌, List, [], ◌∷◌,
  ◌++◌, length, Option, none, some, leb, ◌==◌, if◌then◌else◌,
}
use slipstream_io.Inotify.{
  Bytes, eq_bytes, Stat, Entry, Watch, Inst, Notes, Kevent, Kq, in_modify, in_attrib, in_moved_from,
  in_moved_to, in_create, in_delete, in_delete_self, in_move_self, in_ignored,
}
use slipstream_io.Inotify.Queue.{State, emit, emit_masked}

-- "." and ".."
abbrev pub is_dots : Bytes → Bool
is_dots name = eq_bytes name (46 ∷ []) || eq_bytes name (46 ∷ 46 ∷ [])

-- `"%s/%s"`, which has to fit 4096 bytes with its NUL.
abbrev pub full_path : Bytes → Bytes → Bytes
full_path path name = path ++ (47 ∷ name)

abbrev pub is_too_long : Bytes → Bytes → Bool
is_too_long path name = leb 4096 (length (full_path path name))

-- sizeof(struct entry)
abbrev pub entry_size : ℕ
entry_size = 48

-- A scan: whether an array was allocated, and its entries.
pub record Scan : Type 0 where
  pub allocated : Bool
  pub entries : List Entry

abbrev pub fresh_entry : Bytes → Stat → Entry
fresh_entry name st = record { name = name; stat = st; seen = false }

-- The first entry with this name is marked; `none` where there is none.
unfoldable pub see_first : Bytes → List Entry → Option (Entry × List Entry)
see_first name [] = none
see_first name (e ∷ rest) =
    let later = see_first name rest in
    if eq_bytes e.name name
    then some (e, record e { seen = true } ∷ rest)
    else elim later [ none ↦ none | some (had, rest') ↦ some (had, e ∷ rest') ]

-- The first entry that no name was found for with this inode, which is marked.
unfoldable pub land_first : ℕ → List Entry → Option (Entry × List Entry)
land_first ino [] = none
land_first ino (e ∷ rest) =
    let later = land_first ino rest in
    if not e.seen && e.stat.ino == ino
    then some (e, record e { seen = true } ∷ rest)
    else elim later [ none ↦ none | some (landed, rest') ↦ some (landed, e ∷ rest') ]

abbrev pub unseen : List Entry → List Entry
unseen [] = []
unseen (e ∷ rest) = record e { seen = false } ∷ unseen rest

abbrev pub is_modified : Stat → Stat → Bool
is_modified a b =
    not (eq_ℤ a.mtime_sec b.mtime_sec)
    || not (a.mtime_nsec == b.mtime_nsec)
    || not (a.size == b.size)

-- `watches[at]` with other kids.
unfoldable pub set_kids : List Watch → ℕ → List Entry → List Watch
set_kids [] at es = []
set_kids (a ∷ rest) zero es = record a { kids = es } ∷ rest
set_kids (a ∷ rest) (suc at) es = a ∷ set_kids rest at es

unfoldable pub remove_at : {A : Type 0} → ℕ → List A → List A
remove_at at [] = []
remove_at zero (a ∷ rest) = rest
remove_at (suc at) (a ∷ rest) = a ∷ remove_at at rest

-- The watch of a descriptor, and its place.
unfoldable pub watch_of_fd : ℕ → List Watch → ℕ → Option (ℕ × Watch)
watch_of_fd fd [] at = none
watch_of_fd fd (a ∷ rest) at = if a.fd == fd then some (at, a) else watch_of_fd fd rest (at + 1)

module _ {W : Type 0} (sys : Kq W) where
  abbrev pub given : ℕ → Bool × W → Option ℕ × W
  given want (true, w) = (some want, w)
  given want (false, w) = (none, w)

  -- The array for one more entry: as it is where there is room, or twice as large.
  unfoldable pub room_for : ℕ → ℕ → W → Option ℕ × W
  room_for n cap w =
      let want = if cap == 0 then 16 else cap * 2 in
      if n == cap then given want (sys.memory (want * entry_size) w) else (some cap, w)

  abbrev pub scanned : ℕ → List Entry → Scan
  scanned cap es = record { allocated = not (cap == 0); entries = es }

  -- One name of the directory: the array after it, and whether the scan breaks off.
  unfoldable pub named : Bytes → Stat → ℕ → List Entry → Bool × W → Bool × ℕ × List Entry × W
  named name st cap es (false, w) = (true, cap, es, w)
  named name st cap es (true, w) = (false, cap, es ++ (fresh_entry name st ∷ []), w)

  unfoldable pub placed : Bytes → Stat → ℕ → List Entry → Option ℕ × W → Bool × ℕ × List Entry × W
  placed name st cap es (none, w) = (true, cap, es, w)
  placed name st cap es (some cap', w) = named name st cap' es (sys.memory (length name + 1) w)

  unfoldable pub looked_at : Bytes → ℕ → List Entry → Option Stat × W → Bool × ℕ × List Entry × W
  looked_at name cap es (none, w) = (false, cap, es, w)
  looked_at name cap es (some st, w) = placed name st cap es (room_for (length es) cap w)

  unfoldable pub scan_name : Bytes → Bytes → ℕ → List Entry → W → Bool × ℕ × List Entry × W
  scan_name path name cap es w =
      if is_dots name || is_too_long path name
      then (false, cap, es, w)
      else looked_at name cap es (sys.lstat (full_path path name) w)

  -- The loop of `scan`, over the names that are left, with the array so far.
  unfoldable pub scan_names : Bytes → List Bytes → ℕ → List Entry → W → Scan × W
  scan_names path [] cap es w = (scanned cap es, w)
  scan_names path (name ∷ names) cap es w =
      let (breaks, cap', es', v) = scan_name path name cap es w in
      let rest = scan_names path names cap' es' v in if breaks then (scanned cap' es', v) else rest

  unfoldable pub scan_dir : Bytes → Option (List Bytes) × W → Scan × W
  scan_dir path (none, w) = (record { allocated = false; entries = [] }, w)
  scan_dir path (some names, w) = scan_names path names 0 [] w

  -- `scan`
  unfoldable pub scan : Bytes → W → Scan × W
  scan path w = scan_dir path (sys.read_dir path w)

  abbrev pub report : Watch → ℕ → ℕ → Entry → State sys → State sys
  report a mask cookie e s = emit_masked sys a mask cookie (some e.name) (sys.s_isdir e.stat.mode) s

  -- What a name that was there before has become.
  unfoldable pub compare_entry : Watch → Entry → Entry → State sys → State sys
  compare_entry a had now s =
      if not (had.stat.ino == now.stat.ino)
      then report a in_create 0 now (report a in_delete 0 had s)
      else if is_modified had.stat now.stat
      then report a in_modify 0 now s
      else if not (had.stat.mode == now.stat.mode)
      then report a in_attrib 0 now s
      else s

  -- The loop over the fresh entries, which marks what both have.
  unfoldable pub compare_all :
      Watch → List Entry → List Entry → State sys → List Entry × List Entry × State sys
  compare_all a [] kids s = ([], kids, s)
  compare_all a (f ∷ fresh) kids s = elim (see_first f.name kids) [
    | none ↦ let (fresh', kids', t) = compare_all a fresh kids s in (f ∷ fresh', kids', t)
    | some (had, kids1) ↦
        let (fresh', kids', t) = compare_all a fresh kids1 (compare_entry a had f s) in
        (record f { seen = true } ∷ fresh', kids', t)
  ]

  -- The two records of a rename, with a cookie of their own.
  unfoldable pub renamed : Watch → Entry → Entry → State sys → State sys
  renamed a old landed (i, w) =
      let cookie = (i.next_cookie + 1) % u32_mod in
      let isdir = sys.s_isdir old.stat.mode in
      emit_masked sys a in_moved_to cookie (some landed.name) isdir (
        emit_masked sys a in_moved_from cookie (some old.name) isdir
          (record i { next_cookie = cookie }, w))

  -- The loop over the entries that were there.
  unfoldable pub settle_old : Watch → List Entry → List Entry → State sys → List Entry × State sys
  settle_old a [] fresh s = (fresh, s)
  settle_old a (old ∷ kids) fresh s =
      if old.seen then settle_old a kids fresh s else elim (land_first old.stat.ino fresh) [
        | some (landed, fresh') ↦ settle_old a kids fresh' (renamed a old landed s)
        | none ↦ settle_old a kids fresh (report a in_delete 0 old s)
      ]

  -- The loop over the fresh entries that nothing was found for.
  unfoldable pub settle_new : Watch → List Entry → State sys → State sys
  settle_new a [] s = s
  settle_new a (f ∷ fresh) s =
      if f.seen then settle_new a fresh s else settle_new a fresh (report a in_create 0 f s)

  -- The three loops.
  unfoldable pub changes : Watch → List Entry → State sys → List Entry × State sys
  changes a fresh s =
      let (fresh1, kids1, s1) = compare_all a fresh (unseen a.kids) s in
      let (fresh2, s2) = settle_old a kids1 fresh1 s1 in (fresh2, settle_new a fresh2 s2)

  unfoldable pub replace_kids : ℕ → List Entry × State sys → State sys
  replace_kids at (es, (i, w)) = (record i { watches = set_kids i.watches at es }, w)

  -- `directory_changed`, of the watch at a place.
  unfoldable pub changed_by : ℕ → Watch → Inst → Scan × W → State sys
  changed_by at a i (fresh, w) = elim fresh.entries [
    | [] ↦ if fresh.allocated then replace_kids at (changes a [] (i, w)) else (i, w)
    | e ∷ es ↦ replace_kids at (changes a (e ∷ es) (i, w))
  ]

  unfoldable pub directory_changed : ℕ → Watch → State sys → State sys
  directory_changed at a (i, w) = changed_by at a i (scan a.path w)

  -- `forget`, which closes the watch's descriptor.
  unfoldable pub forget : ℕ → ℕ → State sys → State sys
  forget at fd (i, w) = (record i { watches = remove_at at i.watches }, (sys.close fd w).1)

  abbrev pub about_self : Watch → Bool → ℕ → Bool → State sys → State sys
  about_self a said mask isdir s = if said then emit_masked sys a mask 0 none isdir s else s

  abbrev pub written : ℕ → Watch → State sys → State sys
  written at a s =
      if a.is_dir then directory_changed at a s else emit_masked sys a in_modify 0 none false s

  abbrev pub gone : ℕ → Watch → State sys → State sys
  gone at a s =
      forget at a.fd
        (emit sys a.wd in_ignored 0 none (emit_masked sys a in_delete_self 0 none a.is_dir s))

  unfoldable pub translate_at : Notes → Option (ℕ × Watch) → State sys → State sys
  translate_at n none s = s
  translate_at n (some (at, a)) s =
      let s1 = if n.write || n.extend || n.link then written at a s else s in
      let s2 = about_self a n.attrib in_attrib a.is_dir s1 in
      let s3 = about_self a n.rename in_move_self a.is_dir s2 in
      if n.delete || n.revoke then gone at a s3 else s3

  -- `translate`
  unfoldable pub translate : Kevent → State sys → State sys
  translate k (i, w) = translate_at k.notes (watch_of_fd k.ident i.watches 0) (i, w)
