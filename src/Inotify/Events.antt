-- ===== src/Inotify/Events.antt =====
-- Whatever the kernel reports of a watch, the instance's queue stays within its bound and its memory.
use slipstream_io.Base.{
  if_both, ℕ, ◌≤◌, Bool, true, false, ◌||◌, List, [], ◌∷◌, length, Option, none, some,
  if◌then◌else◌,
}
use slipstream_io.Inotify.{
  Bytes, Stat, Entry, Watch, Notes, Kevent, Kq, in_modify, in_attrib, in_delete_self, in_move_self,
  in_ignored,
}
use slipstream_io.Inotify.Queue.{State, emit_masked}
use slipstream_io.Inotify.Changes.{
  is_dots, is_too_long, Scan, fresh_entry, watch_of_fd, named, placed, looked_at, scan_name,
  scan_names, scan_dir, scan, directory_changed, forget, translate_at, translate,
}
use slipstream_io.Inotify.Short.{
  AreNames, AreShort, snoc_short, remove_at_short, AtShort, watch_of_fd_short,
}
use slipstream_io.Inotify.Sound.{SoundState, emit-IsSound, emit_masked-IsSound, changed_by-IsSound}

module _ {W : Type 0} (sys : Kq W) where
  named_short :
      (name : Bytes) (st : Stat) (cap : ℕ) (es : List Entry) (x : Bool × W)
      → length name ≤ 255
      → AreShort es
      → AreShort (named sys name st cap es x).2
  unfolding named
  named_short name st cap es (false, w) s h = h
  named_short name st cap es (true, w) s h = snoc_short es (fresh_entry name st) h s

  placed_short :
      (name : Bytes) (st : Stat) (cap : ℕ) (es : List Entry) (x : Option ℕ × W)
      → length name ≤ 255
      → AreShort es
      → AreShort (placed sys name st cap es x).2
  unfolding placed
  placed_short name st cap es (none, w) s h = h
  placed_short name st cap es (some cap', w) s h = named_short name st cap' es _ s h

  looked_at_short :
      (name : Bytes) (cap : ℕ) (es : List Entry) (x : Option Stat × W)
      → length name ≤ 255
      → AreShort es
      → AreShort (looked_at sys name cap es x).2
  unfolding looked_at
  looked_at_short name cap es (none, w) s h = h
  looked_at_short name cap es (some st, w) s h = placed_short name st cap es _ s h

  scan_name_short :
      (path name : Bytes) (cap : ℕ) (es : List Entry) (w : W)
      → length name ≤ 255
      → AreShort es
      → AreShort (scan_name sys path name cap es w).2
  unfolding scan_name
  scan_name_short path name cap es w s h =
      if_both (λ (x : Bool × ℕ × List Entry × W). AreShort x.2)
        (is_dots name || is_too_long path name) _ _ h (looked_at_short name cap es _ s h)

  scan_names_short :
      (path : Bytes) (names : List Bytes) (cap : ℕ) (es : List Entry) (w : W)
      → AreNames names
      → AreShort es
      → AreShort (scan_names sys path names cap es w).0.entries
  unfolding scan_names
  scan_names_short path [] cap es w n h = h
  scan_names_short path (name ∷ names) cap es w (s, n) h =
      let x = scan_name sys path name cap es w in
      let h' = scan_name_short path name cap es w s h in
      if_both (λ (y : Scan × W). AreShort y.0.entries) x.0 _ _ h'
        (scan_names_short path names x.1 x.2 x.3 n h')

  abbrev pub DirNames : Option (List Bytes) → Type 0
  DirNames none = Unit
  DirNames (some names) = AreNames names

  scan_dir_short :
      (path : Bytes) (x : Option (List Bytes) × W)
      → DirNames x.0
      → AreShort (scan_dir sys path x).0.entries
  unfolding scan_dir
  scan_dir_short path (none, w) n = tt
  scan_dir_short path (some names, w) n = scan_names_short path names 0 [] w n tt

  module _ (short_names : (path : Bytes) (w : W) → DirNames (sys.read_dir path w).0) where
    directory_changed-IsSound :
        (at : ℕ) (a : Watch) (s : State sys)
        → AreShort a.kids
        → SoundState sys s
        → SoundState sys (directory_changed sys at a s)
    unfolding directory_changed scan
    directory_changed-IsSound at a (i, w) k h =
        let x = scan_dir sys a.path (sys.read_dir a.path w) in
        changed_by-IsSound sys at a i x.0.allocated x.0.entries x.1 k
          (scan_dir_short a.path (sys.read_dir a.path w) (short_names a.path w)) h

    about_self-IsSound :
        (a : Watch) (said isdir : Bool) (mask : ℕ) (s : State sys)
        → SoundState sys s
        → SoundState sys (if said then emit_masked sys a mask 0 none isdir s else s)
    about_self-IsSound a said isdir mask s h =
        if_both (SoundState sys) said _ _ (emit_masked-IsSound sys a mask 0 none isdir s tt h) h

    forget-IsSound :
        (at fd : ℕ) (s : State sys) → SoundState sys s → SoundState sys (forget sys at fd s)
    unfolding forget
    forget-IsSound at fd (i, w) h = record {
      room = record {
        counted = h.room.counted;
        bounded = h.room.bounded;
        inside = h.room.inside;
        cap = h.room.cap;
      };
      short = remove_at_short at i.watches h.short;
    }

    translate_at-IsSound :
        (n : Notes) (o : Option (ℕ × Watch)) (s : State sys)
        → AtShort o
        → SoundState sys s
        → SoundState sys (translate_at sys n o s)
    unfolding translate_at
    translate_at-IsSound n none s k h = h
    translate_at-IsSound n (some (at, a)) s k h =
        let h1 =
          if_both (SoundState sys) (n.write || n.extend || n.link) _ _
            (if_both (SoundState sys) a.is_dir _ _ (directory_changed-IsSound at a s k h)
              (emit_masked-IsSound sys a in_modify 0 none false s tt h))
            h in
        let h2 = about_self-IsSound a n.attrib a.is_dir in_attrib _ h1 in
        let h3 = about_self-IsSound a n.rename a.is_dir in_move_self _ h2 in
        if_both (SoundState sys) (n.delete || n.revoke) _ _
          (forget-IsSound at a.fd _ (
            emit-IsSound sys a.wd in_ignored 0 none _ tt
              (emit_masked-IsSound sys a in_delete_self 0 none a.is_dir _ tt h3)))
          h3

    -- Whatever the kernel reports of a watch, from a write to its deletion, the looks at its directory
    -- included, the queue stays within 2^20 bytes and inside its memory, qlen its length, and the names
    -- that the watches keep short, if the names of a directory have at most 255 bytes.
    pub translate-IsSound :
        (k : Kevent) (s : State sys) → SoundState sys s → SoundState sys (translate sys k s)
    unfolding translate
    translate-IsSound k (i, w) h =
        translate_at-IsSound k.notes (watch_of_fd k.ident i.watches 0) (i, w)
          (watch_of_fd_short k.ident i.watches 0 h.short) h
