-- ===== src/Inotify/Tests.antt =====
-- An instance with one watch, of a directory with one file.
use slipstream_io.Base.{
  ◌≡◌, refl, arith, ℤ, pos, neg, true, false, inl, inr, List, [], ◌∷◌, none, some,
}
use slipstream_io.Abi.{einval}
use slipstream_io.Inotify.{Event, Stat, Entry, Watch, Inst, Kq, Kevent, in_create, in_all_events}
use slipstream_io.Inotify.Changes.{changes, unseen, translate}
use slipstream_io.Inotify.Calls.{add_watch_on, rm_watch_on, read_out, free_inst}
use slipstream_io.Inotify.Short.{IsSound}
use slipstream_io.Inotify.Events.{translate-IsSound}
use slipstream_io.Inotify.Room.{HasRoom}
use slipstream_io.Inotify.Reads.{IsRead, read_out-IsRead}
use slipstream_io.Inotify.Still.{mark, changes-same}
use slipstream_io.Inotify.Own.{AreOwn}
use slipstream_io.Inotify.Watches.{add_watch_on-AreOwn, rm_watch_on-twice}

abbrev World : Type 0
World = Unit {0}

abbrev a_file : Stat
a_file = record { ino = 7; mtime_sec = pos 100; mtime_nsec = 0; size = 3; mode = 420 }

abbrev disk : Kq World
disk = record {
  memory = λ n w. (true, w);
  s_isdir = λ m. false;
  read_dir = λ path w. (some ((97 ∷ []) ∷ []), w);
  lstat = λ path w. (some a_file, w);
  stat = λ path w. (inr a_file, w);
  open_path = λ path w. (inr 9, w);
  add_vnode = λ kq fd w. (none, w);
  kevent = λ kq waits w. ([], w);
  kqueue = λ w. (inr 3, w);
  set_cloexec = λ fd w. w;
  close = λ fd w. (none, w);
}

-- The name "a".
abbrev kid : Entry
kid = record { name = 97 ∷ []; stat = a_file; seen = false }

-- The path "d".
abbrev dir : Watch
dir = record {
  wd = 1;
  fd = 8;
  path = 100 ∷ [];
  mask = in_all_events;
  is_dir = true;
  kids = kid ∷ [];
}

abbrev watching : Inst
watching = record free_inst { kq = 3; used = true; next_wd = 2; watches = dir ∷ [] }

watching-HasRoom : HasRoom watching
watching-HasRoom = record {
  counted = refl;
  bounded = omega arith;
  inside = omega arith;
  cap = inl refl;
}

watching-AreOwn : AreOwn watching
watching-AreOwn = (omega arith, omega arith)

-- The kernel says that the directory was written.
abbrev a_write : Kevent
a_write = record {
  ident = 8;
  notes = record {
    write = true;
    extend = false;
    link = false;
    attrib = false;
    delete = false;
    rename = false;
    revoke = false;
  };
}

translate-IsSound_example : IsSound (translate disk a_write (watching, tt)).0
translate-IsSound_example =
    translate-IsSound disk (λ path w. (omega arith, tt)) a_write (watching, tt)
      (record { room = watching-HasRoom; short = ((omega arith, tt), tt) })

-- One record of 32 bytes.
abbrev a_record : Event
a_record = record { wd = pos 1; mask = in_create; cookie = 0; len = 16; name = some (97 ∷ []) }

abbrev told : Inst
told = record watching { queue = a_record ∷ []; qlen = 32; qcap = 4096 }

told-HasRoom : HasRoom told
told-HasRoom = record {
  counted = refl;
  bounded = omega arith;
  inside = omega arith;
  cap = inr (0, omega arith, refl);
}

read_out-IsRead_example :
    (res : ℤ) × (evs : List Event) × (j : Inst) × (read_out disk 64 (told, tt)
      ≡ ((res, evs), j, tt))
    × IsRead 64 told res evs j
read_out-IsRead_example = read_out-IsRead disk 64 told tt told-HasRoom

changes-same_example :
    changes disk dir (unseen dir.kids) (watching, tt) ≡ (mark (unseen dir.kids), (watching, tt))
changes-same_example = changes-same disk dir (watching, tt) (tt, tt)

add_watch_on-AreOwn_example : AreOwn (add_watch_on disk (101 ∷ []) in_create (watching, tt)).1
add_watch_on-AreOwn_example =
    add_watch_on-AreOwn disk (101 ∷ []) in_create watching tt (omega arith) watching-AreOwn

rm_watch_on-twice_example :
    (res : ℤ) × (j : Inst) × (v : World) × (rm_watch_on disk 1 (watching, tt) ≡ (res, j, v))
    × AreOwn j
    × (rm_watch_on disk 1 (j, v) ≡ (neg einval, j, v))
rm_watch_on-twice_example = rm_watch_on-twice disk 1 watching tt watching-AreOwn
