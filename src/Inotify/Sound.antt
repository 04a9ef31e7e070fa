-- ===== src/Inotify/Sound.antt =====
-- The loops of `directory_changed` keep the queue within its bound and its memory.
use mathlib.Core.Path.{subst}
use slipstream_io.Base.{
  if_both, ℕ, ◌≤◌, sym, bit_and, bit_or, Bool, true, not, List, [], ◌∷◌, length, Option, none, some,
  ◌==◌,
}
use slipstream_io.Inotify.{
  Bytes, Entry, Watch, Inst, Kq, in_modify, in_attrib, in_create, in_delete, in_moved_from,
  in_moved_to,
}
use slipstream_io.Inotify.Queue.{State, always, emit, emit_masked}
use slipstream_io.Inotify.Changes.{
  see_first, land_first, unseen, is_modified, report, compare_entry, compare_all, renamed,
  settle_old, settle_new, changes, replace_kids, changed_by,
}
use slipstream_io.Inotify.Room.{IsName, emit-HasRoom}
use slipstream_io.Inotify.Watches.{emit-Told}
use slipstream_io.Inotify.Short.{
  AreShort, HaveShort, IsSound, FoundShort, see_first_short, land_first_short, unseen_short,
  set_kids_short,
}

module _ {W : Type 0} (sys : Kq W) where
  abbrev pub SoundState : State sys → Type 0
  SoundState s = IsSound s.0

  pub emit-IsSound :
      (wd mask cookie : ℕ) (name : Option Bytes) (s : State sys)
      → IsName name
      → SoundState s
      → SoundState (emit sys wd mask cookie name s)
  emit-IsSound wd mask cookie name (i, w) n h = record {
    room = emit-HasRoom sys wd mask cookie name (i, w) n h.room;
    short = subst HaveShort (sym (emit-Told sys wd mask cookie name i w).watches) h.short;
  }

  pub emit_masked-IsSound :
      (a : Watch) (mask cookie : ℕ) (name : Option Bytes) (isdir : Bool) (s : State sys)
      → IsName name
      → SoundState s
      → SoundState (emit_masked sys a mask cookie name isdir s)
  unfolding emit_masked
  emit_masked-IsSound a mask cookie name isdir s n h =
      if_both SoundState (bit_and mask (bit_or a.mask always) == 0) _ _ h
        (emit-IsSound a.wd _ cookie name s n h)

  pub compare_entry-IsSound :
      (a : Watch) (had now : Entry) (s : State sys)
      → length had.name ≤ 255
      → length now.name ≤ 255
      → SoundState s
      → SoundState (compare_entry sys a had now s)
  unfolding compare_entry
  compare_entry-IsSound a had now s x y h =
      if_both SoundState (not (had.stat.ino == now.stat.ino)) _ _
        (emit_masked-IsSound a in_create 0 _ _ _ y (emit_masked-IsSound a in_delete 0 _ _ s x h))
        (if_both SoundState (is_modified had.stat now.stat) _ _
          (emit_masked-IsSound a in_modify 0 _ _ s y h)
          (if_both SoundState (not (had.stat.mode == now.stat.mode)) _ _
            (emit_masked-IsSound a in_attrib 0 _ _ s y h) h))

  -- What the first loop leaves.
  abbrev pub Compared : List Entry × List Entry × State sys → Type 0
  Compared (fresh, kids, s) = AreShort fresh × AreShort kids × SoundState s

  pub compare_all-Compared :
      (a : Watch) (fresh kids : List Entry) (s : State sys)
      → AreShort fresh
      → AreShort kids
      → SoundState s
      → Compared (compare_all sys a fresh kids s)
  unfolding compare_all
  compare_all-Compared a [] kids s f k h = (tt, k, h)
  compare_all-Compared a (e ∷ fresh) kids s (x, f) k h =
      found (see_first e.name kids) (see_first_short e.name kids k)
        (λ kids' t k' h'. compare_all-Compared a fresh kids' t f k' h')
    where
      found :
          (o : Option (Entry × List Entry))
          → FoundShort o
          → ((kids' : List Entry) (t : State sys)
              → AreShort kids'
              → SoundState t
              → Compared (compare_all sys a fresh kids' t))
          → Compared (elim o [
            | none ↦
                let (fresh', kids', t) = compare_all sys a fresh kids s in (e ∷ fresh', kids', t)
            | some (had, kids1) ↦
                let (fresh', kids', t) =
                  compare_all sys a fresh kids1 (compare_entry sys a had e s) in
                (record e { seen = true } ∷ fresh', kids', t)
          ])
      found none q rest = let (p, r, u) = rest kids s k h in ((x, p), r, u)
      found (some (had, kids1)) (y, q) rest =
          let (p, r, u) =
            rest kids1 (compare_entry sys a had e s) q (compare_entry-IsSound a had e s y x h) in
          ((x, p), r, u)

  pub renamed-IsSound :
      (a : Watch) (old landed : Entry) (s : State sys)
      → length old.name ≤ 255
      → length landed.name ≤ 255
      → SoundState s
      → SoundState (renamed sys a old landed s)
  unfolding renamed
  renamed-IsSound a old landed (i, w) x y h = emit_masked-IsSound a in_moved_to _ _ _ _ y (
      emit_masked-IsSound a in_moved_from _ _ _ _ x (record {
        room = record {
          counted = h.room.counted;
          bounded = h.room.bounded;
          inside = h.room.inside;
          cap = h.room.cap;
        };
        short = h.short;
      }))

  abbrev pub Settled : List Entry × State sys → Type 0
  Settled (fresh, s) = AreShort fresh × SoundState s

  pub settle_old-Settled :
      (a : Watch) (kids fresh : List Entry) (s : State sys)
      → AreShort kids
      → AreShort fresh
      → SoundState s
      → Settled (settle_old sys a kids fresh s)
  unfolding settle_old
  settle_old-Settled a [] fresh s k f h = (f, h)
  settle_old-Settled a (old ∷ kids) fresh s (x, k) f h =
      if_both Settled old.seen _ _ (settle_old-Settled a kids fresh s k f h) (
        found (land_first old.stat.ino fresh) (land_first_short old.stat.ino fresh f)
          (λ fresh' t f' h'. settle_old-Settled a kids fresh' t k f' h'))
    where
      found :
          (o : Option (Entry × List Entry))
          → FoundShort o
          → ((fresh' : List Entry) (t : State sys)
              → AreShort fresh'
              → SoundState t
              → Settled (settle_old sys a kids fresh' t))
          → Settled (elim o [
            | some (landed, fresh') ↦ settle_old sys a kids fresh' (renamed sys a old landed s)
            | none ↦ settle_old sys a kids fresh (report sys a in_delete 0 old s)
          ])
      found none q rest = rest fresh _ f (emit_masked-IsSound a in_delete 0 _ _ s x h)
      found (some (landed, fresh')) (y, q) rest =
          rest fresh' _ q (renamed-IsSound a old landed s x y h)

  pub settle_new-IsSound :
      (a : Watch) (fresh : List Entry) (s : State sys)
      → AreShort fresh
      → SoundState s
      → SoundState (settle_new sys a fresh s)
  unfolding settle_new
  settle_new-IsSound a [] s f h = h
  settle_new-IsSound a (e ∷ fresh) s (x, f) h =
      if_both SoundState e.seen _ _ (settle_new-IsSound a fresh s f h)
        (settle_new-IsSound a fresh _ f (emit_masked-IsSound a in_create 0 _ _ s x h))

  pub changes-Settled :
      (a : Watch) (fresh : List Entry) (s : State sys)
      → AreShort a.kids
      → AreShort fresh
      → SoundState s
      → Settled (changes sys a fresh s)
  unfolding changes
  changes-Settled a fresh s k f h =
      let (f1, k1, h1) =
        compare_all-Compared a fresh (unseen a.kids) s f (unseen_short a.kids k) h in
      let (f2, h2) = settle_old-Settled a _ _ _ k1 f1 h1 in (f2, settle_new-IsSound a _ _ f2 h2)

  pub replace_kids-IsSound :
      (at : ℕ) (x : List Entry × State sys) → Settled x → SoundState (replace_kids sys at x)
  unfolding replace_kids
  replace_kids-IsSound at (es, (i, w)) (f, h) = record {
    room = record {
      counted = h.room.counted;
      bounded = h.room.bounded;
      inside = h.room.inside;
      cap = h.room.cap;
    };
    short = set_kids_short i.watches at es h.short f;
  }

  pub changed_by-IsSound :
      (at : ℕ) (a : Watch) (i : Inst) (allocated : Bool) (es : List Entry) (w : W)
      → AreShort a.kids
      → AreShort es
      → IsSound i
      → SoundState (changed_by sys at a i (record { allocated = allocated; entries = es }, w))
  unfolding changed_by
  changed_by-IsSound at a i allocated [] w k f h =
      if_both SoundState allocated _ _
        (replace_kids-IsSound at _ (changes-Settled a [] (i, w) k tt h)) h
  changed_by-IsSound at a i allocated (e ∷ es) w k f h =
      replace_kids-IsSound at _ (changes-Settled a (e ∷ es) (i, w) k f h)
