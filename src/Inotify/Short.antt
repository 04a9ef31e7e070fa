-- ===== src/Inotify/Short.antt =====
-- Names as a directory can hold them, in what the watches keep.
use slipstream_io.Base.{
  if_both, ℕ, zero, suc, ◌+◌, ◌≤◌, not, ◌&&◌, List, [], ◌∷◌, ◌++◌, length, Option, none, some, ◌==◌,
}
use slipstream_io.Inotify.{Bytes, eq_bytes, Entry, Watch, Inst}
use slipstream_io.Inotify.Changes.{see_first, land_first, unseen, set_kids, remove_at, watch_of_fd}
use slipstream_io.Inotify.Room.{HasRoom}

-- Names of at most 255 bytes, NAME_MAX.
abbrev pub AreNames : List Bytes → Type 0
AreNames [] = Unit
AreNames (x ∷ xs) = (length x ≤ 255) × AreNames xs

abbrev pub AreShort : List Entry → Type 0
AreShort [] = Unit
AreShort (e ∷ es) = (length e.name ≤ 255) × AreShort es

abbrev pub HaveShort : List Watch → Type 0
HaveShort [] = Unit
HaveShort (a ∷ as') = AreShort a.kids × HaveShort as'

-- The queue has room, and the names that the watches have seen are short.
pub record IsSound (i : Inst) : Type 0 where
  pub room : HasRoom i
  pub short : HaveShort i.watches

abbrev pub FoundShort : Option (Entry × List Entry) → Type 0
FoundShort none = Unit
FoundShort (some (e, es)) = (length e.name ≤ 255) × AreShort es

-- What a search behind an entry finds, with the entry put back.
pub behind_short :
    (e : Entry) (o : Option (Entry × List Entry))
    → length e.name ≤ 255
    → FoundShort o
    → FoundShort (elim o [ none ↦ none | some (x, rest) ↦ some (x, e ∷ rest) ])
behind_short e none s h = tt
behind_short e (some (x, rest)) s (a, b) = (a, (s, b))

pub see_first_short :
    (name : Bytes) (es : List Entry) → AreShort es → FoundShort (see_first name es)
unfolding see_first
see_first_short name [] h = tt
see_first_short name (e ∷ es) (s, h) =
    if_both FoundShort (eq_bytes e.name name) _ _ (s, (s, h))
      (behind_short e (see_first name es) s (see_first_short name es h))

pub land_first_short : (ino : ℕ) (es : List Entry) → AreShort es → FoundShort (land_first ino es)
unfolding land_first
land_first_short ino [] h = tt
land_first_short ino (e ∷ es) (s, h) =
    if_both FoundShort (not e.seen && e.stat.ino == ino) _ _ (s, (s, h))
      (behind_short e (land_first ino es) s (land_first_short ino es h))

pub unseen_short : (es : List Entry) → AreShort es → AreShort (unseen es)
unseen_short [] h = tt
unseen_short (e ∷ es) (s, h) = (s, unseen_short es h)

pub snoc_short :
    (es : List Entry) (e : Entry) → AreShort es → length e.name ≤ 255 → AreShort (es ++ (e ∷ []))
snoc_short [] e h s = (s, tt)
snoc_short (x ∷ es) e (a, h) s = (a, snoc_short es e h s)

pub set_kids_short :
    (as' : List Watch) (at : ℕ) (es : List Entry)
    → HaveShort as'
    → AreShort es
    → HaveShort (set_kids as' at es)
unfolding set_kids
set_kids_short [] at es h s = tt
set_kids_short (a ∷ as') zero es (x, h) s = (s, h)
set_kids_short (a ∷ as') (suc at) es (x, h) s = (x, set_kids_short as' at es h s)

pub remove_at_short : (at : ℕ) (as' : List Watch) → HaveShort as' → HaveShort (remove_at at as')
unfolding remove_at
remove_at_short zero [] h = tt
remove_at_short (suc at) [] h = tt
remove_at_short zero (a ∷ as') (x, h) = h
remove_at_short (suc at) (a ∷ as') (x, h) = (x, remove_at_short at as' h)

abbrev pub AtShort : Option (ℕ × Watch) → Type 0
AtShort none = Unit
AtShort (some (at, a)) = AreShort a.kids

pub watch_of_fd_short :
    (fd : ℕ) (as' : List Watch) (at : ℕ) → HaveShort as' → AtShort (watch_of_fd fd as' at)
unfolding watch_of_fd
watch_of_fd_short fd [] at h = tt
watch_of_fd_short fd (a ∷ as') at (s, h) =
    if_both AtShort (a.fd == fd) _ _ s (watch_of_fd_short fd as' (at + 1) h)
