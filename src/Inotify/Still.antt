-- ===== src/Inotify/Still.antt =====
-- A look at a directory that has not changed reports nothing.
use mathlib.Core.Path.{subst}
use slipstream_io.Base.{
  ◌≡◌, refl, sym, ap, ◌∙◌, ℤ, pos, negsuc, eq_ℤ, true, false, List, [], ◌∷◌, ◌++◌, append_assoc,
  some, eq_refl,
}
use slipstream_io.Inotify.{Bytes, eq_bytes, Entry, Watch, Kq}
use slipstream_io.Inotify.Queue.{State}
use slipstream_io.Inotify.Changes.{
  see_first, unseen, compare_entry, compare_all, settle_old, settle_new, changes,
}

abbrev pub names : List Entry → List Bytes
names [] = []
names (e ∷ es) = e.name ∷ names es

-- None of these names is `name`.
abbrev pub NoName : Bytes → List Bytes → Type 0
NoName name [] = Unit
NoName name (x ∷ xs) = (eq_bytes x name ≡ false) × NoName name xs

-- Each name differs from those before it.
abbrev pub AreNew : List Bytes → List Bytes → Type 0
AreNew before [] = Unit
AreNew before (x ∷ xs) = NoName x before × AreNew (before ++ (x ∷ [])) xs

abbrev pub mark : List Entry → List Entry
mark [] = []
mark (e ∷ es) = record e { seen = true } ∷ mark es

eq_ℤ-refl : (z : ℤ) → eq_ℤ z z ≡ true
eq_ℤ-refl (pos n) = eq_refl n
eq_ℤ-refl (negsuc n) = eq_refl n

eq_bytes_refl : (b : Bytes) → eq_bytes b b ≡ true
eq_bytes_refl [] = refl
eq_bytes_refl (x ∷ xs) = rw (eq_refl x) (eq_bytes_refl xs)

names-append : (xs ys : List Entry) → names (xs ++ ys) ≡ names xs ++ names ys
names-append [] ys = refl
names-append (x ∷ xs) ys = ap (λ zs. x.name ∷ zs) (names-append xs ys)

-- The entry is found behind those with other names.
see_first-past :
    (before : List Entry) (e : Entry) (rest : List Entry)
    → NoName e.name (names before)
    → see_first e.name (before ++ (e ∷ rest))
      ≡ some (e, before ++ (record e { seen = true } ∷ rest))
unfolding see_first
see_first-past [] e rest n = rw (eq_bytes_refl e.name) refl
see_first-past (x ∷ before) e rest (d, n) = rw (d, see_first-past before e rest n) refl

module _ {W : Type 0} (sys : Kq W) (a : Watch) where
  compare_entry-same : (e : Entry) (s : State sys) → compare_entry sys a e e s ≡ s
  unfolding compare_entry
  compare_entry-same e s =
      rw
        (
          eq_refl e.stat.ino,
          eq_ℤ-refl e.stat.mtime_sec,
          eq_refl e.stat.mtime_nsec,
          eq_refl e.stat.size,
          eq_refl e.stat.mode,
        )
        refl

  compare_all-same :
      (before es : List Entry) (s : State sys)
      → AreNew (names before) (names es)
      → compare_all sys a es (before ++ es) s ≡ (mark es, before ++ mark es, s)
  unfolding compare_all
  compare_all-same before [] s n = refl
  compare_all-same before (e ∷ es) s (d, n) =
      let e' = record e { seen = true } in
      let n' : AreNew (names (before ++ (e' ∷ []))) (names es) =
        subst (λ xs. AreNew xs (names es)) (sym (names-append before (e' ∷ []))) n in
      let later : compare_all sys a es (before ++ (e' ∷ es)) (compare_entry sys a e e s)
          ≡ (mark es, before ++ (e' ∷ mark es), s) =
        ap (λ z. compare_all sys a es z (compare_entry sys a e e s))
          (sym (append_assoc before (e' ∷ []) es))
        ∙ ap (compare_all sys a es ((before ++ (e' ∷ [])) ++ es)) (compare_entry-same e s)
        ∙ compare_all-same (before ++ (e' ∷ [])) es s n'
        ∙ ap (λ z. (mark es, z, s)) (append_assoc before (e' ∷ []) (mark es)) in
      rw (see_first-past before e es d, compare_all)
        (ap (λ (x : List Entry × List Entry × State sys). (e' ∷ x.0, x.1, x.2)) later)

  settle_old-seen :
      (es fresh : List Entry) (s : State sys) → settle_old sys a (mark es) fresh s ≡ (fresh, s)
  unfolding settle_old
  settle_old-seen [] fresh s = refl
  settle_old-seen (e ∷ es) fresh s = settle_old-seen es fresh s

  settle_new-seen : (es : List Entry) (s : State sys) → settle_new sys a (mark es) s ≡ s
  unfolding settle_new
  settle_new-seen [] s = refl
  settle_new-seen (e ∷ es) s = settle_new-seen es s

  -- Where the look finds what the last one found, and the names of a directory differ, as they do, no
  -- record is made and no cookie used: what is left of the three loops is the state they started with.
  pub changes-same :
      (s : State sys)
      → AreNew [] (names (unseen a.kids))
      → changes sys a (unseen a.kids) s ≡ (mark (unseen a.kids), s)
  unfolding changes
  changes-same s n =
      let es = unseen a.kids in
      rw (compare_all-same [] es s n, settle_old-seen es (mark es) s, settle_new-seen es s) refl
