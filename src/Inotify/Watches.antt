-- ===== src/Inotify/Watches.antt =====
-- Watch descriptors: each watch of an instance has one of its own, and none comes back.
use mathlib.Core.Option.{none-ne-some}
use slipstream_io.Base.{
  pick_true, pick_false, if_both, ℕ, ◌+◌, ◌-◌, ◌%◌, ◌^◌, ◌<◌, u32_mod, ◌≡◌, refl, sym, ◌∙◌, arith,
  ℤ, neg, Bool, true, false, ◌⊎◌, inl, inr, List, [], ◌∷◌, Option, none, some, ltb, ◌==◌,
  Bool-cases, Option-cases,
}
use slipstream_io.Abi.{einval}
use slipstream_io.Inotify.{Bytes, Event, event_size, Stat, Watch, Inst, Kq, in_ignored}
use slipstream_io.Inotify.Queue.{queue_max, name_len, overflow, push, push_grown, emit}
use slipstream_io.Inotify.Changes.{forget}
use slipstream_io.Inotify.Calls.{
  remask, watch_of_wd, appended, armed, first_look, copied, path_opened, watch_path, statted,
  add_watch_on, rm_watch_at, rm_watch_on,
}
use slipstream_io.Inotify.Own.{
  AreOwn, Ascend-snoc, remove_at-Ascend, IsGone, remove_at-IsGone, RemaskedAscend, remask-Ascend,
}

-- INT_MAX
abbrev pub last_wd : ℕ
last_wd = 2 ^ 31 - 1

next_word : (n : ℕ) → n < last_wd → (n + 1) % u32_mod ≡ n + 1
next_word n l = ground arith

-- Reporting leaves the watches alone.
pub record Told (i j : Inst) : Type 0 where
  pub watches : j.watches ≡ i.watches
  pub next_wd : j.next_wd ≡ i.next_wd

pub Told-refl : (i : Inst) → Told i i
Told-refl i = record { watches = refl; next_wd = refl }

Told-queue :
    (i : Inst) (q : List Event) (n c : ℕ) (o : Bool)
    → Told i (record i { queue = q; qlen = n; qcap = c; overflowed = o })
Told-queue i q n c o = record { watches = refl; next_wd = refl }

overflow-Told : (i : Inst) → Told i (overflow i)
unfolding overflow
overflow-Told i = if_both (Told i) i.overflowed _ _ (Told-refl i) (
    if_both (Told i) (ltb queue_max (i.qlen + event_size)) _ _ (Told-refl i)
      (Told-queue i _ _ i.qcap true))

module _ {W : Type 0} (sys : Kq W) where
  push_grown-Told :
      (i : Inst) (ev : Event) (want : ℕ) (x : Bool × W) → Told i (push_grown sys i ev want x).0
  unfolding push_grown push
  push_grown-Told i ev want (false, w) = Told-refl i
  push_grown-Told i ev want (true, w) = Told-queue i _ _ want false

  pub emit-Told :
      (wd mask cookie : ℕ) (name : Option Bytes) (i : Inst) (w : W)
      → Told i (emit sys wd mask cookie name (i, w)).0
  unfolding emit push
  emit-Told wd mask cookie name i w =
      if_both (λ (z : Inst × W). Told i z.0) (ltb queue_max (i.qlen + (event_size + name_len name)))
        _ _ (overflow-Told i)
        (if_both (λ (z : Inst × W). Told i z.0) (ltb i.qcap (i.qlen + (event_size + name_len name)))
          _ _ (push_grown-Told i _ _ _) (Told-queue i _ _ i.qcap false))

  rm_watch_again :
      (wd : ℕ) (j : Inst) (w : W)
      → IsGone wd j.watches
      → rm_watch_on sys wd (j, w) ≡ (neg einval, j, w)
  unfolding rm_watch_on rm_watch_at
  rm_watch_again wd j w g = rw (g 0) refl

  -- What a removal leaves.
  record IsRemoved (wd : ℕ) (x : ℤ × Inst × W) : Type 0 where
    own : AreOwn x.1
    is_gone : IsGone wd x.1.watches

  not_there :
      (wd at : ℕ) (as' : List Watch) (n : ℕ)
      → watch_of_wd wd as' at ≡ none
      → watch_of_wd wd as' n ≡ none
  unfolding watch_of_wd
  not_there wd at [] n e = refl
  not_there wd at (x ∷ rest) n e = elim (Bool-cases (x.wd == wd)) [
    | inl y ↦ absurd (none-ne-some _ (sym e ∙ pick_true _ _ _ y))
    | inr y ↦ rw (y, not_there wd (at + 1) rest (n + 1) (sym (pick_false _ _ _ y) ∙ e)) refl
  ]

  rm_watch_on-IsRemoved :
      (wd : ℕ) (i : Inst) (w : W) → AreOwn i → IsRemoved wd (rm_watch_on sys wd (i, w))
  unfolding rm_watch_on rm_watch_at forget
  rm_watch_on-IsRemoved wd i w h = elim (Option-cases (watch_of_wd wd i.watches 0)) [
    | inl e ↦ rw e (record { own = h; is_gone = λ n. not_there wd 0 i.watches n e })
    | inr ((at, a), e) ↦
        let t = emit-Told wd in_ignored 0 none i w in
        let (k, d, g) = remove_at-IsGone wd 0 0 at a i.watches i.next_wd e h in
        let here : at ≡ k = omega (arith, d) in
        rw (e, t.watches, t.next_wd, here)
          (record { own = remove_at-Ascend k 0 i.watches i.next_wd h; is_gone = g })
  ]

  -- After a removal from an instance whose watches have descriptors of their own, whatever it answered, the watch descriptor names no watch: a second removal
  -- answers -EINVAL and changes nothing.
  pub rm_watch_on-twice :
      (wd : ℕ) (i : Inst) (w : W)
      → AreOwn i
      → (res : ℤ) × (j : Inst) × (v : W) × (rm_watch_on sys wd (i, w) ≡ (res, j, v))
        × AreOwn j
        × (rm_watch_on sys wd (j, v) ≡ (neg einval, j, v))
  rm_watch_on-twice wd i w h =
      let x = rm_watch_on sys wd (i, w) in
      let r = rm_watch_on-IsRemoved wd i w h in
      (x.0, x.1, x.2, refl, r.own, rm_watch_again wd x.1 x.2 r.is_gone)

  appended-AreOwn :
      (a : Watch) (i : Inst) (x : Bool × W)
      → a.wd ≡ i.next_wd
      → i.next_wd < last_wd
      → AreOwn i
      → AreOwn (appended sys a i x).1
  unfolding appended
  appended-AreOwn a i (false, w) e l h = h
  appended-AreOwn a i (true, w) e l h =
      rw (next_word i.next_wd l) (Ascend-snoc 0 i.watches a i.next_wd e h)

  armed-AreOwn :
      (a : Watch) (i : Inst) (x : Option ℕ × W)
      → a.wd ≡ i.next_wd
      → i.next_wd < last_wd
      → AreOwn i
      → AreOwn (armed sys a i x).1
  unfolding armed
  armed-AreOwn a i (some c, w) e l h = h
  armed-AreOwn a i (none, w) e l h = appended-AreOwn a i _ e l h

  copied-AreOwn :
      (path : Bytes) (mask : ℕ) (is_dir : Bool) (wfd : ℕ) (i : Inst) (x : Bool × W)
      → i.next_wd < last_wd
      → AreOwn i
      → AreOwn (copied sys path mask is_dir wfd i x).1
  unfolding copied first_look
  copied-AreOwn path mask is_dir wfd i (false, w) l h = h
  copied-AreOwn path mask is_dir wfd i (true, w) l h =
      if_both (λ (z : ℤ × Inst × W). AreOwn z.1) is_dir _ _ (armed-AreOwn _ i _ refl l h)
        (armed-AreOwn _ i _ refl l h)

  path_opened-AreOwn :
      (path : Bytes) (mask : ℕ) (is_dir : Bool) (i : Inst) (x : (ℕ ⊎ ℕ) × W)
      → i.next_wd < last_wd
      → AreOwn i
      → AreOwn (path_opened sys path mask is_dir i x).1
  unfolding path_opened
  path_opened-AreOwn path mask is_dir i (inl e, w) l h = h
  path_opened-AreOwn path mask is_dir i (inr wfd, w) l h =
      copied-AreOwn path mask is_dir wfd i _ l h

  watch_path-AreOwn :
      (path : Bytes) (mask : ℕ) (is_dir : Bool) (i : Inst) (o : Option (ℕ × List Watch)) (w : W)
      → RemaskedAscend 0 i.next_wd o
      → i.next_wd < last_wd
      → AreOwn i
      → AreOwn (watch_path sys path mask is_dir i o w).1
  unfolding watch_path
  watch_path-AreOwn path mask is_dir i none w k l h = path_opened-AreOwn path mask is_dir i _ l h
  watch_path-AreOwn path mask is_dir i (some (wd, as')) w k l h = k

  -- While the next watch descriptor is below the greatest `int`, adding a watch to an instance whose
  -- watches have descriptors of their own below the next one, whether the path has one, gets one or the
  -- system refuses, leaves it so.
  pub add_watch_on-AreOwn :
      (path : Bytes) (mask : ℕ) (i : Inst) (w : W)
      → i.next_wd < last_wd
      → AreOwn i
      → AreOwn (add_watch_on sys path mask (i, w)).1
  unfolding add_watch_on statted
  add_watch_on-AreOwn path mask i w l h = seen (sys.stat path w)
    where
      seen : (x : (ℕ ⊎ Stat) × W) → AreOwn (statted sys path mask i x).1
      seen (inl e, v) = h
      seen (inr st, v) =
          watch_path-AreOwn path mask (sys.s_isdir st.mode) i (remask path mask i.watches) v
            (remask-Ascend path mask 0 i.watches i.next_wd h) l h
