-- ===== src/Posix/Multishot/Keep.antt =====
-- A round of a multishot loop, and with it the loop, leaves each op with its holder.
use slipstream_io.Base.{
  if_both, ℕ, zero, suc, ◌+◌, refl, ℤ, pos, is_neg, to_s32, Bool, true, false, not, List, Option,
  none, some, ltb, ◌==◌, Bool-cases, inl, inr,
}
use slipstream_io.Abi.{Sqe}
use slipstream_io.Ring.{Ring, Buf}
use slipstream_io.Fixed.{fixed_install}
use slipstream_io.Posix.{bufring_take, bufring_unget}
use slipstream_io.Posix.Sys.{
  Sys, Outcome, ok, failed, MsgOut, would_block, pollin, Tried, waits_for,
}
use slipstream_io.Posix.Multishot.{
  is_alloc, index_of, buffer_flags, more_flags, Shot, stop, more, shots, Chosen, chosen_of,
  cqe_flags_of, give_back, installed, install_direct, answer_fd, accepted, accept_on, accept_shot,
  choose, recv_on, recv_with, recv_shot, recvmsg_on, recvmsg_with, recvmsg_shot, recvmsg_shots,
  recvmsg_out_size,
}
use slipstream_io.Posix.Owned.{Owned, Kept, Kept-refl, Kept-trans, emit-Kept, update-Kept}
use slipstream_io.Posix.Same.{
  Same, Same-refl, Same-Kept, fixed_install-Same, bufring_unget-Same, TakenSame, bufring_take-Same,
}

abbrev pub TriedKept : {W : Type 0} → List ℕ → Ring → Option (Tried W) → Type 0
TriedKept held r none = Unit
TriedKept held r (some (v, s, w)) = Kept held r s

abbrev pub ShotKept : {W : Type 0} → List ℕ → Ring → Shot W → Type 0
ShotKept held r (stop v s w) = Kept held r s
ShotKept held r (more s w) = Kept held r s

module _ (held : List ℕ) where
  pub waits_for-Kept : (r : Ring) (p events : ℕ) → Owned held r → Kept held r (waits_for r p events)
  waits_for-Kept r p events h =
      update-Kept held r p (record (r.ops p) { wait_events = events }) refl refl h

  pub give_back-Kept :
      (r : Ring) (s : Sqe) (selected : Bool) → Owned held r → Kept held r (give_back r s selected)
  unfolding give_back
  give_back-Kept r s true h = Same-Kept held r _ (bufring_unget-Same r s.buf_group) h
  give_back-Kept r s false h = Kept-refl held r h

module _ {W : Type 0} (held : List ℕ) where
  -- What a step did before another is a part of what both did.
  TriedKept-trans :
      (r s : Ring) (t : Option (Tried W)) → Kept held r s → TriedKept held s t → TriedKept held r t
  TriedKept-trans r s none a b = tt
  TriedKept-trans r s (some (v, t, w)) a b = Kept-trans held r s t a b

  pub ShotKept-trans :
      (r s : Ring) (t : Shot W) → Kept held r s → ShotKept held s t → ShotKept held r t
  ShotKept-trans r s (stop v t w) a b = Kept-trans held r s t a b
  ShotKept-trans r s (more t w) a b = Kept-trans held r s t a b

  pub shots-Kept :
      (n : ℕ) (round : Ring → W → Shot W) (r : Ring) (w : W)
      → ((s : Ring) (v : W) → Owned held s → ShotKept held s (round s v))
      → Owned held r
      → TriedKept held r (shots n round r w)
  unfolding shots
  shots-Kept zero round r w k h = tt
  shots-Kept (suc n) round r w k h =
      went (round r w)
        (λ s v a. TriedKept-trans r s (shots n round s v) a (shots-Kept n round s v k a.owned))
        (k r w h)
    where
      went :
          (x : Shot W)
          → ((s : Ring) (v : W) → Kept held r s → TriedKept held r (shots n round s v))
          → ShotKept held r x
          → TriedKept held r
              (elim x [ stop v r' w' ↦ some (v, r', w') | more r' w' ↦ shots n round r' w' ])
      went (stop v r' w') f a = a
      went (more r' w') f a = f r' w' a

-- The buffer that a recv was given, if it was.
abbrev pub ChosenSame : Ring → Option (Chosen × Ring) → Type 0
ChosenSame r none = Unit
ChosenSame r (some (c, s)) = Same r s

chosen_of-Same : (r : Ring) (o : Option (Buf × Ring)) → TakenSame r o → ChosenSame r (chosen_of o)
chosen_of-Same r none e = tt
chosen_of-Same r (some (b, s)) e = e

pub choose-Same :
    {W : Type 0} (sys : Sys W) (r : Ring) (s : Sqe) (w : W) → ChosenSame r (choose sys r s w)
unfolding choose
choose-Same sys r s w = elim (Bool-cases s.flags.buffer_select) [
  | inl e ↦ rw e (
      chosen_of-Same r (bufring_take (sys.buf_tail w) (sys.buf_entry w) r s.buf_group)
        (bufring_take-Same (sys.buf_tail w) (sys.buf_entry w) r s.buf_group))
  | inr e ↦ rw e (Same-refl r)
]

module _ {W : Type 0} (sys : Sys W) (held : List ℕ) where
  installed-Kept :
      (alloc : Bool) (r : Ring) (x : ℤ × Ring) (newfd : ℕ) (w : W)
      → Kept held r x.1
      → Kept held r (installed sys alloc x newfd w).1
  unfolding installed
  installed-Kept alloc r (slot, s) newfd w k =
      if_both (λ (z : ℤ × Ring × W). Kept held r z.1) (is_neg slot) _ _ k k

  pub answer_fd-Kept :
      (r : Ring) (s : Sqe) (fd : ℕ) (w : W) → Owned held r → Kept held r (answer_fd sys r s fd w).1
  unfolding answer_fd install_direct
  answer_fd-Kept r s fd w h =
      if_both (λ (z : ℤ × Ring × W). Kept held r z.1) (s.file_index == 0) _ _ (Kept-refl held r h)
        (installed-Kept (is_alloc s.file_index) r (fixed_install r (index_of s.file_index) (pos fd))
          fd w (Same-Kept held r _ (fixed_install-Same r (index_of s.file_index) (pos fd)) h))

  accepted-Kept :
      (s : Sqe) (r : Ring) (x : ℤ × Ring × W) → Kept held r x.1 → ShotKept held r (accepted sys s x)
  unfolding accepted
  accepted-Kept s r (answer, t, w) k = elim (Bool-cases (is_neg answer)) [
    | inl e ↦ rw e k
    | inr e ↦
        rw e (Kept-trans held r t _ k (emit-Kept held t s.user_data answer more_flags k.owned))
  ]

  accept_on-Kept :
      (p : ℕ) (s : Sqe) (r : Ring) (x : Outcome × W)
      → Owned held r
      → ShotKept held r (accept_on sys p s r x)
  unfolding accept_on
  accept_on-Kept p s r (ok fd, w) h =
      accepted-Kept s r (answer_fd sys r s fd w) (answer_fd-Kept r s fd w h)
  accept_on-Kept p s r (failed e, w) h = elim (Bool-cases (would_block e)) [
    | inl c ↦ rw c (waits_for-Kept held r p pollin h)
    | inr c ↦ rw c (Kept-refl held r h)
  ]

  pub accept_shot-Kept :
      (p : ℕ) (s : Sqe) (r : Ring) (w : W)
      → Owned held r
      → ShotKept held r (accept_shot sys p s r w)
  unfolding accept_shot
  accept_shot-Kept p s r w h = accept_on-Kept p s r _ h

  recv_on-Kept :
      (p : ℕ) (s : Sqe) (c : Chosen) (r : Ring) (x : Outcome × W)
      → Owned held r
      → ShotKept held r (recv_on sys p s c r x)
  unfolding recv_on
  recv_on-Kept p s c r (ok n, w) h = elim (Bool-cases (n == 0)) [
    | inl e ↦ rw e (give_back-Kept held r s c.selected h)
    | inr e ↦ rw e (emit-Kept held r s.user_data (to_s32 n) (cqe_flags_of c true) h)
  ]
  recv_on-Kept p s c r (failed e, w) h =
      let back = give_back-Kept held r s c.selected h in
      elim (Bool-cases (would_block e)) [
        | inl x ↦ rw x (
            Kept-trans held r (give_back r s c.selected) _ back
              (waits_for-Kept held (give_back r s c.selected) p pollin back.owned))
        | inr x ↦ rw x back
      ]

  recv_with-Kept :
      (p : ℕ) (s : Sqe) (r : Ring) (w : W) (o : Option (Chosen × Ring))
      → ChosenSame r o
      → Owned held r
      → ShotKept held r (recv_with sys p s r w o)
  unfolding recv_with
  recv_with-Kept p s r w none e h = Kept-refl held r h
  recv_with-Kept p s r w (some (c, t)) e h =
      let k = Same-Kept held r t e h in ShotKept-trans held r t _ k (recv_on-Kept p s c t _ k.owned)

  pub recv_shot-Kept :
      (p : ℕ) (s : Sqe) (r : Ring) (w : W) → Owned held r → ShotKept held r (recv_shot sys p s r w)
  unfolding recv_shot
  recv_shot-Kept p s r w h = recv_with-Kept p s r w _ (choose-Same sys r s w) h

  recvmsg_on-Kept :
      (p : ℕ) (s : Sqe) (header : ℕ) (b : Buf) (r : Ring) (x : Outcome × MsgOut × W)
      → Owned held r
      → ShotKept held r (recvmsg_on sys p s header b r x)
  unfolding recvmsg_on
  recvmsg_on-Kept p s header b r (ok n, out, w) h = elim (Bool-cases (n == 0)) [
    | inl e ↦ rw e (
        update-Kept held r p (record (r.ops p) { cqe_flags = buffer_flags b.bid false }) refl refl
          h)
    | inr e ↦ rw e (emit-Kept held r s.user_data (to_s32 (header + n)) (buffer_flags b.bid true) h)
  ]
  recvmsg_on-Kept p s header b r (failed e, out, w) h =
      let back = Same-Kept held r _ (bufring_unget-Same r s.buf_group) h in
      elim (Bool-cases (would_block e)) [
        | inl x ↦ rw x (
            Kept-trans held r (bufring_unget r s.buf_group) _ back
              (waits_for-Kept held (bufring_unget r s.buf_group) p pollin back.owned))
        | inr x ↦ rw x back
      ]

  recvmsg_with-Kept :
      (p : ℕ) (s : Sqe) (lens : ℕ × ℕ) (r : Ring) (w : W) (o : Option (Buf × Ring))
      → TakenSame r o
      → Owned held r
      → ShotKept held r (recvmsg_with sys p s lens r w o)
  unfolding recvmsg_with
  recvmsg_with-Kept p s lens r w none e h = Kept-refl held r h
  recvmsg_with-Kept p s (namelen, controllen) r w (some (b, t)) e h =
      let k = Same-Kept held r t e h in
      elim (Bool-cases (ltb b.len (recvmsg_out_size + namelen + controllen))) [
        | inl x ↦ rw x (
            Kept-trans held r t _ k (Same-Kept held t _ (bufring_unget-Same t s.buf_group) k.owned))
        | inr x ↦ rw x (ShotKept-trans held r t _ k (recvmsg_on-Kept p s _ b t _ k.owned))
      ]

  pub recvmsg_shots-Kept :
      (n : ℕ) (r : Ring) (p : ℕ) (s : Sqe) (w : W)
      → Owned held r
      → TriedKept held r (recvmsg_shots sys n r p s w)
  unfolding recvmsg_shots recvmsg_shot
  recvmsg_shots-Kept n r p s w h = elim (Bool-cases (s.addr == 0)) [
    | inl x ↦ rw x (Kept-refl held r h)
    | inr x ↦ rw x (elim (Bool-cases (not s.flags.buffer_select)) [
      | inl y ↦ rw y (Kept-refl held r h)
      | inr y ↦ rw y (
          shots-Kept held n (recvmsg_shot sys p s (sys.msghdr_lens w s.addr)) r w
            (λ t v k.
              recvmsg_with-Kept p s (sys.msghdr_lens w s.addr) t v _
                (bufring_take-Same (sys.buf_tail v) (sys.buf_entry v) t s.buf_group) k)
            h)
    ])
  ]
