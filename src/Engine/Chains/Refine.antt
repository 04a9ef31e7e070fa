-- ===== src/Engine/Chains/Refine.antt =====
-- The queue runs a submission chain by chain, as Engine/Chains.antt says it.
use mathlib.Core.Path.{subst, ap₂}
use slipstream_io.Base.{
  ℕ, zero, suc, ◌≤◌, ◌≡◌, ◌≢◌, refl, ◌∙◌, sym, ap, arith, ℤ, Bool, true, false, List, [], ◌∷◌, ◌++◌,
  map, none, some, length, eq_refl, count, Bool-cases, inl, inr, append-nil, append_assoc,
}
use slipstream_io.Ring.{Ring, EngOp, Chain, holds, cancels, cancels_quietly, is_failed}
use slipstream_io.Completion.{cq_avail, post}
use slipstream_io.Completion.Window.{CqIsValid}
use slipstream_io.Completion.Order.{completions, CqIsValid-same}
use slipstream_io.Completion.Owners.{Holds, Holds-fresh}
use slipstream_io.Backend.{Backend}
use slipstream_io.Engine.{
  Engine, put_ring, settle, wants_fixed, is_msg_ring, executed, run_head, process_head, next_from,
  next_op, process_queue,
}
use slipstream_io.Engine.Queue.{ring-put_ring}
use slipstream_io.Engine.Chains.{chains, run_chains, IsInline}
use slipstream_io.Engine.Chains.Machine.{next_chain, answered, machine, machine-chains}
use slipstream_io.Engine.Chains.Step.{Stepped, cancel_head-Stepped, settle-Stepped}

-- An op that the backend runs as it stands, and at once.
abbrev pub IsPlain : (EngOp → Bool) → EngOp → Type 0
IsPlain at_once op =
    (wants_fixed op ≡ false) × (is_msg_ring op.sqe.opcode ≡ false) × (at_once op ≡ true)

abbrev pub AllPlain : (EngOp → Bool) → List EngOp → Type 0
AllPlain at_once [] = Unit {0}
AllPlain at_once (op ∷ ops) = IsPlain at_once op × AllPlain at_once ops

holds_of : (c : Chain) → is_failed c ≡ false → c ≡ holds
holds_of holds f = refl
holds_of cancels f = absurd (cc)
holds_of cancels_quietly f = absurd (cc)

-- The ops that stay in the queue are not written to.
ne_of_count : (p q : ℕ) (ps : List ℕ) → count p (q ∷ ps) ≡ 0 → p ≢ q
ne_of_count p q ps h e = ground arith

count_tail : (p q : ℕ) (ps : List ℕ) → count p (q ∷ ps) ≡ 0 → count p ps ≡ 0
count_tail p q ps h = omega arith

map-ops :
    (r s : Ring) (p : ℕ) (ps : List ℕ)
    → ((q : ℕ) → p ≢ q → s.ops q ≡ r.ops q)
    → count p ps ≡ 0
    → map s.ops ps ≡ map r.ops ps
map-ops r s p [] e h = refl
map-ops r s p (q ∷ ps) e h =
    ap₂ ◌∷◌ (e q (ne_of_count p q ps h)) (map-ops r s p ps e (count_tail p q ps h))

next_op-nil : (r : Ring) → r.queue ≡ [] → next_op r ≡ none
unfolding next_op next_from
next_op-nil r e = ap (λ q. next_from q r.blocking r) e

next_op-cons :
    (r : Ring) (p : ℕ) (ps : List ℕ)
    → r.queue ≡ p ∷ ps
    → r.blocking ≡ none
    → next_op r ≡ some (p, record r { queue = ps })
unfolding next_op next_from
next_op-cons r p ps e f = ap₂ (λ q o. next_from q o r) e f

module _ {W : Type 0} (b : Backend W) (at_once : EngOp → Bool) (answer : EngOp → ℤ)
    (v : IsInline W b at_once answer) where
  run_head-inline :
      (e : Engine W) (i p : ℕ)
      → IsPlain at_once ((e.rings i).ops p)
      → let res = answer ((e.rings i).ops p) in
        (run_head b e i p).rings i ≡ post (settle (e.rings i) p res) p res
  unfolding run_head executed
  run_head-inline e i p (f, m, o) =
      let (w, x) = v.inline (e.rings i) p e.world o in rw (m, x, eq_refl)

  head-Stepped :
      (k : ℕ) (e : Engine W) (i p : ℕ) (c : Chain)
      → CqIsValid k (e.rings i)
      → Holds (p ∷ []) (e.rings i)
      → IsPlain at_once ((e.rings i).ops p)
      → (e.rings i).chain_failed ≡ c
      → Stepped k p
          (e.rings i)
          ((process_head b e i p).rings i)
          (next_chain answer c ((e.rings i).ops p))
          (answered answer c ((e.rings i).ops p))
  unfolding process_head
  head-Stepped k e i p c q h plain s = elim (Bool-cases (is_failed (e.rings i).chain_failed)) [
    | inl f ↦ rw (f, eq_refl) (at_chain (cancel_head-Stepped answer v.int32 k p (e.rings i) q h f))
    | inr f ↦
        rw (f, plain.0, run_head-inline e i p plain)
          (at_chain (held (holds_of (e.rings i).chain_failed f)))
  ]
    where
      at_chain :
          {t : Ring}
          → Stepped k p
              (e.rings i)
              t
              (next_chain answer (e.rings i).chain_failed ((e.rings i).ops p))
              (answered answer (e.rings i).chain_failed ((e.rings i).ops p))
          → Stepped k p
              (e.rings i)
              t
              (next_chain answer c ((e.rings i).ops p))
              (answered answer c ((e.rings i).ops p))
      at_chain {t} x =
          subst
            (λ d.
              Stepped k p (e.rings i) t (next_chain answer d ((e.rings i).ops p))
                (answered answer d ((e.rings i).ops p)))
            s x

      ended : Ring
      ended = let res = answer ((e.rings i).ops p) in post (settle (e.rings i) p res) p res

      held :
          (e.rings i).chain_failed ≡ holds
          → Stepped k p
              (e.rings i)
              ended
              (next_chain answer (e.rings i).chain_failed ((e.rings i).ops p))
              (answered answer (e.rings i).chain_failed ((e.rings i).ops p))
      held d =
          subst
            (λ d.
              Stepped k p (e.rings i) ended (next_chain answer d ((e.rings i).ops p))
                (answered answer d ((e.rings i).ops p)))
            (sym d) (settle-Stepped answer v.int32 k p (e.rings i) q h d)

  -- The same, for the ring that the round starts from.
  round-Stepped :
      (k : ℕ) (e : Engine W) (i p : ℕ) (r : Ring) (c : Chain)
      → e.rings i ≡ r
      → CqIsValid k r
      → Holds (p ∷ []) r
      → IsPlain at_once (r.ops p)
      → r.chain_failed ≡ c
      → Stepped k p r
          ((process_head b e i p).rings i)
          (next_chain answer c (r.ops p))
          (answered answer c (r.ops p))
  round-Stepped k e i p r c eq =
      subst
        (λ x.
          CqIsValid k x
          → Holds (p ∷ []) x
          → IsPlain at_once (x.ops p)
          → x.chain_failed ≡ c
          → Stepped k p x ((process_head b e i p).rings i) (next_chain answer c (x.ops p))
              (answered answer c (x.ops p)))
        eq (head-Stepped k e i p c)

  run-machine :
      (ps : List ℕ) (k fuel : ℕ) (e : Engine W) (i : ℕ) (c : Chain)
      → (e.rings i).queue ≡ ps
      → length ps ≤ fuel
      → (e.rings i).blocking ≡ none
      → CqIsValid k (e.rings i)
      → Holds [] (e.rings i)
      → AllPlain at_once (map (e.rings i).ops ps)
      → (e.rings i).chain_failed ≡ c
      → completions ((process_queue b fuel e i).rings i)
        ≡ completions (e.rings i) ++ machine answer c (map (e.rings i).ops ps)
  unfolding process_queue machine cq_avail
  run-machine [] k zero e i c q n u w h a s = sym (append-nil _)
  run-machine [] k (suc fuel) e i c q n u w h a s =
      rw (next_op-nil (e.rings i) q, process_queue) (sym (append-nil _))
  run-machine (p ∷ ps) k zero e i c q n u w h a s = absurd (omega arith)
  run-machine (p ∷ ps) k (suc fuel) e i c q n u w h a s =
      rw (next_op-cons (e.rings i) p ps q u, process_queue)
        (run-machine ps k fuel e' i (next_chain answer c (taken.ops p)) t.queue (omega arith)
            (t.blocking ∙ u) t.valid t.owned (subst (AllPlain at_once) (sym same) a.1) t.chain
          ∙ ap₂ (λ x y. x ++ machine answer (next_chain answer c (taken.ops p)) y) t.order same
          ∙ append_assoc (completions (e.rings i)) _ _)
    where
      taken : Ring
      taken = record (e.rings i) { queue = ps }

      e' : Engine W
      e' = process_head b (put_ring e i taken) i p

      owned : Holds (p ∷ []) taken
      owned x = omega (arith, h x, ap (count x) q)

      t :
          Stepped k p taken
            (e'.rings i)
            (next_chain answer c (taken.ops p))
            (answered answer c (taken.ops p))
      t =
          round-Stepped k (put_ring e i taken) i p taken c (ring-put_ring e i taken)
            (CqIsValid-same (e.rings i) taken refl refl refl refl w) owned a.0 s

      same : map (e'.rings i).ops ps ≡ map taken.ops ps
      same = map-ops taken (e'.rings i) p ps t.ops (omega (arith, Holds-fresh p [] taken owned))

  -- A submission is answered chain by chain. Where the backend finishes each op of the queue at once, with
  -- an answer that the op alone decides and that is an `int`, no op of the queue names a fixed file or is a
  -- MSG_RING, no chain is pending or failed, the completion queue is valid, every op of the ring has one holder
  -- and there are at least as many rounds as ops, the completions after `process_queue` are those before, then
  -- for each chain in turn the answers of its members up to and with the first that fails and -ECANCELED for
  -- those behind it (nothing for them if the failing op carries IOSQE_CQE_SKIP_SUCCESS, nothing for a success
  -- that carries it).
  pub process_queue-chains :
      (k fuel : ℕ) (e : Engine W) (i : ℕ)
      → length (e.rings i).queue ≤ fuel
      → (e.rings i).blocking ≡ none
      → (e.rings i).chain_failed ≡ holds
      → CqIsValid k (e.rings i)
      → Holds [] (e.rings i)
      → AllPlain at_once (map (e.rings i).ops (e.rings i).queue)
      → completions ((process_queue b fuel e i).rings i)
        ≡ completions (e.rings i)
          ++ run_chains answer (chains (map (e.rings i).ops (e.rings i).queue))
  process_queue-chains k fuel e i n u s w h a =
      run-machine (e.rings i).queue k fuel e i holds refl n u w h a s
      ∙ ap (λ l. completions (e.rings i) ++ l)
          (machine-chains answer (map (e.rings i).ops (e.rings i).queue))
