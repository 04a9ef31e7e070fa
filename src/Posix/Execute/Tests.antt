-- ===== src/Posix/Execute/Tests.antt =====
-- A pool of two ops: op 1 is a recv, op 0 is free; the socket has five bytes, or none yet.
use mathlib.Core.Option.{none-ne-some}
use slipstream_io.Base.{
  ◌≡◌, refl, arith, ℕ, zero, suc, ℤ, pos, true, [], ◌∷◌, get_elem?, none, some,
}
use slipstream_io.Abi.{zero_sqe, recv, async_cancel, eagain}
use slipstream_io.Ring.{Ring, EngOp, zero_ring, zero_op}
use slipstream_io.Backend.{Exec}
use slipstream_io.Posix.Sys.{failed}
use slipstream_io.Posix.Cancel.{cancel_names, is_all, is_followed, cancel_matching}
use slipstream_io.Posix.Cancel.Counted.{AllCancelled, cancel_matching-AllCancelled}
use slipstream_io.Posix.Execute.{Readiness, posix_execute}
use slipstream_io.Posix.Execute.Keep.{Answered, posix_execute-answers}
use slipstream_io.Posix.Execute.Ready.{AreParked}
use slipstream_io.Posix.Execute.Tries.{AreSingle, AllTried, finish_ready-AllTried}
use slipstream_io.Posix.Owned.{Owned}
use slipstream_io.Posix.Sample.{World, socket_with}

abbrev watched : Readiness World
watched = record {
  arm = λ r p w. (true, w);
  disarm = λ r p w. w;
  forget = none;
  submit_blocking = none;
  started = λ w. true;
}

abbrev a_recv : EngOp
a_recv = record zero_op {
  sqe = record zero_sqe { opcode = recv; fd = pos 5; len = 64; user_data = 77 };
}

-- Op 1 runs, while the worker has op 0 in hand.
abbrev running : Ring
running = record zero_ring { op_pool_n = 2; ops = λ p. a_recv }

running-Owned : Owned (1 ∷ 0 ∷ []) running
running-Owned = record { holds = λ p. ground arith; places = λ k q e. absurd (none-ne-some _ e) }

-- Op 1 is parked.
abbrev parked_recv : Ring
parked_recv = record zero_ring {
  op_pool_n = 2;
  op_free = 0 ∷ [];
  ops = λ p. a_recv;
  waiting = 1 ∷ [];
}

parked_recv-Owned : Owned [] parked_recv
parked_recv-Owned = record { holds = λ p. ground arith; places = place }
  where
    place : (k q : ℕ) → get_elem? (1 ∷ []) k ≡ some q → (parked_recv.ops q).wait_slot ≡ k
    place zero q e = refl
    place (suc k) q e = absurd (none-ne-some _ e)

posix_execute-answers_example :
    (y : Exec × Ring × World) × (posix_execute (socket_with (failed eagain)) watched 1 running 1 tt
      ≡ some y)
    × Answered (0 ∷ []) 1 running y
unfolding is_followed is_all
posix_execute-answers_example =
    posix_execute-answers (socket_with (failed eagain)) watched (0 ∷ []) 1 running 1 tt refl
      (record { accepts = refl; recvs = refl }) refl running-Owned

abbrev cancel_all_77 : EngOp
cancel_all_77 = record zero_op {
  sqe = record zero_sqe { opcode = async_cancel; addr = 77; cancel_all = true };
}

cancel_matching-AllCancelled_example :
    (y : ℤ × Ring × World) × (cancel_matching cancel_all_77 watched.arm watched.disarm parked_recv
        tt
      ≡ some y)
    × AllCancelled (λ q. cancel_names cancel_all_77 (parked_recv.ops q)) [] parked_recv y.0 y.1
unfolding is_all is_followed
cancel_matching-AllCancelled_example =
    cancel_matching-AllCancelled cancel_all_77 watched.arm watched.disarm [] parked_recv tt refl
      refl parked_recv-Owned

-- The parked op is tried again: its connection was broken off.
parked_once : AreParked (1 ∷ []) parked_recv
parked_once q = omega arith

single : AreSingle (1 ∷ []) parked_recv
single q l = record { accepts = refl; recvs = refl }

finish_ready-AllTried_example :
    AllTried (socket_with (failed 103)) watched 1 [] (1 ∷ []) 4 parked_recv tt
finish_ready-AllTried_example =
    finish_ready-AllTried (socket_with (failed 103)) watched 1 [] (1 ∷ []) 4 parked_recv tt
      (omega arith) parked_once single parked_recv-Owned
