-- ===== src/Epoll/Tests.antt =====
-- A backend whose kernel takes every registration, with an empty table.
use slipstream_io.Base.{pos, true, false, [], none, some}
use slipstream_io.Ring.{Ring, zero_ring, zero_op}
use slipstream_io.Abi.{zero_sqe}
use slipstream_io.Epoll.{Ep, arm}
use slipstream_io.Epoll.Sides.{AfterArm, arm-AfterArm}

abbrev kernel : Ep (Unit {0})
kernel = record {
  memory = λ n v. (true, v);
  epoll_ctl = λ c fd e v. (none, v);
  epoll_wait = λ t v. (some [], v);
  disagrees = λ e. false;
  ctl_r = 3;
  ctl_drain = λ v. v;
}

abbrev waiting_for_input : Ring
waiting_for_input = record zero_ring {
  ops = λ p. record zero_op { sqe = record zero_sqe { fd = pos 5 }; wait_events = 1 };
}

arm-AfterArm_example : AfterArm kernel (pos 5) 2 1 [] (arm kernel waiting_for_input 2 ([], tt))
arm-AfterArm_example = arm-AfterArm kernel waiting_for_input 2 [] tt
