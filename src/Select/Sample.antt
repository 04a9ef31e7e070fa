-- ===== src/Select/Sample.antt =====
-- The select backend on a system where every call of an op would block and select reports nothing.
use slipstream_io.Base.{true, [], some}
use slipstream_io.Abi.{eagain}
use slipstream_io.Backend.{Backend}
use slipstream_io.Backend.Laws.{Laws}
use slipstream_io.Engine.Chains.{IsInline}
use slipstream_io.Posix.Sys.{failed}
use slipstream_io.Posix.Sample.{World, socket_with}
use slipstream_io.Select.{Select}
use slipstream_io.Select.Backed.{select_backend, select_backend-Laws}
use slipstream_io.Select.Inline.{at_once, answer, select_backend-IsInline}

abbrev pub quiet : Select World
quiet = record {
  ctl_r = 3;
  ctl_open = λ w. (true, w);
  ctl_close = λ w. w;
  poke = λ w. w;
  ctl_drain = λ w. w;
  select = λ s t w. (some (record { rd = []; wr = []; ex = [] }), w);
}

abbrev pub blocking_select : Backend World
blocking_select = select_backend quiet (socket_with (failed eagain)) (λ w. true) 4

pub blocking_select-Laws : Laws World blocking_select
blocking_select-Laws = select_backend-Laws quiet (socket_with (failed eagain)) (λ w. true) 4

pub blocking_select-IsInline : IsInline World blocking_select at_once answer
blocking_select-IsInline = select_backend-IsInline quiet (socket_with (failed eagain)) (λ w. true) 4
