-- ===== src/Select/Tests.antt =====
-- The select backend on a system where every call of an op would block and select reports nothing.
use slipstream_io.Base.{true}
use slipstream_io.Abi.{eagain}
use slipstream_io.Backend.Laws.{Laws}
use slipstream_io.Posix.Sys.{failed}
use slipstream_io.Posix.Sample.{World, socket_with}
use slipstream_io.Select.Backed.{select_backend-Laws}
use slipstream_io.Select.Sample.{quiet, blocking_select}

select_backend-Laws_example : Laws World blocking_select
select_backend-Laws_example = select_backend-Laws quiet (socket_with (failed eagain)) (λ w. true) 4
