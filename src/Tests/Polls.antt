-- ===== src/Tests/Polls.antt =====
-- The theorems about poll.c, ctx_get.c and ctx_set.c at concrete inputs.
use matlab_zmq.Prelude.{arith, codes, List, [], ◌∷◌, refl, pos}
use matlab_zmq.Mex.Exec.Ends.{Ends}
use matlab_zmq.Tests.World.{host, at, Value}
use matlab_zmq.Tests.Runs.{socket_5}
use matlab_zmq.Core.Poll.{poll_mex}
use matlab_zmq.Core.Poll.Outputs.{NoReturn, poll_mex-NoReturn}
use matlab_zmq.Core.ContextOptions.Get.{GetsInts}
use matlab_zmq.Core.ContextOptions.Set.{Set}

abbrev readable : Value
readable = Value.item 5 (pos 1)

abbrev polled : List Value
polled = readable ∷ Value.scalar (pos 100) ∷ []

poll_mex-NoReturn_example : NoReturn (poll_mex host 1 polled (at (pos 0)))
poll_mex-NoReturn_example = poll_mex-NoReturn host 1 refl polled (at (pos 0))

pub host-GetsInts : GetsInts host
host-GetsInts c o w = omega arith

abbrev threads : List Value
threads = socket_5 ∷ Value.char_row (codes "ZMQ_IO_THREADS") ∷ []

abbrev more_threads : List Value
more_threads = socket_5 ∷ Value.char_row (codes "ZMQ_IO_THREADS") ∷ Value.scalar (pos 3) ∷ []
