-- ===== src/Tests/Sessions.antt =====
-- The theorems about sessions at concrete inputs.
use matlab_zmq.Prelude.{arith, c_str, overwrite, arith, [], ◌∷◌, refl, pos, ◌≡◌, length, ◌≤◌}
use matlab_zmq.Mex.Exec.{returned}
use matlab_zmq.Mex.Exec.Ends.{Ends}
use matlab_zmq.Mex.Memory.{State, perform, calloc, read_string}
use matlab_zmq.Tests.World.{host, host-IsLawful, at, Value}
use matlab_zmq.Tests.Runs.{socket_5, socket_5_holds, first_holds, host-HasFlags}
use matlab_zmq.Tests.Sockets.{host-Allocates}
use matlab_zmq.Tests.Polls.{host-GetsInts}
use matlab_zmq.Core.Context.{ctx_new_mex}
use matlab_zmq.Core.Version.{version_mex, version_string, version_text, decimal}
use matlab_zmq.Session.{Command, exec}
use matlab_zmq.Session.Spec.{Returned, Thrown}
use matlab_zmq.Session.Laws.{IsDocumented, exec-Ends}
use matlab_zmq.Session.Traces.{Reaches, Explains, AllSound, Reaches-Explains, Reaches-AllSound}
use matlab_zmq.Session.Blocks.{Runs, Stays, leaving, Runs-Stays}
use matlab_zmq.Session.Traces as Traces
use matlab_zmq.Session.Blocks as Blocks

host-IsDocumented : IsDocumented host
host-IsDocumented = record {
  lawful = host-IsLawful;
  flags = host-HasFlags;
  allocates = host-Allocates;
  ints = host-GetsInts;
  version = (omega arith, omega arith, omega arith);
}

abbrev close_5 : Command host
close_5 = Command.close (socket_5 ∷ [])

abbrev send_5 : Command host
send_5 = Command.send socket_5 (Value.uint8_row (1 ∷ 2 ∷ 3 ∷ [])) []

exec_example :
    Ends
      (λ _ t. Returned send_5 (at (pos 0)) t)
      (λ e t. Thrown send_5 (at (pos 0)) t)
      (exec host send_5 (at (pos 0)))
exec_example = exec-Ends host host-IsDocumented send_5 (at (pos 0)) socket_5_holds

abbrev sent : State host
sent = (exec host send_5 (at (pos 0))).1

abbrev closed : State host
closed = (exec host close_5 sent).1

sent_and_closed : Reaches host (at (pos 0)) (close_5 ∷ send_5 ∷ []) closed
sent_and_closed =
    Traces.after close_5 (Traces.after send_5 Traces.start socket_5_holds refl)
      (first_holds (socket_5 ∷ []) refl) refl

Reaches-Explains_example : Explains host (close_5 ∷ send_5 ∷ []) closed.calls
Reaches-Explains_example =
    Reaches-Explains host host-IsDocumented (at (pos 0)) refl (close_5 ∷ send_5 ∷ []) closed
      sent_and_closed

Reaches-AllSound_example : AllSound closed.calls × (length closed.calls ≤ 2)
Reaches-AllSound_example =
    Reaches-AllSound host host-IsDocumented (at (pos 0)) refl (close_5 ∷ send_5 ∷ []) closed
      sent_and_closed

abbrev new : Command host
new = Command.ctx_new []

abbrev ask : Command host
ask = Command.version 1

abbrev made : State host
made = (exec host new (at (pos 0))).1

abbrev asked : State host
asked = (exec host ask made).1

new_returns : exec host new (at (pos 0)) ≡ (returned tt, made)
unfolding exec ctx_new_mex perform
new_returns = refl

ask_returns : exec host ask made ≡ (returned tt, asked)
unfolding exec ctx_new_mex perform version_mex version_string version_text decimal calloc
    read_string c_str overwrite
ask_returns = refl

asked_run : Runs host (at (pos 0)) (ask ∷ new ∷ []) asked
asked_run = Blocks.after ask (Blocks.after new Blocks.start tt new_returns) tt ask_returns

Runs-Stays_example : Stays 1 [] asked.live
Runs-Stays_example = Runs-Stays host host-IsDocumented (at (pos 0)) (ask ∷ new ∷ []) asked asked_run
