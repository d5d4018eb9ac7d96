-- ===== src/Tests/Runs.antt =====
-- The theorems at concrete inputs.
use matlab_zmq.Prelude.{sym, negsuc, ◌≡◌, arith, get_elem?, pos, List, codes, [], ◌∷◌, some, refl}
use matlab_zmq.Core.Send.Flags.{HasFlags, Flags}
use matlab_zmq.Core.Result.Laws.{set_result-Ends, Reports, Answers}
use matlab_zmq.Core.Send.{send_mex}
use matlab_zmq.Core.Result.{set_result}
use matlab_zmq.Util.Errors.{last_error}
use matlab_zmq.Util.Conversions.FromM.Laws.{HoldsPointer}
use matlab_zmq.Mex.Exec.{undefined}
use matlab_zmq.Core.Endpoint.{endpoint_mex}
use matlab_zmq.Tests.World.{host, host-IsLawful, at, Value}
use matlab_zmq.Prelude.Words.{length-to_bytes}
use matlab_zmq.Mex.Exec.Ends.{Ends}
use matlab_zmq.Mex.Host.{EndpointOp}
use matlab_zmq.Core.Endpoint.Laws.{endpoint_mex-Ends}
use matlab_zmq.Core.Send.Laws.{send_mex-Ends, send_mex-undefined}
use matlab_zmq.Core.Endpoint.Laws as EndpointLaws
use matlab_zmq.Core.Send.Laws as SendLaws

abbrev pub socket_5 : Value
socket_5 = Value.pointer 5

abbrev address : Value
address = Value.char_row (codes "tcp://*:5555")

pub socket_5_holds : HoldsPointer host socket_5
socket_5_holds = omega (arith, length-to_bytes 8 5)

pub first_holds :
    (prhs : List Value)
    → get_elem? prhs 0 ≡ some socket_5
    → (a : Value) → get_elem? prhs 0 ≡ some a
    → HoldsPointer host a
first_holds prhs at_0 a e = let same : socket_5 ≡ a = cc in rw (sym same) socket_5_holds

endpoint_mex_example :
    Ends
      (EndpointLaws.Done EndpointOp.bind (socket_5 ∷ address ∷ []) (at (pos 0)))
      (EndpointLaws.Failed EndpointOp.bind (socket_5 ∷ address ∷ []) (at (pos 0)))
      (endpoint_mex host EndpointOp.bind (socket_5 ∷ address ∷ []) (at (pos 0)))
endpoint_mex_example =
    endpoint_mex-Ends host host-IsLawful EndpointOp.bind (socket_5 ∷ address ∷ []) (at (pos 0))
      (first_holds (socket_5 ∷ address ∷ []) refl)

abbrev message : Value
message = Value.uint8_row (1 ∷ 2 ∷ 3 ∷ [])

abbrev flag_names : List Value
flag_names = Value.char_row (codes "ZMQ_SNDMORE") ∷ Value.char_row (codes "ZMQ_DONTWAIT") ∷ []

pub host-HasFlags : HasFlags host
host-HasFlags = record { dontwait = refl; sndmore = refl }

send_mex_example :
    Ends
      (SendLaws.Done socket_5 message flag_names (at (pos 0)))
      (SendLaws.Failed socket_5 message flag_names (at (pos 0)))
      (send_mex host (socket_5 ∷ message ∷ flag_names) (at (pos 0)))
send_mex_example =
    send_mex-Ends host host-IsLawful host-HasFlags socket_5 message flag_names (at (pos 0))
      socket_5_holds

send_mex-undefined_example : (send_mex host (socket_5 ∷ []) (at (pos 0))).0 ≡ undefined
send_mex-undefined_example = send_mex-undefined host (socket_5 ∷ []) (at (pos 0)) (omega arith)

set_result_example :
    Ends
      (λ outs t. (t ≡ at (pos 11)) × Answers (negsuc 0) (last_error host (pos 11)) outs)
      (λ e t. (t ≡ at (pos 11)) × Reports (negsuc 0) (at (pos 11)) e)
      (set_result host (negsuc 0) (at (pos 11)))
set_result_example = set_result-Ends host host-IsLawful (negsuc 0) (at (pos 11)) (omega arith)
