-- ===== src/Core/Endpoint.antt =====
-- src/core/bind.c, unbind.c, connect.c and disconnect.c: one text but for the name in the error
-- identifiers and the function of libzmq that is called.
pub mod Laws
use matlab_zmq.Core.Result.{set_result}
use matlab_zmq.Prelude.{
  ◌∷◌, Bytes, [], is_negative, if◌then◌else◌, ◌==◌, length, not, ℤ, String, List, ◌<>◌,
}
use matlab_zmq.Prelude.Words.{int_values, wrap, to_bytes}
use matlab_zmq.Mex.Exec.{pure, ◌>>=◌, reject_if, ◌>>◌}
use matlab_zmq.Mex.Host.{EndpointOp, Host}
use matlab_zmq.Mex.Memory.{free, perform, read_string, Mex, argument, Call}
use matlab_zmq.Util.Conversions.ToM.{Out, int_to_m}
use matlab_zmq.Util.Conversions.FromM.{str_from_m, pointer_from_m}
use matlab_zmq.Util.Errors.{handle_error}

abbrev pub op_name : EndpointOp → String
op_name EndpointOp.bind = "bind"
op_name EndpointOp.unbind = "unbind"
op_name EndpointOp.connect = "connect"
op_name EndpointOp.disconnect = "disconnect"

abbrev pub error_id : EndpointOp → String → String
error_id op kind = "zmq:core:" <> (op_name op <> (":" <> kind))

module _ (H : Host) where
  -- The body behind the tests of the arguments.
  unfoldable pub call_endpoint : EndpointOp → H.Array → H.Array → Mex H (List Out)
  call_endpoint op socket_array endpoint_array = do
    socket ← pointer_from_m H socket_array
    endpoint ← str_from_m H endpoint_array
    address ← read_string H endpoint.bytes
    rc ← perform H (Call.endpoint op socket address) (H.zmq_endpoint op socket address)
    plhs ← set_result H rc
    free H endpoint
    pure plhs

  -- `mexFunction`
  unfoldable pub endpoint_mex : EndpointOp → List H.Array → Mex H (List Out)
  endpoint_mex op prhs = do
    reject_if (not (length prhs == 2)) (error_id op "invalidArgs")
        "Error: Two arguments are required: socket, endpoint."
    endpoint_array ← argument H prhs 1
    reject_if (not (H.is_char endpoint_array)) (error_id op "invalidEndpoint")
        "Error: endpoint is not a string."
    reject_if (not (H.get_m endpoint_array == 1)) (error_id op "endpointNotRowVec")
        "Error: endpoint is not a row vector."
    socket_array ← argument H prhs 0
    call_endpoint op socket_array endpoint_array

  unfoldable pub bind_mex : List H.Array → Mex H (List Out)
  bind_mex prhs = endpoint_mex EndpointOp.bind prhs

  unfoldable pub unbind_mex : List H.Array → Mex H (List Out)
  unbind_mex prhs = endpoint_mex EndpointOp.unbind prhs

  unfoldable pub connect_mex : List H.Array → Mex H (List Out)
  connect_mex prhs = endpoint_mex EndpointOp.connect prhs

  unfoldable pub disconnect_mex : List H.Array → Mex H (List Out)
  disconnect_mex prhs = endpoint_mex EndpointOp.disconnect prhs
