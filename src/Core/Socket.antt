-- ===== src/Core/Socket.antt =====
-- src/core/socket.c: a socket of a context.
pub mod Types
pub mod Laws
use matlab_zmq.Util.Conversions.ToM.{pointer_array, Out}
use matlab_zmq.Util.Errors.{last_error}
use matlab_zmq.Mex.Memory.{Call, argument, perform, read_string, free, Block, Mex}
use matlab_zmq.Prelude.{
  codes, ◌==◌, eq_ℤ, length, str_eq, if◌then◌else◌, not, Bytes, Option, ℕ, List, ℤ, [], ◌∷◌, none,
  some,
}
use matlab_zmq.Core.Context.{context_in}
use matlab_zmq.Core.Name.{name_from_m}
use matlab_zmq.Mex.Exec.{message, throw, gets, reject_if, ◌>>=◌, ◌>>◌, pure}
use matlab_zmq.Mex.Constants.{SocketTypes}
use matlab_zmq.Mex.Host.{Host}

-- The chain of `strcmp` in `core_socket`.
unfoldable pub socket_type_value : SocketTypes → Bytes → Option ℤ
socket_type_value k type =
    if str_eq type (codes "ZMQ_REQ")
    then some k.zmq_req
    else if str_eq type (codes "ZMQ_REP")
    then some k.zmq_rep
    else if str_eq type (codes "ZMQ_DEALER")
    then some k.zmq_dealer
    else if str_eq type (codes "ZMQ_ROUTER")
    then some k.zmq_router
    else if str_eq type (codes "ZMQ_PUB")
    then some k.zmq_pub
    else if str_eq type (codes "ZMQ_SUB")
    then some k.zmq_sub
    else if str_eq type (codes "ZMQ_XPUB")
    then some k.zmq_xpub
    else if str_eq type (codes "ZMQ_XSUB")
    then some k.zmq_xsub
    else if str_eq type (codes "ZMQ_PUSH")
    then some k.zmq_push
    else if str_eq type (codes "ZMQ_PULL")
    then some k.zmq_pull
    else if str_eq type (codes "ZMQ_PAIR")
    then some k.zmq_pair
    else if str_eq type (codes "ZMQ_STREAM")
    then some k.zmq_stream
    else none

module _ (H : Host) where
  -- `err` is the number in the message, and `errno` picks the message.
  abbrev pub socket_failed : ℤ → ℤ → Mex H ℕ
  socket_failed errno err =
      let k = H.constants.errnos in
      let original = message (H.zmq_strerror err) ∷ [] in
      if eq_ℤ errno k.einval
      then throw "zmq:core:socket:unknownSocketTypeCore"
          "Error: Unknown socket type (core).\n(original message: %s)" original
      else if eq_ℤ errno k.efault
      then throw "zmq:core:socket:invalidContext"
          "Error: Invalid ZMQ context.\n(original message: %s)" original
      else if eq_ℤ errno k.emfile
      then throw "zmq:core:socket:maxSocketsReached"
          "Error: Max sockets reached on context.\n(original message: %s)" original
      else if eq_ℤ errno k.eterm
      then throw "zmq:core:socket:contextTerminated"
          "Error: ZMQ context was terminated.\n(original message: %s)" original
      else throw "zmq:core:socket:unknownOops"
          "Error: Something has gone very, very wrong. Unknown error.\n(original message: %s)"
          original

  -- `core_socket` behind the chain: `sockType` is not freed where the type is known.
  unfoldable pub make_socket : H.Array → Block → Option ℤ → Mex H ℕ
  make_socket context_array sock_type none = do
    free H sock_type
    throw "zmq:core:socket:unknownSocketType" "Error: Unknown socket type." []
  make_socket context_array sock_type (some value) = do
    context ← context_in H context_array
    socket ← perform H (Call.socket context value) (H.zmq_socket context value)
    errno ← gets (λ s. H.errno s.world)
    err ← gets (λ s. last_error H s.world)
    if socket == 0 then socket_failed errno err else pure socket

  abbrev pub get_socket_type : H.Array → Mex H Block
  get_socket_type =
      name_from_m H "zmq:core:socket:sockTypeCopyFail" "Error: Couldn't get socket_type as string."

  unfoldable pub core_socket : H.Array → H.Array → Mex H ℕ
  core_socket context_array type_array = do
    sock_type ← get_socket_type type_array
    type ← read_string H sock_type.bytes
    make_socket context_array sock_type (socket_type_value H.constants.socket_types type)

  -- `mexFunction`
  unfoldable pub socket_mex : List H.Array → Mex H (List Out)
  socket_mex prhs = do
    reject_if (not (length prhs == 2)) "zmq:core:socket:invalidArgs"
        "Error: Two arguments are required - context, socket_type."
    type_array ← argument H prhs 1
    reject_if (not (H.is_char type_array)) "zmq:core:socket:sockTypeNotString"
        "Error: socket_type is not a string."
    reject_if (not (H.get_m type_array == 1)) "zmq:core:socket:sockTypeNotRowVec"
        "Error: socket_type is not a row vector."
    context_array ← argument H prhs 0
    socket ← core_socket context_array type_array
    pure (pointer_array H socket ∷ [])
