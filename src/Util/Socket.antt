-- ===== src/Util/Socket.antt =====
-- src/util/socket.c and socket.h: socket types by name and by number, and the socket errors.
pub mod Laws
pub mod Names
use matlab_zmq.Prelude.{
  ℤ, negsuc, eq_ℤ, String, Option, none, some, List, [], ◌∷◌, ◌++◌, Bytes, codes, ◌||◌,
  if◌then◌else◌, overwrite,
}
use matlab_zmq.Prelude.Words.{of_bytes, to_bytes, wrap, signed, int_values}
use matlab_zmq.Mex.Exec.{
  Exec, pure, throw, gets, undefined_behaviour, text, number, message, ◌>>=◌, ◌>>◌,
}
use matlab_zmq.Mex.Constants.{SocketTypes}
use matlab_zmq.Mex.Host.{Host}
use matlab_zmq.Mex.Memory.{Mex, Block, State, calloc, free, read, read_string}
use matlab_zmq.Util.Table.{scan, is_null, matches, or_throw}
use matlab_zmq.Util.Errors.{last_error}
use matlab_zmq.Util.Conversions.ToM.{Out, str_to_m}
use matlab_zmq.Util.Conversions.FromM.{allocated_or, str_from_m}

-- `zmq_socket_type_t`
pub record SocketType : Type 0 where
  pub id : ℤ
  pub name : Option String

abbrev pub socket_type : ℤ → String → SocketType
socket_type i n = record { id = i; name = some n }

-- `socketTypeLookup` without its last row
abbrev pub socket_type_rows : SocketTypes → List SocketType
socket_type_rows k =
    socket_type k.zmq_pair "ZMQ_PAIR"
    ∷ socket_type k.zmq_pub "ZMQ_PUB"
    ∷ socket_type k.zmq_sub "ZMQ_SUB"
    ∷ socket_type k.zmq_req "ZMQ_REQ"
    ∷ socket_type k.zmq_rep "ZMQ_REP"
    ∷ socket_type k.zmq_dealer "ZMQ_DEALER"
    ∷ socket_type k.zmq_router "ZMQ_ROUTER"
    ∷ socket_type k.zmq_pull "ZMQ_PULL"
    ∷ socket_type k.zmq_push "ZMQ_PUSH"
    ∷ socket_type k.zmq_xpub "ZMQ_XPUB"
    ∷ socket_type k.zmq_xsub "ZMQ_XSUB"
    ∷ socket_type k.zmq_stream "ZMQ_STREAM"
    ∷ []

abbrev pub no_socket_type : SocketType
no_socket_type = record { id = negsuc 0; name = none }

abbrev pub socket_type_lookup : SocketTypes → List SocketType
socket_type_lookup k = socket_type_rows k ++ no_socket_type ∷ []

module _ (H : Host) where
  unfoldable pub find_socket_type_by_name : Bytes → Mex H SocketType
  find_socket_type_by_name type =
      or_throw
        (scan (λ r. is_null r.name) (λ r. matches type r.name)
          (socket_type_lookup H.constants.socket_types))
        "zmq:core:socket:invalidTypeName" "Error: socket type %s is invalid." (text type ∷ [])

  unfoldable pub find_socket_type_by_id : ℤ → Mex H SocketType
  find_socket_type_by_id id =
      or_throw
        (scan (λ r. is_null r.name) (λ r. eq_ℤ id r.id)
          (socket_type_lookup H.constants.socket_types))
        "zmq:core:socket:invalidTypeId" "Error: socket type %d is invalid." (number id ∷ [])

  -- `str_to_m` of a name in a table
  abbrev pub name_to_m : Option String → Mex H Out
  name_to_m none = undefined_behaviour
  name_to_m (some n) = str_to_m H (codes n ++ 0 ∷ [])

  unfoldable pub socktype_to_m : Bytes → Mex H Out
  unfolding find_socket_type_by_id str_to_m read
  socktype_to_m handle = do
    id ← read H 4 handle
    sock_type ← find_socket_type_by_id (signed int_values (of_bytes id))
    name_to_m sock_type.name

  unfoldable pub socktype_from_m : H.Array → Mex H Block
  unfolding find_socket_type_by_name str_from_m calloc free read_string
  socktype_from_m param = do
    output ← calloc H 1 4
    output ← allocated_or H "util:calloc" output
    name ← str_from_m H param
    type ← read_string H name.bytes
    sock_type ← find_socket_type_by_name type
    free H name
    pure (record output {
      bytes = overwrite output.bytes (to_bytes 4 (wrap int_values sock_type.id));
    })

  -- Every branch throws; the `%s` is `zmq_strerror(err)`.
  unfoldable pub socket_error : Mex H (Unit {0})
  socket_error = do
    err ← gets (λ s. last_error H s.world)
    let original = message (H.zmq_strerror err) ∷ []
    let k = H.constants.errnos
    if eq_ℤ err k.einval
        then throw "zmq:core:socket:invalidOptsCore"
            "Error: The core API reports that something has gone wrong.\n(original message: %s)"
            original
        else if eq_ℤ err k.eterm
        then throw "zmq:core:socket:contextTerm"
            "Error: The context associated with the socket was terminated.\n(original message: %s)"
            original
        else if eq_ℤ err k.efault || eq_ℤ err k.enotsock
        then throw "zmq:core:socket:invalidSocket" "Error: Invalid socket.\n(original message: %s)"
            original
        else if eq_ℤ err k.eintr
        then throw "zmq:core:socket:interrupted"
            "Error: The operation was interrupted by a signal.\n(original message: %s)" original
        else throw "zmq:unknownOops"
            "Error: Something has gone very, very wrong. Unknown error.\n(original message: %s)"
            original
