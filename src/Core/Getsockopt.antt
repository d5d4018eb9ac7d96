-- ===== src/Core/Getsockopt.antt =====
-- src/core/getsockopt.c: the value of an option, read into a block and converted by the option's type.
pub mod Values
pub mod GetOption
pub mod Laws
use matlab_zmq.Util.Conversions.FromM.{allocated_or, pointer_from_m, str_from_m}
use matlab_zmq.Mex.Memory.{argument, free, Call, perform, read_string, malloc, Block, Mex}
use matlab_zmq.Prelude.{
  overwrite, ◌==◌, is_negative, length, if◌then◌else◌, not, Bytes, ℤ, List, Option, ℕ, [], ◌∷◌,
  none, some,
}
use matlab_zmq.Util.Sockopt.{
  find_sockopt_type_by_id, find_sockopt_by_name, SockoptDesc, SockoptType,
}
use matlab_zmq.Util.Errors.{handle_error}
use matlab_zmq.Util.Conversions.ToM.{Out}
use matlab_zmq.Mex.Host.{Host}
use matlab_zmq.Mex.Exec.{throw, undefined_behaviour, reject_if, ◌>>=◌, ◌>>◌, pure}

module _ (H : Host) where
  -- `typeDesc->to_m(value)`
  abbrev pub shown : Option (Bytes → Mex H Out) → Bytes → Mex H Out
  shown none value = undefined_behaviour
  shown (some to_m) value = to_m value

  -- The return code, and what is written to the block. The length that libzmq writes back, which the
  -- code passes a variable for and never reads, is that of these bytes.
  abbrev pub option_value : ℕ → ℤ → ℕ → H.World → (ℤ × Bytes) × H.World
  option_value socket id n w =
      let (rc, written, after) = H.zmq_getsockopt socket id n w in ((rc, written), after)

  -- The end of the function: the block holds what libzmq wrote over what `mxMalloc` left.
  unfoldable pub value_to_m : SockoptType H → ℤ → Block → Mex H (List Out)
  value_to_m type_desc rc value =
      if is_negative rc
      then (do handle_error H; free H value; pure [])
      else (do out ← shown type_desc.to_m value.bytes; free H value; pure (out ∷ []))

  -- The body behind the option's name and the socket.
  unfoldable pub get_value : ℕ → SockoptDesc → SockoptType H → Mex H (List Out)
  get_value socket opt_desc type_desc = do
    value ← malloc H type_desc.max_len
    value ← allocated_or H "mex:malloc" value
    (rc, written) ←
        perform H (Call.getsockopt socket opt_desc.id type_desc.max_len)
          (option_value socket opt_desc.id type_desc.max_len)
    value_to_m type_desc rc (record value { bytes = overwrite value.bytes written })

  -- The body behind the tests of the arguments.
  unfoldable pub get_option : H.Array → H.Array → Mex H (List Out)
  get_option socket_array option_array = do
    option ← str_from_m H option_array
    name ← read_string H option.bytes
    opt_desc ← find_sockopt_by_name H name
    type_desc ← find_sockopt_type_by_id H opt_desc.type_id
    free H option
    socket ← pointer_from_m H socket_array
    get_value socket opt_desc type_desc

  -- `mexFunction`
  unfoldable pub getsockopt_mex : List H.Array → Mex H (List Out)
  getsockopt_mex prhs = do
    reject_if (not (length prhs == 2)) "zmq:core:getsockopts:invalidArgs"
        "Error: Two arguments are required: socket, option"
    option_array ← argument H prhs 1
    reject_if (not (H.is_char option_array)) "zmq:core:getsockopts:invalidOptionName"
        "Error: option_name is not a string."
    reject_if (not (H.get_m option_array == 1)) "zmq:core:getsockopts:optionNameNotRowVec"
        "Error: option_name is not a row vector."
    socket_array ← argument H prhs 0
    get_option socket_array option_array
