-- ===== src/Core/Setsockopt.antt =====
-- src/core/setsockopt.c: the value of an option, converted by the option's type.
pub mod Values
pub mod SetOption
pub mod Laws
use matlab_zmq.Util.Conversions.FromM.{pointer_from_m, str_from_m}
use matlab_zmq.Mex.Memory.{free, argument, Call, perform, read_string, read, Block, Mex}
use matlab_zmq.Core.Result.{set_result}
use matlab_zmq.Util.Sockopt.{
  find_sockopt_type_by_id, sopt_key, find_sockopt_by_name, sopt_string, SockoptDesc, SockoptType,
}
use matlab_zmq.Prelude.{
  ◌==◌, ◌||◌, length, eq_ℤ, not, if◌then◌else◌, List, Option, ℕ, [], ◌∷◌, none, some,
}
use matlab_zmq.Mex.Exec.{undefined_behaviour, reject_if, ◌>>=◌, ◌>>◌, pure}
use matlab_zmq.Util.Conversions.ToM.{Out}
use matlab_zmq.Mex.Host.{Host}

module _ (H : Host) where
  -- `typeDesc->from_m(value)`
  abbrev pub converted : Option (H.Array → Mex H Block) → H.Array → Mex H Block
  converted none value = undefined_behaviour
  converted (some from_m) value = from_m value

  -- `optLen`: the elements of the array for the two types of text, the size of the type otherwise
  abbrev pub value_length : SockoptType H → H.Array → ℕ
  value_length type value =
      if eq_ℤ type.id sopt_string || eq_ℤ type.id sopt_key
      then H.get_number_of_elements value
      else type.max_len

  -- The body behind the option's name and the socket.
  unfoldable pub set_value : ℕ → SockoptDesc → SockoptType H → H.Array → Mex H (List Out)
  set_value socket opt_desc type_desc value = do
    opt_value ← converted type_desc.from_m value
    bytes ← read H (value_length type_desc value) opt_value.bytes
    rc ←
        perform H (Call.setsockopt socket opt_desc.id bytes)
          (H.zmq_setsockopt socket opt_desc.id bytes)
    plhs ← set_result H rc
    free H opt_value
    pure plhs

  -- The body behind the tests of the arguments.
  unfoldable pub set_option : H.Array → H.Array → H.Array → Mex H (List Out)
  set_option socket_array option_array value = do
    option ← str_from_m H option_array
    name ← read_string H option.bytes
    opt_desc ← find_sockopt_by_name H name
    type_desc ← find_sockopt_type_by_id H opt_desc.type_id
    free H option
    socket ← pointer_from_m H socket_array
    set_value socket opt_desc type_desc value

  -- `mexFunction`
  unfoldable pub setsockopt_mex : List H.Array → Mex H (List Out)
  setsockopt_mex prhs = do
    reject_if (not (length prhs == 3)) "zmq:core:setsockopt:invalidArgs"
        "Error: Tree arguments are required: socket, option, value"
    option_array ← argument H prhs 1
    reject_if (not (H.is_char option_array)) "zmq:core:setsockopt:invalidOptionName"
        "Error: option_name is not a string."
    reject_if (not (H.get_m option_array == 1)) "zmq:core:setsockopt:optionNameNotRowVec"
        "Error: option_name is not a row vector."
    socket_array ← argument H prhs 0
    value ← argument H prhs 2
    set_option socket_array option_array value
