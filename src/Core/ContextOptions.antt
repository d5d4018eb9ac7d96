-- ===== src/Core/ContextOptions.antt =====
-- src/core/ctx_get.c and ctx_set.c: the options of a context.
pub mod Selected
pub mod Get
pub mod Set
use matlab_zmq.Prelude.Words.{int_values, wrap}
use matlab_zmq.Prelude.{
  pos, ◌||◌, eq_ℤ, is_negative, codes, ◌==◌, length, str_eq, if◌then◌else◌, not, Bytes, Option,
  String, ℤ, List, [], ◌∷◌, none, some,
}
use matlab_zmq.Util.Conversions.ToM.{pointer_array, Out}
use matlab_zmq.Mex.Memory.{cast, argument, Call, perform, read_string, free, Block, Mex}
use matlab_zmq.Core.Context.{context_in}
use matlab_zmq.Core.Name.{name_from_m}
use matlab_zmq.Mex.Constants.{Constants}
use matlab_zmq.Mex.Host.{Host}
use matlab_zmq.Mex.Exec.{throw, reject_if, ◌>>=◌, ◌>>◌, pure}

-- The chain of `strcmp` in `core_ctx_get` and in `core_ctx_set`.
unfoldable pub option_selection : Constants → Bytes → Option ℤ
option_selection k option =
    if str_eq option (codes "ZMQ_IO_THREADS")
    then some k.zmq_io_threads
    else if str_eq option (codes "ZMQ_MAX_SOCKETS")
    then some k.zmq_max_sockets
    else if str_eq option (codes "ZMQ_IPV6")
    then some k.socket_options.zmq_ipv6
    else none

module _ (H : Host) where
  -- `mxFree(option)` and an error
  abbrev pub free_and_throw : {A : Type 0} → Block → String → String → Mex H A
  free_and_throw option i f = do free H option; throw i f []

  -- `core_ctx_get` behind the chain
  unfoldable pub get_selected : H.Array → Block → Option ℤ → Mex H ℤ
  get_selected context_array option none =
      free_and_throw option "zmq:core:ctx_get:optNameInvalid" "Error: Invalid option_name."
  get_selected context_array option (some selection) = do
    context ← context_in H context_array
    ret ← perform H (Call.ctx_get context selection) (H.zmq_ctx_get context selection)
    if is_negative ret
        then free_and_throw option "zmq:core:ctx_get:coreAPIInvalidOption"
            "Error: Invalid option_name (core API)."
        else (do free H option; pure ret)

  -- `get_option_name` of ctx_get.c, and of ctx_set.c.
  abbrev pub get_option_name : H.Array → Mex H Block
  get_option_name =
      name_from_m H "zmq:core:ctx_get:optNameCopyFail" "Error: Couldn't get option_name as string."

  abbrev pub set_option_name : H.Array → Mex H Block
  set_option_name =
      name_from_m H "zmq:core:ctx_set:optNameCopyFail" "Error: Couldn't get option_name as string."

  unfoldable pub core_ctx_get : H.Array → H.Array → Mex H ℤ
  core_ctx_get context_array option_array = do
    option ← get_option_name option_array
    name ← read_string H option.bytes
    get_selected context_array option (option_selection H.constants name)

  -- `mexFunction` of ctx_get.c: the `int` is stored over the low bytes of an array of a pointer's size.
  unfoldable pub ctx_get_mex : List H.Array → Mex H (List Out)
  ctx_get_mex prhs = do
    reject_if (not (length prhs == 2)) "zmq:core:ctx_get:invalidArgs"
        "Error: Need two arguments - context and option_name."
    option_array ← argument H prhs 1
    reject_if (not (H.is_char option_array)) "zmq:core:ctx_get:optionNotString"
        "Error: option_name must be a string."
    reject_if (not (H.get_m option_array == 1)) "zmq:core:ctx_get:optionNotRowVec"
        "Error: option_name must be a row vector."
    context_array ← argument H prhs 0
    ret ← core_ctx_get context_array option_array
    pure (pointer_array H (wrap int_values ret) ∷ [])

  -- `core_ctx_set` behind the chain
  unfoldable pub set_selected : H.Array → Block → ℤ → Option ℤ → Mex H (List Out)
  set_selected context_array option value none =
      free_and_throw option "zmq:core:ctx_set:optNameInvalid" "Error: Invalid option_name."
  set_selected context_array option value (some selection) = do
    context ← context_in H context_array
    ret ← perform H (Call.ctx_set context selection value) (H.zmq_ctx_set context selection value)
    if not (eq_ℤ ret (pos 0))
        then free_and_throw option "zmq:core:ctx_set:coreAPISetFailure"
            "Error: Setting option_name to option_value failed."
        else (do free H option; pure [])

  unfoldable pub core_ctx_set : H.Array → H.Array → H.Array → Mex H (List Out)
  core_ctx_set context_array option_array value_array = do
    option ← set_option_name option_array
    value ← cast H (H.casts_to_int value_array) (H.double_to_int (H.get_scalar value_array))
    name ← read_string H option.bytes
    set_selected context_array option value (option_selection H.constants name)

  -- `mexFunction` of ctx_set.c
  unfoldable pub ctx_set_mex : List H.Array → Mex H (List Out)
  ctx_set_mex prhs = do
    reject_if (not (length prhs == 3)) "zmq:core:ctx_set:invalidArgs"
        "Error: Need three arguments - context, option_name, option_value."
    option_array ← argument H prhs 1
    reject_if (not (H.is_char option_array)) "zmq:core:ctx_set:optionNotString"
        "Error: option_name must be a string."
    reject_if (not (H.get_m option_array == 1)) "zmq:core:ctx_set:optionNotRowVec"
        "Error: option_name must be a row vector."
    value_array ← argument H prhs 2
    reject_if (not (H.is_numeric value_array)) "zmq:core:ctx_set:optionNotNumeric"
        "Error: option_value isn't numeric."
    reject_if (not (H.get_m value_array == 1) || not (H.get_n value_array == 1))
        "zmq:core:ctx_set:optionNotSingleNumeric" "Error: option_value can't be an array or matrix."
    context_array ← argument H prhs 0
    core_ctx_set context_array option_array value_array
