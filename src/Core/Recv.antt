-- ===== src/Core/Recv.antt =====
-- src/core/recv.c: a message part, its length, and the flag of `zmq_recv`.
pub mod Flags
pub mod Options
pub mod Return
pub mod Laws
use matlab_zmq.Prelude.{
  pos, overwrite, ◌+◌, bit_or, leb, codes, drop, length, eq_ℤ, is_negative, ltb, str_eq, ◌==◌,
  if◌then◌else◌, Bytes, List, ℕ, ℤ, [], ◌∷◌,
}
use matlab_zmq.Mex.Memory.{Call, perform, calloc, free, warn, read, read_string, argument, Mex}
use matlab_zmq.Prelude.Words.{int_values, to_bytes, of_bytes, size_values, wrap}
use matlab_zmq.Util.Conversions.FromM.{allocated_or, pointer_from_m, size_t_from_m, str_from_m}
use matlab_zmq.Util.Conversions.ToM.{int_to_m, uint8_array_to_m, int32s, Out}
use matlab_zmq.Util.Errors.{handle_error}
use matlab_zmq.Mex.Host.{Host}
use matlab_zmq.Mex.Exec.{MexError, number, size, throw, reject_if, ◌>>=◌, ◌>>◌, pure, gets}

-- `DEFAULT_BUFFER_LENGTH`
abbrev pub default_buffer_length : ℕ
default_buffer_length = 255

-- The warning of a message that is too long: an `int` and a `size_t`, both for `%d`.
abbrev pub too_small : ℕ → ℕ → MexError
too_small msg_len buf_len = record {
  id = "zmq:core:recv:bufferTooSmall";
  format = "Message is %d bytes long, but buffer is %d. Truncated.";
  args = number (pos msg_len) ∷ size buf_len ∷ [];
}

module _ (H : Host) where
  -- `configure_buffer_length` behind the test of the parameter: the length, and the index where the
  -- options start.
  unfoldable pub given_length : H.Array → ℕ → Mex H (ℕ × ℕ)
  given_length param index = do
    input ← size_t_from_m H param
    length ← read H 8 input.bytes
    free H input
    pure (of_bytes length, index + 1)

  unfoldable pub configure_buffer_length : List H.Array → ℕ → Mex H (ℕ × ℕ)
  configure_buffer_length params index = do
    param ← argument H params index
    if H.is_numeric param then given_length param index else pure (default_buffer_length, index)

  -- One round of the loop over the flags, behind the conversion of the name.
  abbrev pub add_option : ℕ → Bytes → Mex H ℕ
  add_option flag flag_str =
      if str_eq flag_str (codes "ZMQ_DONTWAIT")
      then pure (bit_or flag H.constants.zmq_dontwait)
      else throw "zmq:core:recv:invalidFlag" "Error: Unknown flag." []

  unfoldable pub configure_flag : ℕ → List H.Array → Mex H ℕ
  configure_flag flag [] = pure flag
  configure_flag flag (param ∷ params) = do
    flag_str ← str_from_m H param
    name ← read_string H flag_str.bytes
    flag' ← add_option flag name
    free H flag_str
    configure_flag flag' params

  -- The message as far as it fits the buffer, with a warning where it does not. `msg_len > bufLen`
  -- compares values of type `size_t`.
  unfoldable pub message_to_m : ℕ → ℕ → Bytes → Mex H Out
  message_to_m msg_len buf_len buffer =
      if ltb buf_len msg_len
      then (warn H (too_small msg_len buf_len) >> uint8_array_to_m H buffer buf_len)
      else uint8_array_to_m H buffer msg_len

  unfoldable pub configure_return : ℕ → ℤ → ℕ → Bytes → Mex H (List Out)
  configure_return nlhs msg_len buf_len buffer = do
    message ← message_to_m (wrap size_values msg_len) buf_len buffer
    if ltb 1 nlhs
        then (int_to_m H (to_bytes 4 (wrap int_values msg_len)) >>= λ len.
            pure (message ∷ len ∷ []))
        else pure (message ∷ [])

  -- What follows a negative return code.
  unfoldable pub not_received : ℤ → Mex H (List Out)
  not_received rc = do
    err ← gets (λ s. H.errno s.world)
    if eq_ℤ err H.constants.errnos.eagain
        then pure (int32s 1 1 (rc ∷ []) ∷ [])
        else (handle_error H >> pure [])

  unfoldable pub received_to_m : ℕ → ℤ → ℕ → Bytes → Mex H (List Out)
  received_to_m nlhs rc buf_len buffer =
      if is_negative rc then not_received rc else configure_return nlhs rc buf_len buffer

  -- The return code, and what is written to the buffer.
  abbrev pub zmq_recv : ℕ → ℕ → ℕ → H.World → (ℤ × Bytes) × H.World
  zmq_recv socket n flag w =
      let (rc, written, after) = H.zmq_recv socket n flag w in ((rc, written), after)

  -- `mexFunction` behind its options.
  unfoldable pub receive : ℕ → H.Array → ℕ → ℕ → Mex H (List Out)
  receive nlhs socket_array buf_len flag = do
    socket ← pointer_from_m H socket_array
    buffer ← calloc H buf_len 1
    buffer ← allocated_or H "util:calloc" buffer
    (rc, written) ← perform H (Call.recv socket buf_len flag) (zmq_recv socket buf_len flag)
    plhs ← received_to_m nlhs rc buf_len (overwrite buffer.bytes written)
    free H buffer
    pure plhs

  -- The options are read, and a message is received.
  unfoldable pub flagged : ℕ → List H.Array → ℕ → ℕ → Mex H (List Out)
  flagged nlhs prhs buf_len option_start = do
    flag ← configure_flag 0 (drop option_start prhs)
    socket_array ← argument H prhs 0
    receive nlhs socket_array buf_len flag

  -- `mexFunction` with at least two arguments: a length of 0 ends it at once.
  unfoldable pub with_options : ℕ → List H.Array → Mex H (List Out)
  with_options nlhs prhs = do
    (buf_len, option_start) ← configure_buffer_length prhs 1
    if buf_len == 0 then pure [] else flagged nlhs prhs buf_len option_start

  -- `mexFunction`
  unfoldable pub recv_mex : ℕ → List H.Array → Mex H (List Out)
  recv_mex nlhs prhs = do
    reject_if (ltb (length prhs) 1) "zmq:core:recv:invalidArgs"
        "Error: At least one argument is required: socket."
    if leb 2 (length prhs)
        then with_options nlhs prhs
        else (argument H prhs 0 >>= λ socket_array.
            receive nlhs socket_array default_buffer_length 0)
