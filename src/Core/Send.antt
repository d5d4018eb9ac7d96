-- ===== src/Core/Send.antt =====
-- src/core/send.c: the message and the flags of `zmq_send`.
pub mod Flags
pub mod Laws
use matlab_zmq.Core.Result.{set_result}
use matlab_zmq.Mex.Memory.{perform, read, free, read_string, argument, Block, Mex, Call}
use matlab_zmq.Prelude.{
  [], drop, bit_or, length, ◌==◌, codes, ltb, not, str_eq, if◌then◌else◌, ◌∷◌, Bytes, List, ℕ,
}
use matlab_zmq.Util.Conversions.FromM.{pointer_from_m, uint8_array_from_m, str_from_m}
use matlab_zmq.Mex.Exec.{throw, reject_if, ◌>>=◌, ◌>>◌, pure}
use Prim.Native.Nat.{bit_or, ℕ}
use matlab_zmq.Util.Conversions.ToM.{Out}
use matlab_zmq.Mex.Host.{Host}

module _ (H : Host) where
  -- `configure_message`: the block and its length. The test behind the copy looks at the address of
  -- the caller's variable, which is never NULL.
  unfoldable pub configure_message : H.Array → Mex H (Block × ℕ)
  configure_message raw_message = do
    reject_if (not (H.get_m raw_message == 1)) "zmq:core:send:messageNotRowVec"
        "Error: Message must be a row vector. Flatten before attempting to send."
    reject_if (not (H.is_uint8 raw_message)) "zmq:core:send:messageNotUint8"
        "Error: Message payload must be uint8"
    let payload_len = H.get_n raw_message
    payload ← uint8_array_from_m H raw_message payload_len
    pure (payload, payload_len)

  -- One round of the loop over the flags, behind the conversion of the name.
  abbrev pub add_flag : ℕ → Bytes → Mex H ℕ
  add_flag flag flag_str =
      if str_eq flag_str (codes "ZMQ_SNDMORE")
      then pure (bit_or flag H.constants.zmq_sndmore)
      else if str_eq flag_str (codes "ZMQ_DONTWAIT")
      then pure (bit_or flag H.constants.zmq_dontwait)
      else throw "zmq:core:send:invalidFlag" "Error: Unknown flag." []

  unfoldable pub configure_flag : ℕ → List H.Array → Mex H ℕ
  configure_flag flag [] = pure flag
  configure_flag flag (param ∷ params) = do
    flag_str ← str_from_m H param
    name ← read_string H flag_str.bytes
    flag' ← add_flag flag name
    free H flag_str
    configure_flag flag' params

  -- `mexFunction`
  unfoldable pub send_mex : List H.Array → Mex H (List Out)
  send_mex prhs = do
    raw_message ← argument H prhs 1
    (payload, payload_len) ← configure_message raw_message
    flag ← (if ltb 2 (length prhs) then configure_flag 0 (drop 2 prhs) else pure 0)
    socket_array ← argument H prhs 0
    socket ← pointer_from_m H socket_array
    bytes ← read H payload_len payload.bytes
    rc ← perform H (Call.send socket bytes flag) (H.zmq_send socket bytes flag)
    plhs ← set_result H rc
    free H payload
    pure plhs
