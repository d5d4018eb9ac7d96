-- ===== src/Core/Close.antt =====
-- src/core/close.c
pub mod Laws
use matlab_zmq.Core.Result.{set_result}
use matlab_zmq.Mex.Memory.{Call, perform, argument, Mex}
use matlab_zmq.Util.Conversions.FromM.{pointer_from_m}
use matlab_zmq.Prelude.{◌==◌, length, not, List, [], ◌∷◌}
use matlab_zmq.Util.Conversions.ToM.{Out}
use matlab_zmq.Mex.Host.{Host}
use matlab_zmq.Mex.Exec.{reject_if, ◌>>=◌, ◌>>◌}

module _ (H : Host) where
  -- `mexFunction`
  unfoldable pub close_mex : List H.Array → Mex H (List Out)
  close_mex prhs = do
    reject_if (not (length prhs == 1)) "zmq:core:close:invalidArgs"
        "Error: One argument is required: socket"
    socket_array ← argument H prhs 0
    socket ← pointer_from_m H socket_array
    rc ← perform H (Call.close socket) (H.zmq_close socket)
    set_result H rc
