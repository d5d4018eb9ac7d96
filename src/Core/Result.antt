-- ===== src/Core/Result.antt =====
-- The end of a MEX function that returns libzmq's return code, which bind.c, unbind.c, connect.c,
-- disconnect.c, close.c, send.c and setsockopt.c share.
pub mod Laws
use matlab_zmq.Prelude.{◌∷◌, Bytes, [], is_negative, if◌then◌else◌, List, ℤ}
use matlab_zmq.Mex.Exec.{◌>>=◌, pure, ◌>>◌}
use matlab_zmq.Prelude.Words.{int_values, wrap, to_bytes}
use matlab_zmq.Util.Conversions.ToM.{Out, int_to_m}
use matlab_zmq.Mex.Memory.{Mex}
use matlab_zmq.Util.Errors.{handle_error}
use matlab_zmq.Mex.Host.{Host}

module _ (H : Host) where
  -- `if (rc < 0) handle_error(); else plhs[0] = int_to_m(&rc);`
  unfoldable pub set_result : ℤ → Mex H (List Out)
  set_result rc =
      if is_negative rc
      then (handle_error H >> pure [])
      else (int_to_m H (to_bytes 4 (wrap int_values rc)) >>= λ out. pure (out ∷ []))
