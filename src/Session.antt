-- ===== src/Session.antt =====
-- A session of MATLAB with the MEX functions of src/core: which function is called with what.
pub mod Spec
pub mod Steps
pub mod Sockets
pub mod Options
pub mod Contexts
pub mod Others
pub mod Laws
pub mod Traces
pub mod Blocks
use matlab_zmq.Prelude.{ℕ, List, ◌∷◌}
use matlab_zmq.Mex.Host.{Host, EndpointOp}
use matlab_zmq.Mex.Exec.{pure, ◌>>=◌}
use matlab_zmq.Mex.Memory.{Mex}
use matlab_zmq.Core.Endpoint.{endpoint_mex}
use matlab_zmq.Core.Send.{send_mex}
use matlab_zmq.Core.Recv.{recv_mex}
use matlab_zmq.Core.Close.{close_mex}
use matlab_zmq.Core.Setsockopt.{setsockopt_mex}
use matlab_zmq.Core.Getsockopt.{getsockopt_mex}
use matlab_zmq.Core.Context.{ctx_new_mex, ctx_shutdown_mex, ctx_term_mex}
use matlab_zmq.Core.ContextOptions.{ctx_get_mex, ctx_set_mex}
use matlab_zmq.Core.Socket.{socket_mex}
use matlab_zmq.Core.Poll.{poll_mex}
use matlab_zmq.Core.Version.{version_mex}

-- A call of a MEX function: `prhs`, and `nlhs` where the function reads it. The first two arguments
-- of `send`, and the first of `recv`, stand apart.
pub data Command (H : Host) : Type 0 where
  endpoint : EndpointOp → List H.Array → Command H
  send : H.Array → H.Array → List H.Array → Command H
  recv : ℕ → H.Array → List H.Array → Command H
  close : List H.Array → Command H
  setsockopt : List H.Array → Command H
  getsockopt : List H.Array → Command H
  ctx_new : List H.Array → Command H
  ctx_shutdown : List H.Array → Command H
  ctx_term : List H.Array → Command H
  ctx_get : List H.Array → Command H
  ctx_set : List H.Array → Command H
  socket : List H.Array → Command H
  poll : ℕ → List H.Array → Command H
  version : ℕ → Command H

module _ (H : Host) where
  -- What happens, without the outputs.
  abbrev pub quietly : {A : Type 0} → Mex H A → Mex H (Unit {0})
  quietly m = m >>= λ _. pure tt

  unfoldable pub exec : Command H → Mex H (Unit {0})
  exec (endpoint op prhs) = quietly (endpoint_mex H op prhs)
  exec (send a b params) = quietly (send_mex H (a ∷ b ∷ params))
  exec (recv nlhs a params) = quietly (recv_mex H nlhs (a ∷ params))
  exec (close prhs) = quietly (close_mex H prhs)
  exec (setsockopt prhs) = quietly (setsockopt_mex H prhs)
  exec (getsockopt prhs) = quietly (getsockopt_mex H prhs)
  exec (ctx_new prhs) = quietly (ctx_new_mex H prhs)
  exec (ctx_shutdown prhs) = quietly (ctx_shutdown_mex H prhs)
  exec (ctx_term prhs) = quietly (ctx_term_mex H prhs)
  exec (ctx_get prhs) = quietly (ctx_get_mex H prhs)
  exec (ctx_set prhs) = quietly (ctx_set_mex H prhs)
  exec (socket prhs) = quietly (socket_mex H prhs)
  exec (poll nlhs prhs) = quietly (poll_mex H nlhs prhs)
  exec (version nlhs) = quietly (version_mex H nlhs)
