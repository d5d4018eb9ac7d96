-- ===== src/Session/Laws.antt =====
-- Sessions: every command does only what it may do, whatever the commands before it did.
use matlab_zmq.Prelude.{◌∷◌, []}
use matlab_zmq.Mex.Host.{Host, IsLawful, Allocates}
use matlab_zmq.Mex.Memory.{State, Mex}
use matlab_zmq.Mex.Exec.{MexError}
use matlab_zmq.Mex.Exec.Ends.{Ends, returns}
use matlab_zmq.Core.Send.Flags.{HasFlags}
use matlab_zmq.Core.ContextOptions.Get.{GetsInts, ctx_get_mex-Ends}
use matlab_zmq.Core.Version.Laws.{IsVersion, version_mex-Ends}
use matlab_zmq.Core.Endpoint.Laws.{endpoint_mex-Ends}
use matlab_zmq.Core.Send.Laws.{send_mex-Ends}
use matlab_zmq.Core.Recv.Laws.{recv_mex-Ends}
use matlab_zmq.Core.Close.Laws.{close_mex-Ends}
use matlab_zmq.Core.Setsockopt.Laws.{setsockopt_mex-Ends}
use matlab_zmq.Core.Getsockopt.Laws.{getsockopt_mex-Ends}
use matlab_zmq.Core.Context.Laws.{ctx_new_mex-Ends, ctx_shutdown_mex-Ends, ctx_term_mex-Ends}
use matlab_zmq.Core.ContextOptions.Set.{ctx_set_mex-Ends}
use matlab_zmq.Core.Socket.Laws.{socket_mex-Ends}
use matlab_zmq.Core.Poll.Laws.{poll_mex-Ends}
use matlab_zmq.Core.Endpoint.{endpoint_mex}
use matlab_zmq.Core.Send.{send_mex}
use matlab_zmq.Core.Recv.{recv_mex}
use matlab_zmq.Core.Close.{close_mex}
use matlab_zmq.Core.Setsockopt.{setsockopt_mex}
use matlab_zmq.Core.Getsockopt.{getsockopt_mex}
use matlab_zmq.Core.Socket.{socket_mex}
use matlab_zmq.Core.Poll.{poll_mex}
use matlab_zmq.Core.Version.{version_mex}
use matlab_zmq.Core.Context.{ctx_new_mex, ctx_shutdown_mex, ctx_term_mex}
use matlab_zmq.Core.ContextOptions.{ctx_get_mex, ctx_set_mex}
use matlab_zmq.Session.{Command, exec, quietly}
use matlab_zmq.Session.Spec.{Returned, Thrown, Permits, Allowed}
use matlab_zmq.Session.Sockets.{
  endpoint_Returned, endpoint_Thrown, send_Returned, send_Thrown, recv_Returned, recv_Thrown,
  close_Returned, close_Thrown,
}
use matlab_zmq.Session.Options.{
  setsockopt_Returned, setsockopt_Thrown, getsockopt_Returned, getsockopt_Thrown,
}
use matlab_zmq.Session.Contexts.{
  ctx_new_Returned, ctx_new_Thrown, context_Returned, context_Thrown, ctx_get_Returned,
  ctx_get_Thrown, ctx_set_Returned, ctx_set_Thrown,
}
use matlab_zmq.Session.Others.{
  socket_Returned, socket_Thrown, poll_Returned, poll_Thrown, version_Returned, version_Thrown,
}
use matlab_zmq.Mex.Exec.Ends

-- What MATLAB and libzmq document, together.
pub record IsDocumented (H : Host) : Type 0 where
  pub lawful : IsLawful H
  pub flags : HasFlags H
  pub allocates : Allocates H
  pub ints : GetsInts H
  pub version : IsVersion H.zmq_version

module _ {H : Host} {A : Type 0} {Q : A → State H → Type 0} {E : MexError → State H → Type 0} where
  quietly-Ends :
      (c : Command H) (m : Mex H A) (s : State H)
      → Ends Q E (m s)
      → ((a : A) (t : State H) → Q a t → Returned c s t)
      → ((e : MexError) (t : State H) → E e t → Thrown c s t)
      → Ends (λ _ t. Returned c s t) (λ e t. Thrown c s t) (quietly H m s)
  quietly-Ends c m s ends ret thr = Ends.bind (Ends.mono ends ret thr) λ _ t r. returns r

module _ (H : Host) (doc : IsDocumented H) where
  -- On a host that keeps what MATLAB and libzmq document, take any command of the core on arguments
  -- that its caller owes: at least two for `send` and one for `recv`, arrays that are large enough
  -- for the pointers in them, only numbers that are values of the C types they are cast to, for
  -- `getsockopt` an option of which libzmq writes a whole value, and for `poll` both outputs. It is
  -- free of undefined behaviour in every state; the arguments of the warning of `recv` are only
  -- recorded, and what C makes of them is not stated. Whether it returns or throws, it makes at most
  -- one call of libzmq, on the socket or context of its first argument, with the endpoint, the
  -- option, the value, the message, the length, the flags or the items that its other arguments give;
  -- and where it returns, it gives back every block that it took, except that `socket` and `version`
  -- may leave one.
  pub exec-Ends :
      (c : Command H) (s : State H)
      → Allowed H c
      → Ends (λ _ t. Returned c s t) (λ e t. Thrown c s t) (exec H c s)
  unfolding exec
  exec-Ends (Command.endpoint op prhs) s h =
      quietly-Ends _ (endpoint_mex H op prhs) s (endpoint_mex-Ends H doc.lawful op prhs s h)
        (endpoint_Returned op prhs s) (endpoint_Thrown op prhs s)
  exec-Ends (Command.send a b params) s h =
      quietly-Ends _ (send_mex H (a ∷ b ∷ params)) s
        (send_mex-Ends H doc.lawful doc.flags a b params s h) (send_Returned a b params s)
        (send_Thrown a b params s)
  exec-Ends (Command.recv nlhs a params) s h =
      quietly-Ends _ (recv_mex H nlhs (a ∷ params)) s
        (recv_mex-Ends H doc.lawful doc.flags nlhs a params s h.0 h.1)
        (recv_Returned nlhs a params s) (recv_Thrown nlhs a params s)
  exec-Ends (Command.close prhs) s h =
      quietly-Ends _ (close_mex H prhs) s (close_mex-Ends H doc.lawful prhs s h)
        (close_Returned prhs s) (close_Thrown prhs s)
  exec-Ends (Command.setsockopt prhs) s h =
      quietly-Ends _ (setsockopt_mex H prhs) s (setsockopt_mex-Ends H doc.lawful prhs s h.0 h.1)
        (setsockopt_Returned H doc.lawful prhs s) (setsockopt_Thrown H doc.lawful prhs s)
  exec-Ends (Command.getsockopt prhs) s h =
      quietly-Ends _ (getsockopt_mex H prhs) s (getsockopt_mex-Ends H doc.lawful prhs s h.0 h.1)
        (getsockopt_Returned H prhs s) (getsockopt_Thrown H prhs s)
  exec-Ends (Command.ctx_new prhs) s h =
      quietly-Ends _ (ctx_new_mex H prhs) s (ctx_new_mex-Ends H prhs s) (ctx_new_Returned prhs s)
        (ctx_new_Thrown prhs s)
  exec-Ends (Command.ctx_shutdown prhs) s h =
      quietly-Ends _ (ctx_shutdown_mex H prhs) s (ctx_shutdown_mex-Ends H prhs s h)
        (context_Returned _ _ (Command.ctx_shutdown prhs) prhs s (λ p x. Permits.by_ctx_shutdown x))
        (context_Thrown _ _ (Command.ctx_shutdown prhs) prhs s (λ p x. Permits.by_ctx_shutdown x) _
          _)
  exec-Ends (Command.ctx_term prhs) s h =
      quietly-Ends _ (ctx_term_mex H prhs) s (ctx_term_mex-Ends H prhs s h)
        (context_Returned _ _ (Command.ctx_term prhs) prhs s (λ p x. Permits.by_ctx_term x))
        (context_Thrown _ _ (Command.ctx_term prhs) prhs s (λ p x. Permits.by_ctx_term x) _ _)
  exec-Ends (Command.ctx_get prhs) s h =
      quietly-Ends _ (ctx_get_mex H prhs) s
        (ctx_get_mex-Ends H doc.lawful doc.allocates doc.ints prhs s h)
        (ctx_get_Returned H doc.lawful doc.allocates prhs s)
        (ctx_get_Thrown H doc.lawful doc.allocates prhs s)
  exec-Ends (Command.ctx_set prhs) s h =
      quietly-Ends _ (ctx_set_mex H prhs) s
        (ctx_set_mex-Ends H doc.lawful doc.allocates prhs s h.0 h.1)
        (ctx_set_Returned H doc.lawful doc.allocates prhs s)
        (ctx_set_Thrown H doc.lawful doc.allocates prhs s)
  exec-Ends (Command.socket prhs) s h =
      quietly-Ends _ (socket_mex H prhs) s (socket_mex-Ends H doc.lawful doc.allocates prhs s h)
        (socket_Returned prhs s) (socket_Thrown prhs s)
  exec-Ends (Command.poll nlhs prhs) s h =
      quietly-Ends _ (poll_mex H nlhs prhs) s
        (poll_mex-Ends H doc.allocates nlhs prhs s h.0 h.1 h.2) (poll_Returned H nlhs prhs s)
        (poll_Thrown H nlhs prhs s)
  exec-Ends (Command.version nlhs) s h =
      quietly-Ends _ (version_mex H nlhs) s (version_mex-Ends H doc.allocates doc.version nlhs s)
        (version_Returned H nlhs [] s) (version_Thrown H nlhs [] s)
