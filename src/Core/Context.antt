-- ===== src/Core/Context.antt =====
-- src/core/ctx_new.c, ctx_shutdown.c and ctx_term.c: the life of a context.
pub mod Laws
use matlab_zmq.Prelude.{
  is_negative, ◌==◌, Bytes, eq_ℤ, length, if◌then◌else◌, not, ℕ, List, ℤ, [], ◌∷◌,
}
use matlab_zmq.Util.Conversions.ToM.{pointer_array, Out}
use matlab_zmq.Mex.Memory.{Call, argument, perform, read, Mex}
use matlab_zmq.Prelude.Words.{of_bytes}
use matlab_zmq.Mex.Host.{Host}
use matlab_zmq.Mex.Exec.{reject_if, ◌>>=◌, ◌>>◌, pure, gets, throw}

module _ (H : Host) where
  -- `*(void **) mxGetData(param)`: the context is not compared with NULL.
  unfoldable pub context_in : H.Array → Mex H ℕ
  context_in param = do input ← read H H.pointer_size (H.get_data param); pure (of_bytes input)

  -- `mexFunction` of ctx_new.c
  unfoldable pub ctx_new_mex : List H.Array → Mex H (List Out)
  ctx_new_mex prhs = do
    reject_if (not (length prhs == 0)) "zmq:core:ctx_new:invalidArgs"
        "Error: No arguments are accepted by this function."
    context ← perform H Call.ctx_new H.zmq_ctx_new
    reject_if (context == 0) "zmq:core:ctx_new:contextInitFail"
        "Error: ZMQ context instantiation failed."
    pure (pointer_array H context ∷ [])

  abbrev pub shutdown_failed : ℤ → Mex H (List Out)
  shutdown_failed err =
      if eq_ℤ err H.constants.errnos.efault
      then throw "zmq:core:ctx_shutdown:invalidContext" "Error: Invalid ZMQ Context." []
      else throw "zmq:core:ctx_shutdown:unknownOops"
          "Error: Something has gone very, very wrong. Unknown error." []

  -- `mexFunction` of ctx_shutdown.c
  unfoldable pub ctx_shutdown_mex : List H.Array → Mex H (List Out)
  ctx_shutdown_mex prhs = do
    reject_if (not (length prhs == 1)) "zmq:core:ctx_shutdown:invalidArgs"
        "Error: Only a context argument is accepted by this function."
    context_array ← argument H prhs 0
    context ← context_in context_array
    rc ← perform H (Call.ctx_shutdown context) (H.zmq_ctx_shutdown context)
    err ← gets (λ s. H.errno s.world)
    if is_negative rc then shutdown_failed err else pure []

  abbrev pub term_failed : ℤ → Mex H (List Out)
  term_failed err =
      if eq_ℤ err H.constants.errnos.efault
      then throw "zmq:core:ctx_term:invalidContext" "Error: Invalid ZMQ context." []
      else if eq_ℤ err H.constants.errnos.eintr
      then throw "zmq:core:ctx_term:termInter" "Error: Termination was interrupted by a signal." []
      else throw "zmq:core:ctx_term:unknownOops"
          "Error: Something has gone very, very wrong. Unknown error." []

  -- `mexFunction` of ctx_term.c
  unfoldable pub ctx_term_mex : List H.Array → Mex H (List Out)
  ctx_term_mex prhs = do
    reject_if (not (length prhs == 1)) "zmq:core:ctx_term:invalidArgs"
        "Error: Only a context argument is accepted by this function."
    context_array ← argument H prhs 0
    context ← context_in context_array
    rc ← perform H (Call.ctx_term context) (H.zmq_ctx_term context)
    err ← gets (λ s. H.errno s.world)
    if is_negative rc then term_failed err else pure []
