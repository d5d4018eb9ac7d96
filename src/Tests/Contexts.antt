-- ===== src/Tests/Contexts.antt =====
-- The theorems about contexts at concrete inputs.
use matlab_zmq.Core.Context.{ctx_shutdown_mex, ctx_term_mex, ctx_new_mex}
use matlab_zmq.Core.Context.Laws.{
  ShutdownError, TermError, Unfinished, Finished, ctx_new_mex-Ends, ctx_term_mex-Ends,
  ctx_shutdown_mex-Ends,
}
use matlab_zmq.Prelude.{◌⊎◌, ◌≡◌, ◌≢◌, ℕ, List, [], ◌∷◌, refl, pos}
use matlab_zmq.Mex.Memory.{Call}
use matlab_zmq.Mex.Memory.Laws.{Called}
use matlab_zmq.Util.Conversions.ToM.{pointer_array}
use matlab_zmq.Mex.Exec.Ends.{Ends}
use matlab_zmq.Tests.World.{host, at, Value}
use matlab_zmq.Tests.Runs.{socket_5, first_holds}

ctx_new_mex_example :
    Ends
      (λ outs t.
        (p : ℕ) × (p ≢ 0)
        × (p ≡ (host.zmq_ctx_new (pos 0)).0)
        × (outs ≡ pointer_array host p ∷ [])
        × Called Call.ctx_new (at (pos 0)) t
        × (◌≡◌ {A = List Value} [] []))
      (λ e t.
        ((e.id ≡ "zmq:core:ctx_new:invalidArgs") × (t ≡ at (pos 0)) × (◌≢◌ {A = List Value} [] []))
        ⊎ ((e.id ≡ "zmq:core:ctx_new:contextInitFail")
            × ((host.zmq_ctx_new (pos 0)).0 ≡ 0)
            × Called Call.ctx_new (at (pos 0)) t
            × (◌≡◌ {A = List Value} [] [])))
      (ctx_new_mex host [] (at (pos 0)))
ctx_new_mex_example = ctx_new_mex-Ends host [] (at (pos 0))

ctx_term_mex_example :
    Ends
      (Finished Call.ctx_term host.zmq_ctx_term (socket_5 ∷ []) (at (pos 4)))
      (Unfinished Call.ctx_term host.zmq_ctx_term
        (socket_5 ∷ [])
        (at (pos 4))
        "zmq:core:ctx_term:invalidArgs"
        (TermError host))
      (ctx_term_mex host (socket_5 ∷ []) (at (pos 4)))
ctx_term_mex_example =
    ctx_term_mex-Ends host (socket_5 ∷ []) (at (pos 4)) (first_holds (socket_5 ∷ []) refl)

ctx_shutdown_mex_example :
    Ends
      (Finished Call.ctx_shutdown host.zmq_ctx_shutdown (socket_5 ∷ []) (at (pos 0)))
      (Unfinished Call.ctx_shutdown host.zmq_ctx_shutdown
        (socket_5 ∷ [])
        (at (pos 0))
        "zmq:core:ctx_shutdown:invalidArgs"
        (ShutdownError host))
      (ctx_shutdown_mex host (socket_5 ∷ []) (at (pos 0)))
ctx_shutdown_mex_example =
    ctx_shutdown_mex-Ends host (socket_5 ∷ []) (at (pos 0)) (first_holds (socket_5 ∷ []) refl)
