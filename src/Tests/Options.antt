-- ===== src/Tests/Options.antt =====
-- The theorems about setsockopt.c, close.c and the mechanisms at concrete inputs.
use matlab_zmq.Util.Sockopt.MechanismLaws.{mechanism_from_m-Ends, MechanismErrors, IsMechanism}
use matlab_zmq.Util.Sockopt.{mechanism_from_m}
use matlab_zmq.Util.Conversions.FromM.Laws.{Fails}
use matlab_zmq.Core.Close.{close_mex}
use matlab_zmq.Core.Setsockopt.{setsockopt_mex}
use matlab_zmq.Mex.Memory.Laws.{Holds}
use matlab_zmq.Prelude.{
  sym, get_elem?, some, zero, suc, ℤ, negsuc, ◌≡◌, codes, List, [], ◌∷◌, refl, pos,
}
use matlab_zmq.Mex.Exec.Ends.{Ends}
use matlab_zmq.Tests.World.{host, host-IsLawful, at, Value}
use matlab_zmq.Tests.Runs.{socket_5, first_holds}
use matlab_zmq.Core.Close.Laws.{close_mex-Ends}
use matlab_zmq.Core.Setsockopt.Values.{CastsAs}
use matlab_zmq.Core.Setsockopt.SetOption.{CastsForOption}
use matlab_zmq.Core.Setsockopt.Laws.{setsockopt_mex-Ends, Set, NotSet}
use matlab_zmq.Core.Close.Laws as CloseLaws

abbrev subscription : List Value
subscription =
    socket_5 ∷ Value.char_row (codes "ZMQ_SUBSCRIBE") ∷ Value.char_row (codes "news") ∷ []

text_casts : (z : ℤ) → CastsAs host z (Value.char_row (codes "news"))
text_casts (pos zero) = refl
text_casts (pos (suc zero)) = refl
text_casts (pos (suc (suc zero))) = refl
text_casts (pos (suc (suc (suc zero)))) = refl
text_casts (pos (suc (suc (suc (suc n))))) = tt
text_casts (negsuc n) = tt

subscription_casts :
    (b v : Value)
    → get_elem? subscription 1 ≡ some b
    → get_elem? subscription 2 ≡ some v
    → CastsForOption host b v
subscription_casts b v e f name r given named =
    let same : Value.char_row (codes "news") ≡ v = cc in rw (sym same) (text_casts r.type_id)

setsockopt_mex_example :
    Ends
      (Set host host-IsLawful subscription (at (pos 0)))
      (NotSet host host-IsLawful subscription (at (pos 0)))
      (setsockopt_mex host subscription (at (pos 0)))
setsockopt_mex_example =
    setsockopt_mex-Ends host host-IsLawful subscription (at (pos 0)) (first_holds subscription refl)
      subscription_casts

close_mex_example :
    Ends
      (CloseLaws.Done (socket_5 ∷ []) (at (pos 0)))
      (CloseLaws.Failed (socket_5 ∷ []) (at (pos 0)))
      (close_mex host (socket_5 ∷ []) (at (pos 0)))
close_mex_example =
    close_mex-Ends host host-IsLawful (socket_5 ∷ []) (at (pos 0))
      (first_holds (socket_5 ∷ []) refl)

mechanism_from_m_example :
    Ends
      (λ b t.
        Holds b (at (pos 0)) t
        × IsMechanism host host-IsLawful (Value.char_row (codes "ZMQ_CURVE")) b)
      (Fails (MechanismErrors host host-IsLawful) (at (pos 0)))
      (mechanism_from_m host (Value.char_row (codes "ZMQ_CURVE")) (at (pos 0)))
mechanism_from_m_example =
    mechanism_from_m-Ends host host-IsLawful (Value.char_row (codes "ZMQ_CURVE")) (at (pos 0))
