-- ===== src/Core/Result/Laws.antt =====
-- What reaches MATLAB of a return code.
use matlab_zmq.Prelude.{
  refl, inr, negsuc, inl, ◌⊎◌, [], pos, ◌∷◌, ◌≢◌, false, true, ◌≡◌, is_negative, List, ℤ,
}
use matlab_zmq.Util.Errors.Laws.{handle_error_lem, IsReport}
use matlab_zmq.Mex.Exec.Ends.{returns, Ends}
use matlab_zmq.Core.Result.{[], is_negative, Out, set_result}
use matlab_zmq.Util.Conversions.ToM.Laws.{int_to_m-to_bytes}
use matlab_zmq.Util.Conversions.ToM.{int32s, Out}
use matlab_zmq.Util.Errors.{last_error}
use matlab_zmq.Prelude.Words.{int_values, InRange}
use matlab_zmq.Mex.Exec.{MexError}
use matlab_zmq.Mex.Memory.{State}
use matlab_zmq.Mex.Host.{IsLawful, Host}
use matlab_zmq.Mex.Exec.Ends

-- A code that is not negative is the one output. A negative code gives no output and no error where
-- `errno` and `zmq_errno()` are both 0.
abbrev pub Answers : ℤ → ℤ → List Out → Type 0
Answers rc err outs =
    ((is_negative rc ≡ false) × (outs ≡ int32s 1 1 (rc ∷ []) ∷ []))
    ⊎ ((is_negative rc ≡ true) × (err ≡ pos 0) × (outs ≡ []))

-- A negative code that is reported under its own name.
pub record Reports {H : Host} (rc : ℤ) (s : State H) (e : MexError) : Type 0 where
  pub negative : is_negative rc ≡ true
  pub has_error : last_error H s.world ≢ pos 0
  pub report : IsReport s e

module _ (H : Host) (lawful : IsLawful H) where
  -- A code that is not negative becomes the one output. A negative code throws the error that
  -- libzmq left, or gives no output where both error numbers are 0. No state changes.
  pub set_result-Ends :
      (rc : ℤ) (s : State H)
      → InRange int_values rc
      → Ends
          (λ outs t. (t ≡ s) × Answers rc (last_error H s.world) outs)
          (λ e t. (t ≡ s) × Reports rc s e)
          (set_result H rc s)
  unfolding set_result
  set_result-Ends (pos n) s range =
      rw (int_to_m-to_bytes H (pos n) s range) (returns (refl, inl (refl, refl)))
  set_result-Ends (negsuc n) s range =
      Ends.bind
        (Ends.mono (handle_error_lem H lawful s) (λ _ t p. p)
          (λ e t (same, has, rep).
            (same, record { negative = refl; has_error = has; report = rep })))
        λ _ t (same, err). rw same (returns (refl, inr (refl, err, refl)))
