-- ===== src/Core/Recv/Return.antt =====
-- The end of recv.c: what reaches MATLAB of the message or of a negative return code.
use matlab_zmq.Core.Recv.{
  too_small, eq_ℤ, int32s, ltb, Out, int_values, size_values, List, is_negative, length, Bytes,
  overwrite, warn, wrap, ℕ, ℤ, message_to_m, configure_return, not_received, received_to_m,
}
use matlab_zmq.Prelude.{
  ◌∙◌, inr, sym, eq_ℤ_iff, length-overwrite, inl, Bool-cases, ap, eq_ℤ, negsuc, ◌⊎◌, arith, ltb,
  if◌then◌else◌, pos, take, true, ◌≡◌, ◌≤◌, List, is_negative, length, ◌^◌, Bytes, ◌<◌, overwrite,
  ℕ, ℤ, [], ◌∷◌, refl,
}
use matlab_zmq.Util.Conversions.ToM.Laws.{uint8_array_to_m-Ends, int_to_m-to_bytes}
use matlab_zmq.Util.Errors.Laws.{handle_error_lem}
use matlab_zmq.Mex.Exec.Ends.{returns, Ends}
use matlab_zmq.Util.Errors.{last_error}
use matlab_zmq.Util.Conversions.ToM.{int32s, uint8s, Out}
use matlab_zmq.Prelude.Words.{int_values, size_values, InRange, wrap}
use matlab_zmq.Mex.Memory.{State, warn}
use matlab_zmq.Mex.Exec.{MexError}
use matlab_zmq.Mex.Host.{Host, IsLawful}
use matlab_zmq.Core.Result.Laws.{Reports}
use matlab_zmq.Mex.Exec.Ends

take-overwrite :
    (buf new : Bytes) → length new ≤ length buf → take (length new) (overwrite buf new) ≡ new
unfolding overwrite
take-overwrite buf [] h = refl
take-overwrite [] (c ∷ new) h = absurd (omega arith)
take-overwrite (b ∷ buf) (c ∷ new) h = ap (λ t. c ∷ t) (take-overwrite buf new (omega arith))

size_of_int : (k : ℕ) → k < 2 ^ 31 → wrap size_values (pos k) ≡ k
unfolding wrap
size_of_int k h = omega arith

-- The message came: its bytes, and its whole length if a second output was asked for. The warning
-- is given exactly where it did not fit the buffer.
pub record Delivered {H : Host} (nlhs k n : ℕ) (written : Bytes) (s : State H) (outs : List Out)
    (t : State H) : Type 0 where
  pub outputs :
      outs
      ≡ uint8s 1 (length written) written
        ∷ (if ltb 1 nlhs then int32s 1 1 (pos k ∷ []) ∷ [] else [])
  pub warnings : t.warnings ≡ (if ltb n k then too_small k n ∷ s.warnings else s.warnings)
  pub live : t.live ≡ s.live
  pub calls : t.calls ≡ s.calls

-- No message came, and no error is thrown: the return code where `errno` is EAGAIN, and nothing
-- where both error numbers are 0.
pub record Unanswered {H : Host} (rc : ℤ) (s : State H) (outs : List Out) (t : State H)
    : Type 0 where
  pub negative : is_negative rc ≡ true
  pub same : t ≡ s
  pub outputs :
      ((H.errno s.world ≡ H.constants.errnos.eagain) × (outs ≡ int32s 1 1 (rc ∷ []) ∷ []))
      ⊎ ((last_error H s.world ≡ pos 0) × (outs ≡ []))

pub data Answer {H : Host} (nlhs : ℕ) (rc : ℤ) (n : ℕ) (written : Bytes) (s : State H)
    (outs : List Out) (t : State H) : Type 0 where
  delivered :
      (k : ℕ) → rc ≡ pos k → Delivered nlhs k n written s outs t → Answer nlhs rc n written s outs t
  unanswered : Unanswered rc s outs t → Answer nlhs rc n written s outs t

module _ (H : Host) (lawful : IsLawful H) where
  message_to_m-Ends :
      {E : MexError → State H → Type 0} (k n : ℕ) (buf written : Bytes) (s : State H)
      → length buf ≡ n
      → length written ≡ (if ltb n k then n else k)
      → Ends
          (λ out t.
            (out ≡ uint8s 1 (length written) written)
            × (t.warnings ≡ (if ltb n k then too_small k n ∷ s.warnings else s.warnings))
            × (t.live ≡ s.live)
            × (t.calls ≡ s.calls))
          E
          (message_to_m H k n (overwrite buf written) s)
  unfolding message_to_m warn
  message_to_m-Ends k n buf written s size filled = elim (Bool-cases (ltb n k)) [
    | inl e ↦
        let all : length written ≡ n = rw e at filled in
        let room : length written ≤ length (overwrite buf written) =
          omega (arith, length-overwrite buf written) in
        let part : take (length written) (overwrite buf written) ≡ written =
          take-overwrite buf written (omega arith) in
        rw (e, sym all)
          (Ends.mono (uint8_array_to_m-Ends H (overwrite buf written) (length written) _ room)
            (λ out t (o, now). (
              o ∙ ap (uint8s 1 (length written)) part,
              ap (λ (z : State H). z.warnings) now,
              ap (λ (z : State H). z.live) now,
              ap (λ (z : State H). z.calls) now,
            ))
            (λ e t f. f))
    | inr e ↦
        let all : length written ≡ k = rw e at filled in
        let fits : k ≤ n = ground arith in
        let room : length written ≤ length (overwrite buf written) =
          omega (arith, length-overwrite buf written) in
        let part : take (length written) (overwrite buf written) ≡ written =
          take-overwrite buf written (omega arith) in
        rw (e, sym all)
          (Ends.mono (uint8_array_to_m-Ends H (overwrite buf written) (length written) s room)
            (λ out t (o, now). (
              o ∙ ap (uint8s 1 (length written)) part,
              ap (λ (z : State H). z.warnings) now,
              ap (λ (z : State H). z.live) now,
              ap (λ (z : State H). z.calls) now,
            ))
            (λ e t f. f))
  ]

  -- A message that came is handed over as exactly the bytes that were written to the buffer, with
  -- its whole length as the second output if that was asked for, and with a warning exactly where
  -- it was longer than the buffer. The buffer is never read past its end.
  pub configure_return-Ends :
      {E : MexError → State H → Type 0} (nlhs k n : ℕ) (buf written : Bytes) (s : State H)
      → k < 2 ^ 31
      → length buf ≡ n
      → length written ≡ (if ltb n k then n else k)
      → Ends
          (Delivered nlhs k n written s)
          E
          (configure_return H nlhs (pos k) n (overwrite buf written) s)
  unfolding configure_return
  configure_return-Ends nlhs k n buf written s small size filled = rw (size_of_int k small) (
      Ends.bind (message_to_m-Ends k n buf written s size filled) λ message t (o, w, l, c).
        elim (Bool-cases (ltb 1 nlhs)) [
          | inl e ↦
              rw (e, int_to_m-to_bytes H (pos k) t small)
                (returns (record { outputs = rw (e, o); warnings = w; live = l; calls = c }))
          | inr e ↦
              rw e (returns (record { outputs = rw (e, o); warnings = w; live = l; calls = c }))
        ])

  not_received-Ends :
      (rc : ℤ) (s : State H)
      → is_negative rc ≡ true
      → Ends (Unanswered rc s) (λ e t. (t ≡ s) × Reports rc s e) (not_received H rc s)
  unfolding not_received
  not_received-Ends rc s negative =
      Ends.either (eq_ℤ (H.errno s.world) H.constants.errnos.eagain) _ _ s
        (λ e.
          returns
            (record { negative = negative; same = refl; outputs = inl ((eq_ℤ_iff _ _).0 e, refl) }))
        (λ e.
          Ends.bind
            (Ends.mono (handle_error_lem H lawful s) (λ _ t p. p)
              (λ e t (same, has, rep).
                (same, record { negative = negative; has_error = has; report = rep })))
            λ _ t (same, err).
              returns (record { negative = negative; same = same; outputs = inr (err, refl) }))

  pub received_to_m-Ends :
      (nlhs : ℕ) (rc : ℤ) (n : ℕ) (buf written : Bytes) (s : State H)
      → InRange int_values rc
      → length buf ≡ n
      → ((k : ℕ) → rc ≡ pos k → length written ≡ (if ltb n k then n else k))
      → Ends
          (Answer nlhs rc n written s)
          (λ e t. (t ≡ s) × Reports rc s e)
          (received_to_m H nlhs rc n (overwrite buf written) s)
  unfolding received_to_m
  received_to_m-Ends nlhs (pos k) n buf written s range size filled =
      Ends.mono (configure_return-Ends nlhs k n buf written s range size (filled k refl))
        (λ outs t d. Answer.delivered k refl d) (λ e t f. f)
  received_to_m-Ends nlhs (negsuc k) n buf written s range size filled =
      Ends.mono (not_received-Ends (negsuc k) s refl) (λ outs t u. Answer.unanswered u) (λ e t f. f)
