-- ===== src/Core/Recv/Options.antt =====
-- What the arguments of recv.c behind the socket ask for.
use matlab_zmq.Prelude.{true, drop, ◌≡◌, if◌then◌else◌, ℕ, List, [], ◌∷◌}
use matlab_zmq.Mex.Memory.Laws.{Same-refl, Same}
use matlab_zmq.Core.Recv.{drop, argument, ℕ, List, configure_buffer_length}
use matlab_zmq.Mex.Exec.Ends.{returns, Ends}
use matlab_zmq.Util.Conversions.FromM.Laws.{Fails}
use matlab_zmq.Mex.Memory.{State, argument}
use matlab_zmq.Core.Send.Flags.{HasFlags}
use matlab_zmq.Mex.Host.{Host, IsLawful}
use matlab_zmq.Core.Recv.Flags.{given_length-Ends}
use matlab_zmq.Mex.Exec.Ends

-- What the arguments behind the socket ask for: the length of the buffer, and the names of flags.
abbrev pub asked_length : (H : Host) → List H.Array → ℕ
asked_length H [] = 255
asked_length H (p ∷ ps) = if H.is_numeric p then H.double_to_uint64 (H.get_scalar p) else 255

abbrev pub asked_flags : (H : Host) → List H.Array → List H.Array
asked_flags H [] = []
asked_flags H (p ∷ ps) = if H.is_numeric p then ps else p ∷ ps

-- A length that is given is a value of type `size_t`.
abbrev pub LengthCasts : (H : Host) → List H.Array → Type 0
LengthCasts H [] = Unit
LengthCasts H (p ∷ ps) = H.is_numeric p ≡ true → H.casts_to_uint64 p ≡ true

-- The length and the start of the options are those that are asked for.
pub record Asked (H : Host) (a : H.Array) (ps : List H.Array) (s : State H) (r : ℕ × ℕ)
    (t : State H) : Type 0 where
  pub same : Same s t
  pub size : r.0 ≡ asked_length H ps
  pub rest : drop r.1 (a ∷ ps) ≡ asked_flags H ps

module _ (H : Host) (lawful : IsLawful H) (flags : HasFlags H) where
  pub configure_buffer_length-Ends :
      (a p : H.Array) (ps : List H.Array) (s : State H)
      → LengthCasts H (p ∷ ps)
      → Ends
          (Asked H a (p ∷ ps) s)
          (Fails (λ i. i ≡ "util:calloc") s)
          (configure_buffer_length H (a ∷ p ∷ ps) 1 s)
  unfolding configure_buffer_length argument
  configure_buffer_length-Ends a p ps s casts =
      Ends.either (H.is_numeric p) _ _ s
        (λ e.
          Ends.mono (given_length-Ends H lawful flags p 1 s (casts e))
            (λ r t (same, n, start). record { same = same; size = rw (e, n); rest = rw (e, start) })
            (λ e t f. f))
        (λ e. returns (record { same = Same-refl s; size = rw e; rest = rw e }))
