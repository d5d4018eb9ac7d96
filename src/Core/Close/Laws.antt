-- ===== src/Core/Close/Laws.antt =====
-- `zmq.core.close` on every input.
use matlab_zmq.Prelude.{
  arith, ◌≢◌, length, arith, false, ◌==◌, length, ℤ, some, ℕ, get_elem?, ◌≡◌, List, [], ◌∷◌, refl,
}
use matlab_zmq.Core.Close.{Call, length, Out, List, argument, close_mex}
use matlab_zmq.Mex.Memory.{Call, State, argument}
use matlab_zmq.Mex.Memory.Laws.{Called, perform-Ends}
use matlab_zmq.Mex.Exec.Ends.{throws, Ends}
use matlab_zmq.Util.Conversions.FromM.Laws.{
  pointer_in, IsPointer, pointer_from_m-Ends, HoldsPointer,
}
use matlab_zmq.Util.Errors.{last_error}
use matlab_zmq.Mex.Exec.{MexError}
use matlab_zmq.Util.Conversions.ToM.{Out}
use matlab_zmq.Mex.Host.{Host, IsLawful}
use matlab_zmq.Core.Result.Laws.{set_result-Ends, Answers, Reports}
use matlab_zmq.Mex.Exec.Ends

module _ {H : Host} (prhs : List H.Array) (s : State H) where
  -- The socket was closed once.
  pub record Attempt (t : State H) : Type 0 where
    pub socket_array : H.Array
    pub one_argument : prhs ≡ socket_array ∷ []
    pub socket : ℕ
    pub socket_read : IsPointer H socket_array socket
    pub rc : ℤ
    pub answered : rc ≡ (H.zmq_close socket s.world).0
    pub left : t.world ≡ (H.zmq_close socket s.world).1
    pub called : Called (Call.close socket) s t

  pub record Done (outs : List Out) (t : State H) : Type 0 where
    pub attempt : Attempt t
    pub answers : Answers attempt.rc (last_error H t.world) outs

  pub data Failed (e : MexError) (t : State H) : Type 0 where
    miscounted : length prhs ≢ 1 → e.id ≡ "zmq:core:close:invalidArgs" → t ≡ s → Failed e t
    null :
        (a : H.Array)
        → prhs ≡ a ∷ []
        → pointer_in H a ≡ 0
        → e.id ≡ "util:pointer_from_m"
        → t ≡ s
        → Failed e t
    reported : (att : Attempt t) → Reports att.rc t e → Failed e t

module _ (H : Host) (lawful : IsLawful H) where
  close_one-Ends :
      (a : H.Array) (s : State H)
      → HoldsPointer H a
      → Ends (Done (a ∷ []) s) (Failed (a ∷ []) s) (close_mex H (a ∷ []) s)
  unfolding close_mex argument
  close_one-Ends a s holds =
      Ends.bind_same _ s
        (Ends.mono (pointer_from_m-Ends H a s holds) (λ p t q. q)
          (λ e t (same, known, zero). null a refl zero known same))
        λ socket is_pointer.
          Ends.bind (perform-Ends H (Call.close socket) (H.zmq_close socket) s)
            λ rc w (called, answer, world).
              let made : Attempt (a ∷ []) s w = record {
                socket_array = a;
                one_argument = refl;
                socket = socket;
                socket_read = is_pointer;
                rc = rc;
                answered = answer;
                left = world;
                called = called;
              } in
              Ends.mono
                (set_result-Ends H lawful rc w (rw answer (lawful.close_int socket s.world)))
                (λ outs t (now, ans). rw now (record { attempt = made; answers = ans }))
                (λ e t (now, rep). rw now (reported made rep))

  -- On any arguments whose first is large enough for a pointer, the function is free of undefined
  -- behaviour and allocates nothing. It throws without a call where there is not exactly one
  -- argument or the pointer is NULL; otherwise it closes exactly that socket once, and throws the
  -- error that libzmq left or returns the code (or nothing, for a negative code without an error
  -- number).
  pub close_mex-Ends :
      (prhs : List H.Array) (s : State H)
      → ((a : H.Array) → get_elem? prhs 0 ≡ some a → HoldsPointer H a)
      → Ends (Done prhs s) (Failed prhs s) (close_mex H prhs s)
  unfolding close_mex
  close_mex-Ends [] s holds = throws (miscounted (λ z. omega (arith, z)) refl refl)
  close_mex-Ends (a ∷ []) s holds = close_one-Ends a s (holds a refl)
  close_mex-Ends (a ∷ b ∷ rest) s holds =
      let more : (length (a ∷ b ∷ rest) == 1) ≡ false = ground arith in
      rw more (throws (miscounted (λ z. omega (arith, z)) refl refl))
