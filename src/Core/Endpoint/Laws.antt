-- ===== src/Core/Endpoint/Laws.antt =====
-- The four functions of a socket and an endpoint, on every input: what is called, with which
-- arguments, what is allocated at the end, and which error is thrown.
use matlab_zmq.Core.Arguments.{IsRefused, miscounted, no_text, no_single_row}
use matlab_zmq.Prelude.{
  false, length, arith, ◌==◌, not, get_elem?, ℕ, refl, ap, ◌∙◌, up_to_zero, ℤ, some, Bytes, inl,
  inr, ◌≢◌, [], ◌∷◌, ◌⊎◌, true, String, ◌≡◌, List,
}
use matlab_zmq.Core.Endpoint.{
  length, not, argument, endpoint_mex, int_values, Call, ℤ, Bytes, [], error_id, Out, String,
  call_endpoint,
}
use matlab_zmq.Mex.Exec.Ends.{throws, returns, Ends}
use matlab_zmq.Mex.Memory.{argument, Call, State}
use matlab_zmq.Mex.Exec.{Arg, MexError}
use matlab_zmq.Prelude.Words.{int_values, InRange}
use matlab_zmq.Mex.Memory.Laws.{free-Ends, Quiet, perform-Ends, read_string-Ends, Quiet-refl}
use matlab_zmq.Core.Result.Laws.{set_result-Ends, Reports, Answers}
use matlab_zmq.Util.Conversions.FromM.Laws.{
  Fails-after, str_from_m-Ends, pointer_from_m-Ends, pointer_in, TextErrors, HoldsPointer, Fails,
}
use matlab_zmq.Util.Conversions.FromM.{string_size}
use matlab_zmq.Util.Errors.{last_error}
use matlab_zmq.Util.Conversions.ToM.{Out}
use matlab_zmq.Mex.Host.{EndpointOp, IsLawful, Host}
use matlab_zmq.Mex.Exec.Ends

module _ {H : Host} (op : EndpointOp) (prhs : List H.Array) (s : State H) where
  -- The arguments passed the tests, and libzmq was called once, in the state of the world `before`.
  pub record Attempt (t : State H) : Type 0 where
    pub socket_array : H.Array
    pub endpoint_array : H.Array
    pub two_arguments : prhs ≡ socket_array ∷ endpoint_array ∷ []
    pub is_char : H.is_char endpoint_array ≡ true
    pub is_row : H.get_m endpoint_array ≡ 1
    pub socket : ℕ
    pub socket_read : socket ≡ pointer_in H socket_array
    pub socket_valid : socket ≢ 0
    pub chars : Bytes
    pub given : H.get_string endpoint_array (string_size H endpoint_array) ≡ some chars
    pub before : H.World
    pub rc : ℤ
    pub answered : rc ≡ (H.zmq_endpoint op socket (up_to_zero chars) before).0
    pub after : H.World
    pub left : after ≡ (H.zmq_endpoint op socket (up_to_zero chars) before).1
    pub calls : t.calls ≡ Call.endpoint op socket (up_to_zero chars) ∷ s.calls
    pub warnings : t.warnings ≡ s.warnings

  -- What the function returns: the code, with every block that it took given back.
  pub record Done (outs : List Out) (t : State H) : Type 0 where
    pub attempt : Attempt t
    pub answers : Answers attempt.rc (last_error H attempt.after) outs
    pub live : t.live ≡ s.live

  -- The errors that the function throws before it calls libzmq.
  abbrev pub Rejections : String → Type 0
  Rejections i =
      IsRefused H 2 (error_id op "invalidArgs") (error_id op "invalidEndpoint")
        (error_id op "endpointNotRowVec") prhs i
      ⊎ (i ≡ "util:pointer_from_m")
      ⊎ TextErrors H i

  -- What the function throws: one of those errors without a call, or the error that libzmq left.
  pub data Failed (e : MexError) (t : State H) : Type 0 where
    rejected : Fails Rejections s e t → Failed e t
    reported : (a : Attempt t) → t.world ≡ a.after → Reports a.rc t e → Failed e t

abbrev later :
    {H : Host} {op : EndpointOp} {prhs : List H.Array} {s t u : State H}
    → Quiet t u
    → Attempt op prhs s t
    → Attempt op prhs s u
later q a = record {
  socket_array = a.socket_array;
  endpoint_array = a.endpoint_array;
  two_arguments = a.two_arguments;
  is_char = a.is_char;
  is_row = a.is_row;
  socket = a.socket;
  socket_read = a.socket_read;
  socket_valid = a.socket_valid;
  chars = a.chars;
  given = a.given;
  before = a.before;
  rc = a.rc;
  answered = a.answered;
  after = a.after;
  left = a.left;
  calls = q.calls ∙ a.calls;
  warnings = q.warnings ∙ a.warnings;
}

module _ (H : Host) (lawful : IsLawful H) (op : EndpointOp) where
  call_endpoint-Ends :
      (a b : H.Array) (s : State H)
      → H.is_char b ≡ true
      → H.get_m b ≡ 1
      → HoldsPointer H a
      → Ends (Done op (a ∷ b ∷ []) s) (Failed op (a ∷ b ∷ []) s) (call_endpoint H op a b s)
  unfolding call_endpoint
  call_endpoint-Ends a b s char row holds =
      Ends.bind_same _ s
        (Ends.mono (pointer_from_m-Ends H a s holds) (λ p t q. q)
          (λ e t (same, known, _).
            rejected (record { id_known = inr (inl known); quiet = rw same (Quiet-refl s) })))
        λ socket (value, valid).
          Ends.bind
            (Ends.mono (str_from_m-Ends H lawful b s) (λ p u q. q)
              (λ e u f. rejected (Fails-after (λ i k. inr (inr k)) (Quiet-refl s) f)))
            λ endpoint u (held, is_text).
              let address = up_to_zero is_text.chars in
              let call = Call.endpoint op socket address in
              Ends.bind_value _ address u (read_string-Ends H endpoint.bytes u is_text.string) (
                Ends.bind (perform-Ends H call (H.zmq_endpoint op socket address) u)
                  λ rc w (called, answer, world).
                    let tried : Attempt op (a ∷ b ∷ []) s w = record {
                      socket_array = a;
                      endpoint_array = b;
                      two_arguments = refl;
                      is_char = char;
                      is_row = row;
                      socket = socket;
                      socket_read = value;
                      socket_valid = valid;
                      chars = is_text.chars;
                      given = is_text.given;
                      before = u.world;
                      rc = rc;
                      answered = answer;
                      after = w.world;
                      left = world;
                      calls = called.calls ∙ ap (λ l. call ∷ l) held.calls;
                      warnings = called.warnings ∙ held.warnings;
                    } in
                    let range : InRange int_values rc =
                      rw answer (lawful.endpoint_int op socket address u.world) in
                    Ends.bind_same _ w
                      (Ends.mono (set_result-Ends H lawful rc w range) (λ outs x q. q)
                        (λ e x (now, rep).
                          reported (later (rw now (Quiet-refl w)) tried)
                            (ap (λ (z : State H). z.world) now) (rw now rep)))
                      λ outs answers.
                        Ends.bind (free-Ends H endpoint s.live w (called.live ∙ held.live))
                          λ _ y freed. returns (record {
                            attempt =
                                later (record { calls = freed.calls; warnings = freed.warnings })
                                  tried;
                            answers = answers;
                            live = freed.live;
                          }))

  rejected_at :
      (prhs : List H.Array) (s : State H) (i f : String) (args : List Arg)
      → Rejections op prhs s i
      → Failed op prhs s (record { id = i; format = f; args = args }) s
  rejected_at prhs s i f args k = rejected (record { id_known = k; quiet = Quiet-refl s })

  -- On any arguments whose first is large enough for a pointer, the function is free of undefined
  -- behaviour. It throws the error of a test that the arguments fail, or an error of the
  -- conversions, without a call; or else it passes exactly the socket and the endpoint to libzmq
  -- once: then it throws the error that libzmq left, or frees what it
  -- allocated and returns the code (or nothing, for a negative code without an error number).
  pub endpoint_mex-Ends :
      (prhs : List H.Array) (s : State H)
      → ((a : H.Array) → get_elem? prhs 0 ≡ some a → HoldsPointer H a)
      → Ends (Done op prhs s) (Failed op prhs s) (endpoint_mex H op prhs s)
  unfolding endpoint_mex argument
  endpoint_mex-Ends [] s holds =
      throws (rejected_at [] s _ _ [] (inl (miscounted (λ z. omega (arith, z)) refl)))
  endpoint_mex-Ends (a ∷ []) s holds =
      throws (rejected_at (a ∷ []) s _ _ [] (inl (miscounted (λ z. omega (arith, z)) refl)))
  endpoint_mex-Ends (a ∷ b ∷ []) s holds =
      Ends.reject (not (H.is_char b)) _ _ _ s
        (λ e. rejected_at (a ∷ b ∷ []) s _ _ [] (inl (no_text b refl refl (ground arith) refl)))
        λ char.
          Ends.reject (not (H.get_m b == 1)) _ _ _ s
            (λ e.
              rejected_at (a ∷ b ∷ []) s _ _ []
                (inl (no_single_row b refl refl (λ z. ground (arith, z)) refl)))
            λ row. call_endpoint-Ends a b s (ground arith) (ground arith) (holds a refl)
  endpoint_mex-Ends (a ∷ b ∷ c ∷ rest) s holds =
      let more : (length (a ∷ b ∷ c ∷ rest) == 2) ≡ false = ground arith in
      rw more (
        throws
          (rejected_at (a ∷ b ∷ c ∷ rest) s _ _ [] (inl (miscounted (λ z. omega (arith, z)) refl))))
