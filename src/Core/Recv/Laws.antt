-- ===== src/Core/Recv/Laws.antt =====
-- `zmq.core.recv` on every input: what is received, what is handed to MATLAB, and which error is
-- thrown.
use matlab_zmq.Core.Recv.{
  configure_flag, ltb, leb, pure, drop, argument, with_options, flagged, recv_mex, length,
  int_values, zmq_recv, Call, Bytes, ℤ, Out, List, ℕ, receive,
}
use matlab_zmq.Core.Recv.Options.{
  asked_flags, Asked, asked_length, configure_buffer_length-Ends, LengthCasts,
}
use matlab_zmq.Prelude.{
  ◌≢◌, true, ltb, refl, false, ==_iff, leb, ◌==◌, drop, sym, ◌*◌, length-zeros, arith, length, inl,
  inr, ap, ◌∙◌, Bytes, ◌⊎◌, ℤ, ◌≡◌, String, if◌then◌else◌, List, ℕ, [], ◌∷◌,
}
use matlab_zmq.Mex.Memory.Laws.{
  Same-trans, Same-Quiet, Same-refl, Same, free-Ends, perform-Ends, calloc-Ends, Quiet-refl,
}
use matlab_zmq.Core.Recv.Flags.{configure_flag-AllDontwait, is_given, AllDontwait, wait_value}
use matlab_zmq.Mex.Exec.{pure, MexError}
use matlab_zmq.Mex.Memory.{argument, Call, State}
use matlab_zmq.Core.Send.Flags.{FlagErrors, HasFlags}
use matlab_zmq.Mex.Exec.Ends.{returns, Ends}
use matlab_zmq.Prelude.Words.{int_values, InRange}
use matlab_zmq.Util.Conversions.FromM.Laws.{
  Fails-after, allocated_or-Ends, pointer_from_m-Ends, Fails, HoldsPointer, IsPointer,
}
use matlab_zmq.Core.Recv.Return.{unanswered, delivered, Answer, received_to_m-Ends}
use matlab_zmq.Util.Conversions.ToM.{Out}
use matlab_zmq.Mex.Host.{Host, IsLawful}
use matlab_zmq.Core.Result.Laws.{Reports}
use matlab_zmq.Mex.Exec.Ends

module _ {H : Host} (nlhs : ℕ) (a : H.Array) (n f : ℕ) (s : State H) where
  -- The buffer of `n` bytes was handed to libzmq with the flag `f`; `u` is the state after the call.
  pub record Attempt (u : State H) : Type 0 where
    pub socket : ℕ
    pub socket_read : IsPointer H a socket
    pub before : H.World
    pub rc : ℤ
    pub answered : rc ≡ (H.zmq_recv socket n f before).0
    pub written : Bytes
    pub filled : written ≡ (H.zmq_recv socket n f before).1
    pub left : u.world ≡ (H.zmq_recv socket n f before).2
    pub calls : u.calls ≡ Call.recv socket n f ∷ s.calls
    pub warnings : u.warnings ≡ s.warnings

  -- What is returned: the answer of libzmq, with every block given back.
  pub record Received (outs : List Out) (t : State H) : Type 0 where
    pub called : State H
    pub attempt : Attempt called
    pub answered : State H
    pub answer : Answer nlhs attempt.rc n attempt.written called outs answered
    pub calls : t.calls ≡ answered.calls
    pub warnings : t.warnings ≡ answered.warnings
    pub live : t.live ≡ s.live

  abbrev pub SocketErrors : String → Type 0
  SocketErrors i = (i ≡ "util:calloc") ⊎ (i ≡ "util:pointer_from_m")

  pub data NotReceived (e : MexError) (t : State H) : Type 0 where
    rejected : Fails SocketErrors s e t → NotReceived e t
    reported : (att : Attempt t) → Reports att.rc t e → NotReceived e t

module _ (H : Host) (lawful : IsLawful H) (nlhs : ℕ) where
  pub receive-Ends :
      (a : H.Array) (n f : ℕ) (s : State H)
      → HoldsPointer H a
      → Ends (Received nlhs a n f s) (NotReceived nlhs a n f s) (receive H nlhs a n f s)
  unfolding receive
  receive-Ends a n f s holds =
      Ends.bind_same _ s
        (Ends.mono (pointer_from_m-Ends H a s holds) (λ p t q. q)
          (λ e t (same, known, _).
            rejected (record { id_known = inr known; quiet = rw same (Quiet-refl s) })))
        λ socket is_pointer. Ends.bind (calloc-Ends H n 1 s) λ o t got.
          Ends.bind
            (Ends.mono (allocated_or-Ends H _ "util:calloc" o s t got) (λ b u p. p)
              (λ e u g. rejected (Fails-after (λ i k. inl k) (Quiet-refl s) g)))
            λ buffer u (held, cleared).
              Ends.bind (perform-Ends H (Call.recv socket n f) (zmq_recv H socket n f) u)
                λ r w (called, answer, world).
                  let made : Attempt nlhs a n f s w = record {
                    socket = socket;
                    socket_read = is_pointer;
                    before = u.world;
                    rc = r.0;
                    answered = ap (λ (z : ℤ × Bytes). z.0) answer;
                    written = r.1;
                    filled = ap (λ (z : ℤ × Bytes). z.1) answer;
                    left = world;
                    calls = called.calls ∙ ap (λ l. Call.recv socket n f ∷ l) held.calls;
                    warnings = called.warnings ∙ held.warnings;
                  } in
                  let range : InRange int_values r.0 =
                    rw (made.answered) (lawful.recv_int socket n f u.world) in
                  let size : length buffer.bytes ≡ n =
                    rw cleared (omega (arith, length-zeros (n * 1))) in
                  Ends.bind
                    (Ends.mono
                      (received_to_m-Ends H lawful nlhs r.0 n buffer.bytes r.1 w range size (λ k e.
                        rw (made.filled)
                          (lawful.recv_fills socket n f u.world (sym (made.answered) ∙ e))))
                      (λ outs x ans. ans) (λ e x (now, rep). rw now (reported made rep)))
                    λ outs x ans.
                      Ends.bind
                        (free-Ends H buffer s.live x (live_of s.live ans (called.live ∙ held.live)))
                        λ _ y freed. returns (record {
                          called = w;
                          attempt = made;
                          answered = x;
                          answer = ans;
                          calls = freed.calls;
                          warnings = freed.warnings;
                          live = freed.live;
                        })
    where
      live_of :
          {rc : ℤ} {written : Bytes} {n : ℕ} {w x : State H} {outs : List Out} {l : List ℕ}
          (k : List ℕ)
          → Answer nlhs rc n written w outs x
          → w.live ≡ l
          → x.live ≡ l
      live_of k (delivered m e d) h = d.live ∙ h
      live_of k (unanswered u) h = ap (λ (z : State H). z.live) u.same ∙ h

module _ {H : Host} (nlhs : ℕ) (a : H.Array) (ps : List H.Array) (s : State H) where
  -- A length of 0 was asked for, and nothing is done; or the options were read without a trace, and
  -- a buffer of the length that was asked for was handed to libzmq with the flags that were asked for.
  pub data Done (outs : List Out) (t : State H) : Type 0 where
    no_buffer : asked_length H ps ≡ 0 → Same s t → outs ≡ [] → Done outs t
    received :
        (u : State H)
        → Same s u
        → asked_length H ps ≢ 0
        → AllDontwait H (asked_flags H ps)
        → Received nlhs a (asked_length H ps) (wait_value (is_given (asked_flags H ps))) u outs t
        → Done outs t

  -- The length cannot be converted; or it is not 0, and a flag is refused, or the socket, the memory
  -- or libzmq fails.
  pub data Failed (e : MexError) (t : State H) : Type 0 where
    no_length : Fails (λ i. i ≡ "util:calloc") s e t → Failed e t
    refused :
        asked_length H ps ≢ 0 → Fails (FlagErrors H "zmq:core:recv:invalidFlag") s e t → Failed e t
    failed :
        (u : State H)
        → Same s u
        → asked_length H ps ≢ 0
        → NotReceived nlhs a (asked_length H ps) (wait_value (is_given (asked_flags H ps))) u e t
        → Failed e t

module _ (H : Host) (lawful : IsLawful H) (flags : HasFlags H) (nlhs : ℕ) where
  -- The buffer's length is known: the flags are read, and the message is received.
  flagged-Ends :
      (a : H.Array) (ps : List H.Array) (n start : ℕ) (s t : State H)
      → HoldsPointer H a
      → Asked H a ps s (n, start) t
      → Ends
          (Done nlhs a ps s)
          (Failed nlhs a ps s)
          ((if n == 0 then pure [] else flagged H nlhs (a ∷ ps) n start) t)
  unfolding flagged argument
  flagged-Ends a ps n start s t holds asked =
      let qs = asked_flags H ps in
      let flags_run : Ends (λ f u. Same t u × AllDontwait H qs × (f ≡ wait_value (is_given qs)))
          (Fails (FlagErrors H "zmq:core:recv:invalidFlag") s)
          (configure_flag H 0 (drop start (a ∷ ps)) t) =
        rw (asked.rest) (
          Ends.mono (configure_flag-AllDontwait H lawful flags qs false t) (λ f u q. q)
            (λ e u f. Fails-after (λ i k. k) (Same-Quiet asked.same) f)) in
      Ends.either (n == 0) _ _ t
        (λ e. returns (Done.no_buffer (sym asked.size ∙ (==_iff _ _).0 e) asked.same refl))
        (λ e.
          let some_length : asked_length H ps ≢ 0 =
            λ z. (let zero : (n == 0) ≡ true = (==_iff _ _).1 (asked.size ∙ z) in cc) in
          Ends.bind (Ends.mono flags_run (λ f u q. q) (λ e u f. refused some_length f))
            λ f u (same', all, sum).
              let both = Same-trans asked.same same' in
              rw (asked.size, sum)
                (Ends.mono
                  (receive-Ends H lawful nlhs a (asked_length H ps) (wait_value (is_given qs)) u
                    holds)
                  (λ outs v r. Done.received u both some_length all r)
                  (λ e v r. failed u both some_length r)))

  with_options-Ends :
      (a p : H.Array) (ps : List H.Array) (s : State H)
      → HoldsPointer H a
      → LengthCasts H (p ∷ ps)
      → Ends
          (Done nlhs a (p ∷ ps) s)
          (Failed nlhs a (p ∷ ps) s)
          (with_options H nlhs (a ∷ p ∷ ps) s)
  unfolding with_options
  with_options-Ends a p ps s holds casts =
      Ends.bind
        (Ends.mono (configure_buffer_length-Ends H lawful flags a p ps s casts) (λ r t q. q)
          (λ e t f. no_length f))
        λ r t asked. flagged-Ends a (p ∷ ps) r.0 r.1 s t holds asked

  -- With a first argument that is large enough for a pointer, and a length, where one is given,
  -- whose number is a value of type `size_t`, the function meets no undefined behaviour of the
  -- conversions and the buffers. A buffer length of 0 makes it return nothing at once; only that
  -- conversion can fail before. With any other length it throws, or receives once, into a buffer of
  -- the length that was asked for (255 by default), waiting unless a flag says otherwise. It returns
  -- exactly the bytes that libzmq wrote, with a warning exactly where the message was longer than
  -- the buffer; or the code of an attempt that would block; or nothing after a failure without an
  -- error number. Where it returns, every block is given back. What MATLAB makes of the arguments
  -- of the warning is not stated.
  pub recv_mex-Ends :
      (a : H.Array) (ps : List H.Array) (s : State H)
      → HoldsPointer H a
      → LengthCasts H ps
      → Ends (Done nlhs a ps s) (Failed nlhs a ps s) (recv_mex H nlhs (a ∷ ps) s)
  unfolding recv_mex argument
  recv_mex-Ends a [] s holds casts =
      Ends.mono (receive-Ends H lawful nlhs a 255 0 s holds)
        (λ outs t r. Done.received s (Same-refl s) (λ z. ground (arith, z)) tt r)
        (λ e t r. failed s (Same-refl s) (λ z. ground (arith, z)) r)
  recv_mex-Ends a (p ∷ ps) s holds casts =
      Ends.reject (ltb (length (a ∷ p ∷ ps)) 1) _ _ _ s (λ e. absurd (ground arith))
        λ _.
          Ends.either (leb 2 (length (a ∷ p ∷ ps))) _ _ s
            (λ _. with_options-Ends a p ps s holds casts) (λ e. absurd (ground arith))
