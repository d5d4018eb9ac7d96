-- ===== src/Core/Send/Laws.antt =====
-- `zmq.core.send` on every input with at least two arguments, and with fewer.
use matlab_zmq.Mex.Memory.Laws.{
  free-Ends, Quiet, perform-Ends, read-Ends, Same-Quiet, Quiet-trans, Same-refl, Holds-Quiet,
  Quiet-refl, Holds, Same,
}
use matlab_zmq.Core.Result.Laws.{set_result-Ends, Reports, Answers}
use matlab_zmq.Mex.Exec.{undefined, pure, MexError}
use matlab_zmq.Prelude.Words.{int_values, InRange}
use matlab_zmq.Prelude.{
  ◌<◌, ◌≤◌, take, ltb, if◌then◌else◌, take_all, ◌*◌, ap, ◌∙◌, sym, arith, inr, ℤ, false, inl,
  length, ◌==◌, not, true, ℕ, ◌⊎◌, String, ◌≡◌, List, [], ◌∷◌, refl,
}
use matlab_zmq.Util.Conversions.FromM.Laws.{
  pointer_from_m-Ends, HoldsPointer, Fails-after, uint8_array_from_m-Ends, IsPointer, Fails,
}
use matlab_zmq.Core.Send.Flags.{
  configure_flag-Ends, names, flag_value, AllFlags, Flags, FlagErrors, HasFlags,
}
use matlab_zmq.Core.Send.{
  pure, configure_flag, argument, ltb, send_mex, Call, length, not, configure_message,
}
use matlab_zmq.Mex.Memory.{argument, Call, Block, State}
use matlab_zmq.Mex.Exec.Ends.{returns, Ends}
use matlab_zmq.Util.Errors.{last_error}
use matlab_zmq.Util.Conversions.ToM.{Out}
use matlab_zmq.Mex.Host.{IsLawful, Host}
use matlab_zmq.Mex.Exec.Ends

module _ {H : Host} (a b : H.Array) (params : List H.Array) (s : State H) where
  -- The message passed the tests and was handed to libzmq whole, in the state of the world `before`.
  pub record Attempt (t : State H) : Type 0 where
    pub is_row : H.get_m b ≡ 1
    pub is_uint8 : H.is_uint8 b ≡ true
    pub socket : ℕ
    pub socket_read : IsPointer H a socket
    pub flag : ℕ
    pub all_flags : AllFlags H params
    pub flag_sum : flag ≡ flag_value (names H "ZMQ_SNDMORE" params) (names H "ZMQ_DONTWAIT" params)
    pub before : H.World
    pub rc : ℤ
    pub answered : rc ≡ (H.zmq_send socket (H.get_data b) flag before).0
    pub after : H.World
    pub left : after ≡ (H.zmq_send socket (H.get_data b) flag before).1
    pub calls : t.calls ≡ Call.send socket (H.get_data b) flag ∷ s.calls
    pub warnings : t.warnings ≡ s.warnings

  pub record Done (outs : List Out) (t : State H) : Type 0 where
    pub attempt : Attempt t
    pub answers : Answers attempt.rc (last_error H attempt.after) outs
    pub live : t.live ≡ s.live

  -- The errors before the call of libzmq.
  abbrev pub Rejections : String → Type 0
  Rejections i =
      (i ≡ "zmq:core:send:messageNotRowVec")
      ⊎ (i ≡ "zmq:core:send:messageNotUint8")
      ⊎ (i ≡ "util:calloc")
      ⊎ (i ≡ "util:pointer_from_m")
      ⊎ FlagErrors H "zmq:core:send:invalidFlag" i

  pub data Failed (e : MexError) (t : State H) : Type 0 where
    rejected : Fails Rejections s e t → Failed e t
    reported : (att : Attempt t) → t.world ≡ att.after → Reports att.rc t e → Failed e t

abbrev later :
    {H : Host} {a b : H.Array} {params : List H.Array} {s t u : State H}
    → Quiet t u
    → Attempt a b params s t
    → Attempt a b params s u
later q r = record {
  is_row = r.is_row;
  is_uint8 = r.is_uint8;
  socket = r.socket;
  socket_read = r.socket_read;
  flag = r.flag;
  all_flags = r.all_flags;
  flag_sum = r.flag_sum;
  before = r.before;
  rc = r.rc;
  answered = r.answered;
  after = r.after;
  left = r.left;
  calls = q.calls ∙ r.calls;
  warnings = q.warnings ∙ r.warnings;
}

-- The copy of the message.
record Message {H : Host} (b : H.Array) (s : State H) (payload : Block × ℕ) (t : State H)
    : Type 0 where
  held : Holds payload.0 s t
  row : H.get_m b ≡ 1
  uint8 : H.is_uint8 b ≡ true
  whole : payload.0.bytes ≡ H.get_data b
  size : payload.1 ≡ length (H.get_data b)

module _ (H : Host) (lawful : IsLawful H) (flags : HasFlags H) (a b : H.Array)
    (params : List H.Array) where
  configure_message-Ends :
      (s : State H)
      → Ends (Message b s) (Fails (Rejections a b params s) s) (configure_message H b s)
  unfolding configure_message
  configure_message-Ends s =
      Ends.reject (not (H.get_m b == 1)) _ _ _ s
        (λ e. record { id_known = inl refl; quiet = Quiet-refl s })
        λ row.
          Ends.reject (not (H.is_uint8 b)) _ _ _ s
            (λ e. record { id_known = inr (inl refl); quiet = Quiet-refl s })
            λ uint8.
              let one : H.get_m b ≡ 1 = ground arith in
              let bytes : H.is_uint8 b ≡ true = ground arith in
              let size : H.get_n b ≡ length (H.get_data b) =
                sym (lawful.uint8_data b bytes ∙ ap (λ m. m * H.get_n b) one ∙ omega arith) in
              Ends.bind
                (Ends.mono (uint8_array_from_m-Ends H b (H.get_n b) s (omega arith)) (λ p t q. q)
                  (λ e t f. Fails-after (λ i k. inr (inr (inl k))) (Quiet-refl s) f))
                λ payload t (held, copied). returns (record {
                  held = held;
                  row = one;
                  uint8 = bytes;
                  whole = copied ∙ take_all (H.get_n b) (H.get_data b) (omega arith);
                  size = size;
                })

  -- `configure_flag(&(prhs[2]), nrhs - 2)` if there are more than two arguments
  configure_flag_given :
      (ps : List H.Array) (s : State H)
      → Ends
          (λ f t. Same s t × Flags H flags false false ps f)
          (Fails (FlagErrors H "zmq:core:send:invalidFlag") s)
          ((if ltb 2 (length (a ∷ b ∷ ps)) then configure_flag H 0 ps else pure 0) s)
  configure_flag_given [] s = returns (Same-refl s, (tt, refl))
  configure_flag_given (p ∷ ps) s =
      let more : ltb 2 (length (a ∷ b ∷ p ∷ ps)) ≡ true = ground arith in
      rw more (configure_flag-Ends H lawful flags (p ∷ ps) false false s)

  -- With a message and a first argument that is large enough for a pointer, the function is free of
  -- undefined behaviour. It throws one of its own errors without a call, or hands the whole message
  -- and the union of the flags to libzmq once; then it throws the error that libzmq left, or frees
  -- what it allocated and returns the code (or nothing, for a negative code without an error number).
  pub send_mex-Ends :
      (s : State H)
      → HoldsPointer H a
      → Ends (Done a b params s) (Failed a b params s) (send_mex H (a ∷ b ∷ params) s)
  unfolding send_mex argument
  send_mex-Ends s holds =
      Ends.bind (Ends.mono (configure_message-Ends s) (λ p t q. q) (λ e t f. rejected f))
        λ message t msg.
          Ends.bind
            (Ends.mono (configure_flag_given params t) (λ f u q. q)
              (λ e u f.
                rejected (Fails-after (λ i k. inr (inr (inr (inr k)))) (Holds-Quiet msg.held) f)))
            λ flag u (same, sums).
              let quiet = Quiet-trans (Holds-Quiet msg.held) (Same-Quiet same) in
              Ends.bind_same _ u
                (Ends.mono (pointer_from_m-Ends H a u holds) (λ p v q. q)
                  (λ e v (now, known, _).
                    rejected
                      (record { id_known = inr (inr (inr (inl known))); quiet = rw now quiet })))
                λ socket is_pointer.
                  let bytes = H.get_data b in
                  let call = Call.send socket bytes flag in
                  let whole : take message.1 message.0.bytes ≡ bytes =
                    rw (msg.whole) (take_all message.1 bytes (omega (arith, msg.size))) in
                  let fits : message.1 ≤ length message.0.bytes =
                    rw (msg.whole) (omega (arith, msg.size)) in
                  Ends.bind_value _ bytes u
                    (Ends.mono (read-Ends H message.1 message.0.bytes u fits)
                      (λ x v (e, now). (e ∙ whole, now)) (λ e v f. f))
                    (Ends.bind (perform-Ends H call (H.zmq_send socket bytes flag) u)
                      λ rc w (called, answer, world).
                        let tried : Attempt a b params s w = record {
                          is_row = msg.row;
                          is_uint8 = msg.uint8;
                          socket = socket;
                          socket_read = is_pointer;
                          flag = flag;
                          all_flags = sums.0;
                          flag_sum = sums.1;
                          before = u.world;
                          rc = rc;
                          answered = answer;
                          after = w.world;
                          left = world;
                          calls = called.calls ∙ ap (λ l. call ∷ l) quiet.calls;
                          warnings = called.warnings ∙ quiet.warnings;
                        } in
                        let range : InRange int_values rc =
                          rw answer (lawful.send_int socket bytes flag u.world) in
                        Ends.bind_same _ w
                          (Ends.mono (set_result-Ends H lawful rc w range) (λ outs x q. q)
                            (λ e x (now, rep).
                              reported (later (rw now (Quiet-refl w)) tried)
                                (ap (λ (z : State H). z.world) now) (rw now rep)))
                          λ outs answers.
                            Ends.bind
                              (free-Ends H message.0 s.live w
                                (called.live ∙ same.live ∙ msg.held.live))
                              λ _ y freed. returns (record {
                                attempt =
                                    later
                                      (record { calls = freed.calls; warnings = freed.warnings })
                                      tried;
                                answers = answers;
                                live = freed.live;
                              }))

-- With fewer than two arguments the function reads past the end of `prhs`: nothing tests their number.
pub send_mex-undefined :
    (H : Host) (prhs : List H.Array) (s : State H)
    → length prhs < 2
    → (send_mex H prhs s).0 ≡ undefined
unfolding send_mex argument
send_mex-undefined H [] s h = refl
send_mex-undefined H (a ∷ []) s h = refl
send_mex-undefined H (a ∷ b ∷ prhs) s h = absurd (omega arith)
