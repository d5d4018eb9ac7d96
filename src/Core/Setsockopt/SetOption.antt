-- ===== src/Core/Setsockopt/SetOption.antt =====
-- The body of setsockopt.c behind the tests of its arguments.
use matlab_zmq.Prelude.{
  ap, ◌∙◌, ℤ, take, up_to_zero, some, ◌⊎◌, ℕ, ◌≡◌, List, String, Bytes, ◌∷◌, refl, inl, inr,
}
use matlab_zmq.Core.Setsockopt.{
  Call, Block, find_sockopt_type_by_id, SockoptType, some, Out, ℕ, List, SockoptDesc, set_option,
  set_value, value_length,
}
use matlab_zmq.Mex.Exec.Ends.{throws, returns, Ends}
use matlab_zmq.Mex.Memory.{Call, Block, State}
use matlab_zmq.Util.Conversions.FromM.Laws.{
  pointer_from_m-Ends, IsPointer, Fails-after, str_from_m-Ends, Fails, TextErrors, HoldsPointer,
}
use matlab_zmq.Mex.Memory.Laws.{
  free-Ends, perform-Ends, read-Ends, Holds-Quiet, Same-Quiet, Same, read_string-Ends, Quiet-refl,
}
use matlab_zmq.Prelude.Words.{int_values, InRange}
use matlab_zmq.Mex.Exec.{returned, MexError}
use matlab_zmq.Util.Sockopt.{find_sockopt_type_by_id, SockoptType, SockoptDesc}
use matlab_zmq.Util.Sockopt.Laws.{find_sockopt_by_name-Ends, IsOption}
use matlab_zmq.Util.Errors.{last_error}
use matlab_zmq.Util.Conversions.ToM.{Out}
use matlab_zmq.Util.Conversions.FromM.{string_size}
use matlab_zmq.Mex.Host.{Host, IsLawful}
use matlab_zmq.Core.Setsockopt.Values.{
  Row, find_type_of_option, Encodes, IsPassed, CastsAs, ValueErrors,
}
use matlab_zmq.Core.Result.Laws.{set_result-Ends, Answers, Reports}
use matlab_zmq.Mex.Exec.Ends

-- The number of the value is a value of the type of the option that the array names.
abbrev pub CastsForOption : (H : Host) → H.Array → H.Array → Type 0
CastsForOption H b v =
    (name : Bytes) (r : SockoptDesc)
    → H.get_string b (string_size H b) ≡ some name
    → IsOption H (up_to_zero name) r
    → CastsAs H r.type_id v

module _ (H : Host) (lawful : IsLawful H) (a b v : H.Array) (s : State H) where
  -- The option was found, and its value was converted by its type. The bytes of the value were
  -- handed to libzmq, in the state of the world `before`: of a text, as many as the array has
  -- elements, and all of any other value.
  pub record Attempt (t : State H) : Type 0 where
    pub name : Bytes
    pub given : H.get_string b (string_size H b) ≡ some name
    pub option : SockoptDesc
    pub option_named : IsOption H (up_to_zero name) option
    pub type : SockoptType H
    pub type_found : find_sockopt_type_by_id H option.type_id s ≡ (returned type, s)
    pub socket : ℕ
    pub socket_read : IsPointer H a socket
    pub block : Block
    pub value : Encodes H lawful option.type_id v block
    pub bytes : Bytes
    pub part : IsPassed H option.type_id v block bytes
    pub before : H.World
    pub rc : ℤ
    pub answered : rc ≡ (H.zmq_setsockopt socket option.id bytes before).0
    pub left : t.world ≡ (H.zmq_setsockopt socket option.id bytes before).1
    pub calls : t.calls ≡ Call.setsockopt socket option.id bytes ∷ s.calls
    pub warnings : t.warnings ≡ s.warnings

  -- What the function returns: the code, with every block given back.
  pub record Done (outs : List Out) (t : State H) : Type 0 where
    pub called : State H
    pub attempt : Attempt called
    pub answers : Answers attempt.rc (last_error H called.world) outs
    pub live : t.live ≡ s.live
    pub calls : t.calls ≡ called.calls
    pub warnings : t.warnings ≡ called.warnings

  -- The errors before the call of libzmq.
  abbrev pub Rejections : String → Type 0
  Rejections i =
      TextErrors H i
      ⊎ (i ≡ "zmq:core:sockopt:invalidOptionName")
      ⊎ (i ≡ "util:pointer_from_m")
      ⊎ ValueErrors H lawful i

  pub data Failed (e : MexError) (t : State H) : Type 0 where
    rejected : Fails Rejections s e t → Failed e t
    reported : (att : Attempt t) → Reports att.rc t e → Failed e t

module _ (H : Host) (lawful : IsLawful H) where
  -- The option, its type and the socket are known.
  set_value-Ends :
      (a b v : H.Array) (name : Bytes) (option : SockoptDesc) (socket : ℕ) (s t : State H)
      (row : Row H lawful option.type_id)
      → H.get_string b (string_size H b) ≡ some name
      → IsOption H (up_to_zero name) option
      → IsPointer H a socket
      → Same s t
      → CastsAs H option.type_id v
      → Ends
          (Done H lawful a b v s)
          (Failed H lawful a b v s)
          (set_value H socket option row.type v t)
  unfolding set_value
  set_value-Ends a b v name option socket s t row given named read_socket same casts =
      Ends.bind
        (Ends.mono (row.converts v t casts) (λ x u q. q)
          (λ e u f. rejected (Fails-after (λ i k. inr (inr (inr k))) (Same-Quiet same) f)))
        λ block u (held, is_value).
          let bytes = take (value_length H row.type v) block.bytes in
          let encodes : Encodes H lawful option.type_id v block =
            rw (row.numbered) at is_value.encodes in
          Ends.bind_value _ bytes u
            (Ends.mono (read-Ends H (value_length H row.type v) block.bytes u is_value.fits)
              (λ x y q. q) (λ e y f. f))
            (Ends.bind
              (perform-Ends H (Call.setsockopt socket option.id bytes)
                (H.zmq_setsockopt socket option.id bytes) u)
              λ rc w (called, answer, world).
                let made : Attempt H lawful a b v s w = record {
                  name = name;
                  given = given;
                  option = option;
                  option_named = named;
                  type = row.type;
                  type_found = row.lookup s;
                  socket = socket;
                  socket_read = read_socket;
                  block = block;
                  value = encodes;
                  bytes = bytes;
                  part = row.passes v block encodes;
                  before = u.world;
                  rc = rc;
                  answered = answer;
                  left = world;
                  calls =
                      called.calls
                      ∙ ap (λ l. Call.setsockopt socket option.id bytes ∷ l)
                          (held.calls ∙ same.calls);
                  warnings = called.warnings ∙ held.warnings ∙ same.warnings;
                } in
                let range : InRange int_values rc =
                  rw answer (lawful.setsockopt_int socket option.id bytes u.world) in
                Ends.bind_same _ w
                  (Ends.mono (set_result-Ends H lawful rc w range) (λ outs x q. q)
                    (λ e x (now, rep). rw now (reported made rep)))
                  λ outs answers.
                    Ends.bind (free-Ends H block t.live w (called.live ∙ held.live)) λ _ y freed.
                      returns (record {
                        called = w;
                        attempt = made;
                        answers = answers;
                        live = freed.live ∙ same.live;
                        calls = freed.calls;
                        warnings = freed.warnings;
                      }))

  pub set_option-Ends :
      (a b v : H.Array) (s : State H)
      → HoldsPointer H a
      → CastsForOption H b v
      → Ends (Done H lawful a b v s) (Failed H lawful a b v s) (set_option H a b v s)
  unfolding set_option
  set_option-Ends a b v s holds casts =
      Ends.bind
        (Ends.mono (str_from_m-Ends H lawful b s) (λ x u q. q)
          (λ e u f. rejected (Fails-after (λ i k. inl k) (Quiet-refl s) f)))
        λ text u (held, is_text).
          let name = up_to_zero is_text.chars in
          Ends.bind_value _ name u (read_string-Ends H text.bytes u is_text.string) (
            Ends.bind_same _ u
              (Ends.mono (find_sockopt_by_name-Ends H u name) (λ x y (now, is). (now, is))
                (λ e y (now, known, _).
                  rejected
                    (record { id_known = inr (inl known); quiet = rw now (Holds-Quiet held) })))
              λ option named.
                let row : Row H lawful option.type_id =
                  find_type_of_option H lawful name option named in
                let looked : Ends (λ x t. (x ≡ row.type) × (t ≡ u)) (Failed H lawful a b v s)
                    (find_sockopt_type_by_id H option.type_id u) =
                  rw (row.lookup u) (returns (refl, refl)) in
                Ends.bind_value _ row.type u looked (
                  Ends.bind (free-Ends H text s.live u held.live) λ _ w freed.
                    let same : Same s w = record {
                      live = freed.live;
                      calls = freed.calls ∙ held.calls;
                      warnings = freed.warnings ∙ held.warnings;
                    } in
                    Ends.bind_same _ w
                      (Ends.mono (pointer_from_m-Ends H a w holds) (λ p y q. q)
                        (λ e y (now, known, _). rejected (record {
                          id_known = inr (inr (inl known));
                          quiet = rw now (Same-Quiet same);
                        })))
                      λ socket is_pointer.
                        set_value-Ends a b v is_text.chars option socket s w row is_text.given named
                          is_pointer same (casts is_text.chars option is_text.given named)))
