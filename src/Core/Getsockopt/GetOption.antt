-- ===== src/Core/Getsockopt/GetOption.antt =====
-- The body of getsockopt.c behind the tests of its arguments.
use matlab_zmq.Prelude.{
  sym, overwrite, ap, ◌∙◌, pos, ℤ, true, false, up_to_zero, is_negative, ◌⊎◌, ◌≡◌, List, String, ℕ,
  Bytes, [], ◌∷◌, some, refl, inl, inr,
}
use matlab_zmq.Core.Getsockopt.{
  overwrite, Call, ℤ, find_sockopt_type_by_id, is_negative, Out, SockoptType, List, SockoptDesc, ℕ,
  Bytes, get_option, get_value, value_to_m, shown, option_value,
}
use matlab_zmq.Mex.Memory.Laws.{
  perform-Ends, Same-Quiet, Holds-Quiet, malloc-Ends, Same, free-Ends, read_string-Ends, Quiet-refl,
}
use matlab_zmq.Util.Conversions.FromM.Laws.{
  pointer_from_m-Ends, allocated_or-Ends, IsPointer, Fails-after, str_from_m-Ends, Fails,
  TextErrors, HoldsPointer,
}
use matlab_zmq.Mex.Exec.Ends.{returns, Ends}
use matlab_zmq.Mex.Memory.{Call, State}
use matlab_zmq.Util.Sockopt.Laws.{find_sockopt_by_name-Ends, IsOption}
use matlab_zmq.Mex.Exec.{returned, MexError}
use matlab_zmq.Util.Errors.{last_error}
use matlab_zmq.Util.Errors.Laws.{handle_error_lem}
use matlab_zmq.Util.Sockopt.{find_sockopt_type_by_id, SockoptType, SockoptDesc}
use matlab_zmq.Util.Conversions.ToM.{Out}
use matlab_zmq.Util.Conversions.FromM.{string_size}
use matlab_zmq.Mex.Host.{Host, IsLawful}
use matlab_zmq.Core.Getsockopt.Values.{Row, find_type_of_option, Whole, Shows, NameErrors}
use matlab_zmq.Core.Result.Laws.{Reports}
use matlab_zmq.Mex.Exec.Ends

-- For the option that the array names, libzmq writes a whole value of the option's type.
abbrev pub Writes : (H : Host) → H.Array → Type 0
Writes H b =
    (name : Bytes) (r : SockoptDesc)
    → H.get_string b (string_size H b) ≡ some name
    → IsOption H (up_to_zero name) r
    → (p n : ℕ) (w : H.World) → is_negative (H.zmq_getsockopt p r.id n w).0 ≡ false
    → Whole r.type_id (H.zmq_getsockopt p r.id n w).1

module _ (H : Host) (a b : H.Array) (s : State H) where
  -- The option was found, and its value was asked for with the greatest length of its type.
  pub record Attempt (t : State H) : Type 0 where
    pub name : Bytes
    pub given : H.get_string b (string_size H b) ≡ some name
    pub option : SockoptDesc
    pub option_named : IsOption H (up_to_zero name) option
    pub type : SockoptType H
    pub type_found : find_sockopt_type_by_id H option.type_id s ≡ (returned type, s)
    pub socket : ℕ
    pub socket_read : IsPointer H a socket
    pub before : H.World
    pub rc : ℤ
    pub answered : rc ≡ (H.zmq_getsockopt socket option.id type.max_len before).0
    pub written : Bytes
    pub filled : written ≡ (H.zmq_getsockopt socket option.id type.max_len before).1
    pub left : t.world ≡ (H.zmq_getsockopt socket option.id type.max_len before).2
    pub calls : t.calls ≡ Call.getsockopt socket option.id type.max_len ∷ s.calls
    pub warnings : t.warnings ≡ s.warnings

  -- The value of a code that is not negative; nothing for a negative code without an error number.
  pub data Value (called : State H) (att : Attempt called) (outs : List Out) : Type 0 where
    value :
        (out : Out)
        → is_negative att.rc ≡ false
        → Shows H att.option.type_id att.written out
        → outs ≡ out ∷ []
        → Value called att outs
    no_value :
        is_negative att.rc ≡ true
        → last_error H called.world ≡ pos 0
        → outs ≡ []
        → Value called att outs

  -- What is returned, with every block given back.
  pub record Done (outs : List Out) (t : State H) : Type 0 where
    pub called : State H
    pub attempt : Attempt called
    pub shown_value : Value called attempt outs
    pub live : t.live ≡ s.live
    pub calls : t.calls ≡ called.calls
    pub warnings : t.warnings ≡ called.warnings

  abbrev pub Rejections : String → Type 0
  Rejections i =
      TextErrors H i
      ⊎ (i ≡ "zmq:core:sockopt:invalidOptionName")
      ⊎ (i ≡ "util:pointer_from_m")
      ⊎ (i ≡ "mex:malloc")

  pub data Failed (e : MexError) (t : State H) : Type 0 where
    rejected : Fails Rejections s e t → Failed e t
    reported : (att : Attempt t) → Reports att.rc t e → Failed e t
    nameless : (att : Attempt t) → is_negative att.rc ≡ false → NameErrors e.id → Failed e t

module _ (H : Host) (lawful : IsLawful H) where
  value_to_m-Ends :
      (a b : H.Array) (s t : State H) (att : Attempt H a b s t) (buf : Bytes) (n : ℕ)
      (type : SockoptType H)
      → t.live ≡ n ∷ s.live
      → (is_negative att.rc ≡ false
          → Ends
              (λ out u. (u ≡ t) × Shows H att.option.type_id att.written out)
              (λ e u. (u ≡ t) × NameErrors e.id)
              (shown H type.to_m buf t))
      → Ends
          (Done H a b s)
          (Failed H a b s)
          (value_to_m H type att.rc (record { serial = n; bytes = buf }) t)
  unfolding value_to_m
  value_to_m-Ends a b s t att buf n type live shows =
      Ends.either (is_negative att.rc) _ _ t
        (λ negative.
          Ends.bind_same _ t
            (Ends.mono (handle_error_lem H lawful t) (λ _ u p. p)
              (λ e u (now, has, rep).
                rw now
                  (reported att (record { negative = negative; has_error = has; report = rep }))))
            λ _ err.
              Ends.bind (free-Ends H (record { serial = n; bytes = buf }) s.live t live)
                λ _ u freed. returns (record {
                  called = t;
                  attempt = att;
                  shown_value = no_value negative err refl;
                  live = freed.live;
                  calls = freed.calls;
                  warnings = freed.warnings;
                }))
        (λ fine.
          Ends.bind_same _ t
            (Ends.mono (shows fine) (λ out u p. p) (λ e u (now, k). rw now (nameless att fine k)))
            λ out is_shown.
              Ends.bind (free-Ends H (record { serial = n; bytes = buf }) s.live t live)
                λ _ u freed. returns (record {
                  called = t;
                  attempt = att;
                  shown_value = value out fine is_shown refl;
                  live = freed.live;
                  calls = freed.calls;
                  warnings = freed.warnings;
                }))

  -- The option, its type and the socket are known.
  get_value-Ends :
      (a b : H.Array) (name : Bytes) (option : SockoptDesc) (socket : ℕ) (s t : State H)
      (row : Row H option.type_id)
      → H.get_string b (string_size H b) ≡ some name
      → IsOption H (up_to_zero name) option
      → IsPointer H a socket
      → Same s t
      → Writes H b
      → Ends (Done H a b s) (Failed H a b s) (get_value H socket option row.type t)
  unfolding get_value
  get_value-Ends a b name option socket s t row given named read_socket same writes =
      let n = row.type.max_len in
      let call = Call.getsockopt socket option.id n in
      Ends.bind (malloc-Ends H n t) λ o u got.
        Ends.bind
          (Ends.mono (allocated_or-Ends H _ "mex:malloc" o t u got) (λ x v q. q)
            (λ e v f. rejected (Fails-after (λ i k. inr (inr (inr k))) (Same-Quiet same) f)))
          λ block v (held, made).
            Ends.bind (perform-Ends H call (option_value H socket option.id n) v)
              λ r w (called, answer, world).
                let att : Attempt H a b s w = record {
                  name = name;
                  given = given;
                  option = option;
                  option_named = named;
                  type = row.type;
                  type_found = row.lookup s;
                  socket = socket;
                  socket_read = read_socket;
                  before = v.world;
                  rc = r.0;
                  answered = ap (λ (z : ℤ × Bytes). z.0) answer;
                  written = r.1;
                  filled = ap (λ (z : ℤ × Bytes). z.1) answer;
                  left = world;
                  calls = called.calls ∙ ap (λ l. call ∷ l) (held.calls ∙ same.calls);
                  warnings = called.warnings ∙ held.warnings ∙ same.warnings;
                } in
                value_to_m-Ends a b s w att (overwrite block.bytes r.1) block.serial row.type
                  (called.live ∙ held.live ∙ ap (λ l. block.serial ∷ l) same.live)
                  (λ fine. row.shows block.bytes r.1 w (lawful.malloc_size n t.world made) (
                    rw (att.filled) (
                      writes name option given named socket n v.world
                        (rw (sym att.answered) fine))))

  pub get_option-Ends :
      (a b : H.Array) (s : State H)
      → HoldsPointer H a
      → Writes H b
      → Ends (Done H a b s) (Failed H a b s) (get_option H a b s)
  unfolding get_option
  get_option-Ends a b s holds writes =
      Ends.bind
        (Ends.mono (str_from_m-Ends H lawful b s) (λ x u q. q)
          (λ e u f. rejected (Fails-after (λ i k. inl k) (Quiet-refl s) f)))
        λ text u (held, is_text).
          let name = up_to_zero is_text.chars in
          Ends.bind_value _ name u (read_string-Ends H text.bytes u is_text.string) (
            Ends.bind_same _ u
              (Ends.mono (find_sockopt_by_name-Ends H u name) (λ x y (now, is). (now, is))
                (λ e y (now, known, _).
                  rejected
                    (record { id_known = inr (inl known); quiet = rw now (Holds-Quiet held) })))
              λ option named.
                let row : Row H option.type_id = find_type_of_option H name option named in
                let looked : Ends (λ x t. (x ≡ row.type) × (t ≡ u)) (Failed H a b s)
                    (find_sockopt_type_by_id H option.type_id u) =
                  rw (row.lookup u) (returns (refl, refl)) in
                Ends.bind_value _ row.type u looked (
                  Ends.bind (free-Ends H text s.live u held.live) λ _ w freed.
                    let same : Same s w = record {
                      live = freed.live;
                      calls = freed.calls ∙ held.calls;
                      warnings = freed.warnings ∙ held.warnings;
                    } in
                    Ends.bind_same _ w
                      (Ends.mono (pointer_from_m-Ends H a w holds) (λ p y q. q)
                        (λ e y (now, known, _). rejected (record {
                          id_known = inr (inr (inl known));
                          quiet = rw now (Same-Quiet same);
                        })))
                      λ socket is_pointer.
                        get_value-Ends a b is_text.chars option socket s w row is_text.given named
                          is_pointer same writes))
