-- ===== src/Core/Socket/Laws.antt =====
-- `zmq.core.socket` on every input.
use matlab_zmq.Core.Arguments.{IsRefused, miscounted, no_text, no_single_row}
use matlab_zmq.Prelude.{
  ==_iff, false, ap, length, arith, ◌∙◌, ◌==◌, eq_ℤ_iff, not, Option, eq_ℤ, true, up_to_zero, ◌≢◌,
  Bytes, String, get_elem?, ℕ, ◌≡◌, List, ℤ, [], ◌∷◌, none, some, refl,
}
use matlab_zmq.Core.Socket.{
  last_error, length, Call, not, Option, eq_ℤ, pointer_array, Bytes, Out, ℕ, Block, List, argument,
  ℤ, socket_mex, core_socket, make_socket, socket_failed, socket_type_value,
}
use matlab_zmq.Util.Errors.{last_error}
use matlab_zmq.Mex.Exec.Ends.{returns, throws, Ends}
use matlab_zmq.Mex.Memory.Laws.{perform-Ends, free-Ends, Holds, Same, read_string-Ends}
use matlab_zmq.Mex.Memory.{Call, Block, State, argument}
use matlab_zmq.Util.Conversions.FromM.Laws.{pointer_in, Fails, HoldsPointer}
use matlab_zmq.Core.Name.{name_length}
use matlab_zmq.Util.Conversions.ToM.{pointer_array, Out}
use matlab_zmq.Mex.Exec.{MexError}
use matlab_zmq.Mex.Host.{Host, IsLawful, Allocates}
use matlab_zmq.Core.Name.Laws.{name_from_m-Ends}
use matlab_zmq.Core.Context.Laws.{context_in-Ends, differ}
use matlab_zmq.Mex.Exec.Ends

-- Which identifier reports which `errno`.
pub data SocketError (H : Host) (err : ℤ) (i : String) : Type 0 where
  unknown_type :
      err ≡ H.constants.errnos.einval
      → i ≡ "zmq:core:socket:unknownSocketTypeCore"
      → SocketError H err i
  invalid_context :
      err ≡ H.constants.errnos.efault → i ≡ "zmq:core:socket:invalidContext" → SocketError H err i
  too_many :
      err ≡ H.constants.errnos.emfile
      → i ≡ "zmq:core:socket:maxSocketsReached"
      → SocketError H err i
  terminated :
      err ≡ H.constants.errnos.eterm → i ≡ "zmq:core:socket:contextTerminated" → SocketError H err i
  other :
      err ≢ H.constants.errnos.einval
      → err ≢ H.constants.errnos.efault
      → err ≢ H.constants.errnos.emfile
      → err ≢ H.constants.errnos.eterm
      → i ≡ "zmq:core:socket:unknownOops"
      → SocketError H err i

module _ {H : Host} (a b : H.Array) (s : State H) where
  -- The name was read as a socket type, and libzmq was called once.
  pub record Attempt (t : State H) : Type 0 where
    pub chars : Bytes
    pub given : H.get_string b (name_length H b) ≡ some chars
    pub type : ℤ
    pub type_known : socket_type_value H.constants.socket_types (up_to_zero chars) ≡ some type
    pub before : H.World
    pub socket : ℕ
    pub answered : socket ≡ (H.zmq_socket (pointer_in H a) type before).0
    pub left : t.world ≡ (H.zmq_socket (pointer_in H a) type before).1
    pub calls : t.calls ≡ Call.socket (pointer_in H a) type ∷ s.calls
    pub warnings : t.warnings ≡ s.warnings
    -- the copy of the name is still allocated
    pub name : ℕ
    pub live : t.live ≡ name ∷ s.live

  pub record Opened (socket : ℕ) (t : State H) : Type 0 where
    pub attempt : Attempt t
    pub same_socket : socket ≡ attempt.socket
    pub valid : socket ≢ 0

  pub data NotOpened (e : MexError) (t : State H) : Type 0 where
    not_copied : Fails (λ i. i ≡ "zmq:core:socket:sockTypeCopyFail") s e t → NotOpened e t
    unknown :
        (chars : Bytes)
        → H.get_string b (name_length H b) ≡ some chars
        → socket_type_value H.constants.socket_types (up_to_zero chars) ≡ none
        → e.id ≡ "zmq:core:socket:unknownSocketType"
        → Same s t
        → NotOpened e t
    failed :
        (att : Attempt t) → att.socket ≡ 0 → SocketError H (H.errno t.world) e.id → NotOpened e t

module _ (H : Host) where
  socket_failed-Ends :
      (errno err : ℤ) (s : State H)
      → Ends (λ p t. ⊥) (λ e t. (t ≡ s) × SocketError H errno e.id) (socket_failed H errno err s)
  socket_failed-Ends errno err s =
      let k = H.constants.errnos in
      Ends.either (eq_ℤ errno k.einval) _ _ s
        (λ e. throws (refl, unknown_type ((eq_ℤ_iff _ _).0 e) refl))
        λ a.
          Ends.either (eq_ℤ errno k.efault) _ _ s
            (λ e. throws (refl, invalid_context ((eq_ℤ_iff _ _).0 e) refl))
            λ b.
              Ends.either (eq_ℤ errno k.emfile) _ _ s
                (λ e. throws (refl, too_many ((eq_ℤ_iff _ _).0 e) refl))
                λ c.
                  Ends.either (eq_ℤ errno k.eterm) _ _ s
                    (λ e. throws (refl, terminated ((eq_ℤ_iff _ _).0 e) refl))
                    λ d.
                      throws (
                        refl,
                        other (differ _ _ a) (differ _ _ b) (differ _ _ c) (differ _ _ d) refl,
                      )

module _ (H : Host) (a b : H.Array) (name : Block) (chars : Bytes) (s t : State H) where
  make_socket-Ends :
      (value : Option ℤ)
      → socket_type_value H.constants.socket_types (up_to_zero chars) ≡ value
      → HoldsPointer H a
      → H.get_string b (name_length H b) ≡ some chars
      → Holds name s t
      → Ends (Opened a b s) (NotOpened a b s) (make_socket H a name value t)
  unfolding make_socket
  make_socket-Ends none known holds given held =
      Ends.bind (free-Ends H name s.live t held.live) λ _ u freed. throws (
        unknown chars given known refl (record {
          live = freed.live;
          calls = freed.calls ∙ held.calls;
          warnings = freed.warnings ∙ held.warnings;
        }))
  make_socket-Ends (some value) known holds given held =
      let context = pointer_in H a in
      Ends.bind_value _ context t (context_in-Ends H a t holds) (
        Ends.bind (perform-Ends H (Call.socket context value) (H.zmq_socket context value) t)
          λ p u (called, answer, world).
            let made : Attempt a b s u = record {
              chars = chars;
              given = given;
              type = value;
              type_known = known;
              before = t.world;
              socket = p;
              answered = answer;
              left = world;
              calls = called.calls ∙ ap (λ l. Call.socket context value ∷ l) held.calls;
              warnings = called.warnings ∙ held.warnings;
              name = name.serial;
              live = called.live ∙ held.live;
            } in
            Ends.either (p == 0) _ _ u
              (λ e.
                Ends.mono (socket_failed-Ends H (H.errno u.world) (last_error H u.world) u)
                  (λ q v no. absurd no)
                  (λ x v (now, which). rw now (failed made ((==_iff _ _).0 e) which)))
              (λ e.
                returns (record { attempt = made; same_socket = refl; valid = λ z. ground arith })))

module _ (H : Host) (lawful : IsLawful H) (allocates : Allocates H) where
  core_socket-Ends :
      (a b : H.Array) (s : State H)
      → HoldsPointer H a
      → Ends (Opened a b s) (NotOpened a b s) (core_socket H a b s)
  unfolding core_socket
  core_socket-Ends a b s holds =
      Ends.bind
        (Ends.mono (name_from_m-Ends H lawful allocates _ _ b s) (λ n t q. q)
          (λ e t f. not_copied f))
        λ name t (held, is_name).
          Ends.bind_value _ (up_to_zero is_name.chars) t
            (read_string-Ends H name.bytes t is_name.string)
            (make_socket-Ends H a b name is_name.chars s t _ refl holds is_name.given held)

module _ {H : Host} (prhs : List H.Array) (s : State H) where
  -- The two arguments, whose second is a row of text.
  pub record Arguments : Type 0 where
    pub context_array : H.Array
    pub type_array : H.Array
    pub two_arguments : prhs ≡ context_array ∷ type_array ∷ []
    pub is_char : H.is_char type_array ≡ true
    pub is_row : H.get_m type_array ≡ 1

  pub data Done (outs : List Out) (t : State H) : Type 0 where
    opened :
        (xs : Arguments) (socket : ℕ)
        → Opened xs.context_array xs.type_array s socket t
        → outs ≡ pointer_array H socket ∷ []
        → Done outs t

  abbrev pub Refusals : String → Type 0
  Refusals i =
      IsRefused H 2 "zmq:core:socket:invalidArgs" "zmq:core:socket:sockTypeNotString"
        "zmq:core:socket:sockTypeNotRowVec" prhs i

  pub data Failed (e : MexError) (t : State H) : Type 0 where
    refused : Refusals e.id → t ≡ s → Failed e t
    not_opened : (xs : Arguments) → NotOpened xs.context_array xs.type_array s e t → Failed e t

module _ (H : Host) (lawful : IsLawful H) (allocates : Allocates H) where
  pub socket_mex-Ends :
      (prhs : List H.Array) (s : State H)
      → ((a : H.Array) → get_elem? prhs 0 ≡ some a → HoldsPointer H a)
      → Ends (Done prhs s) (Failed prhs s) (socket_mex H prhs s)
  unfolding socket_mex argument
  socket_mex-Ends [] s holds = throws (refused (miscounted (λ z. omega (arith, z)) refl) refl)
  socket_mex-Ends (a ∷ []) s holds = throws (refused (miscounted (λ z. omega (arith, z)) refl) refl)
  socket_mex-Ends (a ∷ b ∷ []) s holds =
      Ends.reject (not (H.is_char b)) _ _ _ s
        (λ e. refused (no_text b refl refl (ground arith) refl) refl)
        λ char.
          Ends.reject (not (H.get_m b == 1)) _ _ _ s
            (λ e. refused (no_single_row b refl refl (λ z. ground (arith, z)) refl) refl)
            λ row.
              let xs : Arguments (a ∷ b ∷ []) s = record {
                context_array = a;
                type_array = b;
                two_arguments = refl;
                is_char = ground arith;
                is_row = ground arith;
              } in
              Ends.bind
                (Ends.mono (core_socket-Ends H lawful allocates a b s (holds a refl)) (λ p t q. q)
                  (λ e t f. not_opened xs f))
                λ p t o. returns (opened xs p o refl)
  socket_mex-Ends (a ∷ b ∷ c ∷ rest) s holds =
      let more : (length (a ∷ b ∷ c ∷ rest) == 2) ≡ false = ground arith in
      rw more (throws (refused (miscounted (λ z. omega (arith, z)) refl) refl))
