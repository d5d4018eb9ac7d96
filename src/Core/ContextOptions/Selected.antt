-- ===== src/Core/ContextOptions/Selected.antt =====
-- What ctx_get.c and ctx_set.c share: an option that was selected, and what fails.
use matlab_zmq.Prelude.{
  sym, inr, str_eq_iff, inl, Bool-cases, codes, false, str_eq, ◌≢◌, refl, ◌∙◌, up_to_zero, ◌≡◌,
  Bytes, String, ℤ, ◌∷◌, none, some,
}
use mathlib.Core.Bool.{false≢true}
use matlab_zmq.Core.ContextOptions.{
  codes, Constants, str_eq, free_and_throw, Block, Bytes, String, Call, ℤ, option_selection,
}
use matlab_zmq.Mex.Constants.{Constants}
use matlab_zmq.Mex.Exec.Ends.{throws, Ends}
use matlab_zmq.Mex.Memory.Laws.{free-Ends, Holds, Same}
use matlab_zmq.Util.Conversions.FromM.Laws.{Fails}
use matlab_zmq.Core.Name.{name_length}
use matlab_zmq.Mex.Exec.{MexError}
use matlab_zmq.Mex.Memory.{Block, Call, State}
use matlab_zmq.Mex.Host.{Host}
use matlab_zmq.Mex.Exec.Ends

-- The options of a context, by their documented names.
pub data IsContextOption (k : Constants) (name : Bytes) (option : ℤ) : Type 0 where
  io_threads :
      name ≡ codes "ZMQ_IO_THREADS" → option ≡ k.zmq_io_threads → IsContextOption k name option
  max_sockets :
      name ≡ codes "ZMQ_MAX_SOCKETS" → option ≡ k.zmq_max_sockets → IsContextOption k name option
  ipv6 :
      name ≡ codes "ZMQ_IPV6" → option ≡ k.socket_options.zmq_ipv6 → IsContextOption k name option

pub record IsNoOption (name : Bytes) : Type 0 where
  pub not_io_threads : name ≢ codes "ZMQ_IO_THREADS"
  pub not_max_sockets : name ≢ codes "ZMQ_MAX_SOCKETS"
  pub not_ipv6 : name ≢ codes "ZMQ_IPV6"

unlike : (s t : Bytes) → str_eq s t ≡ false → s ≢ t
unlike s t e z = false≢true (sym e ∙ (str_eq_iff s t).1 z)

some_option : {x y : ℤ} → some x ≡ some y → y ≡ x
some_option e = cc

no_option : {A : Type 0} {x : ℤ} → none ≡ some x → A
no_option e = cc

-- The chain knows exactly these names.
pub option_selection-IsContextOption :
    (k : Constants) (name : Bytes) (option : ℤ)
    → option_selection k name ≡ some option
    → IsContextOption k name option
unfolding option_selection
option_selection-IsContextOption k name option e =
    elim (Bool-cases (str_eq name (codes "ZMQ_IO_THREADS"))) [
      | inl a ↦ io_threads ((str_eq_iff _ _).0 a) (some_option (rw a at e))
      | inr a ↦ elim (Bool-cases (str_eq name (codes "ZMQ_MAX_SOCKETS"))) [
        | inl b ↦ max_sockets ((str_eq_iff _ _).0 b) (some_option (rw (a, b) at e))
        | inr b ↦ elim (Bool-cases (str_eq name (codes "ZMQ_IPV6"))) [
          | inl c ↦ ipv6 ((str_eq_iff _ _).0 c) (some_option (rw (a, b, c) at e))
          | inr c ↦ no_option (rw (a, b, c) at e)
        ]
      ]
    ]

pub option_selection-IsNoOption :
    (k : Constants) (name : Bytes) → option_selection k name ≡ none → IsNoOption name
unfolding option_selection
option_selection-IsNoOption k name e = record {
  not_io_threads = λ z. no_option (sym (rw z at e));
  not_max_sockets = λ z. no_option (sym (rw z at e));
  not_ipv6 = λ z. no_option (sym (rw z at e));
}

module _ {H : Host} (call : ℤ → Call) (f : ℤ → H.World → ℤ × H.World) (b : H.Array)
    (s : State H) where
  -- The name was read as an option of a context, and libzmq was called once. Every block is given
  -- back.
  pub record Selected (t : State H) : Type 0 where
    pub chars : Bytes
    pub given : H.get_string b (name_length H b) ≡ some chars
    pub selection : ℤ
    pub known : IsContextOption H.constants (up_to_zero chars) selection
    pub before : H.World
    pub ret : ℤ
    pub answered : ret ≡ (f selection before).0
    pub live : t.live ≡ s.live
    pub calls : t.calls ≡ call selection ∷ s.calls
    pub warnings : t.warnings ≡ s.warnings

  -- The name was not copied, and nothing is said of its block; or it names no option of a context,
  -- or libzmq refused, and every block is given back.
  pub data Unselected (copy_fails invalid refused : String) (accepts : ℤ → Type 0) (e : MexError)
      (t : State H) : Type 0 where
    not_copied :
        Fails (λ i. i ≡ copy_fails) s e t → Unselected copy_fails invalid refused accepts e t
    unknown :
        (chars : Bytes)
        → H.get_string b (name_length H b) ≡ some chars
        → IsNoOption (up_to_zero chars)
        → e.id ≡ invalid
        → Same s t
        → Unselected copy_fails invalid refused accepts e t
    not_accepted :
        (x : Selected t)
        → ¬ accepts x.ret
        → e.id ≡ refused
        → Unselected copy_fails invalid refused accepts e t

module _ (H : Host) (a b : H.Array) (s : State H) where
  -- The option's name was found unknown: the block of the name is given back.
  pub unknown_option :
      {P : ℤ → Type 0} {call : ℤ → Call} {f : ℤ → H.World → ℤ × H.World} {x y z : String}
      {A : Type 0} {Q : A → State H → Type 0} (name : Block) (chars : Bytes) (t : State H)
      (m : String)
      → option_selection H.constants (up_to_zero chars) ≡ none
      → H.get_string b (name_length H b) ≡ some chars
      → Holds name s t
      → Ends Q (Unselected call f b s x y z P) (free_and_throw H name y m t)
  unknown_option name chars t m known given held =
      Ends.bind (free-Ends H name s.live t held.live) λ _ u freed. throws (
        unknown chars given (option_selection-IsNoOption H.constants (up_to_zero chars) known) refl
          (record {
            live = freed.live;
            calls = freed.calls ∙ held.calls;
            warnings = freed.warnings ∙ held.warnings;
          }))
