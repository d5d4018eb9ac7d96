-- ===== src/Core/Getsockopt/Laws.antt =====
-- `zmq.core.getsockopt` on every input.
use matlab_zmq.Core.Arguments.{IsRefused, miscounted, no_text, no_single_row}
use matlab_zmq.Core.Getsockopt.{length, not, Out, List, argument, getsockopt_mex}
use matlab_zmq.Prelude.{
  length, arith, ◌==◌, false, not, true, String, get_elem?, ◌≡◌, List, [], ◌∷◌, some, refl,
}
use matlab_zmq.Mex.Exec.{MexError}
use matlab_zmq.Mex.Exec.Ends.{throws, Ends}
use matlab_zmq.Mex.Memory.{State, argument}
use matlab_zmq.Util.Conversions.FromM.Laws.{HoldsPointer}
use matlab_zmq.Util.Conversions.ToM.{Out}
use matlab_zmq.Mex.Host.{Host, IsLawful}
use matlab_zmq.Core.Getsockopt.GetOption.{Done, Failed, get_option-Ends, Writes}
use matlab_zmq.Mex.Exec.Ends

module _ (H : Host) (prhs : List H.Array) (s : State H) where
  -- The two arguments, whose second is a row of text.
  pub record Arguments : Type 0 where
    pub socket_array : H.Array
    pub option_array : H.Array
    pub two_arguments : prhs ≡ socket_array ∷ option_array ∷ []
    pub is_char : H.is_char option_array ≡ true
    pub is_row : H.get_m option_array ≡ 1

  pub data Got (outs : List Out) (t : State H) : Type 0 where
    done : (xs : Arguments) → Done H xs.socket_array xs.option_array s outs t → Got outs t

  -- The errors of the tests of the arguments.
  abbrev pub ArgumentErrors : String → Type 0
  ArgumentErrors i =
      IsRefused H 2 "zmq:core:getsockopts:invalidArgs" "zmq:core:getsockopts:invalidOptionName"
        "zmq:core:getsockopts:optionNameNotRowVec" prhs i

  pub data NotGot (e : MexError) (t : State H) : Type 0 where
    refused : ArgumentErrors e.id → t ≡ s → NotGot e t
    failed : (xs : Arguments) → Failed H xs.socket_array xs.option_array s e t → NotGot e t

module _ (H : Host) (lawful : IsLawful H) where
  pub getsockopt_mex-Ends :
      (prhs : List H.Array) (s : State H)
      → ((a : H.Array) → get_elem? prhs 0 ≡ some a → HoldsPointer H a)
      → ((b : H.Array) → get_elem? prhs 1 ≡ some b → Writes H b)
      → Ends (Got H prhs s) (NotGot H prhs s) (getsockopt_mex H prhs s)
  unfolding getsockopt_mex argument
  getsockopt_mex-Ends [] s holds writes =
      throws (refused (miscounted (λ z. omega (arith, z)) refl) refl)
  getsockopt_mex-Ends (a ∷ []) s holds writes =
      throws (refused (miscounted (λ z. omega (arith, z)) refl) refl)
  getsockopt_mex-Ends (a ∷ b ∷ []) s holds writes =
      Ends.reject (not (H.is_char b)) _ _ _ s
        (λ e. refused (no_text b refl refl (ground arith) refl) refl)
        λ char.
          Ends.reject (not (H.get_m b == 1)) _ _ _ s
            (λ e. refused (no_single_row b refl refl (λ z. ground (arith, z)) refl) refl)
            λ row.
              let xs : Arguments H (a ∷ b ∷ []) s = record {
                socket_array = a;
                option_array = b;
                two_arguments = refl;
                is_char = ground arith;
                is_row = ground arith;
              } in
              Ends.mono (get_option-Ends H lawful a b s (holds a refl) (writes b refl))
                (λ outs t d. done xs d) (λ e t f. failed xs f)
  getsockopt_mex-Ends (a ∷ b ∷ c ∷ rest) s holds writes =
      let more : (length (a ∷ b ∷ c ∷ rest) == 2) ≡ false = ground arith in
      rw more (throws (refused (miscounted (λ z. omega (arith, z)) refl) refl))
