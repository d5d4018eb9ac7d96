-- ===== src/Core/Setsockopt/Laws.antt =====
-- `zmq.core.setsockopt` on every input.
use matlab_zmq.Core.Arguments.{IsRefused, miscounted, no_text, no_single_row}
use matlab_zmq.Prelude.{
  false, length, arith, ◌==◌, not, some, get_elem?, true, String, ◌≡◌, List, [], ◌∷◌, refl,
}
use matlab_zmq.Core.Setsockopt.{length, not, some, Out, List, argument, setsockopt_mex}
use matlab_zmq.Mex.Exec.Ends.{throws, Ends}
use matlab_zmq.Util.Conversions.FromM.Laws.{HoldsPointer}
use matlab_zmq.Mex.Exec.{MexError}
use matlab_zmq.Util.Conversions.ToM.{Out}
use matlab_zmq.Mex.Memory.{State, argument}
use matlab_zmq.Mex.Host.{Host, IsLawful}
use matlab_zmq.Core.Setsockopt.SetOption.{CastsForOption, Done, Failed, set_option-Ends}
use matlab_zmq.Mex.Exec.Ends

module _ (H : Host) (prhs : List H.Array) where
  -- The errors of the tests of the arguments.
  abbrev pub ArgumentErrors : String → Type 0
  ArgumentErrors i =
      IsRefused H 3 "zmq:core:setsockopt:invalidArgs" "zmq:core:setsockopt:invalidOptionName"
        "zmq:core:setsockopt:optionNameNotRowVec" prhs i

  -- The three arguments, whose second is a row of text.
  pub record Arguments : Type 0 where
    pub socket_array : H.Array
    pub option_array : H.Array
    pub value : H.Array
    pub three_arguments : prhs ≡ socket_array ∷ option_array ∷ value ∷ []
    pub is_char : H.is_char option_array ≡ true
    pub is_row : H.get_m option_array ≡ 1

module _ (H : Host) (lawful : IsLawful H) (prhs : List H.Array) (s : State H) where
  pub data Set (outs : List Out) (t : State H) : Type 0 where
    done :
        (xs : Arguments H prhs)
        → Done H lawful xs.socket_array xs.option_array xs.value s outs t
        → Set outs t

  pub data NotSet (e : MexError) (t : State H) : Type 0 where
    refused : ArgumentErrors H prhs e.id → t ≡ s → NotSet e t
    failed :
        (xs : Arguments H prhs)
        → Failed H lawful xs.socket_array xs.option_array xs.value s e t
        → NotSet e t

module _ (H : Host) (lawful : IsLawful H) where
  -- On any arguments whose first is large enough for a pointer, and whose third, where the option
  -- that the second names is of an integer type, holds a number that is a value of that type, the
  -- function is free of undefined behaviour. It throws the error of a test that the
  -- arguments fail; or else it fails before any call, or hands the value to libzmq once: for the option that was named, encoded by the type of that
  -- option, and of a text as many bytes as the array has elements, of any other value all its
  -- bytes. Then it throws the error that libzmq left, or frees what it allocated and returns the
  -- code (or nothing, for a negative code without an error number).
  pub setsockopt_mex-Ends :
      (prhs : List H.Array) (s : State H)
      → ((a : H.Array) → get_elem? prhs 0 ≡ some a → HoldsPointer H a)
      → ((b v : H.Array)
          → get_elem? prhs 1 ≡ some b
          → get_elem? prhs 2 ≡ some v
          → CastsForOption H b v)
      → Ends (Set H lawful prhs s) (NotSet H lawful prhs s) (setsockopt_mex H prhs s)
  unfolding setsockopt_mex argument
  setsockopt_mex-Ends [] s holds casts =
      throws (refused (miscounted (λ z. omega (arith, z)) refl) refl)
  setsockopt_mex-Ends (a ∷ []) s holds casts =
      throws (refused (miscounted (λ z. omega (arith, z)) refl) refl)
  setsockopt_mex-Ends (a ∷ b ∷ []) s holds casts =
      throws (refused (miscounted (λ z. omega (arith, z)) refl) refl)
  setsockopt_mex-Ends (a ∷ b ∷ v ∷ []) s holds casts =
      Ends.reject (not (H.is_char b)) _ _ _ s
        (λ e. refused (no_text b refl refl (ground arith) refl) refl)
        λ char.
          Ends.reject (not (H.get_m b == 1)) _ _ _ s
            (λ e. refused (no_single_row b refl refl (λ z. ground (arith, z)) refl) refl)
            λ row.
              let xs : Arguments H (a ∷ b ∷ v ∷ []) = record {
                socket_array = a;
                option_array = b;
                value = v;
                three_arguments = refl;
                is_char = ground arith;
                is_row = ground arith;
              } in
              Ends.mono (set_option-Ends H lawful a b v s (holds a refl) (casts b v refl refl))
                (λ outs t d. done xs d) (λ e t f. failed xs f)
  setsockopt_mex-Ends (a ∷ b ∷ v ∷ w ∷ rest) s holds casts =
      let more : (length (a ∷ b ∷ v ∷ w ∷ rest) == 3) ≡ false = ground arith in
      rw more (throws (refused (miscounted (λ z. omega (arith, z)) refl) refl))
