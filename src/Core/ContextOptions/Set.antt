-- ===== src/Core/ContextOptions/Set.antt =====
-- `zmq.core.ctx_set` on every input.
use matlab_zmq.Core.Arguments.{IsRefused, miscounted, no_text, no_single_row}
use matlab_zmq.Prelude.{
  Bool-cases, ◌≢◌, ℕ, eq_ℤ_iff, eq_ℤ, ap, false, ◌∙◌, length, arith, ◌||◌, ◌==◌, not, up_to_zero,
  Option, true, ◌⊎◌, Bytes, String, get_elem?, ◌≡◌, List, ℤ, [], ◌∷◌, none, some, refl, inl, inr,
  pos,
}
use matlab_zmq.Mex.Exec.Ends.{returns, throws, Ends}
use matlab_zmq.Core.Context.Laws.{differ, context_in-Ends}
use matlab_zmq.Mex.Memory.Laws.{cast-Ends, free-Ends, Freed, perform-Ends, Holds, read_string-Ends}
use matlab_zmq.Core.ContextOptions.{
  eq_ℤ, length, Option, Bytes, Call, Out, String, Block, argument, List, core_ctx_set, ctx_set_mex,
  set_selected, ℤ, option_selection,
}
use mathlib.Core.Bool.{false, not, true}
use matlab_zmq.Core.ContextOptions.Selected.{
  option_selection-IsContextOption, unknown_option, Selected, Unselected, not_copied, not_accepted,
}
use matlab_zmq.Core.Name.{name_length}
use matlab_zmq.Util.Conversions.FromM.Laws.{pointer_in, HoldsPointer}
use matlab_zmq.Mex.Exec.{MexError}
use matlab_zmq.Mex.Memory.{Call, Block, State, argument}
use matlab_zmq.Util.Conversions.ToM.{Out}
use matlab_zmq.Mex.Host.{Host, IsLawful, Allocates}
use matlab_zmq.Core.Name.Laws.{name_from_m-Ends}
use matlab_zmq.Mex.Exec.Ends

module _ (H : Host) (lawful : IsLawful H) (allocates : Allocates H) where
  -- `ctx_set` of a context to a value: what is selected and what fails.
  abbrev pub SetSelected : H.Array → H.Array → ℤ → State H → State H → Type 0
  SetSelected a b value s =
      Selected (λ o. Call.ctx_set (pointer_in H a) o value)
        (λ o. H.zmq_ctx_set (pointer_in H a) o value) b s

  abbrev pub SetFailed : H.Array → H.Array → ℤ → State H → MexError → State H → Type 0
  SetFailed a b value s =
      Unselected (λ o. Call.ctx_set (pointer_in H a) o value)
        (λ o. H.zmq_ctx_set (pointer_in H a) o value) b s "zmq:core:ctx_set:optNameCopyFail"
        "zmq:core:ctx_set:optNameInvalid" "zmq:core:ctx_set:coreAPISetFailure" (λ ret. ret ≡ pos 0)

  pub record SetOption (a b : H.Array) (value : ℤ) (s : State H) (outs : List Out) (t : State H)
      : Type 0 where
    pub selected : SetSelected a b value s t
    pub accepted : selected.ret ≡ pos 0
    pub no_outputs : outs ≡ []

  set_selected-Ends :
      (a b : H.Array) (value : ℤ) (name : Block) (chars : Bytes) (s t : State H) (o : Option ℤ)
      → option_selection H.constants (up_to_zero chars) ≡ o
      → H.get_string b (name_length H b) ≡ some chars
      → HoldsPointer H a
      → Holds name s t
      → Ends (SetOption a b value s) (SetFailed a b value s) (set_selected H a name value o t)
  unfolding set_selected
  set_selected-Ends a b value name chars s t none known given holds held =
      unknown_option H a b s name chars t _ known given held
  set_selected-Ends a b value name chars s t (some selection) known given holds held =
      let context = pointer_in H a in
      let call = Call.ctx_set context selection value in
      Ends.bind_value _ context t (context_in-Ends H a t holds) (
        Ends.bind (perform-Ends H call (H.zmq_ctx_set context selection value) t)
          λ ret u (called, answer, world).
            let made : (v : State H) → Freed s.live u v → SetSelected a b value s v = λ v freed.
              record {
                chars = chars;
                given = given;
                selection = selection;
                known =
                    option_selection-IsContextOption H.constants (up_to_zero chars) selection known;
                before = t.world;
                ret = ret;
                answered = answer;
                live = freed.live;
                calls = freed.calls ∙ called.calls ∙ ap (λ l. call ∷ l) held.calls;
                warnings = freed.warnings ∙ called.warnings ∙ held.warnings;
              } in
            Ends.either (not (eq_ℤ ret (pos 0))) _ _ u
              (λ e.
                Ends.bind (free-Ends H name s.live u (called.live ∙ held.live)) λ _ v freed.
                  throws (not_accepted (made v freed) (differ _ _ (ground arith)) refl))
              (λ e. Ends.bind (free-Ends H name s.live u (called.live ∙ held.live)) λ _ v freed.
                returns (record {
                  selected = made v freed;
                  accepted = (eq_ℤ_iff ret (pos 0)).0 (ground arith);
                  no_outputs = refl;
                })))

  core_ctx_set-Ends :
      (a b v : H.Array) (s : State H)
      → HoldsPointer H a
      → H.casts_to_int v ≡ true
      → Ends
          (SetOption a b (H.double_to_int (H.get_scalar v)) s)
          (SetFailed a b (H.double_to_int (H.get_scalar v)) s)
          (core_ctx_set H a b v s)
  unfolding core_ctx_set
  core_ctx_set-Ends a b v s holds casts =
      Ends.bind
        (Ends.mono (name_from_m-Ends H lawful allocates _ _ b s) (λ n t q. q)
          (λ e t f. not_copied f))
        λ name t (held, is_name).
          let value = H.double_to_int (H.get_scalar v) in
          Ends.bind_value _ value t (cast-Ends H (H.casts_to_int v) value t casts) (
            Ends.bind_value _ (up_to_zero is_name.chars) t
              (read_string-Ends H name.bytes t is_name.string)
              (set_selected-Ends a b value name is_name.chars s t _ refl is_name.given holds held))

not_one : (m n : ℕ) → not (m == 1) || not (n == 1) ≡ true → (m ≢ 1) ⊎ (n ≢ 1)
not_one m n e = elim (Bool-cases (m == 1)) [
  | inl a ↦ inr (λ z. ground (arith, z))
  | inr a ↦ inl (λ z. ground (arith, z))
]

module _ (H : Host) (lawful : IsLawful H) (allocates : Allocates H) (prhs : List H.Array)
    (s : State H) where
  -- The three arguments: a row of text, and one number.
  pub record SetArguments : Type 0 where
    pub context_array : H.Array
    pub option_array : H.Array
    pub value_array : H.Array
    pub three_arguments : prhs ≡ context_array ∷ option_array ∷ value_array ∷ []
    pub is_char : H.is_char option_array ≡ true
    pub is_row : H.get_m option_array ≡ 1
    pub is_numeric : H.is_numeric value_array ≡ true
    pub one_row : H.get_m value_array ≡ 1
    pub one_column : H.get_n value_array ≡ 1

  pub data Set (outs : List Out) (t : State H) : Type 0 where
    done :
        (xs : SetArguments)
        → SetOption H lawful allocates xs.context_array xs.option_array
            (H.double_to_int (H.get_scalar xs.value_array))
            s
            outs
            t
        → Set outs t

  -- The third argument fails a test.
  pub data IsNoNumber (i : String) : Type 0 where
    not_numeric :
        (v : H.Array)
        → get_elem? prhs 2 ≡ some v
        → H.is_numeric v ≡ false
        → i ≡ "zmq:core:ctx_set:optionNotNumeric"
        → IsNoNumber i
    not_single :
        (v : H.Array)
        → get_elem? prhs 2 ≡ some v
        → (H.get_m v ≢ 1) ⊎ (H.get_n v ≢ 1)
        → i ≡ "zmq:core:ctx_set:optionNotSingleNumeric"
        → IsNoNumber i

  abbrev pub SetRefusals : String → Type 0
  SetRefusals i =
      IsRefused H 3 "zmq:core:ctx_set:invalidArgs" "zmq:core:ctx_set:optionNotString"
        "zmq:core:ctx_set:optionNotRowVec" prhs i
      ⊎ IsNoNumber i

  pub data NotSet (e : MexError) (t : State H) : Type 0 where
    refused : SetRefusals e.id → t ≡ s → NotSet e t
    failed :
        (xs : SetArguments)
        → SetFailed H lawful allocates xs.context_array xs.option_array
            (H.double_to_int (H.get_scalar xs.value_array))
            s
            e
            t
        → NotSet e t

module _ (H : Host) (lawful : IsLawful H) (allocates : Allocates H) where
  pub ctx_set_mex-Ends :
      (prhs : List H.Array) (s : State H)
      → ((a : H.Array) → get_elem? prhs 0 ≡ some a → HoldsPointer H a)
      → ((v : H.Array) → get_elem? prhs 2 ≡ some v → H.casts_to_int v ≡ true)
      → Ends
          (Set H lawful allocates prhs s)
          (NotSet H lawful allocates prhs s)
          (ctx_set_mex H prhs s)
  unfolding ctx_set_mex argument
  ctx_set_mex-Ends [] s holds casts =
      throws (refused (inl (miscounted (λ z. omega (arith, z)) refl)) refl)
  ctx_set_mex-Ends (a ∷ []) s holds casts =
      throws (refused (inl (miscounted (λ z. omega (arith, z)) refl)) refl)
  ctx_set_mex-Ends (a ∷ b ∷ []) s holds casts =
      throws (refused (inl (miscounted (λ z. omega (arith, z)) refl)) refl)
  ctx_set_mex-Ends (a ∷ b ∷ v ∷ []) s holds casts =
      Ends.reject (not (H.is_char b)) _ _ _ s
        (λ e. refused (inl (no_text b refl refl (ground arith) refl)) refl)
        λ char.
          Ends.reject (not (H.get_m b == 1)) _ _ _ s
            (λ e. refused (inl (no_single_row b refl refl (λ z. ground (arith, z)) refl)) refl)
            λ row.
              Ends.reject (not (H.is_numeric v)) _ _ _ s
                (λ e. refused (inr (not_numeric v refl (ground arith) refl)) refl)
                λ numeric.
                  Ends.reject (not (H.get_m v == 1) || not (H.get_n v == 1)) _ _ _ s
                    (λ e.
                      refused (inr (not_single v refl (not_one (H.get_m v) (H.get_n v) e) refl))
                        refl)
                    λ single.
                      let xs : SetArguments H lawful allocates (a ∷ b ∷ v ∷ []) s = record {
                        context_array = a;
                        option_array = b;
                        value_array = v;
                        three_arguments = refl;
                        is_char = ground arith;
                        is_row = ground arith;
                        is_numeric = ground arith;
                        one_row = ground arith;
                        one_column = ground arith;
                      } in
                      Ends.mono
                        (core_ctx_set-Ends H lawful allocates a b v s (holds a refl) (casts v refl))
                        (λ outs t d. done xs d) (λ e t f. failed xs f)
  ctx_set_mex-Ends (a ∷ b ∷ v ∷ w ∷ rest) s holds casts =
      let more : (length (a ∷ b ∷ v ∷ w ∷ rest) == 3) ≡ false = ground arith in
      rw more (throws (refused (inl (miscounted (λ z. omega (arith, z)) refl)) refl))
