-- ===== src/Core/ContextOptions/Get.antt =====
-- `zmq.core.ctx_get` on every input.
use matlab_zmq.Core.Arguments.{IsRefused, miscounted, no_text, no_single_row}
use matlab_zmq.Mex.Memory.Laws.{free-Ends, Freed, perform-Ends, Holds, read_string-Ends}
use matlab_zmq.Core.ContextOptions.{
  length, Option, Bytes, int_values, Block, Call, Out, String, argument, is_negative, pointer_array,
  List, core_ctx_get, ctx_get_mex, get_selected, wrap, ℤ, option_selection,
}
use matlab_zmq.Prelude.{
  length, ap, arith, ◌%◌, ◌==◌, not, ◌∙◌, Option, sym, up_to_zero, Bytes, false, get_elem?, true,
  String, is_negative, ◌≡◌, List, ℕ, ℤ, [], ◌∷◌, none, some, refl, pos, negsuc,
}
use matlab_zmq.Mex.Exec.Ends.{returns, throws, Ends}
use matlab_zmq.Core.ContextOptions.Selected.{
  option_selection-IsContextOption, unknown_option, Selected, Unselected, not_copied, not_accepted,
}
use mathlib.Core.Bool.{not, false, true, false≢true}
use matlab_zmq.Core.Name.{name_length}
use matlab_zmq.Prelude.Words.{int_values, InRange, wrap}
use matlab_zmq.Util.Conversions.FromM.Laws.{pointer_in, HoldsPointer}
use matlab_zmq.Mex.Exec.{MexError}
use matlab_zmq.Mex.Memory.{Block, Call, argument, State}
use matlab_zmq.Util.Conversions.ToM.{Out, pointer_array}
use matlab_zmq.Mex.Host.{Host, IsLawful, Allocates}
use matlab_zmq.Core.Name.Laws.{name_from_m-Ends}
use matlab_zmq.Core.Context.Laws.{context_in-Ends}
use matlab_zmq.Mex.Exec.Ends

abbrev pub IsNonnegative : ℤ → Type 0
IsNonnegative z = is_negative z ≡ false

module _ (H : Host) (lawful : IsLawful H) (allocates : Allocates H) where
  -- `ctx_get` of a context: what is selected and what fails.
  abbrev pub GetSelected : H.Array → H.Array → State H → State H → Type 0
  GetSelected a b s = Selected (Call.ctx_get (pointer_in H a)) (H.zmq_ctx_get (pointer_in H a)) b s

  abbrev pub GetFailed : H.Array → H.Array → State H → MexError → State H → Type 0
  GetFailed a b s =
      Unselected (Call.ctx_get (pointer_in H a)) (H.zmq_ctx_get (pointer_in H a)) b s
        "zmq:core:ctx_get:optNameCopyFail" "zmq:core:ctx_get:optNameInvalid"
        "zmq:core:ctx_get:coreAPIInvalidOption" IsNonnegative

  pub record GotOption (a b : H.Array) (s : State H) (ret : ℤ) (t : State H) : Type 0 where
    pub selected : GetSelected a b s t
    pub same_value : ret ≡ selected.ret
    pub nonnegative : IsNonnegative ret

  get_selected-Ends :
      (a b : H.Array) (name : Block) (chars : Bytes) (s t : State H) (o : Option ℤ)
      → option_selection H.constants (up_to_zero chars) ≡ o
      → H.get_string b (name_length H b) ≡ some chars
      → HoldsPointer H a
      → Holds name s t
      → Ends (GotOption a b s) (GetFailed a b s) (get_selected H a name o t)
  unfolding get_selected
  get_selected-Ends a b name chars s t none known given holds held =
      unknown_option H a b s name chars t _ known given held
  get_selected-Ends a b name chars s t (some selection) known given holds held =
      let context = pointer_in H a in
      let call = Call.ctx_get context selection in
      Ends.bind_value _ context t (context_in-Ends H a t holds) (
        Ends.bind (perform-Ends H call (H.zmq_ctx_get context selection) t)
          λ ret u (called, answer, world).
            let made : (v : State H) → Freed s.live u v → GetSelected a b s v = λ v freed. record {
              chars = chars;
              given = given;
              selection = selection;
              known =
                  option_selection-IsContextOption H.constants (up_to_zero chars) selection known;
              before = t.world;
              ret = ret;
              answered = answer;
              live = freed.live;
              calls = freed.calls ∙ called.calls ∙ ap (λ l. call ∷ l) held.calls;
              warnings = freed.warnings ∙ called.warnings ∙ held.warnings;
            } in
            Ends.either (is_negative ret) _ _ u
              (λ e. Ends.bind (free-Ends H name s.live u (called.live ∙ held.live)) λ _ v freed.
                throws (not_accepted (made v freed) (λ z. false≢true (sym z ∙ e)) refl))
              (λ e. Ends.bind (free-Ends H name s.live u (called.live ∙ held.live)) λ _ v freed.
                returns (record { selected = made v freed; same_value = refl; nonnegative = e })))

  core_ctx_get-Ends :
      (a b : H.Array) (s : State H)
      → HoldsPointer H a
      → Ends (GotOption a b s) (GetFailed a b s) (core_ctx_get H a b s)
  unfolding core_ctx_get
  core_ctx_get-Ends a b s holds =
      Ends.bind
        (Ends.mono (name_from_m-Ends H lawful allocates _ _ b s) (λ n t q. q)
          (λ e t f. not_copied f))
        λ name t (held, is_name).
          Ends.bind_value _ (up_to_zero is_name.chars) t
            (read_string-Ends H name.bytes t is_name.string)
            (get_selected-Ends a b name is_name.chars s t _ refl is_name.given holds held)

module _ (H : Host) (lawful : IsLawful H) (allocates : Allocates H) (prhs : List H.Array)
    (s : State H) where
  pub record GetArguments : Type 0 where
    pub context_array : H.Array
    pub option_array : H.Array
    pub two_arguments : prhs ≡ context_array ∷ option_array ∷ []
    pub is_char : H.is_char option_array ≡ true
    pub is_row : H.get_m option_array ≡ 1

  -- The value, as a number of the size of a pointer.
  pub data Got (outs : List Out) (t : State H) : Type 0 where
    got :
        (xs : GetArguments) (n : ℕ)
        → GotOption H lawful allocates xs.context_array xs.option_array s (pos n) t
        → outs ≡ pointer_array H n ∷ []
        → Got outs t

  abbrev pub GetRefusals : String → Type 0
  GetRefusals i =
      IsRefused H 2 "zmq:core:ctx_get:invalidArgs" "zmq:core:ctx_get:optionNotString"
        "zmq:core:ctx_get:optionNotRowVec" prhs i

  pub data NotGot (e : MexError) (t : State H) : Type 0 where
    refused : GetRefusals e.id → t ≡ s → NotGot e t
    failed :
        (xs : GetArguments)
        → GetFailed H lawful allocates xs.context_array xs.option_array s e t
        → NotGot e t

same_range : (x y : ℤ) → x ≡ y → InRange int_values y → InRange int_values x
same_range x y e h = rw e h

-- The codes of `zmq_ctx_get` are of type `int`.
abbrev pub GetsInts : Host → Type 0
GetsInts H = (c : ℕ) (o : ℤ) (w : H.World) → InRange int_values (H.zmq_ctx_get c o w).0

module _ (H : Host) (lawful : IsLawful H) (allocates : Allocates H) (ints : GetsInts H) where
  got_option :
      (prhs : List H.Array) (s t : State H) (ret : ℤ) (xs : GetArguments H lawful allocates prhs s)
      → GotOption H lawful allocates xs.context_array xs.option_array s ret t
      → Got H lawful allocates prhs s (pointer_array H (wrap int_values ret) ∷ []) t
  unfolding wrap
  got_option prhs s t (negsuc n) xs g = absurd (false≢true (sym g.nonnegative))
  got_option prhs s t (pos n) xs g =
      let range : InRange int_values (pos n) =
        same_range (pos n) _ (g.same_value ∙ g.selected.answered)
          (ints (pointer_in H xs.context_array) g.selected.selection g.selected.before) in
      let whole : n % int_values ≡ n = omega arith in
      got xs n g (ap (λ z. pointer_array H z ∷ []) whole)

  pub ctx_get_mex-Ends :
      (prhs : List H.Array) (s : State H)
      → ((a : H.Array) → get_elem? prhs 0 ≡ some a → HoldsPointer H a)
      → Ends
          (Got H lawful allocates prhs s)
          (NotGot H lawful allocates prhs s)
          (ctx_get_mex H prhs s)
  unfolding ctx_get_mex argument
  ctx_get_mex-Ends [] s holds = throws (refused (miscounted (λ z. omega (arith, z)) refl) refl)
  ctx_get_mex-Ends (a ∷ []) s holds =
      throws (refused (miscounted (λ z. omega (arith, z)) refl) refl)
  ctx_get_mex-Ends (a ∷ b ∷ []) s holds =
      Ends.reject (not (H.is_char b)) _ _ _ s
        (λ e. refused (no_text b refl refl (ground arith) refl) refl)
        λ char.
          Ends.reject (not (H.get_m b == 1)) _ _ _ s
            (λ e. refused (no_single_row b refl refl (λ z. ground (arith, z)) refl) refl)
            λ row.
              let xs : GetArguments H lawful allocates (a ∷ b ∷ []) s = record {
                context_array = a;
                option_array = b;
                two_arguments = refl;
                is_char = ground arith;
                is_row = ground arith;
              } in
              Ends.bind
                (Ends.mono (core_ctx_get-Ends H lawful allocates a b s (holds a refl)) (λ p t q. q)
                  (λ e t f. failed xs f))
                λ ret t g. returns (got_option (a ∷ b ∷ []) s t ret xs g)
  ctx_get_mex-Ends (a ∷ b ∷ c ∷ rest) s holds =
      let more : (length (a ∷ b ∷ c ∷ rest) == 2) ≡ false = ground arith in
      rw more (throws (refused (miscounted (λ z. omega (arith, z)) refl) refl))
