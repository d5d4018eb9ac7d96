-- ===== src/Core/Context/Laws.antt =====
-- Contexts: what is called, and which error is thrown.
use mathlib.Core.Bool.{false≢true}
use matlab_zmq.Prelude.{
  ==_iff, arith, ◌∙◌, length, sym, eq_ℤ_iff, ◌==◌, ◌⊎◌, take, true, false, is_negative, some, ◌≢◌,
  get_elem?, ◌≡◌, String, eq_ℤ, List, ℕ, ℤ, [], ◌∷◌, refl, inl, inr,
}
use matlab_zmq.Core.Context.{
  length, pointer_array, is_negative, Out, Call, eq_ℤ, List, argument, ℕ, ℤ, ctx_new_mex,
  ctx_shutdown_mex, ctx_term_mex, context_in,
}
use matlab_zmq.Mex.Exec.Ends.{returns, throws, Ends}
use matlab_zmq.Mex.Memory.Laws.{perform-Ends, read-Ends, Called}
use matlab_zmq.Util.Conversions.ToM.{pointer_array, Out}
use matlab_zmq.Util.Conversions.FromM.Laws.{pointer_in, HoldsPointer}
use matlab_zmq.Mex.Memory.{Call, State, argument}
use matlab_zmq.Mex.Exec.{MexError}
use matlab_zmq.Mex.Host.{Host}
use matlab_zmq.Mex.Exec.Ends

module _ {H : Host} (call : ℕ → Call) (f : ℕ → H.World → ℤ × H.World) (prhs : List H.Array)
    (s : State H) where
  -- The one argument was read as a pointer, and the function of libzmq was called with it once.
  pub record Ended (t : State H) : Type 0 where
    pub context_array : H.Array
    pub one_argument : prhs ≡ context_array ∷ []
    pub rc : ℤ
    pub answered : rc ≡ (f (pointer_in H context_array) s.world).0
    pub left : t.world ≡ (f (pointer_in H context_array) s.world).1
    pub called : Called (call (pointer_in H context_array)) s t

  pub record Finished (outs : List Out) (t : State H) : Type 0 where
    pub ended : Ended t
    pub not_negative : is_negative ended.rc ≡ false
    pub no_outputs : outs ≡ []

  -- Not one argument, or a negative code, which is reported by `errno`.
  pub data Unfinished (invalid : String) (reports : ℤ → String → Type 0) (e : MexError)
      (t : State H) : Type 0 where
    refused : length prhs ≢ 1 → e.id ≡ invalid → t ≡ s → Unfinished invalid reports e t
    failed :
        (x : Ended t)
        → is_negative x.rc ≡ true
        → reports (H.errno t.world) e.id
        → Unfinished invalid reports e t

-- Which identifier reports which `errno`.
pub data ShutdownError (H : Host) (err : ℤ) (i : String) : Type 0 where
  invalid :
      err ≡ H.constants.errnos.efault
      → i ≡ "zmq:core:ctx_shutdown:invalidContext"
      → ShutdownError H err i
  other :
      err ≢ H.constants.errnos.efault
      → i ≡ "zmq:core:ctx_shutdown:unknownOops"
      → ShutdownError H err i

pub data TermError (H : Host) (err : ℤ) (i : String) : Type 0 where
  invalid :
      err ≡ H.constants.errnos.efault → i ≡ "zmq:core:ctx_term:invalidContext" → TermError H err i
  interrupted :
      err ≢ H.constants.errnos.efault
      → err ≡ H.constants.errnos.eintr
      → i ≡ "zmq:core:ctx_term:termInter"
      → TermError H err i
  other :
      err ≢ H.constants.errnos.efault
      → err ≢ H.constants.errnos.eintr
      → i ≡ "zmq:core:ctx_term:unknownOops"
      → TermError H err i

pub differ : (x y : ℤ) → eq_ℤ x y ≡ false → x ≢ y
differ x y e z = false≢true (sym e ∙ (eq_ℤ_iff x y).1 z)

module _ (H : Host) where
  -- The pointer of an array that is large enough, NULL or not.
  pub context_in-Ends :
      {E : MexError → State H → Type 0} (a : H.Array) (s : State H)
      → HoldsPointer H a
      → Ends (λ p t. (p ≡ pointer_in H a) × (t ≡ s)) E (context_in H a s)
  unfolding context_in
  context_in-Ends a s holds =
      Ends.bind_value _ (take H.pointer_size (H.get_data a)) s
        (read-Ends H H.pointer_size (H.get_data a) s holds) (returns (refl, refl))

  -- `ctx_new` throws without a call exactly where there is an argument. Without one, it calls
  -- libzmq once and allocates nothing: it returns one array with the new context, which is not
  -- NULL, or throws where the context is NULL.
  pub ctx_new_mex-Ends :
      (prhs : List H.Array) (s : State H)
      → Ends
          (λ outs t.
            (p : ℕ) × (p ≢ 0)
            × (p ≡ (H.zmq_ctx_new s.world).0)
            × (outs ≡ pointer_array H p ∷ [])
            × Called Call.ctx_new s t
            × (prhs ≡ []))
          (λ e t.
            ((e.id ≡ "zmq:core:ctx_new:invalidArgs") × (t ≡ s) × (prhs ≢ []))
            ⊎ ((e.id ≡ "zmq:core:ctx_new:contextInitFail")
                × ((H.zmq_ctx_new s.world).0 ≡ 0)
                × Called Call.ctx_new s t
                × (prhs ≡ [])))
          (ctx_new_mex H prhs s)
  unfolding ctx_new_mex
  ctx_new_mex-Ends [] s =
      Ends.bind (perform-Ends H Call.ctx_new H.zmq_ctx_new s) λ p t (called, answer, world).
        Ends.reject (p == 0) _ _ _ t (λ e. inr (refl, sym answer ∙ (==_iff _ _).0 e, called, refl))
          (λ e. returns (p, (λ z. ground arith), answer, refl, called, refl))
  ctx_new_mex-Ends (a ∷ rest) s =
      let more : (length (a ∷ rest) == 0) ≡ false = ground arith in
      rw more (throws (inl (refl, refl, λ z. cc)))

  -- With a first argument that is large enough for a pointer, `ctx_shutdown` is free of undefined
  -- behaviour. It throws without a call where there is not exactly one argument; otherwise it shuts
  -- down exactly that context once, and throws exactly where the code is negative, by `errno`.
  pub ctx_shutdown_mex-Ends :
      (prhs : List H.Array) (s : State H)
      → ((a : H.Array) → get_elem? prhs 0 ≡ some a → HoldsPointer H a)
      → Ends
          (Finished Call.ctx_shutdown H.zmq_ctx_shutdown prhs s)
          (Unfinished Call.ctx_shutdown H.zmq_ctx_shutdown prhs s
            "zmq:core:ctx_shutdown:invalidArgs"
            (ShutdownError H))
          (ctx_shutdown_mex H prhs s)
  unfolding ctx_shutdown_mex argument
  ctx_shutdown_mex-Ends [] s holds = throws (refused (λ z. omega (arith, z)) refl refl)
  ctx_shutdown_mex-Ends (a ∷ []) s holds =
      Ends.bind_value _ (pointer_in H a) s (context_in-Ends a s (holds a refl)) (
        Ends.bind
          (perform-Ends H (Call.ctx_shutdown (pointer_in H a)) (H.zmq_ctx_shutdown (pointer_in H a))
            s)
          λ rc t (called, answer, world).
            let ended : Ended Call.ctx_shutdown H.zmq_ctx_shutdown (a ∷ []) s t = record {
              context_array = a;
              one_argument = refl;
              rc = rc;
              answered = answer;
              left = world;
              called = called;
            } in
            Ends.either (is_negative rc) _ _ t
              (λ n.
                Ends.either (eq_ℤ (H.errno t.world) H.constants.errnos.efault) _ _ t
                  (λ e. throws (failed ended n (ShutdownError.invalid ((eq_ℤ_iff _ _).0 e) refl)))
                  (λ e. throws (failed ended n (ShutdownError.other (differ _ _ e) refl))))
              (λ n. returns (record { ended = ended; not_negative = n; no_outputs = refl })))
  ctx_shutdown_mex-Ends (a ∷ b ∷ rest) s holds =
      let more : (length (a ∷ b ∷ rest) == 1) ≡ false = ground arith in
      rw more (throws (refused (λ z. omega (arith, z)) refl refl))

  -- With a first argument that is large enough for a pointer, `ctx_term` is free of undefined
  -- behaviour. It throws without a call where there is not exactly one argument; otherwise it
  -- terminates exactly that context once, and throws exactly where the code is negative: by `errno`,
  -- one of three errors, an interruption among them.
  pub ctx_term_mex-Ends :
      (prhs : List H.Array) (s : State H)
      → ((a : H.Array) → get_elem? prhs 0 ≡ some a → HoldsPointer H a)
      → Ends
          (Finished Call.ctx_term H.zmq_ctx_term prhs s)
          (Unfinished Call.ctx_term H.zmq_ctx_term prhs s "zmq:core:ctx_term:invalidArgs"
            (TermError H))
          (ctx_term_mex H prhs s)
  unfolding ctx_term_mex argument
  ctx_term_mex-Ends [] s holds = throws (refused (λ z. omega (arith, z)) refl refl)
  ctx_term_mex-Ends (a ∷ []) s holds =
      Ends.bind_value _ (pointer_in H a) s (context_in-Ends a s (holds a refl)) (
        Ends.bind
          (perform-Ends H (Call.ctx_term (pointer_in H a)) (H.zmq_ctx_term (pointer_in H a)) s)
          λ rc t (called, answer, world).
            let ended : Ended Call.ctx_term H.zmq_ctx_term (a ∷ []) s t = record {
              context_array = a;
              one_argument = refl;
              rc = rc;
              answered = answer;
              left = world;
              called = called;
            } in
            Ends.either (is_negative rc) _ _ t
              (λ n.
                Ends.either (eq_ℤ (H.errno t.world) H.constants.errnos.efault) _ _ t
                  (λ e. throws (failed ended n (TermError.invalid ((eq_ℤ_iff _ _).0 e) refl)))
                  (λ e.
                    Ends.either (eq_ℤ (H.errno t.world) H.constants.errnos.eintr) _ _ t
                      (λ i. throws (
                        failed ended n
                          (TermError.interrupted (differ _ _ e) ((eq_ℤ_iff _ _).0 i) refl)))
                      (λ i.
                        throws
                          (failed ended n (TermError.other (differ _ _ e) (differ _ _ i) refl)))))
              (λ n. returns (record { ended = ended; not_negative = n; no_outputs = refl })))
  ctx_term_mex-Ends (a ∷ b ∷ rest) s holds =
      let more : (length (a ∷ b ∷ rest) == 1) ≡ false = ground arith in
      rw more (throws (refused (λ z. omega (arith, z)) refl refl))
