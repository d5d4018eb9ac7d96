-- ===== src/Session/Contexts.antt =====
-- What each function on contexts does, as the session sees it.
use matlab_zmq.Prelude.{
  Bytes, [], ◌≡◌, ◌≢◌, ◌⊎◌, inl, inr, refl, List, ◌∷◌, some, up_to_zero, ℕ, ℤ, String,
}
use matlab_zmq.Core.ContextOptions.Selected.{IsContextOption}
use matlab_zmq.Core.Name.{name_length}
use matlab_zmq.Mex.Host.{Host, IsLawful, Allocates}
use matlab_zmq.Mex.Memory.{State, Call}
use matlab_zmq.Mex.Memory.Laws.{Called}
use matlab_zmq.Mex.Exec.{MexError}
use matlab_zmq.Util.Conversions.ToM.{Out, pointer_array}
use matlab_zmq.Util.Conversions.FromM.Laws.{pointer_in}
use matlab_zmq.Session.{Command}
use matlab_zmq.Session.Spec.{Returned, Thrown, Extends, Permits, Blocks, FirstContext, SecondName}
use matlab_zmq.Session.Steps.{at_first, at_second, Quiet-Thrown, unchanged_Thrown}
use matlab_zmq.Core.Context.Laws as ContextLaws
use matlab_zmq.Core.ContextOptions.Get as ContextGet
use matlab_zmq.Core.ContextOptions.Set as ContextSet
use matlab_zmq.Core.ContextOptions.Selected as ContextSelected

-- The pointer of a first argument.
pub context_at :
    {H : Host} (a : H.Array) (rest prhs : List H.Array)
    → prhs ≡ a ∷ rest
    → FirstContext H prhs (pointer_in H a)
context_at a rest prhs e = record { array = a; first = at_first a rest prhs e; pointer = refl }

-- The name in a second argument.
pub name_at :
    {H : Host} (a b : H.Array) (rest prhs : List H.Array) (chars : Bytes)
    → prhs ≡ a ∷ b ∷ rest
    → H.get_string b (name_length H b) ≡ some chars
    → SecondName H prhs (up_to_zero chars)
name_at a b rest prhs chars e given = record {
  array = b;
  second = at_second a b rest prhs e;
  chars = chars;
  given = given;
  whole = refl;
}

module _ {H : Host} (prhs : List H.Array) (s : State H) where
  pub ctx_new_Returned :
      (outs : List Out) (t : State H)
      → (p : ℕ) × (p ≢ 0)
        × (p ≡ (H.zmq_ctx_new s.world).0)
        × (outs ≡ pointer_array H p ∷ [])
        × Called Call.ctx_new s t
        × (prhs ≡ [])
      → Returned (Command.ctx_new prhs) s t
  ctx_new_Returned outs t (p, valid, answer, out, called, empty) = record {
    calls = Extends.one_call _ Permits.by_ctx_new called.calls;
    blocks = Blocks.all_freed called.live;
  }

  pub ctx_new_Thrown :
      (e : MexError) (t : State H)
      → ((e.id ≡ "zmq:core:ctx_new:invalidArgs") × (t ≡ s) × (prhs ≢ []))
        ⊎ ((e.id ≡ "zmq:core:ctx_new:contextInitFail")
            × ((H.zmq_ctx_new s.world).0 ≡ 0)
            × Called Call.ctx_new s t
            × (prhs ≡ []))
      → Thrown (Command.ctx_new prhs) s t
  ctx_new_Thrown e t (inl (known, same, given)) = unchanged_Thrown s t _ same
  ctx_new_Thrown e t (inr (known, failed, called, empty)) =
      Extends.one_call _ Permits.by_ctx_new called.calls

-- `ctx_shutdown` and `ctx_term`, which differ in the call.
module _ {H : Host} (call : ℕ → Call) (f : ℕ → H.World → ℤ × H.World) (c : Command H)
    (prhs : List H.Array) (s : State H)
    (permits : (p : ℕ) → FirstContext H prhs p → Permits H c (call p)) where
  Ended-Thrown : (t : State H) → ContextLaws.Ended call f prhs s t → Thrown c s t
  Ended-Thrown t x =
      Extends.one_call _ (permits _ (context_at x.context_array _ prhs x.one_argument))
        x.called.calls

  pub context_Returned :
      (outs : List Out) (t : State H) → ContextLaws.Finished call f prhs s outs t → Returned c s t
  context_Returned outs t d = record {
    calls = Ended-Thrown t d.ended;
    blocks = Blocks.all_freed d.ended.called.live;
  }

  pub context_Thrown :
      (invalid : String) (reports : ℤ → String → Type 0) (e : MexError) (t : State H)
      → ContextLaws.Unfinished call f prhs s invalid reports e t
      → Thrown c s t
  context_Thrown invalid reports e t (ContextLaws.refused count k same) =
      unchanged_Thrown s t _ same
  context_Thrown invalid reports e t (ContextLaws.failed x n r) = Ended-Thrown t x

-- `ctx_get` and `ctx_set` behind the tests of their arguments.
module _ {H : Host} (call : ℤ → Call) (f : ℤ → H.World → ℤ × H.World) (b : H.Array) (s : State H)
    (c : Command H)
    (permits : (chars : Bytes) (o : ℤ)
      → H.get_string b (name_length H b) ≡ some chars
      → IsContextOption H.constants (up_to_zero chars) o
      → Permits H c (call o)) where
  Selected-Thrown : (t : State H) → ContextSelected.Selected call f b s t → Thrown c s t
  Selected-Thrown t x = Extends.one_call _ (permits x.chars x.selection x.given x.known) x.calls

  Unselected-Thrown :
      (i j k : String) (accepts : ℤ → Type 0) (e : MexError) (t : State H)
      → ContextSelected.Unselected call f b s i j k accepts e t
      → Thrown c s t
  Unselected-Thrown i j k accepts e t (ContextSelected.not_copied q) = Quiet-Thrown s t c q.quiet
  Unselected-Thrown i j k accepts e t (ContextSelected.unknown n g u known same) =
      Extends.nothing same.calls
  Unselected-Thrown i j k accepts e t (ContextSelected.not_accepted x n known) = Selected-Thrown t x

module _ (H : Host) (lawful : IsLawful H) (allocates : Allocates H) (prhs : List H.Array)
    (s : State H) where
  pub ctx_get_Returned :
      (outs : List Out) (t : State H)
      → ContextGet.Got H lawful allocates prhs s outs t
      → Returned (Command.ctx_get prhs) s t
  ctx_get_Returned outs t (ContextGet.got xs n g out) = record {
    calls =
        Selected-Thrown _ _ xs.option_array s _
          (λ chars o given known.
            Permits.by_ctx_get (up_to_zero chars)
              (context_at xs.context_array _ prhs xs.two_arguments)
              (name_at _ xs.option_array _ prhs chars xs.two_arguments given) known)
          t g.selected;
    blocks = Blocks.all_freed g.selected.live;
  }

  pub ctx_get_Thrown :
      (e : MexError) (t : State H)
      → ContextGet.NotGot H lawful allocates prhs s e t
      → Thrown (Command.ctx_get prhs) s t
  ctx_get_Thrown e t (ContextGet.refused k same) = unchanged_Thrown s t _ same
  ctx_get_Thrown e t (ContextGet.failed xs x) =
      Unselected-Thrown _ _ xs.option_array s _
        (λ chars o given known.
          Permits.by_ctx_get (up_to_zero chars)
            (context_at xs.context_array _ prhs xs.two_arguments)
            (name_at _ xs.option_array _ prhs chars xs.two_arguments given) known)
        _ _ _ _ e t x

  pub ctx_set_Returned :
      (outs : List Out) (t : State H)
      → ContextSet.Set H lawful allocates prhs s outs t
      → Returned (Command.ctx_set prhs) s t
  ctx_set_Returned outs t (ContextSet.done xs d) = record {
    calls =
        Selected-Thrown _ _ xs.option_array s _
          (λ chars o given known.
            Permits.by_ctx_set (up_to_zero chars)
              (context_at xs.context_array _ prhs xs.three_arguments)
              (name_at _ xs.option_array _ prhs chars xs.three_arguments given) known
              (record { array = _; third = rw (xs.three_arguments) refl; number = refl }))
          t d.selected;
    blocks = Blocks.all_freed d.selected.live;
  }

  pub ctx_set_Thrown :
      (e : MexError) (t : State H)
      → ContextSet.NotSet H lawful allocates prhs s e t
      → Thrown (Command.ctx_set prhs) s t
  ctx_set_Thrown e t (ContextSet.refused k same) = unchanged_Thrown s t _ same
  ctx_set_Thrown e t (ContextSet.failed xs x) =
      Unselected-Thrown _ _ xs.option_array s _
        (λ chars o given known.
          Permits.by_ctx_set (up_to_zero chars)
            (context_at xs.context_array _ prhs xs.three_arguments)
            (name_at _ xs.option_array _ prhs chars xs.three_arguments given) known
            (record { array = _; third = rw (xs.three_arguments) refl; number = refl }))
        _ _ _ _ e t x
