-- ===== src/Session/Steps.antt =====
-- Steps of a command that call nothing.
use matlab_zmq.Prelude.{◌≡◌, ◌∙◌, refl, ap, List, ◌∷◌, some, get_elem?}
use matlab_zmq.Mex.Host.{Host}
use matlab_zmq.Mex.Memory.{State}
use matlab_zmq.Mex.Memory.Laws.{Quiet}
use matlab_zmq.Session.{Command}
use matlab_zmq.Session.Spec.{Thrown, Extends}

pub at_first :
    {A : Type 0} (a : A) (rest prhs : List A) → prhs ≡ a ∷ rest → get_elem? prhs 0 ≡ some a
at_first a rest prhs e = rw e refl

pub at_second :
    {A : Type 0} (a b : A) (rest prhs : List A) → prhs ≡ a ∷ b ∷ rest → get_elem? prhs 1 ≡ some b
at_second a b rest prhs e = rw e refl

module _ {H : Host} (s t : State H) where
  -- No call was made.
  pub Quiet-Thrown : (c : Command H) → Quiet s t → Thrown c s t
  Quiet-Thrown c q = Extends.nothing q.calls

  -- Nothing happened.
  pub unchanged_Thrown : (c : Command H) → t ≡ s → Thrown c s t
  unchanged_Thrown c same = Extends.nothing (ap (λ (z : State H). z.calls) same)

module _ {H : Host} (s w t : State H) where
  -- The last step calls nothing.
  pub Thrown-later : (c : Command H) → Thrown c s w → t.calls ≡ w.calls → Thrown c s t
  Thrown-later c (Extends.nothing e) same = Extends.nothing (same ∙ e)
  Thrown-later c (Extends.one_call k p e) same = Extends.one_call k p (same ∙ e)
