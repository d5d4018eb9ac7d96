-- ===== src/Session/Options.antt =====
-- What setsockopt and getsockopt do, as the session sees it.
use matlab_zmq.Prelude.{refl, ◌≡◌, ◌∷◌, List, up_to_zero, Bytes, some}
use matlab_zmq.Mex.Host.{Host, IsLawful}
use matlab_zmq.Mex.Memory.{State}
use matlab_zmq.Mex.Exec.{MexError}
use matlab_zmq.Util.Conversions.ToM.{Out}
use matlab_zmq.Session.{Command}
use matlab_zmq.Util.Conversions.FromM.{string_size}
use matlab_zmq.Session.Spec.{Returned, Thrown, Extends, Permits, Blocks, SecondText}
use matlab_zmq.Session.Steps.{at_second, Thrown-later, unchanged_Thrown, at_first, Quiet-Thrown}
use matlab_zmq.Core.Setsockopt.Laws as SetLaws
use matlab_zmq.Core.Setsockopt.SetOption as SetOption
use matlab_zmq.Core.Getsockopt.Laws as GetLaws
use matlab_zmq.Core.Getsockopt.GetOption as GetOption

-- The text of a second argument.
pub text_at :
    {H : Host} (a b : H.Array) (rest prhs : List H.Array) (chars : Bytes)
    → prhs ≡ a ∷ b ∷ rest
    → H.get_string b (string_size H b) ≡ some chars
    → SecondText H prhs (up_to_zero chars)
text_at a b rest prhs chars e given = record {
  array = b;
  second = at_second a b rest prhs e;
  chars = chars;
  given = given;
  whole = refl;
}

module _ (H : Host) (lawful : IsLawful H) (prhs : List H.Array) (s : State H) where
  set_called :
      (t : State H) (xs : SetLaws.Arguments H prhs)
      → SetOption.Attempt H lawful xs.socket_array xs.option_array xs.value s t
      → Thrown (Command.setsockopt prhs) s t
  set_called t xs x =
      Extends.one_call _
        (Permits.by_setsockopt (up_to_zero x.name) x.option
          (record {
            array = xs.socket_array;
            first = at_first xs.socket_array _ prhs xs.three_arguments;
            pointer = x.socket_read;
          })
          (text_at _ xs.option_array _ prhs x.name xs.three_arguments x.given) x.option_named
          (record {
            array = xs.value;
            third = rw (xs.three_arguments) refl;
            lawful = lawful;
            block = x.block;
            encoded = x.value;
            part = x.part;
          }))
        x.calls

  pub setsockopt_Returned :
      (outs : List Out) (t : State H)
      → SetLaws.Set H lawful prhs s outs t
      → Returned (Command.setsockopt prhs) s t
  setsockopt_Returned outs t (SetLaws.done xs d) = record {
    calls = Thrown-later s d.called t _ (set_called d.called xs d.attempt) d.calls;
    blocks = Blocks.all_freed d.live;
  }

  pub setsockopt_Thrown :
      (e : MexError) (t : State H)
      → SetLaws.NotSet H lawful prhs s e t
      → Thrown (Command.setsockopt prhs) s t
  setsockopt_Thrown e t (SetLaws.refused k same) = unchanged_Thrown s t _ same
  setsockopt_Thrown e t (SetLaws.failed xs (SetOption.rejected f)) = Quiet-Thrown s t _ f.quiet
  setsockopt_Thrown e t (SetLaws.failed xs (SetOption.reported x r)) = set_called t xs x

module _ (H : Host) (prhs : List H.Array) (s : State H) where
  get_called :
      (t : State H) (xs : GetLaws.Arguments H prhs s)
      → GetOption.Attempt H xs.socket_array xs.option_array s t
      → Thrown (Command.getsockopt prhs) s t
  get_called t xs x =
      Extends.one_call _
        (Permits.by_getsockopt (up_to_zero x.name) x.option x.type s
          (record {
            array = xs.socket_array;
            first = at_first xs.socket_array _ prhs xs.two_arguments;
            pointer = x.socket_read;
          })
          (text_at _ xs.option_array _ prhs x.name xs.two_arguments x.given) x.option_named
          x.type_found)
        x.calls

  pub getsockopt_Returned :
      (outs : List Out) (t : State H)
      → GetLaws.Got H prhs s outs t
      → Returned (Command.getsockopt prhs) s t
  getsockopt_Returned outs t (GetLaws.done xs d) = record {
    calls = Thrown-later s d.called t _ (get_called d.called xs d.attempt) d.calls;
    blocks = Blocks.all_freed d.live;
  }

  pub getsockopt_Thrown :
      (e : MexError) (t : State H)
      → GetLaws.NotGot H prhs s e t
      → Thrown (Command.getsockopt prhs) s t
  getsockopt_Thrown e t (GetLaws.refused k same) = unchanged_Thrown s t _ same
  getsockopt_Thrown e t (GetLaws.failed xs (GetOption.rejected f)) = Quiet-Thrown s t _ f.quiet
  getsockopt_Thrown e t (GetLaws.failed xs (GetOption.reported x r)) = get_called t xs x
  getsockopt_Thrown e t (GetLaws.failed xs (GetOption.nameless x fine k)) = get_called t xs x
