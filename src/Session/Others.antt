-- ===== src/Session/Others.antt =====
-- What socket, poll and version do, as the session sees it.
use matlab_zmq.Prelude.{ap, ◌∙◌, ◌≡◌, refl, List, up_to_zero, ℕ}
use matlab_zmq.Core.Poll.{PollOutput}
use matlab_zmq.Core.Version.{Shown}
use matlab_zmq.Mex.Host.{Host}
use matlab_zmq.Mex.Memory.{State}
use matlab_zmq.Mex.Exec.{MexError}
use matlab_zmq.Util.Conversions.ToM.{Out}
use matlab_zmq.Session.Contexts.{context_at, name_at}
use matlab_zmq.Session.{Command}
use matlab_zmq.Session.Spec.{Returned, Thrown, Extends, Permits, Blocks}
use matlab_zmq.Session.Steps.{Quiet-Thrown, unchanged_Thrown}
use matlab_zmq.Core.Socket.Laws as SocketLaws
use matlab_zmq.Core.Poll.Laws as PollLaws
use matlab_zmq.Core.Version.Laws as VersionLaws

module _ {H : Host} (prhs : List H.Array) (s : State H) where
  socket_called :
      (t : State H) (xs : SocketLaws.Arguments prhs s)
      → SocketLaws.Attempt xs.context_array xs.type_array s t
      → Thrown (Command.socket prhs) s t
  socket_called t xs x =
      Extends.one_call _
        (Permits.by_socket (up_to_zero x.chars)
          (context_at xs.context_array _ prhs xs.two_arguments)
          (name_at xs.context_array xs.type_array _ prhs x.chars xs.two_arguments x.given)
          x.type_known)
        x.calls

  pub socket_Returned :
      (outs : List Out) (t : State H)
      → SocketLaws.Done prhs s outs t
      → Returned (Command.socket prhs) s t
  socket_Returned outs t (SocketLaws.opened xs p o out) = record {
    calls = socket_called t xs o.attempt;
    blocks = Blocks.one_left refl o.attempt.name o.attempt.live;
  }

  pub socket_Thrown :
      (e : MexError) (t : State H) → SocketLaws.Failed prhs s e t → Thrown (Command.socket prhs) s t
  socket_Thrown e t (SocketLaws.refused k same) = unchanged_Thrown s t _ same
  socket_Thrown e t (SocketLaws.not_opened xs (SocketLaws.not_copied f)) =
      Quiet-Thrown s t _ f.quiet
  socket_Thrown e t (SocketLaws.not_opened xs (SocketLaws.unknown n g u k same)) =
      Extends.nothing same.calls
  socket_Thrown e t (SocketLaws.not_opened xs (SocketLaws.failed x z k)) = socket_called t xs x

module _ (H : Host) (nlhs : ℕ) (prhs : List H.Array) (s : State H) where
  polled_Thrown :
      (xs : PollLaws.Arguments H prhs s) (w t : State H)
      → PollLaws.Polled H xs.items_array xs.timeout_array s w
      → t.calls ≡ w.calls
      → Thrown (Command.poll nlhs prhs) s t
  polled_Thrown xs w t x same =
      Extends.one_call _
        (Permits.by_poll xs.items_array xs.timeout_array xs.two_arguments x.items_read
          x.timeout_read)
        (same ∙ x.calls)

  pub poll_Returned :
      (out : PollOutput) (t : State H)
      → PollLaws.Answered H prhs s out t
      → Returned (Command.poll nlhs prhs) s t
  poll_Returned out t (PollLaws.answered xs r) = record {
    calls = polled_Thrown xs r.called t r.polled r.calls;
    blocks = Blocks.all_freed r.live;
  }

  pub poll_Thrown :
      (e : MexError) (t : State H)
      → PollLaws.Unanswered H prhs s nlhs e t
      → Thrown (Command.poll nlhs prhs) s t
  poll_Thrown e t (PollLaws.refused k same) = unchanged_Thrown s t _ same
  poll_Thrown e t (PollLaws.failed xs (PollLaws.not_parsed f)) = Quiet-Thrown s t _ f.quiet
  poll_Thrown e t (PollLaws.failed xs (PollLaws.reported w x r k live calls)) =
      polled_Thrown xs w t x calls

  pub version_Returned :
      (shown : Shown) (t : State H)
      → VersionLaws.Done H nlhs s shown t
      → Returned (Command.version nlhs) s t
  version_Returned shown t (VersionLaws.line z text is out same) = record {
    calls = unchanged_Thrown s t _ same;
    blocks = Blocks.all_freed (ap (λ (z : State H). z.live) same);
  }
  version_Returned shown t (VersionLaws.output z text is out block held) = record {
    calls = Extends.nothing held.calls;
    blocks = Blocks.one_left refl block.serial held.live;
  }

  pub version_Thrown :
      (e : MexError) (t : State H)
      → VersionLaws.TooMany H nlhs s e t
      → Thrown (Command.version nlhs) s t
  version_Thrown e t f = unchanged_Thrown s t _ f.unchanged
