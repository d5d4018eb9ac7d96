-- ===== src/Session/Sockets.antt =====
-- What each function on sockets does, as the session sees it.
use matlab_zmq.Prelude.{refl, ◌∙◌, ap, ℕ, ℤ, Bytes, ◌≡◌, List, ◌∷◌}
use matlab_zmq.Mex.Memory.{Call, State}
use matlab_zmq.Core.Recv.Options.{asked_length, asked_flags}
use matlab_zmq.Mex.Memory.Laws.{Same}
use matlab_zmq.Session.Spec.{Blocks, Returned, Thrown, Extends, Permits}
use matlab_zmq.Mex.Host.{Host, EndpointOp}
use matlab_zmq.Mex.Exec.{MexError}
use matlab_zmq.Util.Conversions.ToM.{Out}
use matlab_zmq.Session.{Command}
use matlab_zmq.Session.Options.{text_at}
use matlab_zmq.Core.Recv.Flags.{wait_value, is_given}
use matlab_zmq.Session.Steps.{at_first, Quiet-Thrown, Thrown-later, unchanged_Thrown}
use matlab_zmq.Core.Send.Laws as SendLaws
use matlab_zmq.Core.Recv.Laws as RecvLaws
use matlab_zmq.Core.Close.Laws as CloseLaws
use matlab_zmq.Core.Recv.Return as RecvReturn
use matlab_zmq.Core.Endpoint.Laws as EndpointLaws

module _ {H : Host} (op : EndpointOp) (prhs : List H.Array) (s : State H) where
  endpoint_called :
      (t : State H) → EndpointLaws.Attempt op prhs s t → Thrown (Command.endpoint op prhs) s t
  endpoint_called t a =
      Extends.one_call _
        (Permits.by_endpoint
          (record {
            array = a.socket_array;
            first = at_first a.socket_array _ prhs a.two_arguments;
            pointer = (a.socket_read, a.socket_valid);
          })
          (text_at a.socket_array a.endpoint_array _ prhs a.chars a.two_arguments a.given))
        a.calls

  pub endpoint_Returned :
      (outs : List Out) (t : State H)
      → EndpointLaws.Done op prhs s outs t
      → Returned (Command.endpoint op prhs) s t
  endpoint_Returned outs t d = record {
    calls = endpoint_called t d.attempt;
    blocks = Blocks.all_freed d.live;
  }

  pub endpoint_Thrown :
      (e : MexError) (t : State H)
      → EndpointLaws.Failed op prhs s e t
      → Thrown (Command.endpoint op prhs) s t
  endpoint_Thrown e t (EndpointLaws.rejected f) = Quiet-Thrown s t _ f.quiet
  endpoint_Thrown e t (EndpointLaws.reported a w r) = endpoint_called t a

module _ {H : Host} (a b : H.Array) (params : List H.Array) (s : State H) where
  send_called :
      (t : State H) → SendLaws.Attempt a b params s t → Thrown (Command.send a b params) s t
  send_called t x = Extends.one_call _ (Permits.by_send x.socket_read x.flag_sum) x.calls

  pub send_Returned :
      (outs : List Out) (t : State H)
      → SendLaws.Done a b params s outs t
      → Returned (Command.send a b params) s t
  send_Returned outs t d = record {
    calls = send_called t d.attempt;
    blocks = Blocks.all_freed d.live;
  }

  pub send_Thrown :
      (e : MexError) (t : State H)
      → SendLaws.Failed a b params s e t
      → Thrown (Command.send a b params) s t
  send_Thrown e t (SendLaws.rejected f) = Quiet-Thrown s t _ f.quiet
  send_Thrown e t (SendLaws.reported x w r) = send_called t x

calls_of_answered :
    {H : Host} {nlhs n : ℕ} {rc : ℤ} {written : Bytes} {s t : State H} {outs : List Out}
    → RecvReturn.Answer nlhs rc n written s outs t
    → t.calls ≡ s.calls
calls_of_answered (RecvReturn.delivered k e d) = d.calls
calls_of_answered {H} (RecvReturn.unanswered u) = ap (λ (z : State H). z.calls) u.same

module _ {H : Host} (nlhs : ℕ) (a : H.Array) (params : List H.Array) (s : State H) where
  recv_called :
      (f : ℕ) (u w : State H)
      → f ≡ wait_value (is_given (asked_flags H params))
      → Same s u
      → RecvLaws.Attempt nlhs a (asked_length H params) f u w
      → Thrown (Command.recv nlhs a params) s w
  recv_called f u w asked same x =
      Extends.one_call _ (Permits.by_recv x.socket_read asked)
        (x.calls ∙ ap (λ l. Call.recv x.socket (asked_length H params) f ∷ l) same.calls)

  pub recv_Returned :
      (outs : List Out) (t : State H)
      → RecvLaws.Done nlhs a params s outs t
      → Returned (Command.recv nlhs a params) s t
  recv_Returned outs t (RecvLaws.no_buffer z same e) = record {
    calls = Extends.nothing same.calls;
    blocks = Blocks.all_freed same.live;
  }
  recv_Returned outs t (RecvLaws.received u same long all r) = record {
    calls =
        Thrown-later s r.called t _ (recv_called _ u r.called refl same r.attempt)
          (r.calls ∙ calls_of_answered r.answer);
    blocks = Blocks.all_freed (r.live ∙ same.live);
  }

  pub recv_Thrown :
      (e : MexError) (t : State H)
      → RecvLaws.Failed nlhs a params s e t
      → Thrown (Command.recv nlhs a params) s t
  recv_Thrown e t (RecvLaws.no_length f) = Quiet-Thrown s t _ f.quiet
  recv_Thrown e t (RecvLaws.refused long f) = Quiet-Thrown s t _ f.quiet
  recv_Thrown e t (RecvLaws.failed u same long (RecvLaws.rejected f)) =
      Extends.nothing (f.quiet.calls ∙ same.calls)
  recv_Thrown e t (RecvLaws.failed u same long (RecvLaws.reported x r)) =
      recv_called _ u t refl same x

module _ {H : Host} (prhs : List H.Array) (s : State H) where
  close_called : (t : State H) → CloseLaws.Attempt prhs s t → Thrown (Command.close prhs) s t
  close_called t x =
      Extends.one_call _
        (Permits.by_close (record {
          array = x.socket_array;
          first = at_first x.socket_array _ prhs x.one_argument;
          pointer = x.socket_read;
        }))
        x.called.calls

  pub close_Returned :
      (outs : List Out) (t : State H)
      → CloseLaws.Done prhs s outs t
      → Returned (Command.close prhs) s t
  close_Returned outs t d = record {
    calls = close_called t d.attempt;
    blocks = Blocks.all_freed d.attempt.called.live;
  }

  pub close_Thrown :
      (e : MexError) (t : State H) → CloseLaws.Failed prhs s e t → Thrown (Command.close prhs) s t
  close_Thrown e t (CloseLaws.miscounted n k same) = unchanged_Thrown s t _ same
  close_Thrown e t (CloseLaws.null a one z k same) = unchanged_Thrown s t _ same
  close_Thrown e t (CloseLaws.reported x r) = close_called t x
