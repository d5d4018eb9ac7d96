-- ===== src/Session/Traces.antt =====
-- Sequences of commands: the calls that libzmq sees, and the blocks that stay.
use matlab_zmq.Prelude.{Bool, ◌≡◌, ◌≢◌, List, [], ◌∷◌, ◌≤◌, length, arith}
use matlab_zmq.Mex.Host.{Host}
use matlab_zmq.Mex.Memory.{State, Call}
use matlab_zmq.Mex.Exec.{Outcome, MexError}
use matlab_zmq.Mex.Exec.Ends.{Ends, returns, throws}
use matlab_zmq.Core.Send.Flags.{flag_value}
use matlab_zmq.Core.Recv.Flags.{wait_value}
use matlab_zmq.Session.{Command, exec}
use matlab_zmq.Session.Spec.{Extends, Permits, Allowed}
use matlab_zmq.Session.Laws.{IsDocumented, exec-Ends}

-- MATLAB goes on with the next command whether the last one returned or threw. The commands are
-- listed newest first.
pub data Reaches (H : Host) (s : State H) : List (Command H) → State H → Type 0 where
  start : Reaches H s [] s
  after :
      {cs : List (Command H)} {t u : State H} (c : Command H)
      → Reaches H s cs t
      → Allowed H c
      → u ≡ (exec H c t).1
      → Reaches H s (c ∷ cs) u

-- The log that the specification allows: in the order of the commands, at most one permitted call
-- of each.
pub data Explains (H : Host) : List (Command H) → List Call → Type 0 where
  no_commands : Explains H [] []
  silent :
      {cs : List (Command H)} {l : List Call} (c : Command H)
      → Explains H cs l
      → Explains H (c ∷ cs) l
  calling :
      {cs : List (Command H)} {l : List Call} (c : Command H) (k : Call)
      → Permits H c k
      → Explains H cs l
      → Explains H (c ∷ cs) (k ∷ l)

-- A call on a socket has a socket; a message is sent with no flags but the two that are documented,
-- ZMQ_DONTWAIT (1) and ZMQ_SNDMORE (2), and received with no flag but ZMQ_DONTWAIT.
abbrev pub IsSound : Call → Type 0
IsSound (Call.close p) = p ≢ 0
IsSound (Call.endpoint op p e) = p ≢ 0
IsSound (Call.send p b f) = (p ≢ 0) × (f ≤ 3)
IsSound (Call.recv p n f) = (p ≢ 0) × (f ≤ 1)
IsSound (Call.getsockopt p o n) = p ≢ 0
IsSound (Call.setsockopt p o b) = p ≢ 0
IsSound _ = Unit

abbrev pub AllSound : List Call → Type 0
AllSound [] = Unit
AllSound (k ∷ l) = IsSound k × AllSound l

flag_value-le_three : (more wait : Bool) → flag_value more wait ≤ 3
flag_value-le_three more wait = ground arith

wait_value-le_one : (wait : Bool) → wait_value wait ≤ 1
wait_value-le_one wait = ground arith

Permits-IsSound : {H : Host} {c : Command H} {k : Call} → Permits H c k → IsSound k
Permits-IsSound (Permits.by_endpoint x text) = x.pointer.1
Permits-IsSound (Permits.by_send x e) = (x.1, rw e (flag_value-le_three _ _))
Permits-IsSound (Permits.by_recv x e) = (x.1, rw e (wait_value-le_one _))
Permits-IsSound (Permits.by_close x) = x.pointer.1
Permits-IsSound (Permits.by_setsockopt name option x text is given) = x.pointer.1
Permits-IsSound (Permits.by_getsockopt name option type s x text is found) = x.pointer.1
Permits-IsSound Permits.by_ctx_new = tt
Permits-IsSound (Permits.by_ctx_shutdown x) = tt
Permits-IsSound (Permits.by_ctx_term x) = tt
Permits-IsSound (Permits.by_ctx_get name x text e) = tt
Permits-IsSound (Permits.by_ctx_set name x text e value) = tt
Permits-IsSound (Permits.by_socket name x text e) = tt
Permits-IsSound (Permits.by_poll a b e are out) = tt

Explains-AllSound :
    {H : Host} {cs : List (Command H)} {l : List Call} → Explains H cs l → AllSound l
Explains-AllSound no_commands = tt
Explains-AllSound (silent c x) = Explains-AllSound x
Explains-AllSound (calling c k p x) = (Permits-IsSound p, Explains-AllSound x)

length-Explains :
    {H : Host} {cs : List (Command H)} {l : List Call} → Explains H cs l → length l ≤ length cs
length-Explains no_commands = omega arith
length-Explains (silent c x) = omega (arith, length-Explains x)
length-Explains (calling c k p x) = omega (arith, length-Explains x)

Extends-Explains :
    {H : Host} {cs : List (Command H)} {c : Command H} {l m : List Call}
    → Extends H c l m
    → Explains H cs l
    → Explains H (c ∷ cs) m
Extends-Explains (Extends.nothing e) x = rw e (silent _ x)
Extends-Explains (Extends.one_call k p e) x = rw e (calling _ k p x)

-- Where a run is defined, its state is one of the two kinds.
state_of :
    {H : Host} {P : State H → Type 0} {Q : Unit {0} → State H → Type 0}
    {E : MexError → State H → Type 0} {r : Outcome (Unit {0}) × State H}
    → Ends Q E r
    → ((t : State H) → Q tt t → P t)
    → ((e : MexError) (t : State H) → E e t → P t)
    → P r.1
state_of (returns q) f g = f _ q
state_of (throws e) f g = g _ _ e

module _ (H : Host) (doc : IsDocumented H) (s : State H) (fresh : s.calls ≡ []) where
  -- From a state without calls, on a host that keeps what MATLAB and libzmq document, and for
  -- commands on arguments that their callers owe: the calls that libzmq has seen after any number
  -- of commands of any outcome are explained by them: in their order, at most one call of each, on
  -- the socket or context, with the endpoint, option, value, message, flags or items that its
  -- arguments give.
  pub Reaches-Explains :
      (cs : List (Command H)) (t : State H) → Reaches H s cs t → Explains H cs t.calls
  Reaches-Explains [] t start = rw fresh no_commands
  Reaches-Explains (c ∷ cs) u (after {t = t} d r allowed same) =
      let next : Extends H c t.calls (exec H c t).1.calls =
        state_of {P = λ v. Extends H c t.calls v.calls} (exec-Ends H doc c t allowed)
          (λ v q. q.calls) (λ e v q. q) in
      rw same (Extends-Explains next (Reaches-Explains cs t r))

  -- From a state without calls, on a host that keeps what MATLAB and libzmq document, and for
  -- commands on arguments that their callers owe: every call on a socket that libzmq ever sees has a
  -- socket that is not NULL and no undocumented flag, and libzmq sees at most as many calls as there
  -- were commands.
  pub Reaches-AllSound :
      (cs : List (Command H)) (t : State H)
      → Reaches H s cs t
      → AllSound t.calls × (length t.calls ≤ length cs)
  Reaches-AllSound cs t r =
      let x = Reaches-Explains cs t r in (Explains-AllSound x, length-Explains x)
