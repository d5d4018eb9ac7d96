-- ===== src/Session/Spec.antt =====
-- What a command may do, seen from libzmq: which call it makes, and which blocks it leaves.
use matlab_zmq.Prelude.{[], Bool, true, ℕ, ℤ, List, ◌∷◌, Bytes, ◌≡◌, get_elem?, some, ltb, false}
use matlab_zmq.Mex.Host.{Host, EndpointOp, PollItem}
use matlab_zmq.Mex.Memory.{Call, State}
use matlab_zmq.Util.Conversions.FromM.Laws.{IsPointer, HoldsPointer, pointer_in}
use matlab_zmq.Util.Sockopt.{SockoptDesc}
use matlab_zmq.Util.Sockopt.Laws.{IsOption}
use matlab_zmq.Core.Recv.Options.{asked_length, asked_flags, LengthCasts}
use matlab_zmq.Core.Socket.{socket_type_value}
use matlab_zmq.Core.Getsockopt.GetOption.{Writes}
use matlab_zmq.Core.Poll.Items.{FieldsHold, AreItems}
use matlab_zmq.Session.{Command}
use matlab_zmq.Mex.Host.{IsLawful}
use matlab_zmq.Mex.Memory.{Block}
use matlab_zmq.Util.Sockopt.{SockoptType, find_sockopt_type_by_id}
use matlab_zmq.Mex.Exec.{returned}
use matlab_zmq.Core.Setsockopt.Values.{Encodes, IsPassed}
use matlab_zmq.Core.Setsockopt.SetOption.{CastsForOption}
use matlab_zmq.Core.ContextOptions.Selected.{IsContextOption}
use matlab_zmq.Core.Name.{name_length}
use matlab_zmq.Util.Conversions.FromM.{string_size}
use matlab_zmq.Prelude.{up_to_zero}
use matlab_zmq.Core.Send.Flags.{flag_value, names}
use matlab_zmq.Core.Recv.Flags.{wait_value, is_given}
use matlab_zmq.Core.Poll.{rounds}
use matlab_zmq.Core.Poll.Laws.{row_count}

module _ (H : Host) where
  -- The first argument is large enough for a pointer.
  abbrev pub FirstHolds : List H.Array → Type 0
  FirstHolds prhs = (a : H.Array) → get_elem? prhs 0 ≡ some a → HoldsPointer H a

  -- What a caller owes: arrays that are large enough for the pointers in them, numbers that are
  -- values of the C types to which they are cast, an option of which libzmq writes a whole value, and
  -- both outputs of `poll`.
  abbrev pub Allowed : Command H → Type 0
  Allowed (Command.endpoint op prhs) = FirstHolds prhs
  Allowed (Command.send a b params) = HoldsPointer H a
  Allowed (Command.recv nlhs a params) = HoldsPointer H a × LengthCasts H params
  Allowed (Command.close prhs) = FirstHolds prhs
  Allowed (Command.setsockopt prhs) =
      FirstHolds prhs
      × ((b v : H.Array)
          → get_elem? prhs 1 ≡ some b
          → get_elem? prhs 2 ≡ some v
          → CastsForOption H b v)
  Allowed (Command.getsockopt prhs) =
      FirstHolds prhs × ((b : H.Array) → get_elem? prhs 1 ≡ some b → Writes H b)
  Allowed (Command.ctx_new prhs) = Unit
  Allowed (Command.ctx_shutdown prhs) = FirstHolds prhs
  Allowed (Command.ctx_term prhs) = FirstHolds prhs
  Allowed (Command.ctx_get prhs) = FirstHolds prhs
  Allowed (Command.ctx_set prhs) =
      FirstHolds prhs × ((v : H.Array) → get_elem? prhs 2 ≡ some v → H.casts_to_int v ≡ true)
  Allowed (Command.socket prhs) = FirstHolds prhs
  Allowed (Command.poll nlhs prhs) =
      (ltb nlhs 2 ≡ false)
      × ((a : H.Array)
          → get_elem? prhs 0 ≡ some a
          → FieldsHold H a (H.get_field_number a "socket") (H.get_field_number a "events"))
      × ((b : H.Array) → get_elem? prhs 1 ≡ some b → H.casts_to_int b ≡ true)
  Allowed (Command.version nlhs) = Unit

  -- The pointer of the first argument, which is not NULL.
  pub record FirstSocket (prhs : List H.Array) (p : ℕ) : Type 0 where
    pub array : H.Array
    pub first : get_elem? prhs 0 ≡ some array
    pub pointer : IsPointer H array p

  -- The pointer of the first argument, NULL or not.
  pub record FirstContext (prhs : List H.Array) (p : ℕ) : Type 0 where
    pub array : H.Array
    pub first : get_elem? prhs 0 ≡ some array
    pub pointer : p ≡ pointer_in H array

  -- The text of the second argument up to its first zero byte, as `str_from_m` reads it.
  pub record SecondText (prhs : List H.Array) (text : Bytes) : Type 0 where
    pub array : H.Array
    pub second : get_elem? prhs 1 ≡ some array
    pub chars : Bytes
    pub given : H.get_string array (string_size H array) ≡ some chars
    pub whole : text ≡ up_to_zero chars

  -- The text of the second argument, as the functions on contexts copy it.
  pub record SecondName (prhs : List H.Array) (name : Bytes) : Type 0 where
    pub array : H.Array
    pub second : get_elem? prhs 1 ≡ some array
    pub chars : Bytes
    pub given : H.get_string array (name_length H array) ≡ some chars
    pub whole : name ≡ up_to_zero chars

  -- The number of the third argument.
  pub record ThirdNumber (prhs : List H.Array) (value : ℤ) : Type 0 where
    pub array : H.Array
    pub third : get_elem? prhs 2 ≡ some array
    pub number : value ≡ H.double_to_int (H.get_scalar array)

  -- The third argument, encoded by the type with this number, and what libzmq reads of it.
  pub record GivenValue (prhs : List H.Array) (type_id : ℤ) (value : Bytes) : Type 0 where
    pub array : H.Array
    pub third : get_elem? prhs 2 ≡ some array
    pub lawful : IsLawful H
    pub block : Block
    pub encoded : Encodes H lawful type_id array block
    pub part : IsPassed H type_id array block value

  -- The calls that each command may make.
  pub data Permits : Command H → Call → Type 0 where
    by_endpoint :
        {op : EndpointOp} {prhs : List H.Array} {p : ℕ} {e : Bytes}
        → FirstSocket prhs p
        → SecondText prhs e
        → Permits (Command.endpoint op prhs) (Call.endpoint op p e)
    by_send :
        {a b : H.Array} {params : List H.Array} {p f : ℕ}
        → IsPointer H a p
        → f ≡ flag_value (names H "ZMQ_SNDMORE" params) (names H "ZMQ_DONTWAIT" params)
        → Permits (Command.send a b params) (Call.send p (H.get_data b) f)
    by_recv :
        {nlhs : ℕ} {a : H.Array} {params : List H.Array} {p f : ℕ}
        → IsPointer H a p
        → f ≡ wait_value (is_given (asked_flags H params))
        → Permits (Command.recv nlhs a params) (Call.recv p (asked_length H params) f)
    by_close :
        {prhs : List H.Array} {p : ℕ}
        → FirstSocket prhs p
        → Permits (Command.close prhs) (Call.close p)
    by_setsockopt :
        {prhs : List H.Array} {p : ℕ} {value : Bytes} (name : Bytes) (option : SockoptDesc)
        → FirstSocket prhs p
        → SecondText prhs name
        → IsOption H name option
        → GivenValue prhs option.type_id value
        → Permits (Command.setsockopt prhs) (Call.setsockopt p option.id value)
    by_getsockopt :
        {prhs : List H.Array} {p : ℕ} (name : Bytes) (option : SockoptDesc) (type : SockoptType H)
        (s : State H)
        → FirstSocket prhs p
        → SecondText prhs name
        → IsOption H name option
        → find_sockopt_type_by_id H option.type_id s ≡ (returned type, s)
        → Permits (Command.getsockopt prhs) (Call.getsockopt p option.id type.max_len)
    by_ctx_new : {prhs : List H.Array} → Permits (Command.ctx_new prhs) Call.ctx_new
    by_ctx_shutdown :
        {prhs : List H.Array} {p : ℕ}
        → FirstContext prhs p
        → Permits (Command.ctx_shutdown prhs) (Call.ctx_shutdown p)
    by_ctx_term :
        {prhs : List H.Array} {p : ℕ}
        → FirstContext prhs p
        → Permits (Command.ctx_term prhs) (Call.ctx_term p)
    by_ctx_get :
        {prhs : List H.Array} {p : ℕ} {o : ℤ} (name : Bytes)
        → FirstContext prhs p
        → SecondName prhs name
        → IsContextOption H.constants name o
        → Permits (Command.ctx_get prhs) (Call.ctx_get p o)
    by_ctx_set :
        {prhs : List H.Array} {p : ℕ} {o v : ℤ} (name : Bytes)
        → FirstContext prhs p
        → SecondName prhs name
        → IsContextOption H.constants name o
        → ThirdNumber prhs v
        → Permits (Command.ctx_set prhs) (Call.ctx_set p o v)
    by_socket :
        {prhs : List H.Array} {p : ℕ} {type : ℤ} (name : Bytes)
        → FirstContext prhs p
        → SecondName prhs name
        → socket_type_value H.constants.socket_types name ≡ some type
        → Permits (Command.socket prhs) (Call.socket p type)
    by_poll :
        {nlhs : ℕ} {prhs : List H.Array} {items : List PollItem} {timeout : ℤ} (a b : H.Array)
        → prhs ≡ a ∷ b ∷ []
        → AreItems H a
            (H.get_field_number a "socket")
            (H.get_field_number a "events")
            0
            (rounds (row_count H a))
            items
        → timeout ≡ H.double_to_int (H.get_scalar b)
        → Permits (Command.poll nlhs prhs) (Call.poll items (row_count H a) timeout)

  -- The calls of the session, newest first: a command adds none, or one that it may make.
  pub data Extends (c : Command H) (before after : List Call) : Type 0 where
    nothing : after ≡ before → Extends c before after
    one_call : (call : Call) → Permits c call → after ≡ call ∷ before → Extends c before after

  -- `socket` leaves the copy of the type's name, and `version` the text.
  abbrev pub leaves_block : Command H → Bool
  leaves_block (Command.socket prhs) = true
  leaves_block (Command.version nlhs) = true
  leaves_block _ = false

  -- The blocks behind a command that returned.
  pub data Blocks (c : Command H) (before after : List ℕ) : Type 0 where
    all_freed : after ≡ before → Blocks c before after
    one_left : leaves_block c ≡ true → (n : ℕ) → after ≡ n ∷ before → Blocks c before after

module _ {H : Host} (c : Command H) (s : State H) where
  pub record Returned (t : State H) : Type 0 where
    pub calls : Extends H c s.calls t.calls
    pub blocks : Blocks H c s.live t.live

  abbrev pub Thrown : State H → Type 0
  Thrown t = Extends H c s.calls t.calls
