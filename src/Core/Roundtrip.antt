-- ===== src/Core/Roundtrip.antt =====
-- An option's value through both conversions of its type, as setsockopt.c and getsockopt.c make them.
pub mod Values
use matlab_zmq.Util.Sockopt.Laws.{
  option_is_typed, IsOption, find_sockopt_type_by_id-option, is_typed,
}
use matlab_zmq.Mex.Exec.{◌>>=◌, returned}
use matlab_zmq.Prelude.{
  ◌⊎◌, ℕ, zero, suc, ℤ, pos, negsuc, ltb, ◌<◌, ◌^◌, true, Bytes, some, [], ◌∷◌, arith, ◌≡◌, refl,
  ap, ◌∙◌, inl, inr, up_to_zero, length,
}
use matlab_zmq.Core.Setsockopt.Values.{CastsAs, ValueErrors}
use matlab_zmq.Util.Sockopt.{SockoptDesc, SockoptType, SockoptMechanism, find_sockopt_type_by_id}
use matlab_zmq.Prelude.Words.{
  InRange, int_values, size_values, wrap, to_bytes, of_bytes, of_bytes-to_bytes, length-to_bytes,
  wrap-lt_int, wrap-lt_long, signed, signed-wrap_int, signed-wrap_long,
}
use matlab_zmq.Mex.Exec.Ends.{Ends, returns}
use matlab_zmq.Mex.Host.{Host, IsLawful}
use matlab_zmq.Mex.Memory.{State, Block}
use matlab_zmq.Util.Conversions.ToM.{Out, uint64s, int64s, uint32s, int32s, chars}
use matlab_zmq.Util.Conversions.ToM.Laws.{
  uint64_to_m_lem, int64_to_m_lem, uint32_to_m_lem, int_to_m_lem, str_to_m_lem,
}
use matlab_zmq.Util.Conversions.FromM.{string_size}
use matlab_zmq.Util.Socket.{SocketType}
use matlab_zmq.Util.Socket.Laws.{socktype_from_m-Ends, IsSockType}
use matlab_zmq.Util.Socket.Names.{IsTypeName, socktype_to_m-Ends}
use matlab_zmq.Util.Sockopt.MechanismLaws.{mechanism_from_m-Ends, IsMechanism}
use matlab_zmq.Util.Sockopt.MechanismNames.{IsMechanismName, mechanism_to_m-Ends}
use matlab_zmq.Util.Table.{scan}
use matlab_zmq.Core.Setsockopt.{converted}
use matlab_zmq.Core.Getsockopt.{shown}
use matlab_zmq.Core.Getsockopt.Values.{NameErrors}
use matlab_zmq.Mex.Exec.Ends
use matlab_zmq.Util.Socket.Laws as SocketLaws
use matlab_zmq.Util.Sockopt.MechanismLaws as MechanismLaws
use matlab_zmq.Core.Setsockopt.Values as SetValues
use matlab_zmq.Core.Roundtrip.Values.{Row, SameValue, type_found_at}

module _ (H : Host) (lawful : IsLawful H) where
  -- A lookup gives one type.
  one_type :
      (z : ℤ) (s : State H) (x y : SockoptType H)
      → find_sockopt_type_by_id H z s ≡ (returned x, s)
      → find_sockopt_type_by_id H z s ≡ (returned y, s)
      → x ≡ y
  one_type z s x y e f = cc

  -- For each option, and a value whose number, where the option is of an integer type, is a value
  -- of that type: the type that the table gives for the option takes the value to C and back. An
  -- integer comes back as it was cast, a text up to its first zero byte, and a name as the name of
  -- a row with its number; or one of the two conversions throws. Neither is undefined.
  pub shown-converted :
      (name : Bytes) (r : SockoptDesc) (a : H.Array) (s : State H)
      → IsOption H name r
      → CastsAs H r.type_id a
      → (type : SockoptType H) × (find_sockopt_type_by_id H r.type_id s ≡ (returned type, s))
        × Ends
            (λ out t. SameValue H r.type_id a out)
            (λ e t. ValueErrors H lawful e.id ⊎ NameErrors e.id)
            ((converted H type.from_m a >>= λ b. shown H type.to_m b.bytes) s)
  shown-converted name r a s is casts =
      let set = SetValues.find_type_of_option H lawful name r is in
      let row : Row H lawful r.type_id =
        type_found_at H lawful r.type_id (option_is_typed H name r is) in
      let alike : set.type ≡ row.type =
        one_type r.type_id s set.type row.type (set.lookup s) (row.lookup s) in
      (
        set.type,
        set.lookup s,
        Ends.bind (Ends.mono (set.converts a s casts) (λ b t q. q) (λ e t f. inl f.id_known))
            λ b t (held, value). rw alike (
              Ends.mono (row.undoes a b t casts (rw (set.numbered) at value.encodes))
                (λ out u q. q.1) (λ e u k. inr k.1)),
      )
