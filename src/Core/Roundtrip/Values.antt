-- ===== src/Core/Roundtrip/Values.antt =====
-- The value of an option in MATLAB, encoded and shown: for each type of the table, the same value.
use matlab_zmq.Util.Sockopt.Laws.{is_typed}
use matlab_zmq.Mex.Exec.{returned}
use matlab_zmq.Prelude.{
  ℕ, zero, suc, ℤ, pos, negsuc, ltb, true, Bytes, some, [], ◌∷◌, arith, ◌≡◌, refl, ap, ◌∙◌, inl,
  inr, up_to_zero, length,
}
use matlab_zmq.Core.Setsockopt.Values.{CastsAs, Encodes}
use matlab_zmq.Util.Sockopt.{SockoptType, SockoptMechanism, find_sockopt_type_by_id}
use matlab_zmq.Prelude.Words.{
  int_values, size_values, wrap, to_bytes, of_bytes, of_bytes-to_bytes, length-to_bytes,
  wrap-lt_int, wrap-lt_long, signed, signed-wrap_int, signed-wrap_long,
}
use matlab_zmq.Mex.Exec.Ends.{Ends, returns}
use matlab_zmq.Mex.Host.{Host, IsLawful}
use matlab_zmq.Mex.Memory.{State, Block}
use matlab_zmq.Util.Conversions.ToM.{Out, uint64s, int64s, uint32s, int32s, chars}
use matlab_zmq.Util.Conversions.ToM.Laws.{
  uint64_to_m_lem, int64_to_m_lem, uint32_to_m_lem, int_to_m_lem, str_to_m_lem,
}
use matlab_zmq.Util.Conversions.FromM.{string_size}
use matlab_zmq.Util.Socket.{SocketType}
use matlab_zmq.Util.Socket.Laws.{socktype_from_m-Ends, IsSockType}
use matlab_zmq.Util.Socket.Names.{IsTypeName, socktype_to_m-Ends}
use matlab_zmq.Util.Sockopt.MechanismLaws.{mechanism_from_m-Ends, IsMechanism}
use matlab_zmq.Util.Sockopt.MechanismNames.{IsMechanismName, mechanism_to_m-Ends}
use matlab_zmq.Util.Table.{scan}
use matlab_zmq.Core.Getsockopt.{shown}
use matlab_zmq.Core.Getsockopt.Values.{NameErrors}
use matlab_zmq.Mex.Exec.Ends
use matlab_zmq.Util.Socket.Laws as SocketLaws
use matlab_zmq.Util.Sockopt.MechanismLaws as MechanismLaws

-- The text of an array up to its first zero byte.
pub record SameText (H : Host) (a : H.Array) (out : Out) : Type 0 where
  pub text : Bytes
  pub given : H.get_string a (string_size H a) ≡ some text
  pub output : out ≡ chars (up_to_zero text)

-- The name of a row with the number of the row that the array names, as a C `int` holds it.
pub record SameType (H : Host) (a : H.Array) (out : Out) : Type 0 where
  pub text : Bytes
  pub given : H.get_string a (string_size H a) ≡ some text
  pub row : SocketType
  pub row_named : SocketLaws.IsNamed H (up_to_zero text) row
  pub name : IsTypeName H (signed int_values (wrap int_values row.id)) out

pub record SameMechanism (H : Host) (a : H.Array) (out : Out) : Type 0 where
  pub text : Bytes
  pub given : H.get_string a (string_size H a) ≡ some text
  pub row : SockoptMechanism
  pub row_named : MechanismLaws.IsNamed H (up_to_zero text) row
  pub name : IsMechanismName H (signed int_values (wrap int_values row.id)) out

-- The value of an array, as MATLAB gets it back.
abbrev pub SameValue : (H : Host) → ℤ → H.Array → Out → Type 0
SameValue H (pos zero) a out = out ≡ uint64s 1 1 (H.double_to_uint64 (H.get_scalar a) ∷ [])
SameValue H (pos (suc zero)) a out = out ≡ int64s 1 1 (H.double_to_int64 (H.get_scalar a) ∷ [])
SameValue H (pos (suc (suc zero))) a out =
    out ≡ uint32s 1 1 (H.double_to_uint32 (H.get_scalar a) ∷ [])
SameValue H (pos (suc (suc (suc zero)))) a out =
    out ≡ int32s 1 1 (H.double_to_int (H.get_scalar a) ∷ [])
SameValue H (pos (suc (suc (suc (suc zero))))) a out = SameText H a out
SameValue H (pos (suc (suc (suc (suc (suc zero)))))) a out = SameText H a out
SameValue H (pos (suc (suc (suc (suc (suc (suc zero))))))) a out = SameType H a out
SameValue H (pos (suc (suc (suc (suc (suc (suc (suc zero)))))))) a out = SameMechanism H a out
SameValue H (pos (suc (suc (suc (suc (suc (suc (suc (suc n))))))))) a out = ⊥
SameValue H (negsuc n) a out = ⊥

module _ (H : Host) (lawful : IsLawful H) where
  -- A row whose conversion to MATLAB undoes the encoding.
  pub record Row (z : ℤ) : Type 0 where
    pub type : SockoptType H
    pub lookup : (s : State H) → find_sockopt_type_by_id H z s ≡ (returned type, s)
    pub undoes :
        (a : H.Array) (b : Block) (s : State H)
        → CastsAs H z a
        → Encodes H lawful z a b
        → Ends
            (λ out t. (t ≡ s) × SameValue H z a out)
            (λ e t. (t ≡ s) × NameErrors e.id)
            (shown H type.to_m b.bytes s)

  type_numbered : (n : ℕ) → ltb n 8 ≡ true → Row (pos n)
  unfolding find_sockopt_type_by_id scan
  type_numbered zero h = record {
    type = _;
    lookup = λ s. refl;
    undoes = λ a b s casts e.
        let x = H.double_to_uint64 (H.get_scalar a) in
        rw
          (
            e,
            uint64_to_m_lem H (to_bytes 8 x) s (length-to_bytes 8 x),
            of_bytes-to_bytes 8 x (lawful.uint64_range a casts),
          )
          (returns (refl, refl));
  }
  type_numbered (suc zero) h = record {
    type = _;
    lookup = λ s. refl;
    undoes = λ a b s casts e.
        let z = H.double_to_int64 (H.get_scalar a) in
        let x = wrap size_values z in
        rw
          (
            e,
            int64_to_m_lem H (to_bytes 8 x) s (length-to_bytes 8 x),
            of_bytes-to_bytes 8 x (wrap-lt_long z),
            signed-wrap_long z (lawful.int64_range a casts),
          )
          (returns (refl, refl));
  }
  type_numbered (suc (suc zero)) h = record {
    type = _;
    lookup = λ s. refl;
    undoes = λ a b s casts e.
        let x = H.double_to_uint32 (H.get_scalar a) in
        rw
          (
            e,
            uint32_to_m_lem H (to_bytes 4 x) s (length-to_bytes 4 x),
            of_bytes-to_bytes 4 x (lawful.uint32_range a casts),
          )
          (returns (refl, refl));
  }
  type_numbered (suc (suc (suc zero))) h = record {
    type = _;
    lookup = λ s. refl;
    undoes = λ a b s casts e.
        let z = H.double_to_int (H.get_scalar a) in
        let x = wrap int_values z in
        rw
          (
            e,
            int_to_m_lem H (to_bytes 4 x) s (length-to_bytes 4 x),
            of_bytes-to_bytes 4 x (wrap-lt_int z),
            signed-wrap_int z (lawful.int_range a casts),
          )
          (returns (refl, refl));
  }
  type_numbered (suc (suc (suc (suc zero)))) h = record {
    type = _;
    lookup = λ s. refl;
    undoes = λ a b s casts e.
        rw (str_to_m_lem H b.bytes s e.string)
          (returns (refl, record { text = e.chars; given = e.given; output = refl }));
  }
  type_numbered (suc (suc (suc (suc (suc zero))))) h = record {
    type = _;
    lookup = λ s. refl;
    undoes = λ a b s casts e.
        rw (str_to_m_lem H b.bytes s e.string)
          (returns (refl, record { text = e.chars; given = e.given; output = refl }));
  }
  type_numbered (suc (suc (suc (suc (suc (suc zero)))))) h = record {
    type = _;
    lookup = λ s. refl;
    undoes = λ a b s casts e.
        let x = wrap int_values e.row.id in
        let value : of_bytes b.bytes ≡ x =
          ap of_bytes e.value ∙ of_bytes-to_bytes 4 x (wrap-lt_int e.row.id) in
        Ends.mono (socktype_to_m-Ends H s b.bytes (ap length e.value ∙ length-to_bytes 4 x))
          (λ out t (now, k). (
            now,
            record {
              text = e.chars;
              given = e.given;
              row = e.row;
              row_named = e.row_named;
              name = rw value at k;
            },
          ))
          (λ err t (now, k). (now, inl k));
  }
  type_numbered (suc (suc (suc (suc (suc (suc (suc zero))))))) h = record {
    type = _;
    lookup = λ s. refl;
    undoes = λ a b s casts e.
        let x = wrap int_values e.row.id in
        let value : of_bytes b.bytes ≡ x =
          ap of_bytes e.value ∙ of_bytes-to_bytes 4 x (wrap-lt_int e.row.id) in
        Ends.mono (mechanism_to_m-Ends H s b.bytes (ap length e.value ∙ length-to_bytes 4 x))
          (λ out t (now, k). (
            now,
            record {
              text = e.chars;
              given = e.given;
              row = e.row;
              row_named = e.row_named;
              name = rw value at k;
            },
          ))
          (λ err t (now, k). (now, inr k));
  }
  type_numbered (suc (suc (suc (suc (suc (suc (suc (suc n)))))))) h = absurd (ground arith)

  -- Every type number of the table has such a row.
  pub type_found_at : (z : ℤ) → is_typed z ≡ true → Row z
  unfolding is_typed
  type_found_at (negsuc n) h = cc
  type_found_at (pos n) h = type_numbered n h
