-- ===== src/Core/Getsockopt/Values.antt =====
-- The conversion of an option's value to MATLAB: for each type of the table, what a block shows.
use matlab_zmq.Prelude.{
  c_str-overwrite_text, ◌∙◌, Option, arith, overwrite, ◌≤◌, overwrite_all, ◌≢◌, c_str, ltb, true,
  ◌⊎◌, length, ◌≡◌, Bytes, String, ℕ, ℤ, [], ◌∷◌, none, some, refl, inl, inr, pos, negsuc, zero,
  suc,
}
use matlab_zmq.Prelude.Words.{int_values, size_values, signed, of_bytes}
use matlab_zmq.Util.Conversions.ToM.{int32s, uint32s, str_to_m, int64s, chars, uint64s, Out}
use matlab_zmq.Util.Conversions.ToM.Laws.{
  int_to_m_lem, str_to_m_lem, uint32_to_m_lem, int64_to_m_lem, uint64_to_m_lem,
}
use matlab_zmq.Core.Getsockopt.{
  Option, overwrite, Out, SockoptDesc, SockoptType, length, Bytes, find_sockopt_type_by_id, ℕ, ℤ,
  shown,
}
use matlab_zmq.Mex.Exec.Ends.{Ends, returns}
use matlab_zmq.Util.Sockopt.Laws.{option_is_typed, IsOption, is_typed}
use matlab_zmq.Mex.Exec.{returned}
use matlab_zmq.Mex.Memory.{State}
use matlab_zmq.Util.Sockopt.{SockoptDesc, SockoptType, find_sockopt_type_by_id}
use matlab_zmq.Util.Table.{scan}
use matlab_zmq.Mex.Host.{Host}
use matlab_zmq.Util.Socket.Names.{IsTypeName, socktype_to_m-Ends}
use matlab_zmq.Util.Sockopt.MechanismNames.{IsMechanismName, mechanism_to_m-Ends}
use matlab_zmq.Mex.Exec.Ends

-- A value that fills the type with this number: an integer of its width, or a terminated text.
abbrev pub Whole : ℤ → Bytes → Type 0
Whole (pos zero) w = length w ≡ 8
Whole (pos (suc zero)) w = length w ≡ 8
Whole (pos (suc (suc zero))) w = length w ≡ 4
Whole (pos (suc (suc (suc zero)))) w = length w ≡ 4
Whole (pos (suc (suc (suc (suc zero))))) w = (c_str w ≢ none) × (length w ≤ 255)
Whole (pos (suc (suc (suc (suc (suc zero)))))) w = (c_str w ≢ none) × (length w ≤ 41)
Whole (pos (suc (suc (suc (suc (suc (suc zero))))))) w = length w ≡ 4
Whole (pos (suc (suc (suc (suc (suc (suc (suc zero)))))))) w = length w ≡ 4
Whole (pos (suc (suc (suc (suc (suc (suc (suc (suc n))))))))) w = ⊥
Whole (negsuc n) w = ⊥

-- The text of a terminated value.
pub record IsTextOf (w : Bytes) (out : Out) : Type 0 where
  pub chars_read : Bytes
  pub string : c_str w ≡ some chars_read
  pub output : out ≡ chars chars_read

-- What MATLAB gets of a value, by the number of the type.
abbrev pub Shows : (H : Host) → ℤ → Bytes → Out → Type 0
Shows H (pos zero) w out = out ≡ uint64s 1 1 (of_bytes w ∷ [])
Shows H (pos (suc zero)) w out = out ≡ int64s 1 1 (signed size_values (of_bytes w) ∷ [])
Shows H (pos (suc (suc zero))) w out = out ≡ uint32s 1 1 (of_bytes w ∷ [])
Shows H (pos (suc (suc (suc zero)))) w out = out ≡ int32s 1 1 (signed int_values (of_bytes w) ∷ [])
Shows H (pos (suc (suc (suc (suc zero))))) w out = IsTextOf w out
Shows H (pos (suc (suc (suc (suc (suc zero)))))) w out = IsTextOf w out
Shows H (pos (suc (suc (suc (suc (suc (suc zero))))))) w out =
    IsTypeName H (signed int_values (of_bytes w)) out
Shows H (pos (suc (suc (suc (suc (suc (suc (suc zero)))))))) w out =
    IsMechanismName H (signed int_values (of_bytes w)) out
Shows H (pos (suc (suc (suc (suc (suc (suc (suc (suc n))))))))) w out = ⊥
Shows H (negsuc n) w out = ⊥

-- The errors of a number without a name.
abbrev pub NameErrors : String → Type 0
NameErrors i =
    (i ≡ "zmq:core:socket:invalidTypeId") ⊎ (i ≡ "zmq:core:sockopt:invalidOptionMechanismId")

module _ (H : Host) where
  -- The row of a type number, which is found. Its conversion shows any whole value that was written
  -- to a block of the type's length, whatever the block held before.
  pub record Row (z : ℤ) : Type 0 where
    pub type : SockoptType H
    pub lookup : (s : State H) → find_sockopt_type_by_id H z s ≡ (returned type, s)
    pub shows :
        (buf w : Bytes) (s : State H)
        → length buf ≡ type.max_len
        → Whole z w
        → Ends
            (λ out t. (t ≡ s) × Shows H z w out)
            (λ e t. (t ≡ s) × NameErrors e.id)
            (shown H type.to_m (overwrite buf w) s)

  shows_text :
      (n : ℕ) (buf w : Bytes) (s : State H)
      → length buf ≡ n
      → (c_str w ≢ none) × (length w ≤ n)
      → Ends
          (λ out t. (t ≡ s) × IsTextOf w out)
          (λ e t. (t ≡ s) × NameErrors e.id)
          (str_to_m H (overwrite buf w) s)
  shows_text n buf w s size (terminated, fits) =
      read_back (c_str w) refl (c_str-overwrite_text buf w (omega arith) terminated)
    where
      read_back :
          (o : Option Bytes)
          → c_str w ≡ o
          → c_str (overwrite buf w) ≡ c_str w
          → Ends
              (λ out t. (t ≡ s) × IsTextOf w out)
              (λ e t. (t ≡ s) × NameErrors e.id)
              (str_to_m H (overwrite buf w) s)
      read_back none e same = absurd (terminated e)
      read_back (some u) e same =
          rw (str_to_m_lem H (overwrite buf w) s (same ∙ e))
            (returns (refl, record { chars_read = u; string = e; output = refl }))

  type_numbered : (n : ℕ) → ltb n 8 ≡ true → Row (pos n)
  unfolding find_sockopt_type_by_id scan
  type_numbered zero h = record {
    type = _;
    lookup = λ s. refl;
    shows = λ buf w s size whole.
        rw (overwrite_all buf w (omega (arith, size, whole)), uint64_to_m_lem H w s whole)
          (returns (refl, refl));
  }
  type_numbered (suc zero) h = record {
    type = _;
    lookup = λ s. refl;
    shows = λ buf w s size whole.
        rw (overwrite_all buf w (omega (arith, size, whole)), int64_to_m_lem H w s whole)
          (returns (refl, refl));
  }
  type_numbered (suc (suc zero)) h = record {
    type = _;
    lookup = λ s. refl;
    shows = λ buf w s size whole.
        rw (overwrite_all buf w (omega (arith, size, whole)), uint32_to_m_lem H w s whole)
          (returns (refl, refl));
  }
  type_numbered (suc (suc (suc zero))) h = record {
    type = _;
    lookup = λ s. refl;
    shows = λ buf w s size whole.
        rw (overwrite_all buf w (omega (arith, size, whole)), int_to_m_lem H w s whole)
          (returns (refl, refl));
  }
  type_numbered (suc (suc (suc (suc zero)))) h = record {
    type = _;
    lookup = λ s. refl;
    shows = λ buf w s size whole. shows_text 255 buf w s size whole;
  }
  type_numbered (suc (suc (suc (suc (suc zero))))) h = record {
    type = _;
    lookup = λ s. refl;
    shows = λ buf w s size whole. shows_text 41 buf w s size whole;
  }
  type_numbered (suc (suc (suc (suc (suc (suc zero)))))) h = record {
    type = _;
    lookup = λ s. refl;
    shows = λ buf w s size whole.
        rw (overwrite_all buf w (omega (arith, size, whole))) (
          Ends.mono (socktype_to_m-Ends H s w whole) (λ out t q. q) (λ e t (now, k). (now, inl k)));
  }
  type_numbered (suc (suc (suc (suc (suc (suc (suc zero))))))) h = record {
    type = _;
    lookup = λ s. refl;
    shows = λ buf w s size whole.
        rw (overwrite_all buf w (omega (arith, size, whole))) (
          Ends.mono (mechanism_to_m-Ends H s w whole) (λ out t q. q)
            (λ e t (now, k). (now, inr k)));
  }
  type_numbered (suc (suc (suc (suc (suc (suc (suc (suc n)))))))) h = absurd (ground arith)

  type_found_at : (z : ℤ) → is_typed z ≡ true → Row z
  unfolding is_typed
  type_found_at (negsuc n) h = cc
  type_found_at (pos n) h = type_numbered n h

  -- The type of an option that was found by name is found too, and shows any whole value.
  pub find_type_of_option : (name : Bytes) (r : SockoptDesc) → IsOption H name r → Row r.type_id
  find_type_of_option name r is = type_found_at r.type_id (option_is_typed H name r is)
