-- ===== src/Util/Socket/Names.antt =====
-- From the number of a socket type to its name, on every number.
use matlab_zmq.Util.Table.Laws.{every_at, scan-found_row, scan-ends, every}
use matlab_zmq.Mex.Exec.Ends.{throws, returns, Ends}
use matlab_zmq.Prelude.{
  ap, take_all, c_str_terminated, eq_ℤ_iff, ◌∙◌, arith, ◌++◌, str_eq_iff, codes, eq_ℤ, str_eq,
  false, true, Bool, get_elem?, length, ◌≡◌, Bytes, String, ℕ, Option, up_to_zero, ℤ, [], ◌∷◌, none,
  some, refl, inl, inr,
}
use matlab_zmq.Mex.Memory.Laws.{read-Ends}
use matlab_zmq.Util.Conversions.ToM.Laws.{str_to_m_lem}
use matlab_zmq.Prelude.Words.{of_bytes, int_values, signed}
use matlab_zmq.Util.Conversions.ToM.{chars, Out}
use matlab_zmq.Util.Socket.{
  is_null, signed, Out, SocketTypes, State, socktype_to_m, find_socket_type_by_id, name_to_m,
  SocketType, socket_type_rows, no_socket_type,
}
use matlab_zmq.Util.Table.{is_null}
use matlab_zmq.Mex.Constants.{SocketTypes}
use matlab_zmq.Mex.Exec.{MexError}
use matlab_zmq.Mex.Memory.{State}
use matlab_zmq.Mex.Host.{Host}
use matlab_zmq.Mex.Exec.Ends

-- A name without a zero byte.
unfoldable pub is_text : Option String → Bool
is_text none = false
is_text (some n) = str_eq (up_to_zero (codes n)) (codes n)

-- The name of a row, as MATLAB gets it.
pub record IsLabel (name : Option String) (out : Out) : Type 0 where
  pub label : String
  pub has_name : name ≡ some label
  pub shown : out ≡ chars (codes label)

module _ (H : Host) (s : State H) where
  pub name_to_m-Ends :
      {E : MexError → State H → Type 0} (name : Option String)
      → is_text name ≡ true
      → Ends (λ out t. (t ≡ s) × IsLabel name out) E (name_to_m H name s)
  unfolding is_text
  name_to_m-Ends none h = cc
  name_to_m-Ends (some n) h =
      let text : up_to_zero (codes n) ≡ codes n = (str_eq_iff _ _).0 h in
      rw (str_to_m_lem H (codes n ++ 0 ∷ []) s (c_str_terminated (codes n) [] ∙ ap some text))
        (returns (refl, record { label = n; has_name = refl; shown = refl }))

-- A row of the table with this number.
pub record IsNumbered (H : Host) (id : ℤ) (r : SocketType) : Type 0 where
  pub place : ℕ
  pub in_table : get_elem? (socket_type_rows H.constants.socket_types) place ≡ some r
  pub same_id : id ≡ r.id

types_are_text : (k : SocketTypes) → every (λ r. is_text r.name) (socket_type_rows k) ≡ true
unfolding is_text up_to_zero
types_are_text k = refl

-- The output is the name of a row with this number.
pub record IsTypeName (H : Host) (id : ℤ) (out : Out) : Type 0 where
  pub row : SocketType
  pub numbered : IsNumbered H id row
  pub labelled : IsLabel row.name out

module _ (H : Host) (s : State H) where
  find_socket_type_by_id-Ends :
      (id : ℤ)
      → Ends
          (λ r t. (t ≡ s) × IsNumbered H id r)
          (λ e t. (t ≡ s) × (e.id ≡ "zmq:core:socket:invalidTypeId"))
          (find_socket_type_by_id H id s)
  unfolding find_socket_type_by_id
  find_socket_type_by_id-Ends id =
      let rows = socket_type_rows H.constants.socket_types in
      let stop : SocketType → Bool = λ r. is_null r.name in
      let hit : SocketType → Bool = λ r. eq_ℤ id r.id in
      elim (scan-ends stop hit rows no_socket_type refl) [
        | inl (r, e, _) ↦
            let (i, at, m) = scan-found_row stop hit rows no_socket_type refl e in
            rw e (returns (refl, record { place = i; in_table = at; same_id = (eq_ℤ_iff _ _).0 m }))
        | inr (r, e, _) ↦ rw e (throws (refl, refl))
      ]

  -- The four bytes of a number give the name of a row with that number, or the lookup throws.
  pub socktype_to_m-Ends :
      (bytes : Bytes)
      → length bytes ≡ 4
      → Ends
          (λ out t. (t ≡ s) × IsTypeName H (signed int_values (of_bytes bytes)) out)
          (λ e t. (t ≡ s) × (e.id ≡ "zmq:core:socket:invalidTypeId"))
          (socktype_to_m H bytes s)
  unfolding socktype_to_m
  socktype_to_m-Ends bytes size =
      let k = H.constants.socket_types in
      Ends.bind_value _ bytes s
        (Ends.mono (read-Ends H 4 bytes s (omega (arith, size)))
          (λ x t (e, now). (e ∙ take_all 4 bytes (omega (arith, size)), now)) (λ e t f. f))
        (Ends.bind_same _ s (find_socket_type_by_id-Ends (signed int_values (of_bytes bytes)))
          λ r is.
            Ends.mono
              (name_to_m-Ends H s r.name (
                every_at (λ x. is_text x.name) (socket_type_rows k) is.place (types_are_text k)
                  is.in_table))
              (λ out t (now, l). (now, record { row = r; numbered = is; labelled = l }))
              (λ e t f. f))
