-- ===== src/Util/Sockopt/MechanismNames.antt =====
-- From the number of a mechanism to its name, on every number.
use matlab_zmq.Mex.Exec.Ends.{throws, returns, Ends}
use matlab_zmq.Util.Table.Laws.{every_at, scan-found_row, scan-ends, every}
use matlab_zmq.Prelude.{
  eq_ℤ_iff, take_all, ◌∙◌, arith, eq_ℤ, Bool, true, get_elem?, length, ◌≡◌, Bytes, ℕ, up_to_zero, ℤ,
  some, refl, inl, inr,
}
use matlab_zmq.Mex.Memory.Laws.{read-Ends}
use matlab_zmq.Prelude.Words.{of_bytes, int_values, signed}
use matlab_zmq.Util.Sockopt.{
  is_null, signed, Mechanisms, Out, mechanism_to_m, find_sockopt_mechanism_by_id, SockoptMechanism,
  mechanism_rows, no_mechanism,
}
use matlab_zmq.Util.Table.{is_null}
use matlab_zmq.Mex.Constants.{Mechanisms}
use matlab_zmq.Util.Conversions.ToM.{Out}
use matlab_zmq.Mex.Memory.{State}
use matlab_zmq.Mex.Host.{Host}
use matlab_zmq.Util.Socket.Names.{is_text, IsLabel, name_to_m-Ends}
use matlab_zmq.Mex.Exec.Ends

-- A row of the table with this number.
pub record IsNumbered (H : Host) (id : ℤ) (r : SockoptMechanism) : Type 0 where
  pub place : ℕ
  pub in_table : get_elem? (mechanism_rows H.constants.mechanisms) place ≡ some r
  pub same_id : id ≡ r.id

mechanisms_are_text : (k : Mechanisms) → every (λ r. is_text r.name) (mechanism_rows k) ≡ true
unfolding is_text up_to_zero
mechanisms_are_text k = refl

-- The output is the name of a row with this number.
pub record IsMechanismName (H : Host) (id : ℤ) (out : Out) : Type 0 where
  pub row : SockoptMechanism
  pub numbered : IsNumbered H id row
  pub labelled : IsLabel row.name out

module _ (H : Host) (s : State H) where
  find_sockopt_mechanism_by_id-Ends :
      (id : ℤ)
      → Ends
          (λ r t. (t ≡ s) × IsNumbered H id r)
          (λ e t. (t ≡ s) × (e.id ≡ "zmq:core:sockopt:invalidOptionMechanismId"))
          (find_sockopt_mechanism_by_id H id s)
  unfolding find_sockopt_mechanism_by_id
  find_sockopt_mechanism_by_id-Ends id =
      let rows = mechanism_rows H.constants.mechanisms in
      let stop : SockoptMechanism → Bool = λ r. is_null r.name in
      let hit : SockoptMechanism → Bool = λ r. eq_ℤ id r.id in
      elim (scan-ends stop hit rows no_mechanism refl) [
        | inl (r, e, _) ↦
            let (i, at, m) = scan-found_row stop hit rows no_mechanism refl e in
            rw e (returns (refl, record { place = i; in_table = at; same_id = (eq_ℤ_iff _ _).0 m }))
        | inr (r, e, _) ↦ rw e (throws (refl, refl))
      ]

  -- The four bytes of a number give the name of a row with that number, or the lookup throws.
  pub mechanism_to_m-Ends :
      (bytes : Bytes)
      → length bytes ≡ 4
      → Ends
          (λ out t. (t ≡ s) × IsMechanismName H (signed int_values (of_bytes bytes)) out)
          (λ e t. (t ≡ s) × (e.id ≡ "zmq:core:sockopt:invalidOptionMechanismId"))
          (mechanism_to_m H bytes s)
  unfolding mechanism_to_m
  mechanism_to_m-Ends bytes size =
      let k = H.constants.mechanisms in
      Ends.bind_value _ bytes s
        (Ends.mono (read-Ends H 4 bytes s (omega (arith, size)))
          (λ x t (e, now). (e ∙ take_all 4 bytes (omega (arith, size)), now)) (λ e t f. f))
        (Ends.bind_same _ s (find_sockopt_mechanism_by_id-Ends (signed int_values (of_bytes bytes)))
          λ r is.
            Ends.mono
              (name_to_m-Ends H s r.name (
                every_at (λ x. is_text x.name) (mechanism_rows k) is.place (mechanisms_are_text k)
                  is.in_table))
              (λ out t (now, l). (now, record { row = r; numbered = is; labelled = l }))
              (λ e t f. f))
