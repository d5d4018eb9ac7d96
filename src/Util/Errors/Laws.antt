-- ===== src/Util/Errors/Laws.antt =====
-- What src/util/errors.c reports, for any assignment of distinct, non-zero `errno` values.
use matlab_zmq.Prelude.{
  ap, ℕ, ◌≤◌, ◌<◌, ℤ, pos, eq_ℤ, eq_ℤ_refl, ◌≡◌, refl, sym, ◌∙◌, ◌≢◌, String, ◌<>◌, Bool, true,
  false, not, Option, none, some, arith, get_elem?, leb, Bool-cases, inl, inr, eq_ℤ_iff,
}
use matlab_zmq.Mex.Host.{IsLawful, IsShort, Host}
use Prim.Native.String.{count}
use text.Mathlib.TextLemmas.{length-append}
use mathlib.Core.Bool.{false≢true}
use matlab_zmq.Mex.Exec.{MexError}
use matlab_zmq.Mex.Exec.Ends.{Ends, returns, throws}
use matlab_zmq.Mex.Constants.{Errnos}
use matlab_zmq.Mex.Memory.{State}
use matlab_zmq.Util.Table.{missing}
use matlab_zmq.Util.Table.Laws.{
  scan-found_row, scan-none_hit, every, apart, scan-found, scan-missing, scan-ends, scan-every,
}
use matlab_zmq.Util.Errors.{
  ErrorDesc, error_rows, unknown_error, error_lookup, ends_errors, find_error_by_id, identifier,
  message_of, identifier_size, last_error, handle_error,
}

-- POSIX and zmq.h: the error numbers are not 0, and no two are the same.
pub record AreDistinct (k : Errnos) : Type 0 where
  pub nonzero : every (λ d. not (ends_errors d)) (error_rows k) ≡ true
  pub distinct : apart (λ d e. eq_ℤ d.id e.id) (error_rows k) ≡ true

module _ (k : Errnos) (valid : AreDistinct k) where
  -- Each of the 17 error numbers is looked up as its own row.
  pub find_error_by_id-row :
      (i : ℕ) {d : ErrorDesc}
      → get_elem? (error_rows k) i ≡ some d
      → find_error_by_id k d.id ≡ some d
  unfolding find_error_by_id
  find_error_by_id-row i {d} e = rw (
      scan-found ends_errors (λ x y. eq_ℤ y.id x.id) (error_rows k) unknown_error i {r = d}
        (eq_ℤ_refl d.id) valid.nonzero valid.distinct e)

  -- Any other number is looked up as `unknownOops`.
  pub find_error_by_id_other :
      (id : ℤ)
      → every (λ d. not (eq_ℤ d.id id)) (error_rows k) ≡ true
      → find_error_by_id k id ≡ some unknown_error
  unfolding find_error_by_id
  find_error_by_id_other id h = rw (
      scan-missing ends_errors (λ d. eq_ℤ d.id id) (error_rows k) unknown_error valid.nonzero h
        refl)

-- The row of the table with this number, or the last row where the table has no such number.
pub data IsErrorRow (k : Errnos) (err : ℤ) (d : ErrorDesc) : Type 0 where
  listed : (i : ℕ) → get_elem? (error_rows k) i ≡ some d → d.id ≡ err → IsErrorRow k err d
  unlisted :
      every (λ x. not (eq_ℤ x.id err)) (error_rows k) ≡ true
      → d.name ≡ "unknownOops"
      → IsErrorRow k err d

missing_row : {c d : ErrorDesc} → missing c ≡ missing d → c ≡ d
missing_row e = cc

-- The row that the loop reaches exists, and its name has at most 15 characters.
find_error_by_id-IsErrorRow :
    (k : Errnos) (err : ℤ)
    → every (λ d. not (ends_errors d)) (error_rows k) ≡ true
    → (d : ErrorDesc) × (find_error_by_id k err ≡ some d) × (count d.name ≤ 15) × IsErrorRow k err d
unfolding find_error_by_id
find_error_by_id-IsErrorRow k err nonzero =
    let hit : ErrorDesc → Bool = λ d. eq_ℤ d.id err in
    let short : every (λ d. leb (count d.name) 15) (error_lookup k) ≡ true = refl in
    elim (scan-ends ends_errors hit (error_rows k) unknown_error refl) [
      | inl (d, e, _) ↦
          let (i, at, m) = scan-found_row ends_errors hit (error_rows k) unknown_error refl e in
          let b =
            scan-every ends_errors hit (λ x. leb (count x.name) 15) (error_lookup k) short
              (inl e) in
          (d, rw e, ground arith, listed i at ((eq_ℤ_iff d.id err).0 m))
      | inr (d, e, _) ↦
          let none_hit = scan-none_hit ends_errors hit (error_rows k) unknown_error nonzero e in
          let ends =
            scan-missing ends_errors hit (error_rows k) unknown_error nonzero none_hit refl in
          let last : d ≡ unknown_error = missing_row (sym e ∙ ends) in
          let b =
            scan-every ends_errors hit (λ x. leb (count x.name) 15) (error_lookup k) short
              (inr e) in
          (d, rw e, ground arith, unlisted none_hit (ap (λ (x : ErrorDesc). x.name) last))
    ]

-- The identifier and its terminator fit the 255 bytes.
identifier-lt-size :
    (caller : Option String) (d : ErrorDesc)
    → IsShort caller
    → count d.name ≤ 15
    → count (identifier caller d) < identifier_size
identifier-lt-size none d h short = omega (arith, length-append "zmq:" d.name)
identifier-lt-size (some caller) d h short = omega (
  arith,
  length-append "zmq:core:" (caller <> (":" <> d.name)),
  length-append caller (":" <> d.name),
  length-append ":" d.name,
)

-- What `handle_error` throws in a state: the row of the error, and the text of libzmq.
pub record IsReport {H : Host} (s : State H) (e : MexError) : Type 0 where
  pub row : ErrorDesc
  pub row_found : IsErrorRow H.constants.errnos (last_error H s.world) row
  pub id_built : e.id ≡ identifier H.function_name row
  pub text_taken : e.format ≡ message_of (H.zmq_strerror (last_error H s.world))

module _ (H : Host) (lawful : IsLawful H) (s : State H) where
  pub handle_error_lem :
      Ends
        (λ _ t. (t ≡ s) × (last_error H s.world ≡ pos 0))
        (λ e t. (t ≡ s) × (last_error H s.world ≢ pos 0) × IsReport s e)
        (handle_error H s)
  unfolding handle_error
  handle_error_lem = elim (Bool-cases (eq_ℤ (last_error H s.world) (pos 0))) [
    | inl e ↦ rw e (returns (refl, (eq_ℤ_iff _ _).0 e))
    | inr e ↦
        let (d, f, n, is_row) =
          find_error_by_id-IsErrorRow H.constants.errnos (last_error H s.world)
            lawful.errnos_nonzero in
        let fits : leb identifier_size (count (identifier H.function_name d)) ≡ false =
          ground (arith, identifier-lt-size H.function_name d lawful.short_name n) in
        rw (e, f, fits)
          (throws (
            refl,
            (λ z. false≢true (sym e ∙ (eq_ℤ_iff _ _).1 z)),
            record { row = d; row_found = is_row; id_built = refl; text_taken = refl },
          ))
  ]
