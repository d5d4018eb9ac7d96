-- ===== src/Util/Errors.antt =====
-- src/util/errors.c: from an `errno` value to a MATLAB error.
pub mod Laws
use matlab_zmq.Prelude.{
  ℕ, ℤ, pos, eq_ℤ, leb, String, ◌<>◌, Bool, Option, none, some, List, [], ◌∷◌, ◌++◌, if◌then◌else◌,
}
use Prim.Native.String.{count}
use matlab_zmq.Mex.Exec.{Exec, pure, throw, undefined_behaviour, gets, ◌>>=◌}
use matlab_zmq.Mex.Constants.{Errnos}
use matlab_zmq.Mex.Host.{Host}
use matlab_zmq.Mex.Memory.{State, Mex}
use matlab_zmq.Util.Table.{Found, overrun, missing, found, scan}

-- `error_desc_t`
pub record ErrorDesc : Type 0 where
  pub id : ℤ
  pub name : String

abbrev pub desc : ℤ → String → ErrorDesc
desc i n = record { id = i; name = n }

-- `errorLookup` without its last row
abbrev pub error_rows : Errnos → List ErrorDesc
error_rows k =
    desc k.eaddrinuse "EADDRINUSE"
    ∷ desc k.eaddrnotavail "EADDRNOTAVAIL"
    ∷ desc k.eagain "EAGAIN"
    ∷ desc k.efault "EFAULT"
    ∷ desc k.efsm "EFSM"
    ∷ desc k.ehostunreach "EHOSTUNREACH"
    ∷ desc k.eintr "EINTR"
    ∷ desc k.einval "EINVAL"
    ∷ desc k.emfile "EMFILE"
    ∷ desc k.emthread "EMTHREAD"
    ∷ desc k.enocompatproto "ENOCOMPATPROTO"
    ∷ desc k.enodev "ENODEV"
    ∷ desc k.enomem "ENOMEM"
    ∷ desc k.enotsock "ENOTSOCK"
    ∷ desc k.enotsup "ENOTSUP"
    ∷ desc k.eprotonosupport "EPROTONOSUPPORT"
    ∷ desc k.eterm "ETERM"
    ∷ []

abbrev pub unknown_error : ErrorDesc
unknown_error = desc (pos 0) "unknownOops"

abbrev pub error_lookup : Errnos → List ErrorDesc
error_lookup k = error_rows k ++ unknown_error ∷ []

abbrev pub ends_errors : ErrorDesc → Bool
ends_errors d = eq_ℤ d.id (pos 0)

-- The loop breaks at the error or stops at the row with id 0, and the row where it is is returned.
abbrev row_reached : Found ErrorDesc → Option ErrorDesc
row_reached overrun = none
row_reached (missing d) = some d
row_reached (found d) = some d

-- `none` would be a row past the end of the table.
unfoldable pub find_error_by_id : Errnos → ℤ → Option ErrorDesc
find_error_by_id k id = row_reached (scan ends_errors (λ d. eq_ℤ d.id id) (error_lookup k))

-- `char identifier[255]`
abbrev pub identifier_size : ℕ
identifier_size = 255

-- What `sprintf` writes: with and without the name of the MEX function.
abbrev pub identifier : Option String → ErrorDesc → String
identifier none d = "zmq:" <> d.name
identifier (some caller) d = "zmq:core:" <> (caller <> (":" <> d.name))

abbrev pub unknown_message : String
unknown_message = "Error: Something has gone very, very wrong. Unknown error."

abbrev pub message_of : Option String → String
message_of none = unknown_message
message_of (some m) = m

module _ (H : Host) where
  -- `errno`, and where that is 0 `zmq_errno()`
  abbrev pub last_error : H.World → ℤ
  last_error w = if eq_ℤ (H.errno w) (pos 0) then H.zmq_errno w else H.errno w

  abbrev report : String → String → Mex H (Unit {0})
  report i message =
      if leb identifier_size (count i) then undefined_behaviour else throw i message []

  abbrev report_row : ℤ → Option ErrorDesc → Mex H (Unit {0})
  report_row err none = undefined_behaviour
  report_row err (some d) = report (identifier H.function_name d) (message_of (H.zmq_strerror err))

  unfoldable pub handle_error : Mex H (Unit {0})
  unfolding find_error_by_id
  handle_error = do
    err ← gets (λ s. last_error s.world)
    if eq_ℤ err (pos 0) then pure tt else report_row err (find_error_by_id H.constants.errnos err)
