-- ===== src/Core/Name.antt =====
-- `get_socket_type` of src/core/socket.c and `get_option_name` of src/core/ctx_get.c and ctx_set.c:
-- one text but for the error.
pub mod Laws
use matlab_zmq.Prelude.{◌%◌, Option, String, ℕ, [], ◌∷◌, none, some}
use matlab_zmq.Util.Conversions.FromM.{string_size, written_or}
use matlab_zmq.Prelude.Words.{int_values, signed, size_values, wrap}
use matlab_zmq.Mex.Memory.{calloc, Block, Mex}
use matlab_zmq.Mex.Host.{Host}
use matlab_zmq.Mex.Exec.{undefined_behaviour, ◌>>=◌}

module _ (H : Host) where
  -- `optLen`: an `int`, which becomes a `size_t` where it is handed over.
  abbrev pub name_length : H.Array → ℕ
  name_length param = wrap size_values (signed int_values (string_size H param % int_values))

  -- `mxGetString` into the block, which is not compared with NULL.
  abbrev pub name_written : String → String → H.Array → Option Block → Mex H Block
  name_written i f param none = undefined_behaviour
  name_written i f param (some ret) = written_or H i f ret (H.get_string param (name_length param))

  unfoldable pub name_from_m : String → String → H.Array → Mex H Block
  name_from_m i f param = do ret ← calloc H (name_length param) 1; name_written i f param ret
