-- ===== src/Util/Conversions/FromM.antt =====
-- From MATLAB values to C values in new blocks: the `*_from_m` functions.
pub mod Laws
use matlab_zmq.Prelude.{
  Bool, ℕ, ◌+◌, ◌*◌, ◌%◌, String, Option, none, some, [], ◌∷◌, ◌++◌, Bytes, ◌==◌, if◌then◌else◌,
  overwrite,
}
use matlab_zmq.Prelude.Words.{of_bytes, to_bytes, wrap, int_values, size_values}
use matlab_zmq.Mex.Exec.{pure, throw, ◌>>=◌}
use matlab_zmq.Mex.Host.{Host}
use matlab_zmq.Mex.Memory.{cast, Mex, Block, calloc, read}

abbrev pub no_memory : String
no_memory = "Error: Unsuccessful memory allocation."

module _ (H : Host) where
  -- `if (output == NULL) mexErrMsgIdAndTxt(id, ...)`
  abbrev pub allocated_or : String → Option Block → Mex H Block
  allocated_or i none = throw i no_memory []
  allocated_or i (some b) = pure b

  unfoldable pub uint8_array_from_m : H.Array → ℕ → Mex H Block
  unfolding calloc read
  uint8_array_from_m param n = do
    output ← calloc H n 1
    output ← allocated_or "util:calloc" output
    input ← read H n (H.get_data param)
    pure (record output { bytes = overwrite output.bytes input })

  -- `*output = (type) mxGetScalar(param)` in a block of `sizeof(type)` bytes
  scalar_from_m : ℕ → Bool → ℕ → Mex H Block
  unfolding calloc
  scalar_from_m size is_defined value = do
    output ← calloc H 1 size
    output ← allocated_or "util:calloc" output
    number ← cast H is_defined value
    pure (record output { bytes = overwrite output.bytes (to_bytes size number) })

  unfoldable pub size_t_from_m : H.Array → Mex H Block
  unfolding scalar_from_m
  size_t_from_m param =
      scalar_from_m 8 (H.casts_to_uint64 param) (H.double_to_uint64 (H.get_scalar param))

  unfoldable pub uint64_from_m : H.Array → Mex H Block
  unfolding scalar_from_m
  uint64_from_m param =
      scalar_from_m 8 (H.casts_to_uint64 param) (H.double_to_uint64 (H.get_scalar param))

  unfoldable pub int64_from_m : H.Array → Mex H Block
  unfolding scalar_from_m
  int64_from_m param =
      scalar_from_m 8 (H.casts_to_int64 param)
        (wrap size_values (H.double_to_int64 (H.get_scalar param)))

  unfoldable pub uint32_from_m : H.Array → Mex H Block
  unfolding scalar_from_m
  uint32_from_m param =
      scalar_from_m 4 (H.casts_to_uint32 param) (H.double_to_uint32 (H.get_scalar param))

  unfoldable pub int_from_m : H.Array → Mex H Block
  unfolding scalar_from_m
  int_from_m param =
      scalar_from_m 4 (H.casts_to_int param)
        (wrap int_values (H.double_to_int (H.get_scalar param)))

  -- `(size_t) mxGetM(param) * mxGetN(param) + 1`
  abbrev pub string_size : H.Array → ℕ
  string_size param = (H.get_m param * H.get_n param + 1) % size_values

  -- `mxGetString`, which writes the terminator too, or the error of a failure
  abbrev pub written_or : String → String → Block → Option Bytes → Mex H Block
  written_or i f output none = throw i f []
  written_or i f output (some t) =
      pure (record output { bytes = overwrite output.bytes (t ++ 0 ∷ []) })

  unfoldable pub str_from_m : H.Array → Mex H Block
  unfolding calloc
  str_from_m param = do
    str ← calloc H (string_size param) 1
    str ← allocated_or "mex:calloc" str
    written_or "util:str_from_m" "Error: Couldn't get parameter as string." str
        (H.get_string param (string_size param))

  unfoldable pub pointer_from_m : H.Array → Mex H ℕ
  unfolding read
  pointer_from_m param = do
    input ← read H H.pointer_size (H.get_data param)
    if of_bytes input == 0
        then throw "util:pointer_from_m" "Error: Invalid pointer." []
        else pure (of_bytes input)
