-- ===== src/Util/Conversions/ToM.antt =====
-- From C values to MATLAB values: the `*_to_m` functions. A `handle` is the bytes that it points at.
pub mod Laws
use matlab_zmq.Prelude.{
  ℕ, zero, suc, ◌*◌, ℤ, pos, Option, none, some, List, [], ◌∷◌, Bytes, length, take, drop, leb, map,
  ◌==◌, if◌then◌else◌,
}
use matlab_zmq.Prelude.Words.{of_bytes, signed, int_values, size_values}
use matlab_zmq.Mex.Exec.{pure, undefined_behaviour, ◌>>=◌}
use matlab_zmq.Mex.Host.{Host}
use matlab_zmq.Mex.Memory.{Mex, read, read_string}
use matlab_zmq.Util.Conversions.Matrix.{matrix_to_m}

-- The arrays that the functions create: class, rows, columns and the data in column-major order.
pub data Out : Type 0 where
  uint64s : ℕ → ℕ → List ℕ → Out
  int64s : ℕ → ℕ → List ℤ → Out
  uint32s : ℕ → ℕ → List ℕ → Out
  int32s : ℕ → ℕ → List ℤ → Out
  uint8s : ℕ → ℕ → Bytes → Out
  chars : Bytes → Out

-- `count` integers of `width` bytes, as far as the memory reaches.
unfoldable pub words : ℕ → ℕ → Bytes → List ℕ
words zero width bytes = []
words (suc count) width bytes =
    let rest = words count width (drop width bytes) in
    if leb width (length bytes) then of_bytes (take width bytes) ∷ rest else []

module _ (H : Host) where
  abbrev defined : {A : Type 0} → Option A → (A → Out) → Mex H Out
  defined none f = undefined_behaviour
  defined (some a) f = pure (f a)

  unfoldable pub uint64_matrix_to_m : Bytes → ℕ → ℕ → Mex H Out
  uint64_matrix_to_m handle m n = defined (matrix_to_m 0 (words (m * n) 8 handle) m n) (uint64s m n)

  unfoldable pub int64_matrix_to_m : Bytes → ℕ → ℕ → Mex H Out
  int64_matrix_to_m handle m n =
      defined (matrix_to_m (pos 0) (map (signed size_values) (words (m * n) 8 handle)) m n)
        (int64s m n)

  unfoldable pub uint32_matrix_to_m : Bytes → ℕ → ℕ → Mex H Out
  uint32_matrix_to_m handle m n = defined (matrix_to_m 0 (words (m * n) 4 handle) m n) (uint32s m n)

  unfoldable pub int_matrix_to_m : Bytes → ℕ → ℕ → Mex H Out
  int_matrix_to_m handle m n =
      defined (matrix_to_m (pos 0) (map (signed int_values) (words (m * n) 4 handle)) m n)
        (int32s m n)

  unfoldable pub uint8_array_to_m : Bytes → ℕ → Mex H Out
  unfolding read
  uint8_array_to_m handle n = do input ← read H n handle; pure (uint8s 1 n input)

  unfoldable pub size_t_to_m : Bytes → Mex H Out
  unfolding read
  size_t_to_m handle = do input ← read H 8 handle; pure (uint64s 1 1 (of_bytes input ∷ []))

  unfoldable pub uint64_to_m : Bytes → Mex H Out
  uint64_to_m handle = uint64_matrix_to_m handle 1 1

  unfoldable pub int64_to_m : Bytes → Mex H Out
  int64_to_m handle = int64_matrix_to_m handle 1 1

  unfoldable pub uint32_to_m : Bytes → Mex H Out
  uint32_to_m handle = uint32_matrix_to_m handle 1 1

  unfoldable pub int_to_m : Bytes → Mex H Out
  int_to_m handle = int_matrix_to_m handle 1 1

  unfoldable pub str_to_m : Bytes → Mex H Out
  unfolding read_string
  str_to_m handle = do t ← read_string H handle; pure (chars t)

  -- The array that holds a pointer: `sizeof(void*)` picks its class.
  abbrev pub pointer_array : ℕ → Out
  pointer_array p = if H.pointer_size == 4 then uint32s 1 1 (p ∷ []) else uint64s 1 1 (p ∷ [])

  -- The handle itself is the value.
  unfoldable pub pointer_to_m : ℕ → Mex H Out
  pointer_to_m handle = pure (pointer_array handle)
