-- ===== src/Util/Conversions/Matrix.antt =====
-- The loop that the `*_matrix_to_m` functions share: from C's row-major order to MATLAB's
-- column-major order. The `int` counters equal the indices for fewer than 2 ^ 31 rows and columns.
pub mod Laws
use matlab_zmq.Prelude.{
  ℕ, zero, suc, ◌+◌, ◌*◌, Option, none, some, List, [], ◌∷◌, ltb, length, set, get_elem?, replicate,
  if◌then◌else◌,
}

module _ {A : Type 0} where
  -- `output[k] = v`; out of bounds, undefined
  abbrev pub store : List A → ℕ → A → Option (List A)
  store out k v = if ltb k (length out) then some (set out k v) else none

  abbrev pub copied : Option A → (A → Option (List A)) → Option (List A)
  copied none f = none
  copied (some v) f = f v

  abbrev pub next : Option (List A) → (List A → Option (List A)) → Option (List A)
  next none f = none
  next (some out) f = f out

  module _ (input : List A) (m n : ℕ) where
    -- the rounds that are left of `for (j = 0; j < n; j++)`
    pub row_loop : ℕ → ℕ → ℕ → List A → Option (List A)
    row_loop i zero j out = some out
    row_loop i (suc rounds) j out =
        next (copied (get_elem? input (i * n + j)) (λ v. store out (j * m + i) v))
          (λ out'. row_loop i rounds (j + 1) out')

    -- the rounds that are left of `for (i = 0; i < m; i++)`
    pub matrix_loop : ℕ → ℕ → List A → Option (List A)
    matrix_loop zero i out = some out
    matrix_loop (suc rounds) i out =
        next (row_loop i n 0 out) (λ out'. matrix_loop rounds (i + 1) out')

  -- The loops on the zero-filled array of `mxCreateNumericMatrix`; `none` is a read or a write
  -- outside the arrays.
  unfoldable pub matrix_to_m : A → List A → ℕ → ℕ → Option (List A)
  unfolding row_loop matrix_loop
  matrix_to_m blank input m n = matrix_loop input m n m 0 (replicate (m * n) blank)
