-- ===== src/Util/Conversions/Matrix/Laws.antt =====
-- The matrix loops move every element to its column-major place, inside both arrays.
use matlab_zmq.Prelude.{
  ℕ, zero, suc, ◌+◌, ◌-◌, ◌*◌, ◌≤◌, ◌<◌, ◌/◌, ◌%◌, ◌≡◌, refl, sym, ap, ◌∙◌, ◌⊎◌, inl, true, some,
  List, [], ◌∷◌, arith, ltb, length, set, get_elem?, replicate, length-set, get_elem?-set_self,
  get_elem?-set_ne, length-replicate,
}
use native.Mathlib.Decide.{dec_lt}
use native.Mathlib.Nat.{mul_comm}
use mathlib.Core.Path.{ap₂}
use matlab_zmq.Util.Conversions.Matrix.{row_loop, matrix_loop, matrix_to_m}

index-lt : (i j m n : ℕ) → i < m → j < n → j * m + i < m * n
index-lt i j m n h k = grind arith

mul_step : (j y m : ℕ) → j < y → j * m + m ≤ y * m
mul_step j y m h = grind arith

-- Two places of a column-major array are apart if their rows or their columns are.
index_inj : (i j x y m : ℕ) → i < m → x < m → j * m + i ≡ y * m + x → (i ≡ x) × (j ≡ y)
index_inj i j x y m h k e = elim (dec_lt j y) [
  | yes p ↦ absurd (omega (arith, mul_step j y m p))
  | no p ↦ elim (dec_lt y j) [
    | yes q ↦ absurd (omega (arith, mul_step y j m q))
    | no q ↦ let same : j ≡ y = omega arith in (omega (arith, ap (λ (z : ℕ). z * m) same), same)
  ]
]

pub get_elem?_of_lt {ℓ} :
    {A : Type ℓ} (xs : List A) (k : ℕ) → k < length xs → (v : A) × (get_elem? xs k ≡ some v)
get_elem?_of_lt [] k h = absurd (omega arith)
get_elem?_of_lt (x ∷ xs) zero h = (x, refl)
get_elem?_of_lt (x ∷ xs) (suc k) h = get_elem?_of_lt xs k (omega arith)

module _ {A : Type 0} (input : List A) (m n : ℕ) (whole : length input ≡ m * n) where
  -- The cells before row `i`, and those of row `i` before column `j`, are written.
  abbrev Before : ℕ → ℕ → ℕ → ℕ → Type 0
  Before i j x y = (x < i) ⊎ ((x ≡ i) × (y < j))

  record Written (i j : ℕ) (out : List A) : Type 0 where
    size : length out ≡ m * n
    cells :
        (x y : ℕ)
        → x < m
        → y < n
        → Before i j x y
        → get_elem? out (y * m + x) ≡ get_elem? input (x * n + y)

  -- One round of the inner loop.
  step-Written :
      (i j : ℕ) (out : List A) (v : A)
      → i < m
      → j < n
      → get_elem? input (i * n + j) ≡ some v
      → Written i j out
      → Written i (j + 1) (set out (j * m + i) v)
  step-Written i j out v hi hj e w = record {
    size = length-set out (j * m + i) v ∙ w.size;
    cells = λ x y hx hy b. elim (dec_lt 0 ((x - i) + (i - x) + (y - j) + (j - y))) [
      | yes p ↦
          get_elem?-set_ne out v (λ z. let (r, c) = index_inj i j x y m hi hx z in omega arith)
          ∙ w.cells x y hx hy (omega arith)
      | no p ↦
          let row : x ≡ i = omega arith in
          let column : y ≡ j = omega arith in
          let inside : j * m + i < length out = omega (arith, index-lt i j m n hi hj) in
          rw (row, column) (get_elem?-set_self out (j * m + i) v inside ∙ sym e)
    ];
  }

  row_loop-Written :
      (rounds i j : ℕ) (out : List A)
      → i < m
      → j + rounds ≡ n
      → Written i j out
      → (t : List A) × (row_loop input m n i rounds j out ≡ some t) × Written i n t
  unfolding row_loop
  row_loop-Written zero i j out hi left w =
      let last : j ≡ n = omega arith in (out, refl, rw last at w)
  row_loop-Written (suc rounds) i j out hi left w =
      let hj : j < n = omega arith in
      let inside : i * n + j < length input = omega (arith, index-lt j i n m hj hi, mul_comm m n) in
      let (v, e) = get_elem?_of_lt input (i * n + j) inside in
      let room : ltb (j * m + i) (length out) ≡ true =
        ground (arith, index-lt i j m n hi hj, w.size) in
      let more =
        row_loop-Written rounds i (j + 1) (set out (j * m + i) v) hi (omega arith)
          (step-Written i j out v hi hj e w) in
      rw (e, room) more

  matrix_loop-Written :
      (rounds i : ℕ) (out : List A)
      → i + rounds ≡ m
      → Written i 0 out
      → (t : List A) × (matrix_loop input m n rounds i out ≡ some t) × Written m 0 t
  unfolding matrix_loop
  matrix_loop-Written zero i out left w =
      let last : i ≡ m = omega arith in (out, refl, rw last at w)
  matrix_loop-Written (suc rounds) i out left w =
      let (t, e, u) = row_loop-Written n i 0 out (omega arith) (omega arith) w in
      let below : Written (i + 1) 0 t = record {
        size = u.size;
        cells = λ x y hx hy b. u.cells x y hx hy (omega arith);
      } in
      rw e (matrix_loop-Written rounds (i + 1) t (omega arith) below)

  -- An input of `m * n` elements is never read, nor the output written, out of bounds, and the
  -- element of row `x` and column `y` moves from place `x * n + y` to place `y * m + x`.
  pub matrix_to_m_lem :
      (blank : A)
      → (out : List A) × (matrix_to_m blank input m n ≡ some out)
        × (length out ≡ m * n)
        × ((x y : ℕ) → x < m → y < n → get_elem? out (y * m + x) ≡ get_elem? input (x * n + y))
  unfolding matrix_to_m
  matrix_to_m_lem blank =
      let start : Written 0 0 (replicate (m * n) blank) = record {
        size = length-replicate (m * n) blank;
        cells = λ x y hx hy b. absurd (omega arith);
      } in
      let (t, e, u) = matrix_loop-Written m 0 (replicate (m * n) blank) (omega arith) start in
      (t, e, u.size, λ x y hx hy. u.cells x y hx hy (inl hx))

list_ext {ℓ} :
    {A : Type ℓ} (xs ys : List A)
    → length xs ≡ length ys
    → ((k : ℕ) → k < length xs → get_elem? xs k ≡ get_elem? ys k)
    → xs ≡ ys
list_ext [] [] h e = refl
list_ext [] (y ∷ ys) h e = absurd (omega arith)
list_ext (x ∷ xs) [] h e = absurd (omega arith)
list_ext (x ∷ xs) (y ∷ ys) h e =
    let head : x ≡ y = cc (e 0 (omega arith)) in
    let tail : xs ≡ ys = list_ext xs ys (omega arith) (λ k b. e (suc k) (omega arith)) in
    ap₂ ◌∷◌ head tail

place : (k m n : ℕ) → k < m * n → (k / n < m) × (k % n < n) × ((k / n) * n + k % n ≡ k)
place k m zero h = absurd (grind arith)
place k m (suc n) h = (grind arith, omega arith, grind arith)

-- Converting a row-major matrix, and the result as a matrix of the transposed shape, gives the
-- first matrix back.
pub matrix_to_m-matrix_to_m :
    {A : Type 0} (blank : A) (input : List A) (m n : ℕ)
    → length input ≡ m * n
    → (out : List A) × (matrix_to_m blank input m n ≡ some out)
      × (matrix_to_m blank out n m ≡ some input)
matrix_to_m-matrix_to_m blank input m n whole =
    let (out, e, size, cells) = matrix_to_m_lem input m n whole blank in
    let (back, e', size', cells') = matrix_to_m_lem out n m (omega (arith, mul_comm m n)) blank in
    let same : back ≡ input = list_ext back input (omega (arith, mul_comm m n)) λ k h.
      let (r, c, p) = place k m n (omega (arith, mul_comm m n)) in
      rw p at (cells' (k % n) (k / n) c r ∙ cells (k / n) (k % n) r c) in
    (out, e, rw same at e')
