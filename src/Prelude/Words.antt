-- ===== src/Prelude/Words.antt =====
-- Fixed-width integers in memory, little-endian and in two's complement, as on the platforms
-- for which the repository ships binaries.
use Prim.Native.Nat.{ℕ, zero, suc, ◌+◌, ◌-◌, ◌*◌, ◌/◌, ◌%◌, ◌^◌, ◌<◌}
use native.Mathlib.Nat.{pow-suc}
use mathlib.Core.Path.{◌≡◌, refl, ap}
use mathlib.Core.List.{[], ◌∷◌}
use native.Mathlib.Omega.{arith}
use matlab_zmq.Prelude.Tests.{ltb, if◌then◌else◌}
use matlab_zmq.Prelude.Lists.{length}
use matlab_zmq.Prelude.Int.{ℤ, pos, negsuc}
use matlab_zmq.Prelude.Text.{Bytes}

-- A `k`-byte unsigned integer, lowest byte first.
unfoldable pub to_bytes : ℕ → ℕ → Bytes
to_bytes zero x = []
to_bytes (suc k) x = (x % 256) ∷ to_bytes k (x / 256)

unfoldable pub of_bytes : Bytes → ℕ
of_bytes [] = 0
of_bytes (b ∷ bs) = b + 256 * of_bytes bs

pub length-to_bytes : (k x : ℕ) → length (to_bytes k x) ≡ k
unfolding to_bytes
length-to_bytes zero x = refl
length-to_bytes (suc k) x = ap suc (length-to_bytes k (x / 256))

pub of_bytes-to_bytes : (k x : ℕ) → x < 256 ^ k → of_bytes (to_bytes k x) ≡ x
unfolding to_bytes of_bytes
of_bytes-to_bytes zero x h = omega arith
of_bytes-to_bytes (suc k) x h =
    let small : x / 256 < 256 ^ k = omega (arith, pow-suc 256 k) in
    omega (arith, of_bytes-to_bytes k (x / 256) small)

-- The bit pattern of an integer in a type with `m` values, and the integer of a bit pattern.
unfoldable pub wrap : ℕ → ℤ → ℕ
wrap m (pos n) = n % m
wrap m (negsuc n) = m - 1 - n % m

unfoldable pub signed : ℕ → ℕ → ℤ
signed m u = if ltb u (m / 2) then pos u else negsuc (m - 1 - u)

-- The values of a signed type with `m` values.
abbrev pub InRange : ℕ → ℤ → Type 0
InRange m (pos n) = n < m / 2
InRange m (negsuc n) = n < m / 2

abbrev pub int_values : ℕ
int_values = 2 ^ 32

abbrev pub size_values : ℕ
size_values = 2 ^ 64

pub signed-wrap_int : (z : ℤ) → InRange int_values z → signed int_values (wrap int_values z) ≡ z
unfolding signed wrap
signed-wrap_int (pos n) h = ground arith
signed-wrap_int (negsuc n) h = ground arith

pub signed-wrap_long : (z : ℤ) → InRange size_values z → signed size_values (wrap size_values z) ≡ z
unfolding signed wrap
signed-wrap_long (pos n) h = ground arith
signed-wrap_long (negsuc n) h = ground arith

pub wrap-lt_int : (z : ℤ) → wrap int_values z < int_values
unfolding wrap
wrap-lt_int (pos n) = omega arith
wrap-lt_int (negsuc n) = omega arith

pub wrap-lt_long : (z : ℤ) → wrap size_values z < size_values
unfolding wrap
wrap-lt_long (pos n) = omega arith
wrap-lt_long (negsuc n) = omega arith
