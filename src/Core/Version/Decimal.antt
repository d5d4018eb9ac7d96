-- ===== src/Core/Version/Decimal.antt =====
-- Numbers in decimal: the digits that version.c prints are read back as the number.
use matlab_zmq.Prelude.{
  inr, inl, Bool-cases, ℕ, zero, suc, ◌+◌, ◌*◌, ◌-◌, ◌/◌, ◌%◌, ◌^◌, ◌<◌, ◌≤◌, ℤ, pos, negsuc, [],
  ◌∷◌, ◌++◌, Bytes, length, length-append, arith, ◌≡◌, refl, ltb, NoZero,
}
use matlab_zmq.Prelude.Words.{InRange, int_values}
use matlab_zmq.Core.Version.{decimal, int_text}
use native.Mathlib.Nat.{pow-suc}

-- The number that digits denote behind the number `acc`.
unfoldable pub decimal_value : ℕ → Bytes → ℕ
decimal_value acc [] = acc
decimal_value acc (d ∷ ds) = decimal_value (acc * 10 + (d - 48)) ds

abbrev pub AreDigits : Bytes → Type 0
AreDigits [] = Unit {0}
AreDigits (d ∷ ds) = ((48 ≤ d) × (d ≤ 57)) × AreDigits ds

decimal_value-append :
    (acc : ℕ) (xs ys : Bytes)
    → decimal_value acc (xs ++ ys) ≡ decimal_value (decimal_value acc xs) ys
unfolding decimal_value
decimal_value-append acc [] ys = refl
decimal_value-append acc (x ∷ xs) ys = decimal_value-append (acc * 10 + (x - 48)) xs ys

decimal_value_one : (acc d : ℕ) → decimal_value acc (d ∷ []) ≡ acc * 10 + (d - 48)
unfolding decimal_value
decimal_value_one acc d = refl

AreDigits-append : (xs ys : Bytes) → AreDigits xs → AreDigits ys → AreDigits (xs ++ ys)
AreDigits-append [] ys p q = q
AreDigits-append (x ∷ xs) ys p q = (p.0, AreDigits-append xs ys p.1 q)

pub AreDigits-NoZero : (xs : Bytes) → AreDigits xs → NoZero xs
AreDigits-NoZero [] p = tt
AreDigits-NoZero (x ∷ xs) p = (omega (arith, p.0.0), AreDigits-NoZero xs p.1)

-- Reading the digits of a number that they reach gives the number.
pub decimal_value-decimal : (k n : ℕ) → n < 10 ^ k → decimal_value 0 (decimal k n) ≡ n
unfolding decimal decimal_value
decimal_value-decimal zero n h = omega arith
decimal_value-decimal (suc k) n h = elim (Bool-cases (ltb n 10)) [
  | inl e ↦ rw (e, decimal_value_one 0 (48 + n)) (omega arith)
  | inr e ↦
      let small : n / 10 < 10 ^ k = omega (arith, pow-suc 10 k) in
      rw
        (
          e,
          decimal_value-append 0 (decimal k (n / 10)) ((48 + n % 10) ∷ []),
          decimal_value-decimal k (n / 10) small,
          decimal_value_one (n / 10) (48 + n % 10),
        )
        (omega arith)
]

decimal-AreDigits : (k n : ℕ) → AreDigits (decimal k n)
unfolding decimal
decimal-AreDigits zero n = tt
decimal-AreDigits (suc k) n = elim (Bool-cases (ltb n 10)) [
  | inl e ↦ rw e ((omega arith, ground arith), tt)
  | inr e ↦ rw e (
      AreDigits-append (decimal k (n / 10)) ((48 + n % 10) ∷ []) (decimal-AreDigits k (n / 10))
        ((omega arith, omega arith), tt))
]

length-decimal : (k n : ℕ) → length (decimal k n) ≤ k
unfolding decimal
length-decimal zero n = omega arith
length-decimal (suc k) n = elim (Bool-cases (ltb n 10)) [
  | inl e ↦ rw e (omega arith)
  | inr e ↦ rw e (
      omega
        (arith, length-append (decimal k (n / 10)) ((48 + n % 10) ∷ []), length-decimal k (n / 10)))
]

-- The text of an integer: its digits, behind a minus sign where it is negative.
abbrev pub IsDecimal : ℤ → Bytes → Type 0
IsDecimal (pos n) t = AreDigits t × (decimal_value 0 t ≡ n)
IsDecimal (negsuc n) [] = ⊥
IsDecimal (negsuc n) (c ∷ t) = (c ≡ 45) × AreDigits t × (decimal_value 0 t ≡ n + 1)

pub int_text-IsDecimal : (z : ℤ) → InRange int_values z → IsDecimal z (int_text z)
int_text-IsDecimal (pos n) h = (decimal-AreDigits 10 n, decimal_value-decimal 10 n (omega arith))
int_text-IsDecimal (negsuc n) h =
    (refl, decimal-AreDigits 10 (n + 1), decimal_value-decimal 10 (n + 1) (omega arith))

pub length-int_text : (z : ℤ) → length (int_text z) ≤ 11
length-int_text (pos n) = omega (arith, length-decimal 10 n)
length-int_text (negsuc n) = omega (arith, length-decimal 10 (n + 1))

pub int_text-NoZero : (z : ℤ) → NoZero (int_text z)
int_text-NoZero (pos n) = AreDigits-NoZero (decimal 10 n) (decimal-AreDigits 10 n)
int_text-NoZero (negsuc n) =
    (omega arith, AreDigits-NoZero (decimal 10 (n + 1)) (decimal-AreDigits 10 (n + 1)))
