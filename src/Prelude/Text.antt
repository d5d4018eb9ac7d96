-- ===== src/Prelude/Text.antt =====
-- C strings as lists of bytes: the bytes of a literal, `strcmp`, and the walk to the terminator.
use Prim.Native.Nat.{◌≤◌, ℕ, zero, suc, ◌<◌}
use Prim.Native.Char.{code}
use Prim.Native.String.{String}
use mathlib.Core.Path.{◌≡◌, refl, ap}
use mathlib.Core.Logic.{◌↔◌, ◌≢◌, inl, inr}
use mathlib.Core.Bool.{Bool, true, false, ◌&&◌}
use mathlib.Core.List.{List, [], ◌∷◌, ◌++◌}
use mathlib.Core.Option.{Option, none, some}
use native.Mathlib.Omega.{arith}
use matlab_zmq.Prelude.Tests.{◌==◌, if◌then◌else◌, Bool-cases}
use matlab_zmq.Prelude.Lists.{length, replicate, length-replicate}
use mathlib.Core.Option

abbrev pub Bytes : Type 0
Bytes = List ℕ

-- The bytes of an ASCII literal, without its terminator.
abbrev pub codes : String → Bytes
codes String.[] = []
codes (String.◌∷◌ c s) = code c ∷ codes s

-- `!strcmp(s, t)`, over strings that are read up to their terminators.
abbrev pub str_eq : Bytes → Bytes → Bool
str_eq [] [] = true
str_eq [] (b ∷ t) = false
str_eq (a ∷ s) [] = false
str_eq (a ∷ s) (b ∷ t) = (a == b) && str_eq s t

pub str_eq_iff : (s t : Bytes) → (str_eq s t ≡ true) ↔ (s ≡ t)
str_eq_iff [] [] = (λ h. refl, λ h. refl)
str_eq_iff [] (b ∷ t) = (λ h. cc, λ h. cc)
str_eq_iff (a ∷ s) [] = (λ h. cc, λ h. cc)
str_eq_iff (a ∷ s) (b ∷ t) =
    (λ h. ground (arith, str_eq_iff s t), λ h. ground (arith, str_eq_iff s t))

pub str_eq_refl : (s : Bytes) → str_eq s s ≡ true
str_eq_refl s = (str_eq_iff s s).1 refl

-- The bytes before the first zero byte. Without a zero byte a reader runs off the end.
unfoldable pub c_str : Bytes → Option Bytes
c_str [] = none
c_str (b ∷ bs) = let rest = c_str bs in if b == 0 then some [] else Option.map (λ t. b ∷ t) rest

-- No byte is zero.
abbrev pub NoZero : Bytes → Type 0
NoZero [] = Unit {0}
NoZero (b ∷ bs) = (0 < b) × NoZero bs

pub c_str-append : (s rest : Bytes) → NoZero s → c_str (s ++ 0 ∷ rest) ≡ some s
unfolding c_str
c_str-append [] rest h = refl
c_str-append (b ∷ bs) rest h = rw (c_str-append bs rest h.1, c_str) (ground arith)

-- `memcpy` to the start of a buffer: what does not fit is not written.
unfoldable pub overwrite : Bytes → Bytes → Bytes
overwrite [] new = []
overwrite (b ∷ bs) [] = b ∷ bs
overwrite (b ∷ bs) (c ∷ new) = c ∷ overwrite bs new

pub length-overwrite : (buf new : Bytes) → length (overwrite buf new) ≡ length buf
unfolding overwrite
length-overwrite [] new = refl
length-overwrite (b ∷ bs) [] = refl
length-overwrite (b ∷ bs) (c ∷ new) = omega (arith, length-overwrite bs new)

-- What a C reader takes of a text: the bytes before its first zero byte.
unfoldable pub up_to_zero : Bytes → Bytes
up_to_zero [] = []
up_to_zero (b ∷ bs) = if b == 0 then [] else b ∷ up_to_zero bs

pub c_str_terminated : (t rest : Bytes) → c_str (t ++ 0 ∷ rest) ≡ some (up_to_zero t)
unfolding c_str up_to_zero
c_str_terminated [] rest = refl
c_str_terminated (b ∷ bs) rest = rw (c_str_terminated bs rest, c_str) (ground arith)

-- A terminated text that fits a cleared buffer is what the buffer's C string holds.
pub c_str-overwrite :
    (n : ℕ) (t : Bytes)
    → length t < n
    → c_str (overwrite (replicate n 0) (t ++ 0 ∷ [])) ≡ some (up_to_zero t)
unfolding c_str up_to_zero overwrite
c_str-overwrite zero t h = absurd (omega arith)
c_str-overwrite (suc n) [] h = refl
c_str-overwrite (suc n) (b ∷ bs) h = rw (c_str-overwrite n bs (omega arith), c_str) (ground arith)

pub overwrite_all : (buf new : Bytes) → length new ≡ length buf → overwrite buf new ≡ new
unfolding overwrite
overwrite_all [] [] h = refl
overwrite_all [] (c ∷ new) h = absurd (omega arith)
overwrite_all (b ∷ buf) [] h = absurd (omega arith)
overwrite_all (b ∷ buf) (c ∷ new) h = ap (λ t. c ∷ t) (overwrite_all buf new (omega arith))

pub length-zeros : (n : ℕ) → length (replicate {A = ℕ} n 0) ≡ n
length-zeros n = length-replicate n 0

-- A terminated text that fits a buffer is its C string, whatever stood there before.
pub c_str-overwrite_text :
    (buf t : Bytes) → length t ≤ length buf → c_str t ≢ none → c_str (overwrite buf t) ≡ c_str t
unfolding c_str overwrite
c_str-overwrite_text buf [] h some_text = absurd (some_text refl)
c_str-overwrite_text [] (c ∷ t) h some_text = absurd (omega arith)
c_str-overwrite_text (b ∷ buf) (c ∷ t) h some_text = elim (Bool-cases (c == 0)) [
  | inl e ↦ rw e
  | inr e ↦ rw (c_str-overwrite_text buf t (omega arith) (λ z. some_text (rw (e, z))))
]
