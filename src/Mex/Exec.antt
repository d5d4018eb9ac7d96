-- ===== src/Mex/Exec.antt =====
-- A MEX function runs on a state and returns, throws through `mexErrMsgIdAndTxt`, or does what C
-- leaves undefined. What was done before a throw stays done, so the state comes back beside it.
pub mod Ends
use matlab_zmq.Prelude.{ℕ, ℤ, String, Bytes, Bool, Option, List, [], if◌then◌else◌}

-- An argument of a format string.
pub data Arg : Type 0 where
  text : Bytes → Arg
  number : ℤ → Arg
  message : Option String → Arg
  -- a value of type `size_t`
  size : ℕ → Arg

-- The arguments of `mexErrMsgIdAndTxt`, or of `mexWarnMsgIdAndTxt`.
pub record MexError : Type 0 where
  pub id : String
  pub format : String
  pub args : List Arg

pub data Outcome (A : Type 0) : Type 0 where
  returned : A → Outcome A
  thrown : MexError → Outcome A
  undefined : Outcome A

abbrev pub Exec : Type 0 → Type 0 → Type 0
Exec S A = S → Outcome A × S

module _ {S A : Type 0} where
  abbrev pub pure : A → Exec S A
  pure a s = (returned a, s)

  abbrev pub throw : String → String → List Arg → Exec S A
  throw i f xs s = (thrown (record { id = i; format = f; args = xs }), s)

  abbrev pub undefined_behaviour : Exec S A
  undefined_behaviour s = (undefined, s)

  abbrev pub gets : (S → A) → Exec S A
  gets f s = (returned (f s), s)

module _ {S A B : Type 0} where
  abbrev pub and_then : Outcome A × S → (A → Exec S B) → Outcome B × S
  and_then (returned a, s) f = f a s
  and_then (thrown e, s) f = (thrown e, s)
  and_then (undefined, s) f = (undefined, s)

  infixl 5 ◌>>=◌ ◌>>◌
  abbrev pub ◌>>=◌ : Exec S A → (A → Exec S B) → Exec S B
  m >>= f = λ s. and_then (m s) f

  abbrev pub ◌>>◌ : Exec S A → Exec S B → Exec S B
  m >> n = m >>= λ _. n

-- `if (test) mexErrMsgIdAndTxt(id, format);`
abbrev pub reject_if : {S : Type 0} → Bool → String → String → Exec S (Unit {0})
reject_if b i f s = if b then throw i f [] s else pure tt s
