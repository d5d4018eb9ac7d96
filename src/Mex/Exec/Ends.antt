-- ===== src/Mex/Exec/Ends.antt =====
-- Runs that are defined: what holds where they return, and what holds where they throw.
use matlab_zmq.Prelude.{◌≡◌, refl, String, Bool, true, false, if◌then◌else◌, []}
use matlab_zmq.Mex.Exec.{MexError, Outcome, returned, thrown, Exec, and_then, ◌>>◌, reject_if}

pub data Ends {S A : Type 0} (Q : A → S → Type 0) (E : MexError → S → Type 0)
    : Outcome A × S → Type 0 where
  returns : {a : A} {s : S} → Q a s → Ends Q E (returned a, s)
  throws : {e : MexError} {s : S} → E e s → Ends Q E (thrown e, s)

module _ {S A : Type 0} {Q : A → S → Type 0} {E : MexError → S → Type 0} where
  pub bind :
      {B : Type 0} {P : B → S → Type 0} {r : Outcome B × S} {f : B → Exec S A}
      → Ends P E r
      → ((b : B) (s : S) → P b s → Ends Q E (f b s))
      → Ends Q E (and_then r f)
  bind (returns p) next = next _ _ p
  bind (throws e) next = throws e

  pub mono :
      {P : A → S → Type 0} {F : MexError → S → Type 0} {r : Outcome A × S}
      → Ends P F r
      → ((a : A) (s : S) → P a s → Q a s)
      → ((e : MexError) (s : S) → F e s → E e s)
      → Ends Q E r
  mono (returns p) weaken _ = returns (weaken _ _ p)
  mono (throws e) _ weaken = throws (weaken _ _ e)

  pub reject :
      (b : Bool) (i f : String) (k : Exec S A) (s : S)
      → (b ≡ true → E (record { id = i; format = f; args = [] }) s)
      → (b ≡ false → Ends Q E (k s))
      → Ends Q E ((reject_if b i f >> k) s)
  reject true i f k s bad good = throws (bad refl)
  reject false i f k s bad good = good refl

  pub either :
      (b : Bool) (m n : Exec S A) (s : S)
      → (b ≡ true → Ends Q E (m s))
      → (b ≡ false → Ends Q E (n s))
      → Ends Q E ((if b then m else n) s)
  either true m n s h k = h refl
  either false m n s h k = k refl

  -- A step that changes nothing and gives a known value, or a value of which something is known.
  pub bind_value :
      {B : Type 0} {r : Outcome B × S} (f : B → Exec S A) (b : B) (s : S)
      → Ends (λ x t. (x ≡ b) × (t ≡ s)) E r
      → Ends Q E (f b s)
      → Ends Q E (and_then r f)
  bind_value f b s (returns (p, q)) next = rw (p, q) next
  bind_value f b s (throws e) next = throws e

  pub bind_same :
      {B : Type 0} {P : B → Type 0} {r : Outcome B × S} (f : B → Exec S A) (s : S)
      → Ends (λ x t. (t ≡ s) × P x) E r
      → ((b : B) → P b → Ends Q E (f b s))
      → Ends Q E (and_then r f)
  bind_same f s (returns (q, p)) next = rw q (next _ p)
  bind_same f s (throws e) next = throws e

module _ {S : Type 0} {Q : Unit {0} → S → Type 0} {E : MexError → S → Type 0} where
  -- A test that ends a run.
  pub reject_last :
      (b : Bool) (i f : String) (s : S)
      → (b ≡ true → E (record { id = i; format = f; args = [] }) s)
      → (b ≡ false → Q tt s)
      → Ends Q E (reject_if b i f s)
  reject_last true i f s bad good = throws (bad refl)
  reject_last false i f s bad good = returns (good refl)
