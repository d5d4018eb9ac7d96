-- ===== src/Util/Table.antt =====
-- The loops over constant tables: `for (i = 0; !stop(table[i]); i++) if (hit(table[i])) break;`.
pub mod Laws
use matlab_zmq.Prelude.{
  ℕ, ℤ, String, Bool, true, false, Option, none, some, List, [], ◌∷◌, Bytes, codes, str_eq,
  if◌then◌else◌,
}
use matlab_zmq.Mex.Exec.{Arg, Exec, pure, throw, undefined_behaviour}

-- How such a loop ends: off the table, at the row that stops it, or at a hit.
pub data Found (R : Type 0) : Type 0 where
  overrun : Found R
  missing : R → Found R
  found : R → Found R

module _ {R : Type 0} (stop hit : R → Bool) where
  unfoldable pub scan : List R → Found R
  scan [] = overrun
  scan (r ∷ rs) = if stop r then missing r else if hit r then found r else scan rs

-- `name != NULL`, negated
abbrev pub is_null : Option String → Bool
is_null none = true
is_null (some name) = false

-- `!strcmp(text, name)`
abbrev pub matches : Bytes → Option String → Bool
matches text none = false
matches text (some name) = str_eq text (codes name)

-- The descriptor that was found, or the error that the function throws in its place.
abbrev pub or_throw : {R S : Type 0} → Found R → String → String → List Arg → Exec S R
or_throw overrun i f xs = undefined_behaviour
or_throw (missing r) i f xs = throw i f xs
or_throw (found r) i f xs = pure r
