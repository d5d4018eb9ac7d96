-- ===== src/Core/Version.antt =====
-- src/core/version.c: the version of libzmq as text.
pub mod Decimal
pub mod Laws
use matlab_zmq.Prelude.{
  ℕ, zero, suc, ◌+◌, ◌/◌, ◌%◌, ℤ, pos, negsuc, List, [], ◌∷◌, ◌++◌, Bytes, codes, String, overwrite,
  leb, length, ltb, if◌then◌else◌, Option, none, some,
}
use matlab_zmq.Mex.Exec.{throw, undefined_behaviour, pure, ◌>>=◌}
use matlab_zmq.Mex.Host.{Host}
use matlab_zmq.Mex.Memory.{Mex, Block, calloc, read_string}
use matlab_zmq.Util.Conversions.ToM.{Out, chars}

-- The decimal digits of a number, as far as so many digits reach.
unfoldable pub decimal : ℕ → ℕ → Bytes
decimal zero n = []
decimal (suc digits) n =
    let rest = decimal digits (n / 10) in
    if ltb n 10 then (48 + n) ∷ [] else rest ++ (48 + n % 10) ∷ []

-- `%d`: an `int` has at most ten digits.
abbrev pub int_text : ℤ → Bytes
int_text (pos n) = decimal 10 n
int_text (negsuc n) = 45 ∷ decimal 10 (n + 1)

-- `"%d.%d.%d"`
unfoldable pub version_text : ℤ × ℤ × ℤ → Bytes
version_text (major, minor, patch) =
    int_text major ++ (46 ∷ (int_text minor ++ (46 ∷ int_text patch)))

-- What a call shows: a line in the command window, or a string.
pub data Shown : Type 0 where
  printed : Bytes → Shown
  string : Out → Shown

module _ (H : Host) where
  -- `sprintf` to the block: past its end, undefined. The block is not compared with NULL.
  abbrev pub sprintf_to : Bytes → Option Block → Mex H Bytes
  sprintf_to text none = undefined_behaviour
  sprintf_to text (some block) =
      if leb (length text + 1) (length block.bytes)
      then pure (overwrite block.bytes (text ++ 0 ∷ []))
      else undefined_behaviour

  -- The branch with one output. The block is not freed.
  unfoldable pub version_string : Mex H Shown
  version_string = do
    block ← calloc H 50 1
    output ← sprintf_to (version_text H.zmq_version) block
    text ← read_string H output
    pure (string (chars text))

  -- `mexFunction`
  unfoldable pub version_mex : ℕ → Mex H Shown
  version_mex nlhs =
      if ltb nlhs 1
      then pure (printed (codes "ZMQ Version " ++ version_text H.zmq_version ++ codes "\n"))
      else if ltb 1 nlhs
      then throw "" "Too many output arguments." []
      else version_string
