-- ===== src/Core/Version/Laws.antt =====
-- `zmq.core.version` for every number of outputs.
use matlab_zmq.Prelude.{
  false, ltb, overwrite, zero, leb, ℕ, ◌+◌, ◌<◌, ◌≤◌, ℤ, [], ◌∷◌, ◌++◌, Bytes, codes, length,
  length-append, arith, ◌≡◌, refl, true, ◌*◌, NoZero, c_str, some, replicate, c_str-overwrite,
  leb_of_le, up_to_zero,
}
use matlab_zmq.Core.Version.{
  ltb, overwrite, leb, suc, int_text, version_text, version_mex, version_string, Shown, printed,
  string,
}
use matlab_zmq.Prelude.Words.{InRange, int_values}
use matlab_zmq.Core.Version.Decimal.{
  IsDecimal, int_text-IsDecimal, length-int_text, int_text-NoZero,
}
use matlab_zmq.Mex.Host.{Host, Allocates}
use matlab_zmq.Mex.Memory.{State, Block}
use matlab_zmq.Mex.Memory.Laws.{Holds, calloc-Cleared, read_string-Ends}
use matlab_zmq.Mex.Exec.{MexError}
use matlab_zmq.Mex.Exec.Ends.{Ends, returns, throws}
use matlab_zmq.Util.Conversions.ToM.{chars}
use matlab_zmq.Mex.Exec.Ends

abbrev pub IsVersion : ℤ × ℤ × ℤ → Type 0
IsVersion (major, minor, patch) =
    InRange int_values major × InRange int_values minor × InRange int_values patch

-- The three numbers in decimal, with points between them.
pub record IsVersionText (v : ℤ × ℤ × ℤ) (t : Bytes) : Type 0 where
  pub major : Bytes
  pub minor : Bytes
  pub patch : Bytes
  pub joined : t ≡ major ++ (46 ∷ (minor ++ (46 ∷ patch)))
  pub is_major : IsDecimal v.0 major
  pub is_minor : IsDecimal v.1 minor
  pub is_patch : IsDecimal v.2 patch

version_text-IsVersionText : (v : ℤ × ℤ × ℤ) → IsVersion v → IsVersionText v (version_text v)
unfolding version_text
version_text-IsVersionText (a, b, c) (p, q, r) = record {
  major = int_text a;
  minor = int_text b;
  patch = int_text c;
  joined = refl;
  is_major = int_text-IsDecimal a p;
  is_minor = int_text-IsDecimal b q;
  is_patch = int_text-IsDecimal c r;
}

length-version_text : (v : ℤ × ℤ × ℤ) → length (version_text v) ≤ 35
unfolding version_text
length-version_text (a, b, c) = omega (
  arith,
  length-append (int_text a) (46 ∷ (int_text b ++ (46 ∷ int_text c))),
  length-append (int_text b) (46 ∷ int_text c),
  length-int_text a,
  length-int_text b,
  length-int_text c,
)

NoZero-append : (s t : Bytes) → NoZero s → NoZero t → NoZero (s ++ t)
NoZero-append [] t p q = q
NoZero-append (b ∷ s) t p q = (p.0, NoZero-append s t p.1 q)

version_text-NoZero : (v : ℤ × ℤ × ℤ) → NoZero (version_text v)
unfolding version_text
version_text-NoZero (a, b, c) =
    NoZero-append (int_text a) (46 ∷ (int_text b ++ (46 ∷ int_text c))) (int_text-NoZero a) (
      omega arith,
      NoZero-append (int_text b) (46 ∷ int_text c) (int_text-NoZero b)
          (omega arith, int_text-NoZero c),
    )

up_to_zero-NoZero : (s : Bytes) → NoZero s → up_to_zero s ≡ s
unfolding up_to_zero
up_to_zero-NoZero [] h = refl
up_to_zero-NoZero (b ∷ s) h = rw (up_to_zero-NoZero s h.1) (ground arith)

module _ (H : Host) (nlhs : ℕ) (s : State H) where
  -- A line where no output is asked for, or the string of one output.
  pub data Done (shown : Shown) (t : State H) : Type 0 where
    line :
        nlhs ≡ 0
        → (text : Bytes) → IsVersionText H.zmq_version text
        → shown ≡ printed (codes "ZMQ Version " ++ text ++ codes "\n")
        → t ≡ s
        → Done shown t
    output :
        nlhs ≡ 1
        → (text : Bytes) → IsVersionText H.zmq_version text
        → shown ≡ string (chars text)
        → (block : Block) → Holds block s t
        → Done shown t

  pub record TooMany (e : MexError) (t : State H) : Type 0 where
    pub outputs : 1 < nlhs
    pub anonymous : e.id ≡ ""
    pub unchanged : t ≡ s

module _ (H : Host) (allocates : Allocates H) (v : IsVersion H.zmq_version) where
  version_string-Ends : (s : State H) → Ends (Done H 1 s) (TooMany H 1 s) (version_string H s)
  unfolding version_string
  version_string-Ends s =
      let text = version_text H.zmq_version in
      let room : leb (length text + 1) (length (replicate {A = ℕ} (50 * 1) 0)) ≡ true =
        leb_of_le _ _ (omega (arith, length-version_text H.zmq_version)) in
      let whole = up_to_zero-NoZero text (version_text-NoZero H.zmq_version) in
      let held_text : c_str (overwrite (replicate 50 0) (text ++ 0 ∷ [])) ≡ some text =
        rw (c_str-overwrite 50 text (omega (arith, length-version_text H.zmq_version)), whole) in
      Ends.bind (calloc-Cleared H allocates 50 1 s) λ o t c.
        rw (c.is, c.zeros, room)
          (Ends.bind_value _ text t (read_string-Ends H _ t held_text) (
            returns
              (output refl text (version_text-IsVersionText H.zmq_version v) refl c.block c.held)))

  -- Where the three numbers are of type `int` and `mxCalloc` gives memory, the function is free of
  -- undefined behaviour: the text always fits the fifty bytes, terminated. With no output it prints
  -- the line, with one it returns the string, and with more it throws. The text is the three
  -- numbers in decimal, each of which reads back as that number. The block of the string is left.
  pub version_mex-Ends :
      (nlhs : ℕ) (s : State H) → Ends (Done H nlhs s) (TooMany H nlhs s) (version_mex H nlhs s)
  unfolding version_mex
  version_mex-Ends zero s =
      returns (line refl _ (version_text-IsVersionText H.zmq_version v) refl refl)
  version_mex-Ends (suc zero) s = version_string-Ends s
  version_mex-Ends (suc (suc n)) s =
      let some_output : ltb (suc (suc n)) 1 ≡ false = ground arith in
      let more : ltb 1 (suc (suc n)) ≡ true = ground arith in
      rw (some_output, more)
        (throws (record { outputs = omega arith; anonymous = refl; unchanged = refl }))
