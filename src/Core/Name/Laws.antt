-- ===== src/Core/Name/Laws.antt =====
-- The names of socket types and context options, as they are copied.
use matlab_zmq.Prelude.{
  c_str-overwrite, arith, up_to_zero, ◌*◌, c_str, replicate, ◌≡◌, Option, Bytes, String, none, some,
  refl,
}
use matlab_zmq.Mex.Exec.Ends.{returns, throws, Ends}
use matlab_zmq.Mex.Memory.Laws.{Holds-Quiet, calloc-Cleared, Holds}
use matlab_zmq.Core.Name.{written_or, Option, name_length, name_from_m}
use matlab_zmq.Util.Conversions.FromM.{written_or}
use matlab_zmq.Util.Conversions.FromM.Laws.{Fails}
use matlab_zmq.Mex.Memory.{State, Block}
use matlab_zmq.Mex.Host.{Host, IsLawful, Allocates}
use matlab_zmq.Mex.Exec.Ends

-- The block holds the array's text, terminated.
pub record IsName (H : Host) (a : H.Array) (b : Block) : Type 0 where
  pub chars : Bytes
  pub given : H.get_string a (name_length H a) ≡ some chars
  pub string : c_str b.bytes ≡ some (up_to_zero chars)

module _ (H : Host) (lawful : IsLawful H) (allocates : Allocates H) where
  written-IsName :
      (i f : String) (a : H.Array) (b : Block) (s t : State H) (o : Option Bytes)
      → Holds b s t
      → b.bytes ≡ replicate (name_length H a * 1) 0
      → H.get_string a (name_length H a) ≡ o
      → Ends (λ c u. Holds c s u × IsName H a c) (Fails (λ j. j ≡ i) s) (written_or H i f b o t)
  written-IsName i f a b s t none held cleared e =
      throws (record { id_known = refl; quiet = Holds-Quiet held })
  written-IsName i f a b s t (some chars) held cleared e =
      let n = name_length H a in
      let once : n * 1 ≡ n = omega arith in
      let zeros : b.bytes ≡ replicate n 0 = rw once at cleared in
      returns (
        record { live = held.live; calls = held.calls; warnings = held.warnings },
        record {
          chars = chars;
          given = e;
          string = rw zeros (c_str-overwrite n chars (lawful.string_fits a n e));
        },
      )

  -- The name is copied, terminated, into a new block, or the error of the caller is thrown. The
  -- block is never overrun, also where the length does not fit an `int`.
  pub name_from_m-Ends :
      (i f : String) (a : H.Array) (s : State H)
      → Ends (λ b t. Holds b s t × IsName H a b) (Fails (λ j. j ≡ i) s) (name_from_m H i f a s)
  unfolding name_from_m
  name_from_m-Ends i f a s =
      Ends.bind (calloc-Cleared H allocates (name_length H a) 1 s)
        λ o t c. rw (c.is) (written-IsName i f a c.block s t _ c.held c.zeros refl)
