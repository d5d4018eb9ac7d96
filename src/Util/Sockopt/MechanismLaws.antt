-- ===== src/Util/Sockopt/MechanismLaws.antt =====
-- The security mechanisms of src/util/sockopt.c, by name.
use matlab_zmq.Prelude.{
  length-zeros, arith, overwrite_all, ◌∙◌, str_eq_iff, true, codes, Bool, Option, get_elem?, not,
  up_to_zero, ◌⊎◌, ℕ, ◌≡◌, Bytes, String, none, some, refl, inl, inr,
}
use matlab_zmq.Prelude.Words.{length-to_bytes, int_values, wrap, to_bytes}
use matlab_zmq.Mex.Memory.Laws.{
  free-Ends, read_string-Ends, Quiet-trans, Holds-Quiet, Quiet-refl, calloc-Ends, Holds,
}
use matlab_zmq.Util.Conversions.FromM.Laws.{
  str_from_m-Ends, Fails-after, allocated_or-Ends, Fails, TextErrors,
}
use matlab_zmq.Util.Table.Laws.{scan-none_hit, scan-found_row, scan-ends, every}
use matlab_zmq.Mex.Exec.Ends.{throws, returns, Ends}
use matlab_zmq.Util.Sockopt.{
  is_null, matches, to_bytes, Block, mechanism_from_m, find_sockopt_mechanism_by_name,
  mechanism_rows, SockoptMechanism, no_mechanism,
}
use matlab_zmq.Util.Table.{is_null, matches}
use matlab_zmq.Util.Conversions.FromM.{string_size}
use matlab_zmq.Mex.Memory.{Block, State}
use matlab_zmq.Mex.Host.{Host, IsLawful}
use matlab_zmq.Mex.Exec.Ends

module _ (H : Host) where
  -- A row of the table of mechanisms whose name is this text.
  pub record IsNamed (type : Bytes) (r : SockoptMechanism) : Type 0 where
    pub place : ℕ
    pub in_table : get_elem? (mechanism_rows H.constants.mechanisms) place ≡ some r
    pub name : String
    pub has_name : r.name ≡ some name
    pub same_text : type ≡ codes name

  -- No mechanism has this text for its name.
  abbrev pub IsUnknown : Bytes → Type 0
  IsUnknown type =
      every (λ r. not (matches type r.name)) (mechanism_rows H.constants.mechanisms) ≡ true

module _ (H : Host) (s : State H) where
  named-IsNamed :
      (type : Bytes) (i : ℕ) (r : SockoptMechanism) (o : Option String)
      → r.name ≡ o
      → get_elem? (mechanism_rows H.constants.mechanisms) i ≡ some r
      → matches type o ≡ true
      → IsNamed H type r
  named-IsNamed type i r none e at m = cc
  named-IsNamed type i r (some n) e at m = record {
    place = i;
    in_table = at;
    name = n;
    has_name = e;
    same_text = (str_eq_iff type (codes n)).0 m;
  }

  -- A text is looked up as the row with that name, or it names no mechanism and the lookup
  -- throws. Nothing else happens.
  pub find_sockopt_mechanism_by_name-Ends :
      (type : Bytes)
      → Ends
          (λ r t. (t ≡ s) × IsNamed H type r)
          (λ e t. (t ≡ s) × (e.id ≡ "zmq:core:sockopt:invalidOptionMechanism") × IsUnknown H type)
          (find_sockopt_mechanism_by_name H type s)
  unfolding find_sockopt_mechanism_by_name
  find_sockopt_mechanism_by_name-Ends type =
      let rows = mechanism_rows H.constants.mechanisms in
      let stop : SockoptMechanism → Bool = λ r. is_null r.name in
      let hit : SockoptMechanism → Bool = λ r. matches type r.name in
      elim (scan-ends stop hit rows no_mechanism refl) [
        | inl (r, e, _) ↦
            let (i, at, m) = scan-found_row stop hit rows no_mechanism refl e in
            rw e (returns (refl, named-IsNamed type i r r.name refl at m))
        | inr (r, e, _) ↦
            rw e (throws (refl, refl, scan-none_hit stop hit rows no_mechanism refl e))
      ]

module _ (H : Host) (lawful : IsLawful H) where
  -- The block holds the number of the mechanism that the array names.
  pub record IsMechanism (a : H.Array) (b : Block) : Type 0 where
    pub chars : Bytes
    pub given : H.get_string a (string_size H a) ≡ some chars
    pub row : SockoptMechanism
    pub row_named : IsNamed H (up_to_zero chars) row
    pub value : b.bytes ≡ to_bytes 4 (wrap int_values row.id)

  abbrev pub MechanismErrors : String → Type 0
  MechanismErrors i =
      (i ≡ "util:calloc") ⊎ TextErrors H i ⊎ (i ≡ "zmq:core:sockopt:invalidOptionMechanism")

  -- `mechanism_from_m` gives a block with the number of the mechanism and no other block, or throws
  -- one of its errors. It makes no call of libzmq. Where it returns, the name was freed once;
  -- nothing is said of the blocks where it throws.
  pub mechanism_from_m-Ends :
      (a : H.Array) (s : State H)
      → Ends
          (λ b t. Holds b s t × IsMechanism a b)
          (Fails MechanismErrors s)
          (mechanism_from_m H a s)
  unfolding mechanism_from_m
  mechanism_from_m-Ends a s = Ends.bind (calloc-Ends H 1 4 s) λ o t got.
      Ends.bind
        (Ends.mono (allocated_or-Ends H _ "util:calloc" o s t got) (λ b u p. p)
          (λ e u f. Fails-after (λ i k. inl k) (Quiet-refl s) f))
        λ output u (held, cleared).
          Ends.bind
            (Ends.mono (str_from_m-Ends H lawful a u) (λ b v p. p)
              (λ e v f. Fails-after (λ i k. inr (inl k)) (Holds-Quiet held) f))
            λ name v (owned, is_text).
              let before = Quiet-trans (Holds-Quiet held) (Holds-Quiet owned) in
              Ends.bind (read_string-Ends H name.bytes v is_text.string) λ type w (read, same).
                rw (same, read)
                  (Ends.bind
                    (Ends.mono (find_sockopt_mechanism_by_name-Ends H v (up_to_zero is_text.chars))
                      (λ r x p. p)
                      (λ e x (now, known, _). record {
                        id_known = inr (inr known);
                        quiet = rw now before;
                      }))
                    λ row x (now, is_named). rw now (
                      Ends.bind (free-Ends H name u.live v owned.live) λ _ y freed. returns (
                        record {
                          live = freed.live ∙ held.live;
                          calls = freed.calls ∙ before.calls;
                          warnings = freed.warnings ∙ before.warnings;
                        },
                        record {
                          chars = is_text.chars;
                          given = is_text.given;
                          row = row;
                          row_named = is_named;
                          value = overwrite_all _ _ (
                              rw cleared (
                                omega (
                                  arith,
                                  length-to_bytes 4 (wrap int_values row.id),
                                  length-zeros 4,
                                )));
                        },
                      )))
