-- ===== src/Util/Socket/Laws.antt =====
-- Socket types: each name and each number finds its own row, and the conversions undo each other.
use matlab_zmq.Prelude.{
  length-zeros, overwrite_all, ap, ◌∙◌, ◌∷◌, ◌⊎◌, ◌++◌, [], arith, str_eq, ℕ, ℤ, ◌≡◌, refl, inl,
  inr, String, Bool, true, false, not, Option, none, some, Bytes, codes, str_eq_refl, str_eq_iff,
  eq_ℤ, eq_ℤ_refl, get_elem?, up_to_zero, take, take_all, leb_of_le, length, c_str_terminated,
}
use matlab_zmq.Mex.Memory.Laws.{
  free-Ends, Quiet-trans, Holds-Quiet, Quiet-refl, read_string-Ends, calloc-Ends, Holds,
}
use matlab_zmq.Util.Conversions.FromM.Laws.{
  Fails-after, str_from_m-Ends, allocated_or-Ends, Fails, TextErrors,
}
use matlab_zmq.Util.Conversions.FromM.{string_size}
use matlab_zmq.Mex.Memory.{Block, State}
use matlab_zmq.Util.Socket.{
  socktype_from_m, socktype_to_m, SocketType, socket_type, socket_type_rows, no_socket_type,
  find_socket_type_by_name, find_socket_type_by_id,
}
use matlab_zmq.Mex.Host.{IsLawful, Host}
use matlab_zmq.Util.Table.Laws.{
  every_at, scan-none_hit, scan-found_row, every, apart, scan-found, scan-ends,
}
use matlab_zmq.Mex.Exec.{returned}
use matlab_zmq.Mex.Exec.Ends.{Ends, returns, throws}
use matlab_zmq.Mex.Constants.{SocketTypes}
use matlab_zmq.Util.Conversions.ToM.{chars}
use matlab_zmq.Util.Conversions.ToM.Laws.{str_to_m_lem}
use matlab_zmq.Prelude.Words.{
  InRange, int_values, to_bytes, of_bytes, wrap, wrap-lt_int, signed, signed-wrap_int,
  length-to_bytes, of_bytes-to_bytes,
}
use matlab_zmq.Util.Table.{is_null, matches}
use matlab_zmq.Mex.Exec.Ends

-- zmq.h: no two socket types have the same number.
abbrev pub AreDistinct : SocketTypes → Type 0
AreDistinct k = apart (λ r x. eq_ℤ x.id r.id) (socket_type_rows k) ≡ true

abbrev named : SocketType → SocketType → Bool
named r x = elim r.name [ none ↦ false | some n ↦ matches (codes n) x.name ]

module _ (H : Host) where
  -- A row of the table of socket types whose name is this text.
  pub record IsNamed (type : Bytes) (r : SocketType) : Type 0 where
    pub place : ℕ
    pub in_table : get_elem? (socket_type_rows H.constants.socket_types) place ≡ some r
    pub name : String
    pub has_name : r.name ≡ some name
    pub same_text : type ≡ codes name

  -- No socket type has this text for its name.
  abbrev pub IsUnknown : Bytes → Type 0
  IsUnknown type =
      every (λ r. not (matches type r.name)) (socket_type_rows H.constants.socket_types) ≡ true

module _ (H : Host) (s : State H) where
  -- The name of a socket type finds its row.
  pub find_socket_type_by_name-row :
      (i : ℕ) {id : ℤ} {n : String}
      → get_elem? (socket_type_rows H.constants.socket_types) i ≡ some (socket_type id n)
      → find_socket_type_by_name H (codes n) s ≡ (returned (socket_type id n), s)
  unfolding find_socket_type_by_name
  find_socket_type_by_name-row i {id} {n} e = rw (
      scan-found (λ r. is_null r.name) named (socket_type_rows H.constants.socket_types)
        no_socket_type i {r = socket_type id n} (str_eq_refl (codes n)) refl refl e)

  -- The number of a socket type finds its row.
  pub find_socket_type_by_id-row :
      (i : ℕ) {r : SocketType}
      → AreDistinct H.constants.socket_types
      → get_elem? (socket_type_rows H.constants.socket_types) i ≡ some r
      → find_socket_type_by_id H r.id s ≡ (returned r, s)
  unfolding find_socket_type_by_id
  find_socket_type_by_id-row i {r} distinct e = rw (
      scan-found (λ x. is_null x.name) (λ y x. eq_ℤ y.id x.id)
        (socket_type_rows H.constants.socket_types) no_socket_type i {r = r} (eq_ℤ_refl r.id) refl
        distinct e)

  named-IsNamed :
      (type : Bytes) (i : ℕ) (r : SocketType) (o : Option String)
      → r.name ≡ o
      → get_elem? (socket_type_rows H.constants.socket_types) i ≡ some r
      → matches type o ≡ true
      → IsNamed H type r
  named-IsNamed type i r none e at m = cc
  named-IsNamed type i r (some n) e at m = record {
    place = i;
    in_table = at;
    name = n;
    has_name = e;
    same_text = (str_eq_iff type (codes n)).0 m;
  }

  -- A text is looked up as the row with that name, or it names no socket type and the lookup
  -- throws. Nothing else happens.
  pub find_socket_type_by_name-Ends :
      (type : Bytes)
      → Ends
          (λ r t. (t ≡ s) × IsNamed H type r)
          (λ e t. (t ≡ s) × (e.id ≡ "zmq:core:socket:invalidTypeName") × IsUnknown H type)
          (find_socket_type_by_name H type s)
  unfolding find_socket_type_by_name
  find_socket_type_by_name-Ends type =
      let rows = socket_type_rows H.constants.socket_types in
      let stop : SocketType → Bool = λ r. is_null r.name in
      let hit : SocketType → Bool = λ r. matches type r.name in
      elim (scan-ends stop hit rows no_socket_type refl) [
        | inl (r, e, _) ↦
            let (i, at, m) = scan-found_row stop hit rows no_socket_type refl e in
            rw e (returns (refl, named-IsNamed type i r r.name refl at m))
        | inr (r, e, _) ↦
            rw e (throws (refl, refl, scan-none_hit stop hit rows no_socket_type refl e))
      ]

is_string : SocketType → Bool
is_string r = elim r.name [ none ↦ true | some n ↦ str_eq (up_to_zero (codes n)) (codes n) ]

-- The names in the table are C strings.
names_are_strings : (k : SocketTypes) → every is_string (socket_type_rows k) ≡ true
unfolding up_to_zero is_string
names_are_strings k = refl

-- The number of each socket type is converted to its name.
pub socktype_to_m-row :
    (H : Host) (s : State H) (i : ℕ) {id : ℤ} {n : String}
    → AreDistinct H.constants.socket_types
    → InRange int_values id
    → get_elem? (socket_type_rows H.constants.socket_types) i ≡ some (socket_type id n)
    → socktype_to_m H (to_bytes 4 (wrap int_values id)) s ≡ (returned (chars (codes n)), s)
unfolding socktype_to_m is_string
socktype_to_m-row H s i {id} {n} distinct range e =
    let u = wrap int_values id in
    let size = length-to_bytes 4 u in
    let value : signed int_values (of_bytes (take 4 (to_bytes 4 u))) ≡ id = rw (
      take_all 4 (to_bytes 4 u) (omega arith),
      of_bytes-to_bytes 4 u (wrap-lt_int id),
      signed-wrap_int id range,
    ) in
    let row : find_socket_type_by_id H id s ≡ (returned (socket_type id n), s) =
      find_socket_type_by_id-row H s i distinct e in
    let text : up_to_zero (codes n) ≡ codes n = (str_eq_iff _ _).0 (
      every_at is_string (socket_type_rows H.constants.socket_types) i
        (names_are_strings H.constants.socket_types) e) in
    rw (leb_of_le 4 (length (to_bytes 4 u)) (omega arith), value, row)
      (str_to_m_lem H (codes n ++ 0 ∷ []) s (c_str_terminated (codes n) [] ∙ ap some text))

module _ (H : Host) (lawful : IsLawful H) where
  -- The block holds the number of the socket type that the array names.
  pub record IsSockType (a : H.Array) (b : Block) : Type 0 where
    pub chars : Bytes
    pub given : H.get_string a (string_size H a) ≡ some chars
    pub row : SocketType
    pub row_named : IsNamed H (up_to_zero chars) row
    pub value : b.bytes ≡ to_bytes 4 (wrap int_values row.id)

  abbrev pub SockTypeErrors : String → Type 0
  SockTypeErrors i = (i ≡ "util:calloc") ⊎ TextErrors H i ⊎ (i ≡ "zmq:core:socket:invalidTypeName")

  -- `socktype_from_m` gives a block with the number of the socket type and no other block, or throws
  -- one of its errors. It makes no call of libzmq. Where it returns, the name was freed once;
  -- nothing is said of the blocks where it throws.
  pub socktype_from_m-Ends :
      (a : H.Array) (s : State H)
      → Ends (λ b t. Holds b s t × IsSockType a b) (Fails SockTypeErrors s) (socktype_from_m H a s)
  unfolding socktype_from_m
  socktype_from_m-Ends a s = Ends.bind (calloc-Ends H 1 4 s) λ o t got.
      Ends.bind
        (Ends.mono (allocated_or-Ends H _ "util:calloc" o s t got) (λ b u p. p)
          (λ e u f. Fails-after (λ i k. inl k) (Quiet-refl s) f))
        λ output u (held, cleared).
          Ends.bind
            (Ends.mono (str_from_m-Ends H lawful a u) (λ b v p. p)
              (λ e v f. Fails-after (λ i k. inr (inl k)) (Holds-Quiet held) f))
            λ name v (owned, is_text).
              let before = Quiet-trans (Holds-Quiet held) (Holds-Quiet owned) in
              Ends.bind (read_string-Ends H name.bytes v is_text.string) λ type w (read, same).
                rw (same, read)
                  (Ends.bind
                    (Ends.mono (find_socket_type_by_name-Ends H v (up_to_zero is_text.chars))
                      (λ r x p. p)
                      (λ e x (now, known, _). record {
                        id_known = inr (inr known);
                        quiet = rw now before;
                      }))
                    λ row x (now, is_named). rw now (
                      Ends.bind (free-Ends H name u.live v owned.live) λ _ y freed. returns (
                        record {
                          live = freed.live ∙ held.live;
                          calls = freed.calls ∙ before.calls;
                          warnings = freed.warnings ∙ before.warnings;
                        },
                        record {
                          chars = is_text.chars;
                          given = is_text.given;
                          row = row;
                          row_named = is_named;
                          value = overwrite_all _ _ (
                              rw cleared (
                                omega (
                                  arith,
                                  length-to_bytes 4 (wrap int_values row.id),
                                  length-zeros 4,
                                )));
                        },
                      )))
