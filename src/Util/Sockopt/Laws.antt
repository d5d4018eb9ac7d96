-- ===== src/Util/Sockopt/Laws.antt =====
-- Socket options: every name finds its own row, every option has a type with both conversions, and
-- the mechanisms behave like the socket types.
use matlab_zmq.Prelude.{
  sym, ap, ◌∙◌, inr, zero, arith, inl, suc, str_eq_iff, Option, negsuc, not, Bytes, ltb, pos,
  str_eq_refl, get_elem?, String, codes, ℤ, ◌≡◌, ℕ, Bool, none, some, refl, true, false,
}
use matlab_zmq.Util.Sockopt.{
  scan, sockopt_type_rows, SockoptType, find_sockopt_type_by_id, no_option, is_null, option,
  matches, sockopt_rows, find_sockopt_by_name, SockoptDesc,
}
use matlab_zmq.Util.Table.{scan, is_null, matches}
use matlab_zmq.Util.Table.Laws.{
  every_at, scan-none_hit, scan-found_row, scan-ends, every, scan-found, apart,
}
use matlab_zmq.Mex.Exec.Ends.{throws, returns, Ends}
use matlab_zmq.Mex.Exec.{returned}
use matlab_zmq.Mex.Constants.{SocketOptions}
use matlab_zmq.Mex.Memory.{State}
use matlab_zmq.Mex.Host.{Host}

named : SockoptDesc → SockoptDesc → Bool
named r x = elim r.name [ none ↦ false | some n ↦ matches (codes n) x.name ]

names_apart : (k : SocketOptions) → apart (λ x y. named y x) (sockopt_rows k) ≡ true
unfolding named
names_apart k = refl

module _ (H : Host) (s : State H) where
  -- The name of a socket option finds its row, whatever numbers zmq.h gives the options.
  pub find_sockopt_by_name-row :
      (i : ℕ) {id t : ℤ} {n : String}
      → get_elem? (sockopt_rows H.constants.socket_options) i ≡ some (option id n t)
      → find_sockopt_by_name H (codes n) s ≡ (returned (option id n t), s)
  unfolding find_sockopt_by_name named
  find_sockopt_by_name-row i {id} {t} {n} e = rw (
      scan-found (λ r. is_null r.name) named (sockopt_rows H.constants.socket_options) no_option i
        {r = option id n t} (str_eq_refl (codes n)) refl (names_apart H.constants.socket_options) e)

-- A row of the table of options whose name is this text.
pub record IsOption (H : Host) (name : Bytes) (r : SockoptDesc) : Type 0 where
  pub place : ℕ
  pub in_table : get_elem? (sockopt_rows H.constants.socket_options) place ≡ some r
  pub label : String
  pub has_name : r.name ≡ some label
  pub same_text : name ≡ codes label

-- A row with a name is the option of its parts.
row_name : (r : SockoptDesc) (n : String) → r.name ≡ some n → r ≡ option r.id n r.type_id
row_name r n e = ap (λ o. record { id = r.id; name = o; type_id = r.type_id }) e

-- The row of a name is the one that the lookup finds.
pub find_sockopt_by_name-IsOption :
    (H : Host) (s : State H) (name : Bytes) (r : SockoptDesc)
    → IsOption H name r
    → find_sockopt_by_name H name s ≡ (returned r, s)
find_sockopt_by_name-IsOption H s name r is =
    let whole = row_name r is.label is.has_name in
    rw (is.same_text) (
      find_sockopt_by_name-row H s is.place (is.in_table ∙ ap some whole)
      ∙ ap (λ x. (returned x, s)) (sym whole))

named-IsOption :
    (H : Host) (name : Bytes) (i : ℕ) (r : SockoptDesc) (o : Option String)
    → r.name ≡ o
    → get_elem? (sockopt_rows H.constants.socket_options) i ≡ some r
    → matches name o ≡ true
    → IsOption H name r
named-IsOption H name i r none e at m = cc
named-IsOption H name i r (some n) e at m = record {
  place = i;
  in_table = at;
  label = n;
  has_name = e;
  same_text = (str_eq_iff name (codes n)).0 m;
}

-- No option has this text for its name.
abbrev pub IsUnknown : Host → Bytes → Type 0
IsUnknown H name =
    every (λ r. not (matches name r.name)) (sockopt_rows H.constants.socket_options) ≡ true

module _ (H : Host) (s : State H) where
  -- A text is looked up as the option with that name, or it names none and the lookup throws.
  pub find_sockopt_by_name-Ends :
      (name : Bytes)
      → Ends
          (λ r t. (t ≡ s) × IsOption H name r)
          (λ e t. (t ≡ s) × (e.id ≡ "zmq:core:sockopt:invalidOptionName") × IsUnknown H name)
          (find_sockopt_by_name H name s)
  unfolding find_sockopt_by_name
  find_sockopt_by_name-Ends name =
      let rows = sockopt_rows H.constants.socket_options in
      let stop : SockoptDesc → Bool = λ r. is_null r.name in
      let hit : SockoptDesc → Bool = λ r. matches name r.name in
      elim (scan-ends stop hit rows no_option refl) [
        | inl (r, e, _) ↦
            let (i, at, m) = scan-found_row stop hit rows no_option refl e in
            rw e (returns (refl, named-IsOption H name i r r.name refl at m))
        | inr (r, e, _) ↦ rw e (throws (refl, refl, scan-none_hit stop hit rows no_option refl e))
      ]

-- The types of the options are rows of the table of types.
unfoldable pub is_typed : ℤ → Bool
is_typed (pos n) = ltb n 8
is_typed (negsuc n) = false

options_are_typed : (k : SocketOptions) → every (λ r. is_typed r.type_id) (sockopt_rows k) ≡ true
unfolding is_typed
options_are_typed k = refl

-- The type number of an option is one of the table of types.
pub option_is_typed :
    (H : Host) (name : Bytes) (r : SockoptDesc) → IsOption H name r → is_typed r.type_id ≡ true
option_is_typed H name r is =
    let k = H.constants.socket_options in
    every_at (λ x. is_typed x.type_id) (sockopt_rows k) is.place (options_are_typed k) is.in_table

-- The type with a number, as it is found.
record Found (H : Host) (s : State H) (z : ℤ) : Type 0 where
  type : SockoptType H
  place : ℕ
  in_table : get_elem? (sockopt_type_rows H) place ≡ some type
  has_id : type.id ≡ z
  lookup : find_sockopt_type_by_id H z s ≡ (returned type, s)

type_at : (H : Host) (s : State H) (n : ℕ) → ltb n 8 ≡ true → Found H s (pos n)
unfolding find_sockopt_type_by_id scan
type_at H s zero h = record { type = _; place = 0; in_table = refl; has_id = refl; lookup = refl }
type_at H s (suc zero) h = record {
  type = _;
  place = 1;
  in_table = refl;
  has_id = refl;
  lookup = refl;
}
type_at H s (suc (suc zero)) h = record {
  type = _;
  place = 2;
  in_table = refl;
  has_id = refl;
  lookup = refl;
}
type_at H s (suc (suc (suc zero))) h = record {
  type = _;
  place = 3;
  in_table = refl;
  has_id = refl;
  lookup = refl;
}
type_at H s (suc (suc (suc (suc zero)))) h = record {
  type = _;
  place = 4;
  in_table = refl;
  has_id = refl;
  lookup = refl;
}
type_at H s (suc (suc (suc (suc (suc zero))))) h = record {
  type = _;
  place = 5;
  in_table = refl;
  has_id = refl;
  lookup = refl;
}
type_at H s (suc (suc (suc (suc (suc (suc zero)))))) h = record {
  type = _;
  place = 6;
  in_table = refl;
  has_id = refl;
  lookup = refl;
}
type_at H s (suc (suc (suc (suc (suc (suc (suc zero))))))) h = record {
  type = _;
  place = 7;
  in_table = refl;
  has_id = refl;
  lookup = refl;
}
type_at H s (suc (suc (suc (suc (suc (suc (suc (suc n)))))))) h = absurd (ground arith)

typed_row : (H : Host) (s : State H) (z : ℤ) → is_typed z ≡ true → Found H s z
unfolding is_typed
typed_row H s (negsuc n) h = cc
typed_row H s (pos n) h = type_at H s n h

-- Every one of the options has a type in the table of types: the lookup that follows a successful
-- lookup of an option does not throw, and gives the row with the option's type number.
pub find_sockopt_type_by_id-option :
    (H : Host) (name : Bytes) (r : SockoptDesc) (s : State H)
    → IsOption H name r
    → (type : SockoptType H) × (find_sockopt_type_by_id H r.type_id s ≡ (returned type, s))
      × (type.id ≡ r.type_id)
find_sockopt_type_by_id-option H name r s is =
    let found = typed_row H s r.type_id (option_is_typed H name r is) in
    (found.type, found.lookup, found.has_id)
