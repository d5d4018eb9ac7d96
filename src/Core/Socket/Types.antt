-- ===== src/Core/Socket/Types.antt =====
-- The chain of socket.c and the table of util/socket.c know the same socket types.
use matlab_zmq.Prelude.{
  arith, true, zero, suc, ℤ, Option, get_elem?, not, ◌≡◌, String, codes, ℕ, Bytes, List, [], ◌∷◌,
  none, some, refl,
}
use matlab_zmq.Core.Socket.{ℤ, Option, not, codes, ℕ, Bytes, List, SocketTypes, socket_type_value}
use matlab_zmq.Util.Table.{matches}
use matlab_zmq.Mex.Exec.Ends.{Ends}
use matlab_zmq.Mex.Memory.{State}
use matlab_zmq.Util.Table.Laws.{every}
use matlab_zmq.Mex.Constants.{SocketTypes}
use matlab_zmq.Mex.Host.{Host}
use matlab_zmq.Util.Socket.{find_socket_type_by_name, SocketType, socket_type_rows}
use matlab_zmq.Util.Socket.Laws.{find_socket_type_by_name-Ends}
use matlab_zmq.Mex.Exec.Ends

-- The chain gives the row's number for the row's name.
abbrev Agrees : SocketTypes → SocketType → Type 0
Agrees k r = elim r.name [ none ↦ Unit {0} | some n ↦ socket_type_value k (codes n) ≡ some r.id ]

abbrev AllRows : (SocketType → Type 0) → List SocketType → Type 0
AllRows P [] = Unit
AllRows P (r ∷ rs) = P r × AllRows P rs

AllRows-at :
    (P : SocketType → Type 0) (rs : List SocketType) (i : ℕ) (r : SocketType)
    → AllRows P rs
    → get_elem? rs i ≡ some r
    → P r
AllRows-at P [] i r all e = cc
AllRows-at P (x ∷ rs) zero r (p, all) e = let same : x ≡ r = cc in rw same at p
AllRows-at P (x ∷ rs) (suc i) r (p, all) e = AllRows-at P rs i r all e

rows-Agrees : (k : SocketTypes) → AllRows (Agrees k) (socket_type_rows k)
unfolding socket_type_value
rows-Agrees k = (
  refl,
  (refl, (refl, (refl, (refl, (refl, (refl, (refl, (refl, (refl, (refl, (refl, tt))))))))))),
)

at_name :
    (k : SocketTypes) (n : String) (o : Option String) (id : ℤ)
    → o ≡ some n
    → Agrees k (record { id = id; name = o })
    → socket_type_value k (codes n) ≡ some id
at_name k n o id e a = rw e at a

value-unknown :
    (k : SocketTypes) (type : Bytes)
    → every (λ r. not (matches type r.name)) (socket_type_rows k) ≡ true
    → socket_type_value k type ≡ none
unfolding socket_type_value
value-unknown k type h = ground arith

-- On every text, the chain gives the number of the row that the table has for it, and knows no
-- number exactly where the lookup in the table throws.
pub socket_type_value-find_socket_type_by_name :
    (H : Host) (type : Bytes) (s : State H)
    → Ends
        (λ r t. (t ≡ s) × (socket_type_value H.constants.socket_types type ≡ some r.id))
        (λ e t. (t ≡ s) × (socket_type_value H.constants.socket_types type ≡ none))
        (find_socket_type_by_name H type s)
socket_type_value-find_socket_type_by_name H type s =
    let k = H.constants.socket_types in
    Ends.mono (find_socket_type_by_name-Ends H s type)
      (λ r t (same, n). (
        same,
        rw (n.same_text) (
            at_name k n.name r.name r.id n.has_name
              (AllRows-at (Agrees k) (socket_type_rows k) n.place r (rows-Agrees k) n.in_table)),
      ))
      (λ e t (same, _, unknown). (same, value-unknown k type unknown))
