-- ===== src/Tests/Conversions.antt =====
-- The theorems about the conversions and the tables at concrete inputs.
use matlab_zmq.Prelude.{
  ◌+◌, arith, ◌*◌, get_elem?, ◌<◌, length, codes, pos, ℕ, ◌≡◌, List, [], ◌∷◌, some, refl, inr,
}
use matlab_zmq.Prelude.Words.{length-to_bytes, int_values, wrap, to_bytes}
use matlab_zmq.Util.Conversions.ToM.Laws.{pointer_from_m-pointer_to_m, layout}
use matlab_zmq.Util.Conversions.FromM.Laws.{
  str_from_m-Ends, pointer_from_m-Ends, TextErrors, Fails, pointer_in, IsPointer, IsText,
}
use matlab_zmq.Util.Conversions.ToM.{chars, pointer_array, pointer_to_m}
use matlab_zmq.Util.Socket.Laws.{
  socktype_from_m-Ends, socktype_to_m-row, SockTypeErrors, IsSockType,
}
use matlab_zmq.Mex.Exec.{returned}
use matlab_zmq.Util.Conversions.FromM.{str_from_m, pointer_from_m}
use matlab_zmq.Util.Socket.{socktype_from_m, socktype_to_m}
use matlab_zmq.Util.Sockopt.Laws.{
  find_sockopt_by_name-row, find_sockopt_type_by_id-option, find_sockopt_by_name-Ends, IsOption,
}
use matlab_zmq.Mex.Exec.Ends.{Ends}
use matlab_zmq.Tests.World.{host, host-IsLawful, at, Value}
use matlab_zmq.Util.Conversions.Matrix.{matrix_to_m}
use matlab_zmq.Util.Sockopt.{
  option, sopt_string, find_sockopt_type_by_id, SockoptType, find_sockopt_by_name,
}
use matlab_zmq.Mex.Memory.Laws.{Holds}
use matlab_zmq.Util.Conversions.Matrix.Laws.{matrix_to_m_lem, matrix_to_m-matrix_to_m}
use matlab_zmq.Util.Sockopt.Laws as SockoptLaws

abbrev matrix : List ℕ
matrix = 1 ∷ 2 ∷ 3 ∷ 4 ∷ 5 ∷ 6 ∷ []

matrix_to_m_example :
    (out : List ℕ) × (matrix_to_m 0 matrix 2 3 ≡ some out)
    × (length out ≡ 6)
    × ((x y : ℕ) → x < 2 → y < 3 → get_elem? out (y * 2 + x) ≡ get_elem? matrix (x * 3 + y))
matrix_to_m_example = matrix_to_m_lem matrix 2 3 refl 0

matrix_to_m-matrix_to_m_example :
    (out : List ℕ) × (matrix_to_m 0 matrix 2 3 ≡ some out) × (matrix_to_m 0 out 3 2 ≡ some matrix)
matrix_to_m-matrix_to_m_example = matrix_to_m-matrix_to_m 0 matrix 2 3 refl

data_of_pointer : host.get_data (Value.pointer 5) ≡ layout (pointer_array host 5)
unfolding layout
data_of_pointer = refl

pointer_from_m-pointer_to_m_example :
    (pointer_to_m host 5 (at (pos 0)) ≡ (returned (pointer_array host 5), at (pos 0)))
    × (pointer_from_m host (Value.pointer 5) (at (pos 0)) ≡ (returned 5, at (pos 0)))
pointer_from_m-pointer_to_m_example =
    pointer_from_m-pointer_to_m host 5 (Value.pointer 5) (at (pos 0)) (inr refl) (omega arith)
      (omega arith) data_of_pointer

str_from_m_example :
    Ends
      (λ b t. Holds b (at (pos 0)) t × IsText host (Value.char_row (codes "ZMQ_PUB")) b)
      (Fails (TextErrors host) (at (pos 0)))
      (str_from_m host (Value.char_row (codes "ZMQ_PUB")) (at (pos 0)))
str_from_m_example =
    str_from_m-Ends host host-IsLawful (Value.char_row (codes "ZMQ_PUB")) (at (pos 0))

pointer_from_m_example :
    Ends
      (λ p t. (t ≡ at (pos 0)) × IsPointer host (Value.pointer 5) p)
      (λ e t.
        (t ≡ at (pos 0)) × (e.id ≡ "util:pointer_from_m") × (pointer_in host (Value.pointer 5) ≡ 0))
      (pointer_from_m host (Value.pointer 5) (at (pos 0)))
pointer_from_m_example =
    pointer_from_m-Ends host (Value.pointer 5) (at (pos 0)) (omega (arith, length-to_bytes 8 5))

socktype_to_m_example :
    socktype_to_m host (to_bytes 4 (wrap int_values (pos 2))) (at (pos 0))
    ≡ (returned (chars (codes "ZMQ_SUB")), at (pos 0))
socktype_to_m_example = socktype_to_m-row host (at (pos 0)) 2 refl (omega arith) refl

socktype_from_m_example :
    Ends
      (λ b t.
        Holds b (at (pos 0)) t × IsSockType host host-IsLawful (Value.char_row (codes "ZMQ_SUB")) b)
      (Fails (SockTypeErrors host host-IsLawful) (at (pos 0)))
      (socktype_from_m host (Value.char_row (codes "ZMQ_SUB")) (at (pos 0)))
socktype_from_m_example =
    socktype_from_m-Ends host host-IsLawful (Value.char_row (codes "ZMQ_SUB")) (at (pos 0))

find_sockopt_by_name_example :
    Ends
      (λ r t. (t ≡ at (pos 0)) × IsOption host (codes "ZMQ_SUBSCRIBE") r)
      (λ e t.
        (t ≡ at (pos 0))
        × (e.id ≡ "zmq:core:sockopt:invalidOptionName")
        × SockoptLaws.IsUnknown host (codes "ZMQ_SUBSCRIBE"))
      (find_sockopt_by_name host (codes "ZMQ_SUBSCRIBE") (at (pos 0)))
find_sockopt_by_name_example = find_sockopt_by_name-Ends host (at (pos 0)) (codes "ZMQ_SUBSCRIBE")

is_subscribe : IsOption host (codes "ZMQ_SUBSCRIBE") (option (pos 6) "ZMQ_SUBSCRIBE" sopt_string)
is_subscribe = record {
  place = 5;
  in_table = refl;
  label = "ZMQ_SUBSCRIBE";
  has_name = refl;
  same_text = refl;
}

find_sockopt_type_by_id_example :
    (type : SockoptType host) × (find_sockopt_type_by_id host sopt_string (at (pos 0))
      ≡ (returned type, at (pos 0)))
    × (type.id ≡ sopt_string)
find_sockopt_type_by_id_example =
    find_sockopt_type_by_id-option host (codes "ZMQ_SUBSCRIBE")
      (option (pos 6) "ZMQ_SUBSCRIBE" sopt_string) (at (pos 0)) is_subscribe
