-- ===== src/Tests/Sockets.antt =====
-- The theorems about socket.c, getsockopt.c and version.c at concrete inputs.
use matlab_zmq.Prelude.{arith, codes, List, [], ◌∷◌, refl, pos, ◌≡◌, some, none}
use matlab_zmq.Mex.Exec.{returned}
use matlab_zmq.Mex.Exec.Ends.{Ends}
use matlab_zmq.Mex.Host.{Allocates}
use matlab_zmq.Tests.World.{host, host-IsLawful, at, Value}
use matlab_zmq.Tests.Runs.{socket_5}
use matlab_zmq.Core.Socket.{socket_type_value}
use matlab_zmq.Core.Socket.Types.{socket_type_value-find_socket_type_by_name}
use matlab_zmq.Util.Socket.{find_socket_type_by_name}
use matlab_zmq.Core.Roundtrip.{shown-converted}
use matlab_zmq.Core.Roundtrip.Values.{SameValue}
use matlab_zmq.Core.Setsockopt.{converted}
use matlab_zmq.Core.Setsockopt.Values.{ValueErrors}
use matlab_zmq.Core.Getsockopt.{shown}
use matlab_zmq.Core.Getsockopt.Values.{NameErrors}
use matlab_zmq.Util.Sockopt.{find_sockopt_type_by_id}
use matlab_zmq.Prelude.{◌⊎◌}
use matlab_zmq.Mex.Exec.{◌>>=◌}
use matlab_zmq.Core.Version.{version_mex}
use matlab_zmq.Core.Version.Laws.{version_mex-Ends}
use matlab_zmq.Util.Sockopt.{SockoptDesc, option, sopt_int, SockoptType}
use matlab_zmq.Util.Sockopt.Laws.{IsOption}
use matlab_zmq.Core.Socket.Laws as SocketLaws
use matlab_zmq.Core.Version.Laws as VersionLaws

pub host-Allocates : Allocates host
host-Allocates count size w = refl

abbrev subscriber : List Value
subscriber = socket_5 ∷ Value.char_row (codes "ZMQ_SUB") ∷ []

socket_type_value_example :
    Ends
      (λ r t.
        (t ≡ at (pos 0))
        × (socket_type_value host.constants.socket_types (codes "ZMQ_SUB") ≡ some r.id))
      (λ e t.
        (t ≡ at (pos 0)) × (socket_type_value host.constants.socket_types (codes "ZMQ_SUB") ≡ none))
      (find_socket_type_by_name host (codes "ZMQ_SUB") (at (pos 0)))
socket_type_value_example =
    socket_type_value-find_socket_type_by_name host (codes "ZMQ_SUB") (at (pos 0))

abbrev linger_name : Value
linger_name = Value.char_row (codes "ZMQ_LINGER")

abbrev linger : SockoptDesc
linger = option (pos 17) "ZMQ_LINGER" sopt_int

abbrev get_linger : List Value
get_linger = socket_5 ∷ linger_name ∷ []

version_mex_example :
    Ends
      (VersionLaws.Done host 1 (at (pos 0)))
      (VersionLaws.TooMany host 1 (at (pos 0)))
      (version_mex host 1 (at (pos 0)))
version_mex_example =
    version_mex-Ends host host-Allocates (omega arith, omega arith, omega arith) 1 (at (pos 0))

linger-IsOption : IsOption host (codes "ZMQ_LINGER") linger
linger-IsOption = record {
  place = 12;
  in_table = refl;
  label = "ZMQ_LINGER";
  has_name = refl;
  same_text = refl;
}

shown-converted_example :
    (type : SockoptType host) × (find_sockopt_type_by_id host sopt_int (at (pos 0))
      ≡ (returned type, at (pos 0)))
    × Ends
        (λ out t. SameValue host sopt_int (Value.scalar (pos 7)) out)
        (λ e t. ValueErrors host host-IsLawful e.id ⊎ NameErrors e.id)
        ((converted host type.from_m (Value.scalar (pos 7)) >>= λ b. shown host type.to_m b.bytes)
          (at (pos 0)))
shown-converted_example =
    shown-converted host host-IsLawful (codes "ZMQ_LINGER") linger (Value.scalar (pos 7))
      (at (pos 0)) linger-IsOption refl
