-- ===== src/Tests/Receive.antt =====
-- The theorems about recv.c at concrete inputs.
use matlab_zmq.Core.Recv.Flags.{configure_flag-AllDontwait, wait_value, AllDontwait}
use matlab_zmq.Prelude.{false, arith, overwrite, codes, ◌≡◌, List, [], ◌∷◌, refl, pos}
use matlab_zmq.Core.Recv.{configure_return, recv_mex, configure_flag}
use matlab_zmq.Core.Send.Flags.{FlagErrors}
use matlab_zmq.Util.Conversions.FromM.Laws.{Fails}
use matlab_zmq.Mex.Memory.Laws.{Same}
use matlab_zmq.Mex.Exec.Ends.{Ends}
use matlab_zmq.Tests.World.{host, host-IsLawful, at, Value}
use matlab_zmq.Tests.Runs.{socket_5, socket_5_holds, host-HasFlags}
use matlab_zmq.Core.Recv.Return.{configure_return-Ends, Delivered}
use matlab_zmq.Core.Recv.Laws.{recv_mex-Ends, Done, Failed}

-- A buffer of two bytes, for a message of three.
abbrev two_bytes : List Value
two_bytes = Value.scalar (pos 2) ∷ Value.char_row (codes "ZMQ_DONTWAIT") ∷ []

recv_mex_example :
    Ends
      (Done 2 socket_5 two_bytes (at (pos 0)))
      (Failed 2 socket_5 two_bytes (at (pos 0)))
      (recv_mex host 2 (socket_5 ∷ two_bytes) (at (pos 0)))
recv_mex_example =
    recv_mex-Ends host host-IsLawful host-HasFlags 2 socket_5 two_bytes (at (pos 0)) socket_5_holds
      (λ _. refl)

configure_return_example :
    Ends
      (Delivered 2 3 2 (8 ∷ 9 ∷ []) (at (pos 0)))
      (λ e t. e.id ≡ "")
      (configure_return host 2 (pos 3) 2 (overwrite (0 ∷ 0 ∷ []) (8 ∷ 9 ∷ [])) (at (pos 0)))
configure_return_example =
    configure_return-Ends host host-IsLawful 2 3 2 (0 ∷ 0 ∷ []) (8 ∷ 9 ∷ []) (at (pos 0))
      (omega arith) refl refl

configure_recv_flag_example :
    Ends
      (λ f t.
        Same (at (pos 0)) t
        × AllDontwait host (Value.char_row (codes "ZMQ_DONTWAIT") ∷ [])
        × (f ≡ 1))
      (Fails (FlagErrors host "zmq:core:recv:invalidFlag") (at (pos 0)))
      (configure_flag host
        (wait_value false)
        (Value.char_row (codes "ZMQ_DONTWAIT") ∷ [])
        (at (pos 0)))
configure_recv_flag_example =
    configure_flag-AllDontwait host host-IsLawful host-HasFlags
      (Value.char_row (codes "ZMQ_DONTWAIT") ∷ []) false (at (pos 0))
