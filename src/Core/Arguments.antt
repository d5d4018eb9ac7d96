-- ===== src/Core/Arguments.antt =====
-- The tests that bind.c, unbind.c, connect.c, disconnect.c, setsockopt.c, getsockopt.c, socket.c,
-- ctx_get.c and ctx_set.c share: the number of the arguments, and a row of text in the second one.
use matlab_zmq.Prelude.{ℕ, String, List, ◌≡◌, ◌≢◌, false, length, get_elem?, some}
use matlab_zmq.Mex.Host.{Host}

-- The arguments fail exactly the test whose error is thrown.
pub data IsRefused (H : Host) (n : ℕ) (count no_char no_row : String) (prhs : List H.Array)
    (i : String) : Type 0 where
  miscounted : length prhs ≢ n → i ≡ count → IsRefused H n count no_char no_row prhs i
  no_text :
      (b : H.Array)
      → length prhs ≡ n
      → get_elem? prhs 1 ≡ some b
      → H.is_char b ≡ false
      → i ≡ no_char
      → IsRefused H n count no_char no_row prhs i
  no_single_row :
      (b : H.Array)
      → length prhs ≡ n
      → get_elem? prhs 1 ≡ some b
      → H.get_m b ≢ 1
      → i ≡ no_row
      → IsRefused H n count no_char no_row prhs i
