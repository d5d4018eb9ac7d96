-- ===== src/Mex/Host.antt =====
-- What the MEX functions call and do not define: the MATLAB API (`mex.h`), libzmq (`zmq.h`) and
-- floating-point numbers. A `World` is the state of MATLAB's and libzmq's side, `errno` included.
use matlab_zmq.Prelude.Words.{size_values, int_values, InRange}
use matlab_zmq.Prelude.{
  pos, eq_ℤ, not, ◌&&◌, [], ◌∷◌, pos, ltb, if◌then◌else◌, none, ◌≤◌, ℕ, ℤ, ◌+◌, ◌*◌, ◌^◌, ◌<◌, ◌≡◌,
  String, Bool, true, Option, some, List, Bytes, length,
}
use Prim.Native.String.{count}
use matlab_zmq.Mex.Constants.{Errnos, Constants}

-- The four functions of a socket and an endpoint.
pub data EndpointOp : Type 0 where
  bind unbind connect disconnect : EndpointOp

-- `zmq_pollitem_t`; the model's poll never sets `fd` to anything but 0.
pub record PollItem : Type 0 where
  pub socket : ℕ
  pub fd : ℤ
  pub events : ℤ
  pub revents : ℤ

pub record Host : Type 1 where
  pub constants : Constants
  -- `sizeof(void*)` and `sizeof(zmq_pollitem_t)`
  pub pointer_size : ℕ
  pub poll_item_size : ℕ
  -- is `plhs[i]` set before the function runs?
  pub output_set : ℕ → Bool
  -- mex.h: `mxArray` values and the queries of them
  pub Array : Type 0
  pub is_char : Array → Bool
  pub is_numeric : Array → Bool
  pub is_uint8 : Array → Bool
  pub is_struct : Array → Bool
  pub is_scalar : Array → Bool
  pub get_m : Array → ℕ
  pub get_n : Array → ℕ
  pub get_number_of_elements : Array → ℕ
  -- the bytes that `mxGetData` points at
  pub get_data : Array → Bytes
  -- `mxGetString` into a buffer of this many bytes: the bytes before the terminator, or a failure
  pub get_string : Array → ℕ → Option Bytes
  pub get_field_number : Array → String → ℤ
  -- `none` is NULL
  pub get_field_by_number : Array → ℕ → ℤ → Option Array
  -- doubles, and the casts to and from them
  pub Double : Type 0
  pub get_scalar : Array → Double
  -- Does the array have a first element, and is its truncation a value of the type? Otherwise
  -- `mxGetScalar` is indeterminate, or the cast is undefined in C.
  pub casts_to_int : Array → Bool
  pub casts_to_short : Array → Bool
  pub casts_to_int64 : Array → Bool
  pub casts_to_uint64 : Array → Bool
  pub casts_to_uint32 : Array → Bool
  pub double_to_int : Double → ℤ
  pub double_to_short : Double → ℤ
  pub double_to_int64 : Double → ℤ
  pub double_to_uint64 : Double → ℕ
  pub double_to_uint32 : Double → ℕ
  pub int_to_double : ℤ → Double
  pub World : Type 0
  -- `errno` and `zmq_errno()`
  pub errno : World → ℤ
  pub zmq_errno : World → ℤ
  pub zmq_strerror : ℤ → Option String
  pub function_name : Option String
  -- does `mxCalloc` of so many elements of so many bytes succeed?
  pub calloc : ℕ → ℕ → World → Bool × World
  -- `mxMalloc`: what stands in the new block, or NULL
  pub malloc : ℕ → World → Option Bytes × World
  pub free : ℕ → World → World
  -- zmq.h; the pointer 0 is NULL, and a buffer is handed over as its bytes
  pub zmq_version : ℤ × ℤ × ℤ
  pub zmq_ctx_new : World → ℕ × World
  pub zmq_ctx_set : ℕ → ℤ → ℤ → World → ℤ × World
  pub zmq_ctx_get : ℕ → ℤ → World → ℤ × World
  pub zmq_ctx_shutdown : ℕ → World → ℤ × World
  pub zmq_ctx_term : ℕ → World → ℤ × World
  pub zmq_socket : ℕ → ℤ → World → ℕ × World
  pub zmq_close : ℕ → World → ℤ × World
  pub zmq_endpoint : EndpointOp → ℕ → Bytes → World → ℤ × World
  pub zmq_send : ℕ → Bytes → ℕ → World → ℤ × World
  -- the return code, and what is written to the buffer of that length
  pub zmq_recv : ℕ → ℕ → ℕ → World → ℤ × Bytes × World
  pub zmq_getsockopt : ℕ → ℤ → ℕ → World → ℤ × Bytes × World
  pub zmq_setsockopt : ℕ → ℤ → Bytes → World → ℤ × World
  -- the items, their number and the timeout; the return code and the `revents` of the items
  pub zmq_poll : List PollItem → ℤ → ℤ → World → ℤ × List ℤ × World

-- MATLAB: a function name has at most 63 characters (`namelengthmax`).
abbrev pub IsShort : Option String → Type 0
IsShort none = Unit
IsShort (some caller) = count caller ≤ 63

-- MATLAB ends a MEX function itself where `mxCalloc` finds no memory, so a function that goes on has
-- its block.
abbrev pub Allocates : Host → Type 0
Allocates H = (count size : ℕ) (w : H.World) → (H.calloc count size w).0 ≡ true

-- The error numbers.
abbrev pub errno_values : Errnos → List ℤ
errno_values k =
    k.eaddrinuse ∷ k.eaddrnotavail ∷ k.eagain ∷ k.efault ∷ k.efsm ∷ k.ehostunreach ∷ k.eintr
    ∷ k.einval ∷ k.emfile ∷ k.emthread ∷ k.enocompatproto ∷ k.enodev ∷ k.enomem ∷ k.enotsock
    ∷ k.enotsup ∷ k.eprotonosupport ∷ k.eterm ∷ []

abbrev pub all_nonzero : List ℤ → Bool
all_nonzero [] = true
all_nonzero (z ∷ zs) = not (eq_ℤ z (pos 0)) && all_nonzero zs

-- What the documentation of the MATLAB API and the types of libzmq's functions say.
pub record IsLawful (H : Host) : Type 0 where
  -- `mxGetString` succeeds only where the text and its terminator fit the buffer.
  pub string_fits : (a : H.Array) (n : ℕ) {t : Bytes} → H.get_string a n ≡ some t → length t < n
  -- A uint8 array has one byte for each of its elements.
  pub uint8_data :
      (a : H.Array) → H.is_uint8 a ≡ true → length (H.get_data a) ≡ H.get_m a * H.get_n a
  -- `mxGetN` is the product of all dimensions but the first.
  pub elements : (a : H.Array) → H.get_number_of_elements a ≡ H.get_m a * H.get_n a
  -- An array is smaller than the address space.
  pub fits_memory : (a : H.Array) → H.get_m a * H.get_n a + 1 < 2 ^ 64
  -- A block of `mxMalloc` has the size that was asked for.
  pub malloc_size :
      (n : ℕ) (w : H.World) {bytes : Bytes} → (H.malloc n w).0 ≡ some bytes → length bytes ≡ n
  -- POSIX and zmq.h: no error number is 0.
  pub errnos_nonzero : all_nonzero (errno_values H.constants.errnos) ≡ true
  pub short_name : IsShort H.function_name
  -- The return codes are of type `int`.
  pub endpoint_int :
      (op : EndpointOp) (p : ℕ) (e : Bytes) (w : H.World)
      → InRange int_values (H.zmq_endpoint op p e w).0
  pub close_int : (p : ℕ) (w : H.World) → InRange int_values (H.zmq_close p w).0
  pub send_int :
      (p : ℕ) (b : Bytes) (f : ℕ) (w : H.World) → InRange int_values (H.zmq_send p b f w).0
  pub recv_int : (p n f : ℕ) (w : H.World) → InRange int_values (H.zmq_recv p n f w).0
  -- `zmq_recv` gives the size of the message, and fills the buffer as far as the message reaches.
  pub recv_fills :
      (p n f : ℕ) (w : H.World) {k : ℕ}
      → (H.zmq_recv p n f w).0 ≡ pos k
      → length (H.zmq_recv p n f w).1 ≡ (if ltb n k then n else k)
  -- A cast that is defined gives a value of its type.
  pub uint64_range :
      (a : H.Array) → H.casts_to_uint64 a ≡ true → H.double_to_uint64 (H.get_scalar a) < 2 ^ 64
  pub uint32_range :
      (a : H.Array) → H.casts_to_uint32 a ≡ true → H.double_to_uint32 (H.get_scalar a) < 2 ^ 32
  pub int64_range :
      (a : H.Array)
      → H.casts_to_int64 a ≡ true
      → InRange size_values (H.double_to_int64 (H.get_scalar a))
  pub int_range :
      (a : H.Array)
      → H.casts_to_int a ≡ true
      → InRange int_values (H.double_to_int (H.get_scalar a))
  pub setsockopt_int :
      (p : ℕ) (o : ℤ) (b : Bytes) (w : H.World) → InRange int_values (H.zmq_setsockopt p o b w).0
