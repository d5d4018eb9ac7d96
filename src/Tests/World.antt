-- ===== src/Tests/World.antt =====
-- A host that keeps the assumptions: arrays of fewer than 1000 elements, a libzmq that accepts every
-- call, and the numbers of Linux and libzmq 4.
use matlab_zmq.Prelude.{
  ◌/◌, is_negative, zero, suc, str_eq, codes, String, codes, str_eq, String, inr, inl, Bool-cases,
  ◌%◌, length-replicate, ◌∙◌, sym, ap, ◌^◌, map, ◌<◌, Option, arith, if◌then◌else◌, length,
  replicate, ◌+◌, ◌==◌, Bool, Bytes, not, ℕ, ℤ, ◌*◌, ◌≡◌, [], ◌∷◌, none, some, refl, pos, negsuc,
  true, false, ltb,
}
use matlab_zmq.Prelude.Words.{int_values, InRange, size_values, wrap, to_bytes}
use matlab_zmq.Mex.Memory.{State}
use matlab_zmq.Mex.Constants.{Constants}
use matlab_zmq.Mex.Host.{IsLawful, Host}

pub data Value : Type 0 where
  char_row : Bytes → Value
  uint8_row : Bytes → Value
  pointer : ℕ → Value
  scalar : ℤ → Value
  -- a structure of one row: a socket and its events
  item : ℕ → ℤ → Value

abbrev small : Bytes → Bool
small t = ltb (length t) 1000

abbrev columns : Value → ℕ
columns (char_row t) = if small t then length t else 0
columns (uint8_row t) = if small t then length t else 0
columns (pointer p) = 1
columns (scalar z) = 1
columns (item p e) = 1

abbrev data_of : Value → Bytes
data_of (char_row t) = t
data_of (uint8_row t) = t
data_of (pointer p) = to_bytes 8 p
data_of (scalar z) = to_bytes 8 (wrap size_values z)
data_of (item p e) = []

abbrev string_of : Value → ℕ → Option Bytes
string_of (char_row t) n = if ltb (length t) n then some t else none
string_of (uint8_row t) n = none
string_of (pointer p) n = none
string_of (scalar z) n = none
string_of (item p e) n = none

abbrev is_char_row : Value → Bool
is_char_row (char_row t) = true
is_char_row (uint8_row t) = false
is_char_row (pointer p) = false
is_char_row (scalar z) = false
is_char_row (item p e) = false

abbrev is_uint8_row : Value → Bool
is_uint8_row (uint8_row t) = small t
is_uint8_row (char_row t) = false
is_uint8_row (pointer p) = false
is_uint8_row (scalar z) = false
is_uint8_row (item p e) = false

abbrev is_item : Value → Bool
is_item (item p e) = true
is_item (char_row t) = false
is_item (uint8_row t) = false
is_item (pointer p) = false
is_item (scalar z) = false

abbrev field_number : String → ℤ
field_number n =
    if str_eq (codes n) (codes "socket")
    then pos 0
    else if str_eq (codes n) (codes "events")
    then pos 1
    else negsuc 0

abbrev field_of : Value → ℕ → ℤ → Option Value
field_of (item p e) zero (pos zero) = some (pointer p)
field_of (item p e) zero (pos (suc k)) = some (scalar e)
field_of (item p e) zero (negsuc k) = none
field_of (item p e) (suc i) k = none
field_of (char_row t) i k = none
field_of (uint8_row t) i k = none
field_of (pointer p) i k = none
field_of (scalar z) i k = none

abbrev scalar_of : Value → ℤ
scalar_of (scalar z) = z
scalar_of (char_row t) = pos 0
scalar_of (uint8_row t) = pos 0
scalar_of (pointer p) = pos p
scalar_of (item p e) = pos 0

abbrev magnitude : ℤ → ℕ
magnitude (pos n) = n % 2 ^ 64
magnitude (negsuc n) = 0

abbrev in_range : ℕ → ℤ → Bool
in_range m (pos n) = ltb n (m / 2)
in_range m (negsuc n) = ltb n (m / 2)

in_range-InRange : (m : ℕ) (z : ℤ) → in_range m z ≡ true → InRange m z
in_range-InRange m (pos n) e = ground arith
in_range-InRange m (negsuc n) e = ground arith

abbrev pub linux : Constants
linux = record {
  errnos = record {
    eaddrinuse = pos 98;
    eaddrnotavail = pos 99;
    eagain = pos 11;
    efault = pos 14;
    efsm = pos 156384763;
    ehostunreach = pos 113;
    eintr = pos 4;
    einval = pos 22;
    emfile = pos 24;
    emthread = pos 156384766;
    enocompatproto = pos 156384764;
    enodev = pos 19;
    enomem = pos 12;
    enotsock = pos 88;
    enotsup = pos 95;
    eprotonosupport = pos 93;
    eterm = pos 156384765;
  };
  socket_types = record {
    zmq_pair = pos 0;
    zmq_pub = pos 1;
    zmq_sub = pos 2;
    zmq_req = pos 3;
    zmq_rep = pos 4;
    zmq_dealer = pos 5;
    zmq_router = pos 6;
    zmq_pull = pos 7;
    zmq_push = pos 8;
    zmq_xpub = pos 9;
    zmq_xsub = pos 10;
    zmq_stream = pos 11;
  };
  mechanisms = record { zmq_null = pos 0; zmq_plain = pos 1; zmq_curve = pos 2 };
  socket_options = record {
    zmq_type = pos 16;
    zmq_rcvmore = pos 13;
    zmq_sndhwm = pos 23;
    zmq_rcvhwm = pos 24;
    zmq_affinity = pos 4;
    zmq_subscribe = pos 6;
    zmq_unsubscribe = pos 7;
    zmq_identity = pos 5;
    zmq_rate = pos 8;
    zmq_recovery_ivl = pos 9;
    zmq_sndbuf = pos 11;
    zmq_rcvbuf = pos 12;
    zmq_linger = pos 17;
    zmq_reconnect_ivl = pos 18;
    zmq_reconnect_ivl_max = pos 21;
    zmq_backlog = pos 19;
    zmq_maxmsgsize = pos 22;
    zmq_multicast_hops = pos 25;
    zmq_rcvtimeo = pos 27;
    zmq_sndtimeo = pos 28;
    zmq_ipv6 = pos 42;
    zmq_ipv4only = pos 31;
    zmq_immediate = pos 39;
    zmq_fd = pos 14;
    zmq_events = pos 15;
    zmq_last_endpoint = pos 32;
    zmq_router_mandatory = pos 33;
    zmq_router_raw = pos 41;
    zmq_probe_router = pos 51;
    zmq_xpub_verbose = pos 40;
    zmq_req_correlate = pos 52;
    zmq_req_relaxed = pos 53;
    zmq_tcp_keepalive = pos 34;
    zmq_tcp_keepalive_idle = pos 36;
    zmq_tcp_keepalive_cnt = pos 35;
    zmq_tcp_keepalive_intvl = pos 37;
    zmq_tcp_accept_filter = pos 38;
    zmq_mechanism = pos 43;
    zmq_plain_server = pos 44;
    zmq_plain_username = pos 45;
    zmq_plain_password = pos 46;
    zmq_curve_server = pos 47;
    zmq_curve_publickey = pos 48;
    zmq_curve_secretkey = pos 49;
    zmq_curve_serverkey = pos 50;
    zmq_zap_domain = pos 55;
    zmq_conflate = pos 54;
  };
  zmq_io_threads = pos 1;
  zmq_max_sockets = pos 2;
  zmq_dontwait = 1;
  zmq_sndmore = 2;
}

-- The world is `errno`.
abbrev pub host : Host
host = record {
  constants = linux;
  pointer_size = 8;
  poll_item_size = 16;
  output_set = λ i. true;
  Array = Value;
  is_char = is_char_row;
  is_numeric = λ a. not (is_char_row a);
  is_uint8 = is_uint8_row;
  is_struct = is_item;
  is_scalar = λ a. columns a == 1;
  get_m = λ a. 1;
  get_n = columns;
  get_number_of_elements = λ a. 1 * columns a;
  get_data = data_of;
  get_string = string_of;
  get_field_number = λ a n. field_number n;
  get_field_by_number = field_of;
  Double = ℤ;
  get_scalar = scalar_of;
  casts_to_int = λ a. in_range int_values (scalar_of a);
  casts_to_short = λ a. in_range 65536 (scalar_of a);
  casts_to_int64 = λ a. in_range size_values (scalar_of a);
  casts_to_uint64 = λ a. not (is_negative (scalar_of a));
  casts_to_uint32 = λ a. ltb (magnitude (scalar_of a)) (2 ^ 32);
  double_to_int = λ z. z;
  double_to_short = λ z. z;
  double_to_int64 = λ z. z;
  double_to_uint64 = magnitude;
  double_to_uint32 = magnitude;
  int_to_double = λ z. z;
  World = ℤ;
  errno = λ w. w;
  zmq_errno = λ w. w;
  zmq_strerror = λ e. none;
  function_name = some "bind";
  calloc = λ count size w. (true, w);
  malloc = λ n w. (some (replicate n 7), w);
  free = λ b w. w;
  zmq_version = (pos 4, pos 0, pos 4);
  zmq_ctx_new = λ w. (1, w);
  zmq_ctx_set = λ c o v w. (pos 0, w);
  zmq_ctx_get = λ c o w. (pos 1, w);
  zmq_ctx_shutdown = λ c w. (pos 0, w);
  zmq_ctx_term = λ c w. (pos 0, w);
  zmq_socket = λ c t w. (5, w);
  zmq_close = λ p w. (pos 0, w);
  zmq_endpoint = λ op p e w. (pos 0, w);
  zmq_send = λ p b f w. (pos 3, w);
  zmq_recv = λ p n f w. (pos 3, if ltb n 3 then replicate n 9 else 1 ∷ 2 ∷ 3 ∷ [], w);
  zmq_getsockopt = λ p o n w. (pos 0, 1 ∷ 0 ∷ 0 ∷ 0 ∷ [], w);
  zmq_setsockopt = λ p o b w. (pos 0, w);
  zmq_poll = λ items n t w. (pos 1, map (λ i. pos 1) items, w);
}

string_of_fits : (a : Value) (n : ℕ) {t : Bytes} → string_of a n ≡ some t → length t < n
string_of_fits (char_row u) n e = ground arith
string_of_fits (uint8_row u) n e = cc
string_of_fits (pointer p) n e = cc
string_of_fits (scalar z) n e = cc
string_of_fits (item p d) n e = cc

uint8_row_data : (a : Value) → is_uint8_row a ≡ true → length (data_of a) ≡ 1 * columns a
uint8_row_data (uint8_row u) e = ground arith
uint8_row_data (char_row u) e = cc
uint8_row_data (pointer p) e = cc
uint8_row_data (scalar z) e = cc
uint8_row_data (item p d) e = cc

columns_small : (a : Value) → 1 * columns a + 1 < 2 ^ 64
columns_small (char_row u) = ground arith
columns_small (uint8_row u) = ground arith
columns_small (pointer p) = omega arith
columns_small (scalar z) = omega arith
columns_small (item p e) = omega arith

malloc_length : (n : ℕ) {bytes : Bytes} → some (replicate n 7) ≡ some bytes → length bytes ≡ n
malloc_length n {bytes} e =
    let same : replicate n 7 ≡ bytes = cc in ap length (sym same) ∙ length-replicate n 7

magnitude_range : (z : ℤ) → magnitude z < 2 ^ 64
magnitude_range (pos n) = omega arith
magnitude_range (negsuc n) = omega arith

filled :
    (n k : ℕ)
    → pos 3 ≡ pos k
    → length {A = ℕ} (if ltb n 3 then replicate n 9 else 1 ∷ 2 ∷ 3 ∷ [])
      ≡ (if ltb n k then n else k)
filled n k e =
    let same : 3 ≡ k = cc in
    rw (sym same)
      (elim (Bool-cases (ltb n 3)) [ inl h ↦ rw h (length-replicate n 9) | inr h ↦ rw h ])

pub host-IsLawful : IsLawful host
host-IsLawful = record {
  string_fits = string_of_fits;
  uint8_data = uint8_row_data;
  elements = λ a. refl;
  fits_memory = columns_small;
  malloc_size = λ n w e. malloc_length n e;
  errnos_nonzero = refl;
  short_name = omega arith;
  endpoint_int = λ op p e w. omega arith;
  close_int = λ p w. omega arith;
  send_int = λ p b f w. omega arith;
  recv_int = λ p n f w. omega arith;
  recv_fills = λ p n f w e. filled n _ e;
  uint64_range = λ a e. magnitude_range (scalar_of a);
  uint32_range = λ a e. ground arith;
  int64_range = λ a e. in_range-InRange size_values (scalar_of a) e;
  int_range = λ a e. in_range-InRange int_values (scalar_of a) e;
  setsockopt_int = λ p o b w. omega arith;
}

-- Nothing has happened, and `errno` is this.
abbrev pub at : ℤ → State host
at e = record { world = e; live = []; fresh = 0; calls = []; warnings = [] }
