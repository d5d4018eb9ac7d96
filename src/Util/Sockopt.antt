-- ===== src/Util/Sockopt.antt =====
-- src/util/sockopt.c and sockopt.h: the socket options, their types and the security mechanisms, as
-- built where `_WIN32` is not defined.
pub mod Laws
pub mod MechanismLaws
pub mod MechanismNames
use matlab_zmq.Prelude.Words.{wrap, to_bytes, of_bytes, int_values, signed}
use matlab_zmq.Util.Socket.{socktype_from_m, socktype_to_m, name_to_m}
use matlab_zmq.Prelude.{
  overwrite, eq_ℤ, [], some, Option, String, pos, ℕ, ◌++◌, ◌∷◌, Bytes, List, negsuc, none, ℤ,
}
use matlab_zmq.Mex.Exec.{pure, ◌>>◌, text, number, ◌>>=◌}
use matlab_zmq.Util.Conversions.ToM.{str_to_m, int_to_m, uint32_to_m, int64_to_m, Out, uint64_to_m}
use matlab_zmq.Mex.Memory.{free, read_string, calloc, read, Block, Mex}
use matlab_zmq.Util.Conversions.FromM.{
  int_from_m, uint32_from_m, str_from_m, allocated_or, int64_from_m, uint64_from_m,
}
use matlab_zmq.Util.Table.{matches, is_null, scan, or_throw}
use matlab_zmq.Mex.Constants.{Mechanisms, SocketOptions}
use matlab_zmq.Mex.Host.{Host}

-- `SOPT_UINT64` to `SOPT_INVALID`
abbrev pub sopt_uint64 : ℤ
sopt_uint64 = pos 0

abbrev pub sopt_int64 : ℤ
sopt_int64 = pos 1

abbrev pub sopt_uint32 : ℤ
sopt_uint32 = pos 2

abbrev pub sopt_int : ℤ
sopt_int = pos 3

abbrev pub sopt_string : ℤ
sopt_string = pos 4

abbrev pub sopt_key : ℤ
sopt_key = pos 5

abbrev pub sopt_socktype : ℤ
sopt_socktype = pos 6

abbrev pub sopt_mechanism : ℤ
sopt_mechanism = pos 7

abbrev pub sopt_invalid : ℤ
sopt_invalid = pos 8

-- `zmq_sockopt_desc_t`
pub record SockoptDesc : Type 0 where
  pub id : ℤ
  pub name : Option String
  pub type_id : ℤ

abbrev pub option : ℤ → String → ℤ → SockoptDesc
option i n t = record { id = i; name = some n; type_id = t }

-- `sockOptLookup` without its last row
abbrev pub sockopt_rows : SocketOptions → List SockoptDesc
sockopt_rows k =
    option k.zmq_type "ZMQ_TYPE" sopt_socktype
    ∷ option k.zmq_rcvmore "ZMQ_RCVMORE" sopt_int
    ∷ option k.zmq_sndhwm "ZMQ_SNDHWM" sopt_int
    ∷ option k.zmq_rcvhwm "ZMQ_RCVHWM" sopt_int
    ∷ option k.zmq_affinity "ZMQ_AFFINITY" sopt_uint64
    ∷ option k.zmq_subscribe "ZMQ_SUBSCRIBE" sopt_string
    ∷ option k.zmq_unsubscribe "ZMQ_UNSUBSCRIBE" sopt_string
    ∷ option k.zmq_identity "ZMQ_IDENTITY" sopt_string
    ∷ option k.zmq_rate "ZMQ_RATE" sopt_int
    ∷ option k.zmq_recovery_ivl "ZMQ_RECOVERY_IVL" sopt_int
    ∷ option k.zmq_sndbuf "ZMQ_SNDBUF" sopt_int
    ∷ option k.zmq_rcvbuf "ZMQ_RCVBUF" sopt_int
    ∷ option k.zmq_linger "ZMQ_LINGER" sopt_int
    ∷ option k.zmq_reconnect_ivl "ZMQ_RECONNECT_IVL" sopt_int
    ∷ option k.zmq_reconnect_ivl_max "ZMQ_RECONNECT_IVL_MAX" sopt_int
    ∷ option k.zmq_backlog "ZMQ_BACKLOG" sopt_int
    ∷ option k.zmq_maxmsgsize "ZMQ_MAXMSGSIZE" sopt_int64
    ∷ option k.zmq_multicast_hops "ZMQ_MULTICAST_HOPS" sopt_int
    ∷ option k.zmq_rcvtimeo "ZMQ_RCVTIMEO" sopt_int
    ∷ option k.zmq_sndtimeo "ZMQ_SNDTIMEO" sopt_int
    ∷ option k.zmq_ipv6 "ZMQ_IPV6" sopt_int
    ∷ option k.zmq_ipv4only "ZMQ_IPV4ONLY" sopt_int
    ∷ option k.zmq_immediate "ZMQ_IMMEDIATE" sopt_int
    ∷ option k.zmq_fd "ZMQ_FD" sopt_int
    ∷ option k.zmq_events "ZMQ_EVENTS" sopt_int
    ∷ option k.zmq_last_endpoint "ZMQ_LAST_ENDPOINT" sopt_string
    ∷ option k.zmq_router_mandatory "ZMQ_ROUTER_MANDATORY" sopt_int
    ∷ option k.zmq_router_raw "ZMQ_ROUTER_RAW" sopt_int
    ∷ option k.zmq_probe_router "ZMQ_PROBE_ROUTER" sopt_int
    ∷ option k.zmq_xpub_verbose "ZMQ_XPUB_VERBOSE" sopt_int
    ∷ option k.zmq_req_correlate "ZMQ_REQ_CORRELATE" sopt_int
    ∷ option k.zmq_req_relaxed "ZMQ_REQ_RELAXED" sopt_int
    ∷ option k.zmq_tcp_keepalive "ZMQ_TCP_KEEPALIVE" sopt_int
    ∷ option k.zmq_tcp_keepalive_idle "ZMQ_TCP_KEEPALIVE_IDLE" sopt_int
    ∷ option k.zmq_tcp_keepalive_cnt "ZMQ_TCP_KEEPALIVE_CNT" sopt_int
    ∷ option k.zmq_tcp_keepalive_intvl "ZMQ_TCP_KEEPALIVE_INTVL" sopt_int
    ∷ option k.zmq_tcp_accept_filter "ZMQ_TCP_ACCEPT_FILTER" sopt_string
    ∷ option k.zmq_mechanism "ZMQ_MECHANISM" sopt_mechanism
    ∷ option k.zmq_plain_server "ZMQ_PLAIN_SERVER" sopt_int
    ∷ option k.zmq_plain_username "ZMQ_PLAIN_USERNAME" sopt_string
    ∷ option k.zmq_plain_password "ZMQ_PLAIN_PASSWORD" sopt_string
    ∷ option k.zmq_curve_server "ZMQ_CURVE_SERVER" sopt_int
    ∷ option k.zmq_curve_publickey "ZMQ_CURVE_PUBLICKEY" sopt_key
    ∷ option k.zmq_curve_secretkey "ZMQ_CURVE_SECRETKEY" sopt_key
    ∷ option k.zmq_curve_serverkey "ZMQ_CURVE_SERVERKEY" sopt_key
    ∷ option k.zmq_zap_domain "ZMQ_ZAP_DOMAIN" sopt_string
    ∷ option k.zmq_conflate "ZMQ_CONFLATE" sopt_int
    ∷ []

abbrev pub no_option : SockoptDesc
no_option = record { id = negsuc 0; name = none; type_id = negsuc 0 }

abbrev pub sockopt_lookup : SocketOptions → List SockoptDesc
sockopt_lookup k = sockopt_rows k ++ no_option ∷ []

-- `zmq_sockopt_mechanism_t`
pub record SockoptMechanism : Type 0 where
  pub id : ℤ
  pub name : Option String

abbrev pub mechanism : ℤ → String → SockoptMechanism
mechanism i n = record { id = i; name = some n }

abbrev pub mechanism_rows : Mechanisms → List SockoptMechanism
mechanism_rows k =
    mechanism k.zmq_null "ZMQ_NULL"
    ∷ mechanism k.zmq_plain "ZMQ_PLAIN"
    ∷ mechanism k.zmq_curve "ZMQ_CURVE"
    ∷ []

abbrev pub no_mechanism : SockoptMechanism
no_mechanism = record { id = negsuc 0; name = none }

abbrev pub mechanism_lookup : Mechanisms → List SockoptMechanism
mechanism_lookup k = mechanism_rows k ++ no_mechanism ∷ []

-- `zmq_sockopt_type_t`; a function pointer that is NULL is `none`
pub record SockoptType (H : Host) : Type 0 where
  pub id : ℤ
  pub max_len : ℕ
  pub to_m : Option (Bytes → Mex H Out)
  pub from_m : Option (H.Array → Mex H Block)

module _ (H : Host) where
  unfoldable pub find_sockopt_by_name : Bytes → Mex H SockoptDesc
  find_sockopt_by_name name =
      or_throw
        (scan (λ r. is_null r.name) (λ r. matches name r.name)
          (sockopt_lookup H.constants.socket_options))
        "zmq:core:sockopt:invalidOptionName" "Error: socket_option %s is invalid." (text name ∷ [])

  unfoldable pub find_sockopt_mechanism_by_id : ℤ → Mex H SockoptMechanism
  find_sockopt_mechanism_by_id mechanism_id =
      or_throw
        (scan (λ r. is_null r.name) (λ r. eq_ℤ mechanism_id r.id)
          (mechanism_lookup H.constants.mechanisms))
        "zmq:core:sockopt:invalidOptionMechanismId" "Error: socket_option mechanism %d is invalid."
        (number mechanism_id ∷ [])

  unfoldable pub find_sockopt_mechanism_by_name : Bytes → Mex H SockoptMechanism
  find_sockopt_mechanism_by_name name =
      or_throw
        (scan (λ r. is_null r.name) (λ r. matches name r.name)
          (mechanism_lookup H.constants.mechanisms))
        "zmq:core:sockopt:invalidOptionMechanism" "Error: socket_option mechanism %s is invalid."
        (text name ∷ [])

  unfoldable pub mechanism_to_m : Bytes → Mex H Out
  mechanism_to_m handle = do
    id ← read H 4 handle
    found ← find_sockopt_mechanism_by_id (signed int_values (of_bytes id))
    name_to_m H found.name

  unfoldable pub mechanism_from_m : H.Array → Mex H Block
  mechanism_from_m param = do
    output ← calloc H 1 4
    output ← allocated_or H "util:calloc" output
    name ← str_from_m H param
    type ← read_string H name.bytes
    found ← find_sockopt_mechanism_by_name type
    free H name
    pure (record output { bytes = overwrite output.bytes (to_bytes 4 (wrap int_values found.id)) })

  abbrev pub type_row : ℤ → ℕ → (Bytes → Mex H Out) → (H.Array → Mex H Block) → SockoptType H
  type_row i n to from = record { id = i; max_len = n; to_m = some to; from_m = some from }

  -- `sockOptTypeLookup` without its last row
  abbrev pub sockopt_type_rows : List (SockoptType H)
  sockopt_type_rows =
      type_row sopt_uint64 8 (uint64_to_m H) (uint64_from_m H)
      ∷ type_row sopt_int64 8 (int64_to_m H) (int64_from_m H)
      ∷ type_row sopt_uint32 4 (uint32_to_m H) (uint32_from_m H)
      ∷ type_row sopt_int 4 (int_to_m H) (int_from_m H)
      ∷ type_row sopt_string 255 (str_to_m H) (str_from_m H)
      ∷ type_row sopt_key 41 (str_to_m H) (str_from_m H)
      ∷ type_row sopt_socktype 4 (socktype_to_m H) (socktype_from_m H)
      ∷ type_row sopt_mechanism 4 mechanism_to_m mechanism_from_m
      ∷ []

  abbrev pub no_type : SockoptType H
  no_type = record { id = sopt_invalid; max_len = 0; to_m = none; from_m = none }

  unfoldable pub find_sockopt_type_by_id : ℤ → Mex H (SockoptType H)
  find_sockopt_type_by_id type_id =
      or_throw
        (scan (λ r. eq_ℤ r.id sopt_invalid) (λ r. eq_ℤ type_id r.id)
          (sockopt_type_rows ++ no_type ∷ []))
        "zmq:core:sockopt:invalidOptionTypeId" "Error: socket_option typeId %d is invalid."
        (number type_id ∷ [])
