-- ===== src/Mex/Constants.antt =====
-- The constants of `errno.h` and `zmq.h`, which the build supplies. A handler is a function of them.
use matlab_zmq.Prelude.{ℕ, ℤ}

-- `errno` values.
pub record Errnos : Type 0 where
  pub eaddrinuse : ℤ
  pub eaddrnotavail : ℤ
  pub eagain : ℤ
  pub efault : ℤ
  pub efsm : ℤ
  pub ehostunreach : ℤ
  pub eintr : ℤ
  pub einval : ℤ
  pub emfile : ℤ
  pub emthread : ℤ
  pub enocompatproto : ℤ
  pub enodev : ℤ
  pub enomem : ℤ
  pub enotsock : ℤ
  pub enotsup : ℤ
  pub eprotonosupport : ℤ
  pub eterm : ℤ

-- `ZMQ_PAIR` to `ZMQ_STREAM`.
pub record SocketTypes : Type 0 where
  pub zmq_pair : ℤ
  pub zmq_pub : ℤ
  pub zmq_sub : ℤ
  pub zmq_req : ℤ
  pub zmq_rep : ℤ
  pub zmq_dealer : ℤ
  pub zmq_router : ℤ
  pub zmq_pull : ℤ
  pub zmq_push : ℤ
  pub zmq_xpub : ℤ
  pub zmq_xsub : ℤ
  pub zmq_stream : ℤ

-- The security mechanisms.
pub record Mechanisms : Type 0 where
  pub zmq_null : ℤ
  pub zmq_plain : ℤ
  pub zmq_curve : ℤ

-- The socket options.
pub record SocketOptions : Type 0 where
  pub zmq_type : ℤ
  pub zmq_rcvmore : ℤ
  pub zmq_sndhwm : ℤ
  pub zmq_rcvhwm : ℤ
  pub zmq_affinity : ℤ
  pub zmq_subscribe : ℤ
  pub zmq_unsubscribe : ℤ
  pub zmq_identity : ℤ
  pub zmq_rate : ℤ
  pub zmq_recovery_ivl : ℤ
  pub zmq_sndbuf : ℤ
  pub zmq_rcvbuf : ℤ
  pub zmq_linger : ℤ
  pub zmq_reconnect_ivl : ℤ
  pub zmq_reconnect_ivl_max : ℤ
  pub zmq_backlog : ℤ
  pub zmq_maxmsgsize : ℤ
  pub zmq_multicast_hops : ℤ
  pub zmq_rcvtimeo : ℤ
  pub zmq_sndtimeo : ℤ
  pub zmq_ipv6 : ℤ
  pub zmq_ipv4only : ℤ
  pub zmq_immediate : ℤ
  pub zmq_fd : ℤ
  pub zmq_events : ℤ
  pub zmq_last_endpoint : ℤ
  pub zmq_router_mandatory : ℤ
  pub zmq_router_raw : ℤ
  pub zmq_probe_router : ℤ
  pub zmq_xpub_verbose : ℤ
  pub zmq_req_correlate : ℤ
  pub zmq_req_relaxed : ℤ
  pub zmq_tcp_keepalive : ℤ
  pub zmq_tcp_keepalive_idle : ℤ
  pub zmq_tcp_keepalive_cnt : ℤ
  pub zmq_tcp_keepalive_intvl : ℤ
  pub zmq_tcp_accept_filter : ℤ
  pub zmq_mechanism : ℤ
  pub zmq_plain_server : ℤ
  pub zmq_plain_username : ℤ
  pub zmq_plain_password : ℤ
  pub zmq_curve_server : ℤ
  pub zmq_curve_publickey : ℤ
  pub zmq_curve_secretkey : ℤ
  pub zmq_curve_serverkey : ℤ
  pub zmq_zap_domain : ℤ
  pub zmq_conflate : ℤ

pub record Constants : Type 0 where
  pub errnos : Errnos
  pub socket_types : SocketTypes
  pub mechanisms : Mechanisms
  pub socket_options : SocketOptions
  -- the options of a context; `ZMQ_IPV6` is the socket option's constant
  pub zmq_io_threads : ℤ
  pub zmq_max_sockets : ℤ
  -- the flags of `zmq_send` and `zmq_recv`
  pub zmq_dontwait : ℕ
  pub zmq_sndmore : ℕ
