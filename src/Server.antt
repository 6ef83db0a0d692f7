-- ===== src/Server.antt =====
-- src/server/ftp_server.cpp: FTPServer's settings, its listening socket, and a turn of the accept loop.
-- Lines of the log are left out.
pub mod System
pub mod Capacity
pub mod Main
use nexus_ftp_engine.Prelude.{
  ℕ, ◌+◌, ◌-◌, ◌*◌, ◌%◌, ◌^◌, Bool, true, false, not, Option, none, some, [], leb, if◌then◌else◌,
}
use nexus_ftp_engine.Prelude.Int.{ℤ, pos, ltb_ℤ}
use nexus_ftp_engine.Bytes.{Bytes, bytes, bytes_eq, is_empty}
use nexus_ftp_engine.Bytes.Assoc.{Assoc}
use nexus_ftp_engine.Config.{get_int, get_string}
use nexus_ftp_engine.Logger.{LogLevel, Logger, set_level, set_log_file}
use nexus_ftp_engine.Auth.{load, initial_auth}
use nexus_ftp_engine.Session.{ServerContext}
use nexus_ftp_engine.Platform.{Host, SocketHandle}
use nexus_ftp_engine.Platform.Sockets.{
  create_tcp_socket, set_reuse_addr, bind_socket, listen_socket, accept_connection, get_peer_ip,
  send_data, close_socket, managed_close,
}

pub record FtpServer : Type 0 where
  pub port : ℤ
  pub root_dir : Bytes
  pub max_clients : ℤ
  pub thread_pool_size : ℤ
  pub admin_port : ℤ
  pub listen_socket : SocketHandle
  pub running : Bool
  pub context : ServerContext

-- (uint64_t)n for an int
unfoldable pub to_uint64 : ℤ → ℕ
to_uint64 (pos n) = n % 2 ^ 64
to_uint64 (ℤ.negsuc n) = 2 ^ 64 - 1 - n % 2 ^ 64

unfoldable pub log_level_of : Bytes → LogLevel
log_level_of lvl =
    if bytes_eq lvl (bytes "debug")
    then LogLevel.lvl_debug
    else if bytes_eq lvl (bytes "warn")
    then LogLevel.lvl_warn
    else if bytes_eq lvl (bytes "error")
    then LogLevel.lvl_error
    else LogLevel.lvl_info

-- The part of the constructor that sets the shared context; `users` is the file of the users.
unfoldable pub new_context : Assoc Bytes → Option Bytes → ServerContext
unfolding to_uint64
new_context config users = record {
  auth = (load users initial_auth).1;
  root_dir = get_string (bytes "root_dir") (bytes "ftproot") config;
  total_connections = 0;
  active_connections = 0;
  total_bytes_transferred = 0;
  timeout_secs = get_int (bytes "timeout_secs") (pos 300) config;
  max_file_size_bytes =
      to_uint64 (get_int (bytes "max_file_size_mb") (pos 0) config) * 1024 * 1024 % 2 ^ 64;
  allow_anonymous =
      bytes_eq (get_string (bytes "allow_anonymous") (bytes "no") config) (bytes "yes");
  bandwidth_limit_bps =
      to_uint64 (get_int (bytes "bandwidth_limit_kbps") (pos 0) config) * 1024 % 2 ^ 64;
  send_buf_kb = get_int (bytes "send_buf_kb") (pos 256) config;
  recv_buf_kb = get_int (bytes "recv_buf_kb") (pos 64) config;
}

-- The constructor; `files` gives the text of a file that can be opened.
unfoldable pub new_server : Assoc Bytes → (Bytes → Option Bytes) → FtpServer
unfolding new_context
new_server config files = record {
  port = get_int (bytes "port") (pos 21) config;
  root_dir = get_string (bytes "root_dir") (bytes "ftproot") config;
  max_clients = get_int (bytes "max_clients") (pos 100) config;
  thread_pool_size = get_int (bytes "thread_pool_size") (pos 4) config;
  admin_port = get_int (bytes "admin_port") (pos 8080) config;
  listen_socket = none;
  running = false;
  context =
      new_context config
        (files (get_string (bytes "users_file") (bytes "config/users.conf") config));
}

-- What the constructor does to the logger.
unfoldable pub configure_logger : Assoc Bytes → Logger → Logger
unfolding log_level_of
configure_logger config l =
    let leveled =
      set_level (log_level_of (get_string (bytes "log_level") (bytes "info") config)) l in
    let log_file = get_string (bytes "log_file") [] config in
    if is_empty log_file then leveled else set_log_file log_file leveled

-- A connection as it goes to the pool: the socket and the client's address.
pub record Connection : Type 0 where
  pub socket : SocketHandle
  pub ip : Bytes

-- What a turn of the accept loop does: no connection, a refusal, or a session for the pool.
pub data Accepted : Type 0 where
  invalid : Accepted
  refused submitted : Connection → Accepted

-- Whether the accept loop is at capacity.
unfoldable pub at_capacity : FtpServer → Bool
unfolding to_uint64
at_capacity s = leb (to_uint64 s.max_clients) s.context.active_connections

module _ (h : Host) where
  open h use {World}

  -- start, up to `running_.store(true)`, with a socket in hand.
  unfoldable pub listen_on : SocketHandle → FtpServer → World → Bool × FtpServer × World
  listen_on sock s0 w0 =
      let s = record s0 { listen_socket = sock } in
      let (bound, w1) = bind_socket h sock s.port (set_reuse_addr h sock w0) in
      let (listening, w2) = listen_socket h sock s.max_clients w1 in
      if not bound
      then (false, s, w1)
      else if not listening
      then (false, s, w2)
      else (true, record s { running = true }, w2)

  unfoldable pub start_listening : FtpServer → World → Bool × FtpServer × World
  unfolding listen_on
  start_listening s w =
      let (sock, w1) = create_tcp_socket h w in
      elim sock [ none ↦ (false, s, w1) | some fd ↦ listen_on (some fd) s w1 ]

  -- A turn of the accept loop for a valid socket.
  unfoldable pub admit : FtpServer → SocketHandle → World → Accepted × World
  unfolding at_capacity
  admit s sock w =
      let (ip, w1) = get_peer_ip h sock w in
      let c : Connection = record { socket = sock; ip = ip } in
      let (sent, w2) = send_data h sock (bytes "421 Server busy.\r\n") w1 in
      if at_capacity s then (refused c, close_socket h sock w2) else (submitted c, w1)

  unfoldable pub accept_turn : FtpServer → World → Accepted × World
  unfolding admit
  accept_turn s w =
      let (sock, w1) = accept_connection h s.listen_socket w in
      elim sock [ none ↦ (invalid, w1) | some fd ↦ admit s (some fd) w1 ]

  -- shutdown, up to the admin server and the pool, and whether it goes on to stop those.
  unfoldable pub shutdown : FtpServer → World → Bool × FtpServer × World
  shutdown s w =
      let (sock, w1) = managed_close h s.listen_socket w in
      if s.running
      then (true, record s { running = false; listen_socket = sock }, w1)
      else (false, s, w)
