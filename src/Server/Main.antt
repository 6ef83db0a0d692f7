-- ===== src/Server/Main.antt =====
-- src/server/main.cpp, the entry point of the server, and FTPServer's start, shutdown and destructor
-- (src/server/ftp_server.cpp) with the dashboard and the pool.
use nexus_ftp_engine.Prelude.{
  Bool, true, false, Option, none, some, ◌≡◌, List, [], ◌∷◌, ℕ, if◌then◌else◌, arith,
}
use nexus_ftp_engine.Prelude.Int.{pos, ltb_ℤ}
use nexus_ftp_engine.Bytes.{Bytes, bytes}
use nexus_ftp_engine.Config
use nexus_ftp_engine.Platform.{Host}
use nexus_ftp_engine.Platform.Sockets.{managed_close}
use nexus_ftp_engine.Admin.{AdminServer, new_admin, start_admin, stop_admin}
use nexus_ftp_engine.Server.{FtpServer, new_server, start_listening, shutdown}

-- The server, its dashboard, and whether the pool was told to shut down.
pub record Running : Type 0 where
  pub server : FtpServer
  pub admin : Option AdminServer
  pub pool_stopped : Bool

-- argv[1], or the default; `args` are the arguments behind the program's name.
unfoldable pub config_path : List Bytes → Bytes
config_path [] = bytes "config/server.conf"
config_path (path ∷ args) = path

-- Where main stands when start returns or has begun to accept: an exit code, or the server with its
-- loop to run.
pub data Started (W : Type 0) : Type 0 where
  exits : ℕ → W → Started W
  accepts : Running → W → Started W

module _ (h : Host) where
  open h use {World}

  -- The dashboard that start makes, if its port is set.
  unfoldable pub start_dashboard : FtpServer → World → Option AdminServer × World
  start_dashboard s w =
      let (a, w1) = start_admin h (new_admin s.admin_port) w in
      if ltb_ℤ (pos 0) s.admin_port then (some a, w1) else (none, w)

  -- admin_->stop(); delete admin_;
  unfoldable pub stop_dashboard : Option AdminServer → World → World
  stop_dashboard none w = w
  stop_dashboard (some a) w =
      let (a1, w1) = stop_admin h a w in (managed_close h a1.listen_socket w1).1

  -- FTPServer::shutdown
  unfoldable pub shutdown_all : Running → World → Running × World
  unfolding shutdown stop_dashboard
  shutdown_all r w =
      let (goes_on, s, w1) = shutdown h r.server w in
      if goes_on
      then (record { server = s; admin = none; pool_stopped = true }, stop_dashboard r.admin w1)
      else (r, w)

  -- g_server->shutdown() of the signal handler; there is no server before main has made it.
  unfoldable pub signal_handler : Option Running → World → Option Running × World
  unfolding shutdown_all
  signal_handler none w = (none, w)
  signal_handler (some r) w = let (r1, w1) = shutdown_all r w in (some r1, w1)

  -- FTPServer::~FTPServer without the pool's own, and the destructor of its listening socket.
  unfoldable pub destroy_server : Running → World → World
  unfolding shutdown_all
  destroy_server r w =
      let (r1, w1) = shutdown_all r w in (managed_close h r1.server.listen_socket w1).1

  unfoldable pub start_server : FtpServer → World → Started World
  unfolding start_listening destroy_server start_dashboard
  start_server s w =
      let (started, s1, w1) = start_listening h s w in
      let (admin, w2) = start_dashboard s1 w1 in
      if started
      then accepts (record { server = s1; admin = admin; pool_stopped = false }) w2
      else exits 1 (destroy_server (record { server = s1; admin = none; pool_stopped = false }) w1)

  -- main, up to the accept loop; `networking` is the result of initNetworking, and `files` gives the
  -- text of a file that can be opened.
  unfoldable pub server_main : List Bytes → (Bytes → Option Bytes) → Bool → World → Started World
  unfolding config_path start_server new_server
  server_main args files networking w =
      let config = (Config.load (files (config_path args)) []).1 in
      if networking then start_server (new_server config files) w else exits 1 w

  shutdown_all-stopped :
      (r : Running) (w : World) → r.server.running ≡ false → shutdown_all r w ≡ (r, w)
  unfolding shutdown_all shutdown
  shutdown_all-stopped r w e = ground (arith, e)

  running-shutdown_all : (r : Running) (w : World) → (shutdown_all r w).0.server.running ≡ false
  unfolding shutdown_all shutdown
  running-shutdown_all r w = ground arith

  -- A second shutdown, of a second signal or of the destructor, does nothing.
  shutdown_all-again :
      (r : Running) (w : World)
      → shutdown_all (shutdown_all r w).0 (shutdown_all r w).1 ≡ shutdown_all r w
  shutdown_all-again r w =
      shutdown_all-stopped (shutdown_all r w).0 (shutdown_all r w).1 (running-shutdown_all r w)
