-- ===== src/Session/Access.antt =====
-- src/server/session.cpp: the constructor, USER, PASS, QUIT, SYST, TYPE and FEAT.
use nexus_ftp_engine.Prelude.{Bool, true, false, ◌&&◌, ◌||◌, [], ◌∷◌, ◌++◌, if◌then◌else◌}
use nexus_ftp_engine.Bytes.{Bytes, bytes, bytes_eq, is_empty}
use nexus_ftp_engine.Platform.{Host, SocketHandle}
use nexus_ftp_engine.Platform.Sockets.{set_recv_timeout, set_keep_alive, set_socket_buffers}
use nexus_ftp_engine.Platform.Files.{create_dir}
use nexus_ftp_engine.Auth.{is_rate_limited, authenticate, clear_attempts, record_failed_attempt}
use nexus_ftp_engine.DataChannel.{initial_channel}
use nexus_ftp_engine.Session.{
  SessionState, connected, wait_user, wait_pass, ready, closed, ServerContext, Sys, Flow, next,
  leave, inc, set_state,
}
use nexus_ftp_engine.Session.Paths.{backslash}
use nexus_ftp_engine.Session.Reply.{send_reply, answer, crlf}

-- ctx_.rootDir + "\\" + username
abbrev pub home_dir : ServerContext → Bytes → Bytes
home_dir ctx user = ctx.root_dir ++ backslash ∷ user

module _ (h : Host) where
  open h use {World}

  -- The constructor; the limiter's window starts at the time of `clock`.
  unfoldable pub new_session : SocketHandle → Bytes → ServerContext → World → Sys World
  new_session sock ip ctx w0 =
      let (now, w1) = h.clock w0 in
      let w2 = set_recv_timeout h sock ctx.timeout_secs w1 in
      let w3 = set_keep_alive h sock w2 in
      let w4 = set_socket_buffers h sock ctx.send_buf_kb ctx.recv_buf_kb w3 in
      record {
        session = record {
          socket = sock;
          client_ip = ip;
          state = connected;
          username = [];
          user_root_dir = [];
          current_dir = [];
          rename_from = [];
          data_channel = initial_channel;
          rate_limiter = record {
            limit = ctx.bandwidth_limit_bps;
            window_start = now;
            window_bytes = 0;
          };
          bytes_transferred = 0;
          restart_offset = 0;
        };
        ctx = record ctx {
          active_connections = inc ctx.active_connections;
          total_connections = inc ctx.total_connections;
        };
        world = w4;
      }

  -- The user's directory becomes the root and the current one, and the session READY.
  unfoldable pub enter_home : Bytes → Sys World → Sys World
  enter_home user s =
      let (created, w) = create_dir h (home_dir s.ctx user) s.world in
      record s {
        session = record s.session {
          username = user;
          user_root_dir = home_dir s.ctx user;
          current_dir = home_dir s.ctx user;
          state = ready;
        };
        world = w;
      }

  -- Session::handleUser
  unfoldable pub handle_user : Bytes → Sys World → Flow (Sys World)
  unfolding enter_home
  handle_user arg s =
      if is_empty arg
      then answer h (bytes "501 Username required") s
      else if (bytes_eq arg (bytes "anonymous") || bytes_eq arg (bytes "ftp"))
          && s.ctx.allow_anonymous
      then answer h (bytes "230 Anonymous login OK.") (enter_home (bytes "anonymous") s)
      else answer h (bytes "331 Password required for " ++ arg)
          (record s { session = record s.session { username = arg; state = wait_pass } })

  -- The branches of handlePass for a right and for a wrong password.
  unfoldable pub login_ok : Sys World → Flow (Sys World)
  unfolding enter_home
  login_ok s =
      let s1 = enter_home s.session.username s in
      answer h (bytes "230 Welcome, " ++ s.session.username ++ bytes ".") (record s1 {
        ctx = record s1.ctx { auth = clear_attempts s.session.client_ip s1.ctx.auth };
      })

  unfoldable pub login_failed : Sys World → Flow (Sys World)
  login_failed s =
      let (now, w) = h.time s.world in
      answer h (bytes "530 Login incorrect") (record s {
        session = record s.session { state = wait_user };
        ctx = record s.ctx { auth = record_failed_attempt s.session.client_ip now s.ctx.auth };
        world = w;
      })

  -- handlePass behind its guard on the state.
  unfoldable pub check_login : Bytes → Sys World → Flow (Sys World)
  unfolding login_ok login_failed
  check_login arg s0 =
      let (now, w) = h.time s0.world in
      let (limited, auth) = is_rate_limited s0.session.client_ip now s0.ctx.auth in
      let s = record s0 { ctx = record s0.ctx { auth = auth }; world = w } in
      if limited
      then next (
          set_state closed
            (send_reply h (bytes "421 Too many failed attempts. Try again later.") s))
      else if authenticate s.session.username arg auth
      then login_ok s
      else login_failed s

  abbrev pub is_wait_pass : SessionState → Bool
  is_wait_pass wait_pass = true
  is_wait_pass _ = false

  -- Session::handlePass
  unfoldable pub handle_pass : Bytes → Sys World → Flow (Sys World)
  unfolding check_login
  handle_pass arg s =
      if is_wait_pass s.session.state
      then check_login arg s
      else answer h (bytes "503 Send USER first") s

  -- Session::handleQuit, and the `break` behind it.
  unfoldable pub handle_quit : Sys World → Flow (Sys World)
  handle_quit s = leave (set_state closed (send_reply h (bytes "221 Goodbye.") s))

  unfoldable pub handle_syst : Sys World → Flow (Sys World)
  handle_syst s = answer h (bytes "215 UNIX Type: L8") s

  unfoldable pub handle_type : Bytes → Sys World → Flow (Sys World)
  handle_type a s = answer h (bytes "200 Type set to " ++ a) s

  unfoldable pub handle_feat : Sys World → Flow (Sys World)
  handle_feat s =
      answer h
        (bytes "211-Extensions supported:"
          ++ crlf
          ++ bytes " SIZE"
          ++ crlf
          ++ bytes " MDTM"
          ++ crlf
          ++ bytes " REST STREAM"
          ++ crlf
          ++ bytes "211 End.")
        s
