-- ===== src/Tests/Sessions.antt =====
-- Witnesses and tests of the session.
use nexus_ftp_engine.Prelude.{ℕ, ◌≡◌, refl, true, some, List, [], ◌∷◌}
use nexus_ftp_engine.Prelude.Int.{pos}
use nexus_ftp_engine.Bytes.{Bytes, bytes, bytes_eq, to_lower}
use nexus_ftp_engine.Auth.{initial_auth}
use nexus_ftp_engine.DataChannel.{initial_channel}
use nexus_ftp_engine.Session.{ready, Session, ServerContext, Sys}
use nexus_ftp_engine.Session.Confinement.{
  IsConfined, Confined, execute-IsConfined, run-new_session-IsConfined,
}
use nexus_ftp_engine.Session.Flows.{FlowAll}
use nexus_ftp_engine.Session.Paths.{is_within_root}
use nexus_ftp_engine.Session.Loop.{Verb, dispatch, execute, run}
use nexus_ftp_engine.Session.Access.{new_session}
use nexus_ftp_engine.Session.Sandbox.{dispatch-Safe}
use nexus_ftp_engine.Session.Sandbox.Calls.{Survives}
use nexus_ftp_engine.Tests.Toy.{ToyWorld, empty_world, next_chunk, toy}

abbrev pub demo_ctx : ServerContext
demo_ctx = record {
  auth = initial_auth;
  root_dir = bytes "ftproot";
  total_connections = 1;
  active_connections = 1;
  total_bytes_transferred = 0;
  timeout_secs = pos 300;
  max_file_size_bytes = 100;
  allow_anonymous = true;
  bandwidth_limit_bps = 0;
  send_buf_kb = pos 256;
  recv_buf_kb = pos 64;
}

-- The user bob, logged in, in the directory "docs" below the root.
abbrev pub demo_session : Session
demo_session = record {
  socket = some 9;
  client_ip = bytes "10.0.0.7";
  state = ready;
  username = bytes "bob";
  user_root_dir = bytes "ftproot\\bob";
  current_dir = bytes "ftproot\\bob\\docs";
  rename_from = [];
  data_channel = initial_channel;
  rate_limiter = record { limit = 0; window_start = 0; window_bytes = 0 };
  bytes_transferred = 0;
  restart_offset = 0;
}

abbrev pub demo : Sys ToyWorld
demo = record { session = demo_session; ctx = demo_ctx; world = empty_world }

pub demo_within : is_within_root demo_session (bytes "ftproot\\bob\\docs") ≡ true
unfolding is_within_root bytes bytes_eq to_lower
demo_within = refl

demo-IsConfined : IsConfined demo_session
demo-IsConfined = record { within = demo_within; settled = refl }

execute-IsConfined_example : Confined (execute toy 10 Verb.cwd (bytes "more") demo)
execute-IsConfined_example = execute-IsConfined toy 10 Verb.cwd (bytes "more") demo demo-IsConfined

run-new_session-IsConfined_example :
    Confined (run toy 10 10 (new_session toy (some 9) (bytes "10.0.0.7") demo_ctx empty_world))
run-new_session-IsConfined_example =
    run-new_session-IsConfined toy 10 10 (some 9) (bytes "10.0.0.7") demo_ctx empty_world

-- Every recorded path has bob's root.
abbrev AllWithin : List Bytes → Type 0
AllWithin [] = Unit {0}
AllWithin (p ∷ ps) = (is_within_root demo_session p ≡ true) × AllWithin ps

paths-next_chunk :
    (n : ℕ) (cs : List Bytes) (w : ToyWorld)
    → AllWithin w.paths
    → AllWithin (next_chunk n cs w).1.paths
paths-next_chunk n [] w q = q
paths-next_chunk n (c ∷ cs) w q = q

toy-Survives :
    Survives toy (λ p. is_within_root demo_session p ≡ true) (λ (w : ToyWorld). AllWithin w.paths)
toy-Survives = record {
  stat_at = λ p w a q. (a, q);
  mkdir_at = λ p w a q. (a, q);
  rmdir_at = λ p w a q. (a, q);
  remove_at = λ p w a q. (a, q);
  read_dir_at = λ p w a q. (a, q);
  open_read_at = λ p w a q. (a, q);
  rename_at = λ p p' w a b q. (a, (b, q));
  fopen_at = λ p m w a q. (a, q);
  fstat_size_at = λ _ w q. q;
  send_file_at = λ _ _ _ _ w q. q;
  close_fd_at = λ _ w q. q;
  fseek_at = λ _ _ w q. q;
  fread_at = λ _ _ w q. q;
  fwrite_at = λ _ _ w q. q;
  fclose_at = λ _ w q. q;
  socket_at = λ w q. q;
  bind_at = λ _ _ w q. q;
  listen_at = λ _ _ w q. q;
  accept_at = λ _ w q. q;
  connect_at = λ _ _ _ w q. q;
  send_at = λ _ _ w q. q;
  close_at = λ _ w q. q;
  local_port_at = λ _ w q. q;
  set_sockopt_at = λ _ _ w q. q;
  time_at = λ w q. q;
  clock_at = λ w q. q;
  sleep_ms_at = λ _ w q. q;
  recv_at = λ sock n w q. paths-next_chunk n w.inbox w q;
}

dispatch-safe_example :
    FlowAll
      (λ (t : Sys ToyWorld). AllWithin t.world.paths)
      (dispatch toy 10 Verb.dele (bytes "x.txt") demo)
dispatch-safe_example =
    dispatch-Safe toy demo (λ (w : ToyWorld). AllWithin w.paths) toy-Survives demo-IsConfined tt 10
      Verb.dele (bytes "x.txt") (λ e. cc)
