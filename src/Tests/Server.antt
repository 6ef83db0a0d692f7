-- ===== src/Tests/Server.antt =====
-- Witnesses of the theorems on the accept loop, the pool and the sessions together.
use nexus_ftp_engine.Prelude.{
  ℕ, ◌+◌, ◌≡◌, ◌≢◌, refl, true, false, Option, some, List, [], ◌∷◌, arith,
}
use nexus_ftp_engine.Prelude.Int.{pos}
use nexus_ftp_engine.Prelude.Counts.{total}
use nexus_ftp_engine.Bytes.{Bytes, bytes, bytes_eq, find_if, to_upper}
use nexus_ftp_engine.Platform.{Host}
use nexus_ftp_engine.Session.{Sys, Flow, next, leave, raised, inc}
use nexus_ftp_engine.Session.Loop.{
  turn, is_closed, on_command, execute, verb_of, clean_command, strip_crlf, skip_blanks,
  split_command, guarded, dispatch,
}
use nexus_ftp_engine.Session.Reply.{recv_command, send_reply}
use nexus_ftp_engine.Session.Access.{new_session, handle_user, enter_home}
use nexus_ftp_engine.Session.Data.{handle_port}
use nexus_ftp_engine.DataChannel.PortCommand.{parse_port_command, parse_numbers, store}
use nexus_ftp_engine.Bytes.Decimal.{stoi}
use nexus_ftp_engine.Platform.Sockets.{
  recv_data, accept_connection, get_peer_ip, send_data, set_socket_buffers, set_keep_alive,
  set_recv_timeout,
}
use nexus_ftp_engine.Platform.Files.{create_dir}
use nexus_ftp_engine.Pool.{
  Worker, awake, holding, running, ThreadPool, started, submit_unheard, worker_takes, new_pool,
}
use nexus_ftp_engine.Server.{
  FtpServer, Connection, refused, submitted, at_capacity, accept_turn, to_uint64, admit,
}
use nexus_ftp_engine.Server.System.{
  Phase, before, over, inside, System, Outcome, quiet, failed, open_session, new_system, ServerRun,
  done, step, accept_submits, pool_moves, task_begins_at, session_opens, session_turns,
  session_raises,
}
use nexus_ftp_engine.Server.Capacity.{
  active, is_inside, failures, ServerRun-active, ServerRun-unrefused, ServerRun-unsubmitted,
}
use nexus_ftp_engine.Tests.Toy.{ToyWorld, empty_world, toy}
use nexus_ftp_engine.Tests.Sessions.{demo_ctx}

-- A host whose `recv` gives one text of the inbox at a time.
abbrev next_text : List Bytes → ToyWorld → Option Bytes × ToyWorld
next_text [] w = (some [], w)
next_text (c ∷ cs) w = (some c, record w { inbox = cs })

abbrev talking : Host
talking = record toy { recv = λ sock n w. next_text w.inbox w }

abbrev small_server : FtpServer
small_server = record {
  port = pos 21;
  root_dir = bytes "ftproot";
  max_clients = pos 1;
  thread_pool_size = pos 1;
  admin_port = pos 0;
  listen_socket = some 3;
  running = true;
  context = record demo_ctx { active_connections = 0 };
}

-- The client logs in without a password and sends a PORT that is no number.
abbrev calls : ToyWorld
calls = record empty_world { inbox = bytes "USER anonymous" ∷ bytes "PORT x" ∷ [] }

abbrev caller : Connection
caller = record { socket = some 4; ip = bytes "10.0.0.7" }

abbrev pool_of : Worker Connection → List Connection → ℕ → ThreadPool Connection
pool_of w ts n = record { workers = w ∷ []; tasks = ts; shutdown = false; active_tasks = n }

abbrev system_of : FtpServer → ThreadPool Connection → Phase → ToyWorld → System ToyWorld
system_of server p ph w = record { server = server; pool = p; phases = ph ∷ []; world = w }

abbrev carried : Flow (Sys ToyWorld) → Sys ToyWorld → Sys ToyWorld
carried (next t) d = t
carried (leave t) d = t
carried (raised t) d = t
carried _ d = d

abbrev greeted : Sys ToyWorld
greeted = open_session talking 10 caller small_server.context calls

abbrev logged_in : Sys ToyWorld
logged_in = carried (turn talking 10 greeted) greeted

abbrev thrown_out : Sys ToyWorld
thrown_out = carried (turn talking 10 logged_in) logged_in

abbrev server_with : Sys ToyWorld → FtpServer
server_with t = record small_server { context = t.ctx }

abbrev ended : System ToyWorld
ended = system_of (server_with thrown_out) (pool_of (running caller) [] 1) over thrown_out.world

abbrev outcomes : List Outcome
outcomes = quiet ∷ quiet ∷ quiet ∷ quiet ∷ quiet ∷ failed ∷ []

accepts : accept_turn talking small_server calls ≡ (submitted caller, calls)
unfolding accept_turn at_capacity accept_connection get_peer_ip admit to_uint64
accepts = refl

greeted_open : is_closed greeted.session.state ≡ false
unfolding open_session
greeted_open = refl

logs_in : turn talking 10 greeted ≡ next logged_in
unfolding turn open_session new_session recv_command recv_data on_command execute verb_of bytes
    bytes_eq clean_command strip_crlf skip_blanks split_command find_if to_upper handle_user
    enter_home send_reply send_data set_socket_buffers set_keep_alive set_recv_timeout create_dir
logs_in = refl

logged_in_open : is_closed logged_in.session.state ≡ false
unfolding turn open_session new_session recv_command recv_data on_command execute verb_of bytes
    bytes_eq clean_command strip_crlf skip_blanks split_command find_if to_upper handle_user
    enter_home send_reply send_data set_socket_buffers set_keep_alive set_recv_timeout create_dir
logged_in_open = refl

throws : turn talking 10 logged_in ≡ raised thrown_out
unfolding turn open_session new_session recv_command recv_data on_command execute verb_of bytes
    bytes_eq clean_command strip_crlf skip_blanks split_command find_if to_upper handle_user
    enter_home send_reply send_data set_socket_buffers set_keep_alive set_recv_timeout create_dir
    guarded dispatch handle_port parse_port_command parse_numbers store stoi
throws = refl

one_failure : ServerRun talking 10 (new_system talking 10 1 small_server calls) outcomes ended
unfolding new_system new_pool inc accept_turn at_capacity to_uint64
one_failure =
    step
      (accept_submits (system_of small_server (pool_of awake [] 0) over calls) caller calls
        (pool_of awake (caller ∷ []) 0) refl accepts
        (submit_unheard (pool_of awake [] 0) caller refl tt))
      (step
        (pool_moves (system_of small_server (pool_of awake (caller ∷ []) 0) over calls)
          (started caller) (pool_of (holding caller) [] 0)
          (worker_takes (pool_of awake (caller ∷ []) 0) 0 caller [] (omega arith) refl refl) tt)
        (step
          (task_begins_at (system_of small_server (pool_of (holding caller) [] 0) over calls) 0
            caller (omega arith) refl (omega arith) refl)
          (step
            (session_opens (system_of small_server (pool_of (running caller) [] 1) before calls) 0
              caller (omega arith) refl refl)
            (step
              (session_turns
                (system_of (server_with greeted) (pool_of (running caller) [] 1)
                  (inside greeted.session) greeted.world)
                0 greeted.session logged_in (omega arith) refl greeted_open logs_in)
              (step
                (session_raises
                  (system_of (server_with logged_in) (pool_of (running caller) [] 1)
                    (inside logged_in.session) logged_in.world)
                  0 logged_in.session thrown_out (omega arith) refl logged_in_open throws)
                (done _))))))

ServerRun-active_example :
    active talking 10 ended ≡ total is_inside ended.phases + failures outcomes
unfolding to_uint64
ServerRun-active_example =
    ServerRun-active talking 10 1 small_server calls refl (omega arith) one_failure

ServerRun-unsubmitted_example :
    accept_turn talking ended.server ended.world ≢ (submitted caller, calls)
unfolding to_uint64
ServerRun-unsubmitted_example =
    ServerRun-unsubmitted talking 10 1 small_server calls refl (omega arith) (omega arith)
      one_failure caller ended.world calls

-- With room for two clients.
abbrev roomy_server : FtpServer
roomy_server = record small_server { max_clients = pos 2 }

roomy_accepts : accept_turn talking roomy_server calls ≡ (submitted caller, calls)
unfolding accept_turn at_capacity accept_connection get_peer_ip admit to_uint64
roomy_accepts = refl

queueing :
    ServerRun talking 10
      (new_system talking 10 1 roomy_server calls)
      (quiet ∷ [])
      (system_of roomy_server (pool_of awake (caller ∷ []) 0) over calls)
unfolding new_system new_pool
queueing =
    step
      (accept_submits (system_of roomy_server (pool_of awake [] 0) over calls) caller calls
        (pool_of awake (caller ∷ []) 0) refl roomy_accepts
        (submit_unheard (pool_of awake [] 0) caller refl tt))
      (done _)

ServerRun-unrefused_example : accept_turn talking roomy_server calls ≢ (refused caller, calls)
unfolding to_uint64
ServerRun-unrefused_example =
    ServerRun-unrefused talking 10 1 roomy_server calls refl (omega arith) queueing caller calls
      calls
