-- ===== src/Tests/Commands.antt =====
-- Witnesses of the theorems on single commands.
use nexus_ftp_engine.Prelude.{◌≡◌, refl, true, some, [], ◌∷◌, ◌++◌, arith}
use nexus_ftp_engine.Bytes.{Bytes, bytes}
use nexus_ftp_engine.Bytes.Decimal.{stoi}
use nexus_ftp_engine.DataChannel.PortCommand.RoundTrip.{host_port, dotted}
use nexus_ftp_engine.Platform.Sockets.{to_uint16}
use nexus_ftp_engine.Platform.Files.{is_directory}
use nexus_ftp_engine.Session.{SessionState, wait_user, Sys, raised, inc}
use nexus_ftp_engine.Session.Paths.{backslash, resolve_path, is_within_root}
use nexus_ftp_engine.Session.Flows.{FlowAll}
use nexus_ftp_engine.Session.Access.{new_session}
use nexus_ftp_engine.Session.Directories.{handle_cwd, handle_cdup}
use nexus_ftp_engine.Session.Data.{handle_port}
use nexus_ftp_engine.Session.Loop.{Verb, is_logged_in, execute, turn, run}
use nexus_ftp_engine.Session.Login.{Admits, IsHome, execute-Admits}
use nexus_ftp_engine.Session.Ports.{handle_port_wraps}
use nexus_ftp_engine.Session.Connections.{EndsWith, run-new_session-EndsWith, execute-port_raises}
use nexus_ftp_engine.Session.Traversal.{leaves_root, is_within_root-climbing}
use nexus_ftp_engine.Session.Navigation.{handle_cdup-handle_cwd}
use nexus_ftp_engine.Session.Accounting.{Balanced, turn-Balanced}
use nexus_ftp_engine.Tests.Toy.{ToyWorld, empty_world, stat_of, toy}
use nexus_ftp_engine.Tests.Sessions.{demo_ctx, demo_session, demo, demo_within}

-- bob behind USER, and before it.
abbrev waiting : SessionState → Sys ToyWorld
waiting st = record demo { session = record demo.session { state = st } }

-- The client has sent a line.
abbrev told : Bytes → Sys ToyWorld
told line = record demo { world = record demo.world { inbox = line ∷ [] } }

execute-Admits_example :
    FlowAll
      (λ (t : Sys ToyWorld).
        is_logged_in t.session.state ≡ true
        → Admits toy Verb.user (bytes "ftp") (waiting wait_user) × IsHome t)
      (execute toy 10 Verb.user (bytes "ftp") (waiting wait_user))
execute-Admits_example = execute-Admits toy 10 Verb.user (bytes "ftp") (waiting wait_user) refl

handle_port_wraps_example :
    FlowAll
      (λ (t : Sys ToyWorld).
        (t.session.data_channel.active_ip ≡ dotted 127 0 0 1)
        × (to_uint16 t.session.data_channel.active_port ≡ 22))
      (handle_port toy (host_port 127 0 0 1 256 22) demo)
handle_port_wraps_example =
    handle_port_wraps toy demo 127 0 0 1 22 (omega arith) (omega arith) (omega arith) (omega arith)
      (omega arith)

run-new_session-EndsWith_example :
    EndsWith toy
      (inc 1)
      (run toy 10 10 (new_session toy (some 9) (bytes "10.0.0.7") demo_ctx empty_world))
run-new_session-EndsWith_example =
    run-new_session-EndsWith toy 10 10 (some 9) (bytes "10.0.0.7") demo_ctx empty_world

execute-port_raises_example : execute toy 10 Verb.port (b'x' ∷ []) demo ≡ raised demo
unfolding stoi
execute-port_raises_example =
    execute-port_raises toy 10 (b'x' ∷ []) demo refl ((λ e. omega (arith, e)), tt) refl

is_within_root-climbing_example :
    let path = resolve_path demo_session (bytes "/../" ++ bytes "alice") in
    (is_within_root demo_session path ≡ true) × (leaves_root demo_session.user_root_dir path ≡ true)
is_within_root-climbing_example = is_within_root-climbing demo_session (bytes "alice")

handle_cdup-handle_cwd_example :
    FlowAll
      (λ (t : Sys ToyWorld).
        (t.session.current_dir ≡ demo_session.current_dir ++ (backslash ∷ (b'a' ∷ [])))
        × FlowAll
            (λ (u : Sys ToyWorld). u.session.current_dir ≡ demo_session.current_dir)
            (handle_cdup toy t))
      (handle_cwd toy (b'a' ∷ []) demo)
unfolding is_directory stat_of resolve_path bytes
handle_cdup-handle_cwd_example =
    handle_cdup-handle_cwd toy demo (b'a' ∷ []) demo_within
      (refl, ((λ e. omega (arith, e)), tt), ((λ e. omega (arith, e)), tt)) refl

turn-Balanced_example :
    FlowAll (Balanced (told (bytes "RETR x.txt"))) (turn toy 10 (told (bytes "RETR x.txt")))
turn-Balanced_example = turn-Balanced toy 10 (told (bytes "RETR x.txt"))
