-- ===== src/Tests/Logins.antt =====
-- Witnesses of the theorems on logins, and of the line that tools/hash_password.cpp prints.
use nexus_ftp_engine.Prelude.{◌≡◌, refl, false, some, List, [], ◌∷◌}
use nexus_ftp_engine.Bytes.{bytes, bytes_eq}
use nexus_ftp_engine.Sha256.{sha256_salted}
use nexus_ftp_engine.Auth.{initial_auth, load, authenticate}
use nexus_ftp_engine.Auth.Accounts.{users_text}
use nexus_ftp_engine.Session.{wait_pass, ServerContext, Sys}
use nexus_ftp_engine.Session.Flows.{FlowAll}
use nexus_ftp_engine.Session.Access.{new_session}
use nexus_ftp_engine.Session.Loop.{Verb, execute}
use nexus_ftp_engine.Session.Protocol.{protocol_step, standing_of, gate_of, execute-protocol_step}
use nexus_ftp_engine.Session.Passwords.{Command, Entitles, execute_all, execute_all-Entitles}
use nexus_ftp_engine.Tools.Lines.{file_of_entry, authenticate-hash_entry}
use nexus_ftp_engine.Tests.Accounts.{bob, bob-IsAccount}
use nexus_ftp_engine.Tests.Sessions.{demo_ctx, demo}
use nexus_ftp_engine.Tests.Toy.{ToyWorld, empty_world, toy}

-- A server that knows bob, and nobody else.
abbrev bobs_ctx : ServerContext
bobs_ctx = record demo_ctx {
  auth = (load (some (users_text (bob ∷ []))) initial_auth).1;
  allow_anonymous = false;
}

abbrev named_bob : Sys ToyWorld
named_bob = record demo {
  session = record demo.session { state = wait_pass; username = b'b' ∷ [] };
  ctx = bobs_ctx;
}

execute-protocol_step_example :
    FlowAll
      (λ (t : Sys ToyWorld).
        standing_of t
        ≡ protocol_step (gate_of toy named_bob) Verb.pass (b'p' ∷ []) (standing_of named_bob))
      (execute toy 10 Verb.pass (b'p' ∷ []) named_bob)
execute-protocol_step_example = execute-protocol_step toy 10 Verb.pass (b'p' ∷ []) named_bob

abbrev login_commands : List Command
login_commands = (Verb.user, b'b' ∷ []) ∷ (Verb.pass, b'q' ∷ []) ∷ (Verb.pwd, []) ∷ []

execute_all-Entitles_example :
    FlowAll
      (λ (t : Sys ToyWorld). Entitles (bob ∷ []) login_commands (standing_of t))
      (execute_all toy 10 login_commands
        (new_session toy (some 9) (bytes "10.0.0.7") bobs_ctx empty_world))
execute_all-Entitles_example =
    execute_all-Entitles toy (bob ∷ []) initial_auth bobs_ctx (some 9) (bytes "10.0.0.7")
      empty_world 10 login_commands (bob-IsAccount, tt) refl refl

authenticate-hash_entry_example :
    authenticate (b'b' ∷ []) (b'p' ∷ []) (load (some (file_of_entry bob)) initial_auth).1
    ≡ bytes_eq (sha256_salted (b'7' ∷ []) (b'p' ∷ [])) (sha256_salted (b'7' ∷ []) (b'p' ∷ []))
authenticate-hash_entry_example = authenticate-hash_entry bob (b'p' ∷ []) initial_auth bob-IsAccount
