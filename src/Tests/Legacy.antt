-- ===== src/Tests/Legacy.antt =====
-- Witnesses of the theorems on the single-file server.
use nexus_ftp_engine.Prelude.{refl, some, false}
use nexus_ftp_engine.Bytes.{bytes}
use nexus_ftp_engine.Session.Flows.{FlowAll}
use nexus_ftp_engine.Session.Loop.{Verb}
use nexus_ftp_engine.Legacy.{Client}
use nexus_ftp_engine.Legacy.Loop.{execute, new_client}
use nexus_ftp_engine.Legacy.Login.{Outside, execute-Outside}
use nexus_ftp_engine.Tests.Toy.{ToyWorld, empty_world, toy}

-- A client that has given the user's name.
abbrev named : Client ToyWorld
named = record (new_client toy 10 (some 9) empty_world) {
  current_user = bytes "admin";
  logged_in = false;
}

execute-Outside_example :
    FlowAll
      (Outside toy 10 Verb.pass (bytes "1234") named)
      (execute toy 10 Verb.pass (bytes "1234") named)
execute-Outside_example = execute-Outside toy 10 Verb.pass (bytes "1234") named refl
