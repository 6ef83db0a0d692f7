-- ===== src/Tests/Keyboard.antt =====
-- Witnesses of the theorems on the client's command loop.
use nexus_ftp_engine.Prelude.{some, []}
use nexus_ftp_engine.Bytes.{bytes, bytes_eq, to_lower}
use nexus_ftp_engine.Client.Keyboard.{choice_of, command_loop}
use nexus_ftp_engine.Client.Repeats.{NeverEnds, command_loop-NeverEnds}
use nexus_ftp_engine.Tests.Toy.{empty_world, toy}

command_loop-NeverEnds_example :
    NeverEnds toy 10
      (command_loop toy 10 5 (some 3) (record { words = []; input = bytes "pwd" }) empty_world)
unfolding choice_of bytes bytes_eq to_lower
command_loop-NeverEnds_example =
    command_loop-NeverEnds toy 10 5 (some 3) (bytes "pwd") empty_world (λ e. cc)
