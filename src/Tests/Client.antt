-- ===== src/Tests/Client.antt =====
-- Witnesses of the theorems on the client.
use nexus_ftp_engine.Prelude.{◌≡◌, true, arith}
use nexus_ftp_engine.Prelude.Int.{pos}
use nexus_ftp_engine.Platform.Sockets.{connect_socket}
use nexus_ftp_engine.DataChannel.{DataChannel, initial_channel, pasv_response}
use nexus_ftp_engine.DataChannel.PortCommand.RoundTrip.{dotted}
use nexus_ftp_engine.Session.{next}
use nexus_ftp_engine.Client.{connect_data}
use nexus_ftp_engine.Client.Passive.{connect_data-pasv_response}
use nexus_ftp_engine.Tests.Toy.{empty_world, toy}

abbrev listening : DataChannel
listening = record initial_channel { use_passive = true; passive_port = 50000 }

connect_data-pasv_response_example :
    connect_data toy (pasv_response listening) empty_world
    ≡ next (connect_socket toy (dotted 127 0 0 1) (pos 50000) empty_world)
connect_data-pasv_response_example =
    connect_data-pasv_response toy listening empty_world (omega arith)
