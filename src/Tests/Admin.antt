-- ===== src/Tests/Admin.antt =====
-- Witnesses of the theorems on the dashboard.
use nexus_ftp_engine.Prelude.{◌≡◌, ◌↔◌, true, some}
use nexus_ftp_engine.Bytes.{Bytes, bytes}
use nexus_ftp_engine.Admin.{handle_request}
use nexus_ftp_engine.Admin.Stop.{IsPrefix, IsInfix, stop_command, handle_request-stops}
use nexus_ftp_engine.Tests.Toy.{empty_world, toy}
use nexus_ftp_engine.Tests.Sessions.{demo_ctx}

abbrev stop_request : Bytes
stop_request = bytes "GET /stop?key=1234 HTTP/1.1"

handle_request-stops_example :
    ((handle_request toy (some (bytes "1234")) demo_ctx (some 9) stop_request empty_world).0 ≡ true)
    ↔ (IsPrefix (bytes "GET") stop_request
        × IsInfix (stop_command (some (bytes "1234"))) stop_request)
handle_request-stops_example =
    handle_request-stops toy (some (bytes "1234")) demo_ctx (some 9) stop_request empty_world
