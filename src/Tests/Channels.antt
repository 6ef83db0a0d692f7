-- ===== src/Tests/Channels.antt =====
-- Witness of the theorem on the sockets of a data channel, over a host that counts them.
use nexus_ftp_engine.Prelude.{
  ◌≡◌, ◌+◌, refl, none, some, true, ◌==◌, if◌then◌else◌, List, [], ◌∷◌, length, arith,
}
use nexus_ftp_engine.Prelude.Int.{pos}
use nexus_ftp_engine.Bytes.{Bytes}
use nexus_ftp_engine.Platform.{Host, SocketHandle}
use nexus_ftp_engine.DataChannel.{initial_channel}
use nexus_ftp_engine.DataChannel.Sockets.{Counted, held}
use nexus_ftp_engine.DataChannel.Handed.{Connecting}
use nexus_ftp_engine.DataChannel.Uses.{
  ChannelUse, enters_passive, enters_active, opens_data, use_all, use_all-closes,
}
use nexus_ftp_engine.Tests.Toy.{empty_world, toy}

abbrev log_close : SocketHandle → List Bytes → List Bytes
log_close none closed = closed
log_close (some fd) closed = if fd == 3 then [] ∷ closed else closed

-- For descriptor 3, `file_size` counts how often it was opened, `sent` has an entry for each close, and
-- `paths` one for each connection on it.
abbrev counting : Host
counting = record toy {
  socket = λ w. (some 3, record w { file_size = w.file_size + 1 });
  accept = λ sock w. (some 4, w);
  connect = λ sock ip port w. (true, record w { paths = log_close sock w.paths });
  close = λ sock w. record w { sent = log_close sock w.sent };
}

log_close-held :
    (sock : SocketHandle) (closed : List Bytes)
    → length (log_close sock closed) ≡ length closed + held 3 sock
log_close-held none closed = omega arith
log_close-held (some fd) closed = ground arith

counting-Counted : Counted counting 3
counting-Counted = record {
  opens = λ w. w.file_size;
  closes = λ w. length w.sent;
  opens-socket = λ w. refl;
  closes-socket = λ w. refl;
  opens-accept = λ s w. omega arith;
  closes-accept = λ s w. refl;
  opens-close = λ s w. refl;
  closes-close = λ s w. log_close-held s w.sent;
  opens-bind = λ s p w. refl;
  closes-bind = λ s p w. refl;
  opens-listen = λ s n w. refl;
  closes-listen = λ s n w. refl;
  opens-connect = λ s ip p w. refl;
  closes-connect = λ s ip p w. refl;
  opens-option = λ s o w. refl;
  closes-option = λ s o w. refl;
  opens-port = λ s w. refl;
  closes-port = λ s w. refl;
}

counting-Connecting : Connecting counting 3
counting-Connecting = record {
  made = λ w. length w.paths;
  made-accept = λ s w. omega arith;
  made-connect = λ s ip p w. log_close-held s w.paths;
  made-socket = λ w. refl;
  made-close = λ s w. refl;
  made-bind = λ s p w. refl;
  made-listen = λ s n w. refl;
  made-option = λ s o w. refl;
  made-port = λ s w. refl;
}

abbrev uses : List ChannelUse
uses = enters_passive ∷ enters_passive ∷ opens_data ∷ enters_active [] (pos 2000) ∷ opens_data ∷ []

use_all-closes_example :
    (counting-Counted.opens (use_all counting 3 uses initial_channel empty_world 0).0
        + counting-Counted.closes empty_world
      ≡ counting-Counted.opens empty_world
        + counting-Counted.closes (use_all counting 3 uses initial_channel empty_world 0).0
        + (use_all counting 3 uses initial_channel empty_world 0).1)
    × (counting-Connecting.made (use_all counting 3 uses initial_channel empty_world 0).0
        ≡ counting-Connecting.made empty_world
          + (use_all counting 3 uses initial_channel empty_world 0).1)
use_all-closes_example =
    use_all-closes counting 3 counting-Counted counting-Connecting uses empty_world
