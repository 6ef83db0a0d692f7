-- ===== src/Tests/Downloads.antt =====
-- Witnesses of the theorems on the loops that send a file.
use nexus_ftp_engine.Prelude.{◌≡◌, refl, true, some, none, [], ◌∷◌, ◌++◌, arith, length, take, drop}
use nexus_ftp_engine.Bytes.{Bytes, bytes}
use nexus_ftp_engine.Platform.{Host}
use nexus_ftp_engine.Transfer.Limiter.{RateLimiter}
use nexus_ftp_engine.Transfer.Send.{send_file_buffered}
use nexus_ftp_engine.Transfer.Streams.{Streams, Seeks}
use nexus_ftp_engine.Transfer.Downloads.{send_file_buffered-sends}
use nexus_ftp_engine.Client.Uploads.{Uploads, upload_loop-Uploads}
use nexus_ftp_engine.Tests.Toy.{toy}

-- The disk has one file; `left` is what the open file has left, `out` what went out on the socket.
record Disk : Type 0 where
  pub file : Bytes
  pub left : Bytes
  pub out : Bytes

abbrev disk : Host
disk = record {
  World = Disk;
  stat = λ p w. (none, w);
  mkdir = λ p w. (true, w);
  rmdir = λ p w. (true, w);
  remove = λ p w. (true, w);
  rename = λ p q w. (true, w);
  read_dir = λ p w. (none, w);
  find_files = λ p w. (none, w);
  gmtime = toy.gmtime;
  open_read = λ p w. (none, w);
  fstat_size = λ fd w. (0, w);
  send_file = λ sock fd offset count w. (none, w);
  close_fd = λ fd w. w;
  fopen = λ p m w. (some 6, record w { left = w.file });
  fseek = λ file n w. record w { left = drop n w.file };
  fread = λ file n w. (take n w.left, record w { left = drop n w.left });
  fwrite = λ file buf w. w;
  fclose = λ file w. w;
  socket = λ w. (some 3, w);
  bind = λ sock port w. (true, w);
  listen = λ sock n w. (true, w);
  accept = λ sock w. (some 4, w);
  connect = λ sock ip port w. (true, w);
  send = λ sock buf w. (some (length buf), record w { out = w.out ++ buf });
  recv = λ sock n w. (none, w);
  close = λ sock w. w;
  local_port = λ sock w. (50000, w);
  peer_ip = λ sock w. ([], w);
  set_sockopt = λ sock o w. w;
  time = λ w. (0, w);
  clock = λ w. (0, w);
  sleep_ms = λ n w. w;
  over_budget_ms = toy.over_budget_ms;
  second_elapsed = toy.second_elapsed;
  speed_kbps = toy.speed_kbps;
}

abbrev disk-Streams : Streams disk
disk-Streams = record {
  stored = λ p (w : Disk). w.file;
  unread = λ f (w : Disk). w.left;
  sent = λ s (w : Disk). w.out;
  fread-take = λ f n w. refl;
  unread-fread = λ f n w. refl;
  unread-send = λ f s b w. refl;
  unread-clock = λ f w. refl;
  unread-sleep = λ f n w. refl;
  unread-fopen = λ p f w e. refl;
  send_takes = λ s b w. refl;
  sent-send = λ s b w. refl;
  sent-fread = λ s f n w. refl;
  sent-clock = λ s w. refl;
  sent-sleep = λ s n w. refl;
  sent-fopen = λ s p w. refl;
  sent-fclose = λ s f w. refl;
}

abbrev disk-Seeks : Seeks disk disk-Streams
disk-Seeks = record {
  content = λ f (w : Disk). w.file;
  content-fopen = λ p f w e. refl;
  unread-fseek = λ f n w in_long. refl;
  sent-fseek = λ s f n w. refl;
}

abbrev five_bytes : Disk
five_bytes = record { file = 1 ∷ 2 ∷ 3 ∷ 4 ∷ 5 ∷ []; left = []; out = [] }

abbrev unlimited : RateLimiter
unlimited = record { limit = 0; window_start = 0; window_bytes = 0 }

send_file_buffered-sends_example :
    (l2 : RateLimiter) × (w2 : Disk) × (send_file_buffered disk 9
        (some 4)
        (bytes "x")
        2
        0
        unlimited
        five_bytes
      ≡ some (3, l2, w2))
    × (w2.out ≡ 3 ∷ 4 ∷ 5 ∷ [])
send_file_buffered-sends_example =
    send_file_buffered-sends disk disk-Streams disk-Seeks 9 (some 4) (bytes "x") 2 0 6 unlimited
      five_bytes (omega arith) refl (omega arith) (omega arith)

-- The file is open, with three bytes left.
abbrev half_read : Disk
half_read = record five_bytes { left = 3 ∷ 4 ∷ 5 ∷ [] }

upload_loop-Uploads_example : Uploads disk disk-Streams 9 (some 4) 6 half_read (3 ∷ 4 ∷ 5 ∷ [])
upload_loop-Uploads_example =
    upload_loop-Uploads disk disk-Streams 9 (some 4) 6 half_read (omega arith)
