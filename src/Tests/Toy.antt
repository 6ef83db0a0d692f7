-- ===== src/Tests/Toy.antt =====
-- A small host to run the model on: names that end in 't' are files and all others directories, every
-- call on a path is recorded, and `recv` takes from the next of a list of chunks.
use nexus_ftp_engine.Prelude.{
  ℕ, ◌+◌, true, false, not, Option, none, some, List, [], ◌∷◌, length, take, drop, ◌==◌,
}
use nexus_ftp_engine.Bytes.{Bytes, bytes, back}
use nexus_ftp_engine.Platform.{Host, Stat}

pub record ToyWorld : Type 0 where
  pub paths : List Bytes
  pub inbox : List Bytes
  pub sent : List Bytes
  pub file_size : ℕ

abbrev pub empty_world : ToyWorld
empty_world = record { paths = []; inbox = []; sent = []; file_size = 0 }

abbrev pub touch : Bytes → ToyWorld → ToyWorld
touch p w = record w { paths = p ∷ w.paths }

-- At most `n` bytes of the first chunk.
abbrev pub next_chunk : ℕ → List Bytes → ToyWorld → Option Bytes × ToyWorld
next_chunk n [] w = (some [], w)
next_chunk n (c ∷ cs) w = (some (take n c), record w { inbox = drop n c ∷ cs })

unfoldable pub stat_of : Bytes → Stat
unfolding back
stat_of p = record { is_dir = not (back p == b't'); st_size = 7; st_mtime = 0 }

abbrev pub toy : Host
toy = record {
  World = ToyWorld;
  stat = λ p w. (some (stat_of p), touch p w);
  mkdir = λ p w. (true, touch p w);
  rmdir = λ p w. (true, touch p w);
  remove = λ p w. (true, touch p w);
  rename = λ p q w. (true, touch p (touch q w));
  read_dir = λ p w. (some (bytes "x.txt" ∷ []), touch p w);
  find_files = λ p w. (some ((bytes "x.txt", false) ∷ []), touch p w);
  gmtime = λ t. none;
  open_read = λ p w. (some 5, touch p w);
  fstat_size = λ fd w. (7, w);
  send_file = λ sock fd offset count w. (some count, w);
  close_fd = λ fd w. w;
  fopen = λ p m w. (some 6, touch p w);
  fseek = λ file offset w. w;
  fread = λ file n w. ([], w);
  fwrite = λ file buf w. record w { file_size = w.file_size + length buf };
  fclose = λ file w. w;
  socket = λ w. (some 3, w);
  bind = λ sock port w. (true, w);
  listen = λ sock n w. (true, w);
  accept = λ sock w. (some 4, w);
  connect = λ sock ip port w. (true, w);
  send = λ sock buf w. (some (length buf), record w { sent = buf ∷ w.sent });
  recv = λ sock n w. next_chunk n w.inbox w;
  close = λ sock w. w;
  local_port = λ sock w. (50000, w);
  peer_ip = λ sock w. (bytes "10.0.0.7", w);
  set_sockopt = λ sock o w. w;
  time = λ w. (1000, w);
  clock = λ w. (0, w);
  sleep_ms = λ n w. w;
  over_budget_ms = λ limit n elapsed. 0;
  second_elapsed = λ elapsed. false;
  speed_kbps = λ n ticks. 0;
}
