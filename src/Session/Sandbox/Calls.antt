-- ===== src/Session/Sandbox/Calls.antt =====
-- src/common/platform.cpp: invariants of the world, and the calls of the host on allowed paths.
use nexus_ftp_engine.Prelude.{
  ℕ, ◌^◌, ltb, Bool, false, Option, none, some, List, [], ◌∷◌, ◌++◌, ◌||◌, if_both, Bool-cases, inl,
  inr,
}
use nexus_ftp_engine.Prelude.Int.{ℤ}
use nexus_ftp_engine.Bytes.{Bytes, bytes, bytes_eq}
use nexus_ftp_engine.Platform.{Host, FileInfo, SocketHandle, SockOpt, OpenMode}
use nexus_ftp_engine.Platform.Sockets.{to_uint16, managed_close, connect_socket}
use nexus_ftp_engine.Platform.Files.{list_entries, list_directory}
use nexus_ftp_engine.Platform.Transmit.{transmit_file, transmit_opened}

-- `P` survives every call, where a call that takes a path is on an allowed one.
pub record Survives (h : Host) (Allowed : Bytes → Type 0) (P : h.World → Type 0) : Type 0 where
  pub stat_at : (p : Bytes) (w : h.World) → Allowed p → P w → P (h.stat p w).1
  pub mkdir_at : (p : Bytes) (w : h.World) → Allowed p → P w → P (h.mkdir p w).1
  pub rmdir_at : (p : Bytes) (w : h.World) → Allowed p → P w → P (h.rmdir p w).1
  pub remove_at : (p : Bytes) (w : h.World) → Allowed p → P w → P (h.remove p w).1
  pub rename_at : (p q : Bytes) (w : h.World) → Allowed p → Allowed q → P w → P (h.rename p q w).1
  pub read_dir_at : (p : Bytes) (w : h.World) → Allowed p → P w → P (h.read_dir p w).1
  pub open_read_at : (p : Bytes) (w : h.World) → Allowed p → P w → P (h.open_read p w).1
  pub fopen_at : (p : Bytes) (m : OpenMode) (w : h.World) → Allowed p → P w → P (h.fopen p m w).1
  pub fstat_size_at : (fd : ℕ) (w : h.World) → P w → P (h.fstat_size fd w).1
  pub send_file_at :
      (sock : SocketHandle) (fd offset count : ℕ) (w : h.World)
      → P w
      → P (h.send_file sock fd offset count w).1
  pub close_fd_at : (fd : ℕ) (w : h.World) → P w → P (h.close_fd fd w)
  pub fseek_at : (file offset : ℕ) (w : h.World) → P w → P (h.fseek file offset w)
  pub fread_at : (file n : ℕ) (w : h.World) → P w → P (h.fread file n w).1
  pub fwrite_at : (file : ℕ) (buf : Bytes) (w : h.World) → P w → P (h.fwrite file buf w)
  pub fclose_at : (file : ℕ) (w : h.World) → P w → P (h.fclose file w)
  pub socket_at : (w : h.World) → P w → P (h.socket w).1
  pub bind_at : (sock : SocketHandle) (port : ℕ) (w : h.World) → P w → P (h.bind sock port w).1
  pub listen_at : (sock : SocketHandle) (n : ℤ) (w : h.World) → P w → P (h.listen sock n w).1
  pub accept_at : (sock : SocketHandle) (w : h.World) → P w → P (h.accept sock w).1
  pub connect_at :
      (sock : SocketHandle) (ip : Bytes) (port : ℕ) (w : h.World)
      → P w
      → P (h.connect sock ip port w).1
  pub send_at : (sock : SocketHandle) (buf : Bytes) (w : h.World) → P w → P (h.send sock buf w).1
  pub recv_at : (sock : SocketHandle) (n : ℕ) (w : h.World) → P w → P (h.recv sock n w).1
  pub close_at : (sock : SocketHandle) (w : h.World) → P w → P (h.close sock w)
  pub local_port_at : (sock : SocketHandle) (w : h.World) → P w → P (h.local_port sock w).1
  pub set_sockopt_at :
      (sock : SocketHandle) (o : SockOpt) (w : h.World) → P w → P (h.set_sockopt sock o w)
  pub time_at : (w : h.World) → P w → P (h.time w).1
  pub clock_at : (w : h.World) → P w → P (h.clock w).1
  pub sleep_ms_at : (n : ℕ) (w : h.World) → P w → P (h.sleep_ms n w)

module _ (h : Host) (Allowed : Bytes → Type 0) (P : h.World → Type 0)
    (k : Survives h Allowed P) where
  open h use {World}

  pub managed_close-Safe : (sock : SocketHandle) (w : World) → P w → P (managed_close h sock w).1
  unfolding managed_close
  managed_close-Safe none w p = p
  managed_close-Safe (some fd) w p = k.close_at (some fd) w p

  pub connect_socket-Safe :
      (ip : Bytes) (port : ℤ) (w : World) → P w → P (connect_socket h ip port w).1
  unfolding connect_socket
  connect_socket-Safe ip port w p =
      let connected = k.connect_at (h.socket w).0 ip _ _ (k.socket_at w p) in
      if_both {A = SocketHandle × World} (λ r. P r.1)
        (h.connect (h.socket w).0 ip (to_uint16 port) (h.socket w).1).0 connected
        (k.close_at (h.socket w).0 _ connected)

  -- `stat` is asked only below the directory.
  pub list_entries-Safe :
      (path : Bytes) (names : List Bytes) (w : World)
      → ((name : Bytes) → Allowed (path ++ b'/' ∷ name))
      → P w
      → P (list_entries h path names w).1
  unfolding list_entries
  list_entries-Safe path [] w a p = p
  list_entries-Safe path (name ∷ names) w a p =
      elim (Bool-cases (bytes_eq name (bytes ".") || bytes_eq name (bytes ".."))) [
        | inl dots ↦ rw (dots, list_entries) (list_entries-Safe path names w a p)
        | inr entry ↦
            rw (entry, list_entries)
              (list_entries-Safe path names (h.stat (path ++ b'/' ∷ name) w).1 a
                (k.stat_at _ w (a name) p))
      ]

  pub list_directory-Safe :
      (path : Bytes) (w : World)
      → Allowed path
      → ((name : Bytes) → Allowed (path ++ b'/' ∷ name))
      → P w
      → P (list_directory h path w).1
  unfolding list_directory
  list_directory-Safe path w here below p = on_dir (h.read_dir path w).0
    where
      listed : P (h.read_dir path w).1
      listed = k.read_dir_at path w here p

      on_dir :
          (dir : Option (List Bytes))
          → P
              (elim dir as (λ _. List FileInfo × World) [
                | none ↦ ([], (h.read_dir path w).1)
                | some names ↦ list_entries h path names (h.read_dir path w).1
              ]).1
      on_dir none = listed
      on_dir (some names) = list_entries-Safe path names _ below listed

  pub transmit_file-Safe :
      (sock : SocketHandle) (path : Bytes) (offset : ℕ) (w : World)
      → Allowed path
      → P w
      → P (transmit_file h sock path offset w).1
  unfolding transmit_file
  transmit_file-Safe sock path offset w a p = on_open (h.open_read path w).0
    where
      opened : P (h.open_read path w).1
      opened = k.open_read_at path w a p

      on_open :
          (fd : Option ℕ)
          → P
              (elim fd as (λ _. (Bool × ℕ) × World) [
                | none ↦ ((false, 0), (h.open_read path w).1)
                | some n ↦ transmit_opened h sock n offset (h.open_read path w).1
              ]).1
      on_open none = opened
      on_open (some fd) = k.close_fd_at fd _ (
          if_both {A = Option ℕ × World} (λ r. P r.1) (ltb offset (2 ^ 63))
            (k.send_file_at sock fd offset _ _ (k.fstat_size_at fd _ opened))
            (k.fstat_size_at fd _ opened))
