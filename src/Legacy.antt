-- ===== src/Legacy.antt =====
-- server/main.cpp: the state of a client of the single-file server, and the helpers. GetFileAttributes,
-- DeleteFile, CreateDirectory, RemoveDirectory and MoveFile are the host's stat, remove, mkdir, rmdir
-- and rename. What it prints is left out.
pub mod Commands
pub mod Transfers
pub mod Loop
pub mod Login
use nexus_ftp_engine.Prelude.{
  ℕ, ◌/◌, ◌%◌, Bool, true, false, ◌||◌, Option, none, some, List, [], ◌∷◌, ◌++◌, if◌then◌else◌,
}
use nexus_ftp_engine.Prelude.Int.{ℤ, pos}
use nexus_ftp_engine.Bytes.{Bytes, bytes, bytes_eq}
use nexus_ftp_engine.Platform.{Host, SocketHandle}
use nexus_ftp_engine.Platform.Sockets.{send_data, close_socket, to_uint16}
use nexus_ftp_engine.Session.{Flow, next}
use nexus_ftp_engine.Session.Reply.{crlf}

abbrev pub valid_user : Bytes
valid_user = bytes "admin"

abbrev pub valid_pass : Bytes
valid_pass = bytes "1234"

abbrev pub root_dir : Bytes
root_dir = bytes "C:\\Users\\ASUS\\CODING\\ftp_project\\ftproot"

-- The local variables of handleClient, and the world.
pub record Client (W : Type 0) : Type 0 where
  pub client_socket : SocketHandle
  pub logged_in : Bool
  pub current_user : Bytes
  pub current_dir : Bytes
  pub rename_from : Bytes
  pub passive_socket : SocketHandle
  pub use_passive : Bool
  pub active_ip : Bytes
  pub active_port : ℤ
  pub world : W

-- currentDir + "\\" + argument
abbrev pub path_of : {W : Type 0} → Client W → Bytes → Bytes
path_of s argument = s.current_dir ++ b'\\' ∷ argument

-- An entry of a listing; those of "." and ".." are left out.
unfoldable pub listing_of : (Bytes → Bool → Bytes) → List (Bytes × Bool) → Bytes
listing_of line [] = []
listing_of line ((name, is_dir) ∷ entries) =
    let rest = listing_of line entries in
    if bytes_eq name (bytes ".") || bytes_eq name (bytes "..")
    then rest
    else line name is_dir ++ rest

unfoldable pub directory_line : Bytes → Bool → Bytes
directory_line name is_dir = (if is_dir then bytes "<DIR>  " else bytes "       ") ++ name ++ crlf

module _ (h : Host) where
  open h use {World}

  -- sendReply
  unfoldable pub send_reply : Bytes → Client World → Client World
  send_reply reply s = record s { world = (send_data h s.client_socket (reply ++ crlf) s.world).1 }

  -- sendReply(...), and on to the next command.
  abbrev pub answer : Bytes → Client World → Flow (Client World)
  answer reply s = next (send_reply reply s)

  -- if (passiveSocket != INVALID_SOCKET) closesocket(passiveSocket)
  unfoldable pub close_if_valid : SocketHandle → World → World
  close_if_valid none w = w
  close_if_valid (some fd) w = close_socket h (some fd) w

  -- The same with `passiveSocket = INVALID_SOCKET`.
  unfoldable pub drop_passive : Client World → Client World
  unfolding close_if_valid
  drop_passive s = record s {
    passive_socket = none;
    world = close_if_valid s.passive_socket s.world;
  }

  -- openPassiveSocket: the port and the socket; the results of bind and listen are not looked at.
  unfoldable pub open_passive_socket : World → ℕ × SocketHandle × World
  open_passive_socket w =
      let (sock, w1) = h.socket w in
      let (bound, w2) = h.bind sock 0 w1 in
      let (listening, w3) = h.listen sock (pos 1) w2 in
      let (port, w4) = h.local_port sock w3 in (port, sock, w4)

  -- connectToClient
  unfoldable pub connect_to_client : Bytes → ℤ → World → SocketHandle × World
  connect_to_client ip port w =
      let (sock, w1) = h.socket w in
      let (connected, w2) = h.connect sock ip (to_uint16 port) w1 in
      if connected then (sock, w2) else (none, close_socket h sock w2)

  -- getDataSocket
  unfoldable pub get_data_socket : Client World → SocketHandle × World
  unfolding connect_to_client
  get_data_socket s =
      if s.use_passive
      then h.accept s.passive_socket s.world
      else connect_to_client s.active_ip s.active_port s.world

  -- getDirectoryListing
  unfoldable pub get_directory_listing : Bytes → World → Bytes × World
  unfolding listing_of directory_line
  get_directory_listing path w =
      let (found, w1) = h.find_files (path ++ bytes "\\*") w in
      (
        elim found [
          | none ↦ bytes "Error reading directory" ++ crlf
          | some entries ↦ listing_of directory_line entries
        ],
        w1,
      )

  -- getNameListing
  unfoldable pub get_name_listing : Bytes → World → Bytes × World
  unfolding listing_of
  get_name_listing path w =
      let (found, w1) = h.find_files (path ++ bytes "\\*") w in
      (
        elim found [ none ↦ [] | some entries ↦ listing_of (λ name is_dir. name ++ crlf) entries ],
        w1,
      )
