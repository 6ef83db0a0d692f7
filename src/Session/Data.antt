-- ===== src/Session/Data.antt =====
-- src/server/session.cpp: PASV, PORT, LIST, NLST, RETR and STOR.
use nexus_ftp_engine.Prelude.{
  ℕ, ◌-◌, Option, none, some, List, [], ◌∷◌, ◌++◌, length, take, replicate, if◌then◌else◌,
}
use nexus_ftp_engine.Prelude.Int.{ℤ, pos, ltb_ℤ}
use nexus_ftp_engine.Bytes.{Bytes, bytes}
use nexus_ftp_engine.Bytes.Decimal.{to_string}
use nexus_ftp_engine.Platform.{Host, FileInfo, SocketHandle}
use nexus_ftp_engine.Platform.Sockets.{send_data, managed_close}
use nexus_ftp_engine.Platform.Files.{list_directory}
use nexus_ftp_engine.DataChannel.{
  DataChannel, enter_passive, pasv_response, enter_active, open_data,
}
use nexus_ftp_engine.DataChannel.PortCommand.{ok, thrown, undefined, parse_port_command}
use nexus_ftp_engine.Transfer.{TransferResult}
use nexus_ftp_engine.Transfer.Limiter.{RateLimiter}
use nexus_ftp_engine.Transfer.Send.{send_file}
use nexus_ftp_engine.Transfer.Receive.{recv_file}
use nexus_ftp_engine.Session.{
  ready, transferring, Sys, Flow, next, raised, out_of_fuel, add_u64, set_state, set_world,
}
use nexus_ftp_engine.Session.Directories.{is_missing}
use nexus_ftp_engine.Session.Reply.{send_reply, answer, crlf, with_filename}

-- snprintf's %10llu
unfoldable pub right_aligned : ℕ → ℕ → Bytes
right_aligned width n = replicate (width - length (to_string n)) b' ' ++ to_string n

-- A line of LIST: snprintf keeps 511 bytes of it.
unfoldable pub list_line : FileInfo → Bytes
unfolding right_aligned
list_line e = take 511 (
    (if e.is_directory then bytes "drwxr-xr-x" else bytes "-rw-r--r--")
    ++ bytes " 1 owner group "
    ++ right_aligned 10 (if e.is_directory then 0 else e.size)
    ++ bytes " Jan  1 00:00 "
    ++ e.name
    ++ crlf)

unfoldable pub list_text : List FileInfo → Bytes
unfolding list_line
list_text [] = []
list_text (e ∷ entries) = list_line e ++ list_text entries

unfoldable pub name_text : List FileInfo → Bytes
name_text [] = []
name_text (e ∷ entries) = e.name ++ crlf ++ name_text entries

-- The speed that a reply quotes.
abbrev pub speed_text : Host → TransferResult → Bytes
speed_text h res =
    bytes " bytes @ " ++ to_string (h.speed_kbps res.bytes res.seconds) ++ bytes " KB/s)."

module _ (h : Host) where
  open h use {World}

  abbrev pub set_channel : DataChannel → World → Sys World → Sys World
  set_channel d w s = record s { session = record s.session { data_channel = d }; world = w }

  unfoldable pub handle_pasv : Sys World → Flow (Sys World)
  handle_pasv s =
      let (port, d, w) = enter_passive h s.session.data_channel s.world in
      elim port [
        | none ↦ answer h (bytes "425 Cannot enter passive mode") (set_channel d w s)
        | some p ↦ answer h (pasv_response d) (set_channel d w s)
      ]

  -- handlePort for a parsed argument.
  unfoldable pub use_port : Bytes → ℤ → Sys World → Flow (Sys World)
  use_port ip port s =
      let (d, w) = enter_active h ip port s.session.data_channel s.world in
      if ltb_ℤ port (pos 1024)
      then answer h (bytes "504 PORT to privileged port rejected") s
      else answer h (bytes "200 PORT command successful") (set_channel d w s)

  -- The exceptions of std::stoi leave the handler.
  unfoldable pub handle_port : Bytes → Sys World → Flow (Sys World)
  unfolding use_port
  handle_port arg s = elim (parse_port_command arg) [
    | ok (ip, port) ↦ use_port ip port s
    | thrown ↦ raised s
    | undefined ↦ Flow.undefined
  ]

  -- The reply 150, and the data connection or the reply 425.
  unfoldable pub with_data :
      Bytes → (SocketHandle → Sys World → Flow (Sys World)) → Sys World → Flow (Sys World)
  with_data opening k s0 =
      let s = send_reply h opening s0 in
      let (ds, d, w) = open_data h s.session.data_channel s.world in
      elim ds [
        | none ↦ answer h (bytes "425 Cannot open data connection") (set_channel d w s)
        | some fd ↦ k (some fd) (set_state transferring (set_channel d w s))
      ]

  -- The destructor of the data socket, when a handler returns.
  abbrev pub close_data : SocketHandle → Sys World → Sys World
  close_data ds s = let (closed_socket, w) = managed_close h ds s.world in set_world w s

  -- What LIST and NLST do with a connection, for the text of the entries.
  unfoldable pub send_listing :
      (List FileInfo → Bytes) → Bytes → SocketHandle → Sys World → Flow (Sys World)
  send_listing text done ds s =
      let (entries, w1) = list_directory h s.session.current_dir s.world in
      let (sent, w2) = send_data h ds (text entries) w1 in
      next (close_data ds (send_reply h done (set_state ready (set_world w2 s))))

  unfoldable pub handle_list : Sys World → Flow (Sys World)
  unfolding send_listing
  handle_list =
      with_data (bytes "150 Opening data connection for LIST")
        (send_listing list_text (bytes "226 Directory listing complete."))

  unfoldable pub handle_nlst : Sys World → Flow (Sys World)
  unfolding send_listing
  handle_nlst =
      with_data (bytes "150 Opening data connection for NLST")
        (send_listing name_text (bytes "226 Name listing complete."))

  -- The counters and the state after a transfer.
  unfoldable pub count_transfer : TransferResult → Sys World → Sys World
  count_transfer res s = record s {
    session = record s.session {
      bytes_transferred = add_u64 s.session.bytes_transferred res.bytes;
      state = ready;
    };
    ctx = record s.ctx {
      total_bytes_transferred = add_u64 s.ctx.total_bytes_transferred res.bytes;
    };
  }

  -- What a transfer leaves: the limiter, the world, and the offset reset.
  abbrev pub after_transfer : RateLimiter → World → Sys World → Sys World
  after_transfer l w s = record s {
    session = record s.session { rate_limiter = l; restart_offset = 0 };
    world = w;
  }

  -- What follows TransferEngine::sendFile in handleRetr.
  unfoldable pub retrieved :
      SocketHandle → Sys World → Option (TransferResult × RateLimiter × World) → Flow (Sys World)
  unfolding count_transfer
  retrieved ds s none = out_of_fuel
  retrieved ds s (some (res, l, w)) =
      let s1 = count_transfer res (after_transfer l w s) in
      let reply =
        (if res.ok
          then bytes "226 Transfer complete (" ++ to_string res.bytes ++ speed_text h res
          else bytes "426 Transfer aborted.") in
      next (close_data ds (send_reply h reply s1))

  -- What follows TransferEngine::recvFile in handleStor.
  unfoldable pub stored :
      SocketHandle → Sys World → Option (TransferResult × RateLimiter × World) → Flow (Sys World)
  unfolding count_transfer
  stored ds s none = out_of_fuel
  stored ds s (some (res, l, w)) =
      let s1 = after_transfer l w s in
      let refusal = bytes "552 Exceeded storage allocation. Upload aborted." in
      let reply =
        (if res.ok
          then bytes "226 Upload complete (" ++ to_string res.bytes ++ speed_text h res
          else bytes "426 Upload failed.") in
      if res.rate_limit_hit
      then next (close_data ds (set_state ready (send_reply h refusal s1)))
      else next (close_data ds (send_reply h reply (count_transfer res s1)))

  module _ (fuel : ℕ) where
    unfoldable pub retrieve : Bytes → SocketHandle → Sys World → Flow (Sys World)
    unfolding retrieved
    retrieve path ds s =
        retrieved ds s
          (send_file h fuel ds path s.session.restart_offset s.session.rate_limiter s.world)

    -- handleRetr for a resolved path within the root.
    unfoldable pub retrieve_path : Bytes → Bytes → Sys World → Flow (Sys World)
    unfolding retrieve
    retrieve_path arg path s =
        let (missing, w) = is_missing h path s.world in
        if missing
        then answer h (bytes "550 File not found: " ++ arg) (set_world w s)
        else with_data (bytes "150 Opening data connection for RETR") (retrieve path)
            (set_world w s)

    unfoldable pub handle_retr : Bytes → Sys World → Flow (Sys World)
    unfolding retrieve_path
    handle_retr arg = with_filename h arg (retrieve_path arg)

    unfoldable pub store_file : Bytes → SocketHandle → Sys World → Flow (Sys World)
    unfolding stored
    store_file path ds s = stored ds s (
        recv_file h fuel ds path s.session.restart_offset s.session.rate_limiter
          s.ctx.max_file_size_bytes s.world)

    unfoldable pub handle_stor : Bytes → Sys World → Flow (Sys World)
    unfolding store_file
    handle_stor arg =
        with_filename h arg
          (λ path. with_data (bytes "150 Opening data connection for STOR") (store_file path))
