-- ===== src/Legacy/Commands.antt =====
-- server/main.cpp: handleClient, the commands without a data connection.
use nexus_ftp_engine.Prelude.{
  ◌/◌, ◌%◌, Bool, true, false, ◌&&◌, none, some, [], ◌∷◌, ◌++◌, take, ◌==◌, if◌then◌else◌,
}
use nexus_ftp_engine.Bytes.{Bytes, bytes, bytes_eq, is_empty, find_last_if}
use nexus_ftp_engine.Bytes.Decimal.{to_string}
use nexus_ftp_engine.Platform.{Host}
use nexus_ftp_engine.DataChannel.PortCommand.{ok, thrown, undefined, parse_port_command}
use nexus_ftp_engine.Session.{Flow, leave, raised}
use nexus_ftp_engine.Legacy.{
  Client, valid_user, valid_pass, root_dir, path_of, send_reply, answer, close_if_valid,
  drop_passive, open_passive_socket,
}

module _ (h : Host) where
  open h use {World}

  unfoldable pub handle_user : Bytes → Client World → Flow (Client World)
  handle_user argument s =
      answer h (bytes "331 Password required for " ++ argument)
        (record s { current_user = argument })

  unfoldable pub handle_pass : Bytes → Client World → Flow (Client World)
  handle_pass argument s =
      if bytes_eq s.current_user valid_user && bytes_eq argument valid_pass
      then answer h (bytes "230 Login successful") (record s { logged_in = true })
      else answer h (bytes "530 Login incorrect") s

  unfoldable pub handle_quit : Client World → Flow (Client World)
  handle_quit s = leave (send_reply h (bytes "221 Goodbye") s)

  unfoldable pub handle_pwd : Client World → Flow (Client World)
  handle_pwd s = answer h (bytes "257 \"" ++ s.current_dir ++ bytes "\" is current directory") s

  unfoldable pub handle_cwd : Bytes → Client World → Flow (Client World)
  handle_cwd argument s0 =
      let new_dir = path_of s0 argument in
      let (attr, w) = h.stat new_dir s0.world in
      let s = record s0 { world = w } in
      let found : Bool = elim attr [ none ↦ false | some st ↦ st.is_dir ] in
      if found
      then answer h (bytes "250 Directory changed to " ++ new_dir)
          (record s { current_dir = new_dir })
      else answer h (bytes "550 Directory not found") s

  -- The directory that CDUP goes to.
  unfoldable pub parent_of : Bytes → Bytes
  parent_of dir = elim (find_last_if (λ c. c == b'\\') dir) [
    | none ↦ dir
    | some p ↦ if bytes_eq dir root_dir then dir else take p dir
  ]

  unfoldable pub handle_cdup : Client World → Flow (Client World)
  unfolding parent_of
  handle_cdup s =
      answer h (bytes "250 Directory changed to " ++ parent_of s.current_dir)
        (record s { current_dir = parent_of s.current_dir })

  unfoldable pub handle_pasv : Client World → Flow (Client World)
  handle_pasv s =
      let (port, sock, w) = open_passive_socket h (close_if_valid h s.passive_socket s.world) in
      answer h
        (bytes "227 Entering Passive Mode (127,0,0,1,"
          ++ to_string (port / 256)
          ++ b',' ∷ to_string (port % 256)
          ++ bytes ")")
        (record s { passive_socket = sock; use_passive = true; world = w })

  -- parsePort has the loop and the index of parsePortCommand.
  unfoldable pub handle_port : Bytes → Client World → Flow (Client World)
  handle_port argument s = elim (parse_port_command argument) [
    | thrown ↦ raised s
    | undefined ↦ Flow.undefined
    | ok (ip, port) ↦
        answer h (bytes "200 PORT command successful")
          (drop_passive h (record s { active_ip = ip; active_port = port; use_passive = false }))
  ]

  unfoldable pub handle_dele : Bytes → Client World → Flow (Client World)
  handle_dele argument s =
      let (deleted, w) = h.remove (path_of s argument) s.world in
      if deleted
      then answer h (bytes "250 File deleted successfully") (record s { world = w })
      else answer h (bytes "550 Could not delete file") (record s { world = w })

  unfoldable pub handle_mkd : Bytes → Client World → Flow (Client World)
  handle_mkd argument s =
      let (created, w) = h.mkdir (path_of s argument) s.world in
      if created
      then answer h (bytes "257 \"" ++ path_of s argument ++ bytes "\" directory created")
          (record s { world = w })
      else answer h (bytes "550 Could not create directory") (record s { world = w })

  unfoldable pub handle_rmd : Bytes → Client World → Flow (Client World)
  handle_rmd argument s =
      let (removed, w) = h.rmdir (path_of s argument) s.world in
      if removed
      then answer h (bytes "250 Directory removed successfully") (record s { world = w })
      else answer h (bytes "550 Could not remove directory") (record s { world = w })

  unfoldable pub handle_rnfr : Bytes → Client World → Flow (Client World)
  handle_rnfr argument s =
      let (attr, w) = h.stat (path_of s argument) s.world in
      elim attr [
        | none ↦ answer h (bytes "550 File not found") (record s { world = w })
        | some st ↦
            answer h (bytes "350 Ready for destination name")
              (record s { world = w; rename_from = path_of s argument })
      ]

  unfoldable pub handle_rnto : Bytes → Client World → Flow (Client World)
  handle_rnto argument s =
      let (moved, w) = h.rename s.rename_from (path_of s argument) s.world in
      let reply =
        if moved
        then bytes "250 File renamed successfully"
        else bytes "550 Could not rename file" in
      if is_empty s.rename_from
      then answer h (bytes "503 Send RNFR first") s
      else answer h reply (record s { rename_from = []; world = w })
