-- ===== src/Session/Files.antt =====
-- src/server/session.cpp: DELE, RNFR, RNTO and REST.
use nexus_ftp_engine.Prelude.{
  ℕ, ◌+◌, ◌-◌, ◌*◌, ◌%◌, ◌^◌, Option, none, some, [], ◌∷◌, ◌++◌, not, if◌then◌else◌,
}
use nexus_ftp_engine.Bytes.{Bytes, bytes, is_empty, is_digit}
use nexus_ftp_engine.Bytes.Decimal.{to_string}
use nexus_ftp_engine.Platform.{Host}
use nexus_ftp_engine.Platform.Files.{delete_file, path_exists, rename_file}
use nexus_ftp_engine.Session.{Sys, Flow, next, set_world}
use nexus_ftp_engine.Session.Reply.{send_reply, answer, with_filename}

-- The loop of handleRest, in uint64_t; `none` is `valid = false`.
unfoldable pub parse_offset : ℕ → Bytes → Option ℕ
unfolding is_digit
parse_offset offset [] = some offset
parse_offset offset (c ∷ arg) =
    let rest = parse_offset ((offset * 10 + (c - b'0')) % 2 ^ 64) arg in
    if not (is_digit c) then none else rest

module _ (h : Host) where
  open h use {World}

  unfoldable pub remove_file : Bytes → Sys World → Flow (Sys World)
  remove_file p s =
      let (deleted, w) = delete_file h p s.world in
      if deleted
      then answer h (bytes "250 File deleted.") (set_world w s)
      else answer h (bytes "550 Could not delete file.") (set_world w s)

  unfoldable pub handle_dele : Bytes → Sys World → Flow (Sys World)
  unfolding remove_file
  handle_dele arg = with_filename h arg remove_file

  unfoldable pub note_rename : Bytes → Sys World → Flow (Sys World)
  note_rename p s =
      let (exists, w) = path_exists h p s.world in
      if exists
      then answer h (bytes "350 Ready for destination name.")
          (record s { session = record s.session { rename_from = p }; world = w })
      else answer h (bytes "550 File not found.") (set_world w s)

  unfoldable pub handle_rnfr : Bytes → Sys World → Flow (Sys World)
  unfolding note_rename
  handle_rnfr arg = with_filename h arg note_rename

  -- renameFrom_.clear() follows either reply.
  abbrev pub clear_rename : Sys World → Sys World
  clear_rename s = record s { session = record s.session { rename_from = [] } }

  unfoldable pub rename_to : Bytes → Sys World → Flow (Sys World)
  rename_to p s =
      let (renamed, w) = rename_file h s.session.rename_from p s.world in
      if renamed
      then next (clear_rename (send_reply h (bytes "250 File renamed.") (set_world w s)))
      else next (clear_rename (send_reply h (bytes "550 Could not rename.") (set_world w s)))

  unfoldable pub handle_rnto : Bytes → Sys World → Flow (Sys World)
  unfolding rename_to
  handle_rnto arg s =
      if is_empty s.session.rename_from
      then answer h (bytes "503 Send RNFR first") s
      else with_filename h arg rename_to s

  -- The reply to REST for the offset that was read.
  unfoldable pub restart_at : Sys World → Option ℕ → Flow (Sys World)
  restart_at s none = answer h (bytes "501 Invalid offset") s
  restart_at s (some offset) =
      answer h (bytes "350 Restarting at " ++ to_string offset ++ bytes ". Send RETR or STOR.")
        (record s { session = record s.session { restart_offset = offset } })

  unfoldable pub handle_rest : Bytes → Sys World → Flow (Sys World)
  unfolding restart_at
  handle_rest arg s =
      if is_empty arg
      then answer h (bytes "501 Offset required") s
      else restart_at s (parse_offset 0 arg)
