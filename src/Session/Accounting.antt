-- ===== src/Session/Accounting.antt =====
-- src/server/session.cpp: the bytes that a session and the server count.
use nexus_ftp_engine.Prelude.{ℕ, ◌+◌, ◌%◌, ◌^◌, ◌≡◌, arith}
use nexus_ftp_engine.Bytes.{Bytes}
use nexus_ftp_engine.Platform.{Host}
use nexus_ftp_engine.Session.{Sys, add_u64}
use nexus_ftp_engine.Session.Flows.{FlowAll}
use nexus_ftp_engine.Session.Reply.{send_reply, recv_command, with_filename}
use nexus_ftp_engine.Session.Access.{
  handle_user, handle_pass, handle_quit, handle_syst, handle_type, handle_feat,
}
use nexus_ftp_engine.Session.Directories.{
  handle_pwd, handle_cwd, handle_cdup, handle_size, handle_mdtm, handle_mkd, handle_rmd,
}
use nexus_ftp_engine.Session.Files.{handle_dele, handle_rnfr, handle_rnto, handle_rest}
use nexus_ftp_engine.Session.Data.{
  with_data, handle_pasv, handle_port, handle_list, handle_nlst, handle_retr, handle_stor,
}
use nexus_ftp_engine.Session.Loop.{
  Verb, dispatch, execute, verb_of, split_command, clean_command, on_command, turn,
}

-- What the server counted grew by what the session counted, in uint64_t.
abbrev pub Balanced : {W : Type 0} → Sys W → Sys W → Type 0
Balanced s t =
    (t.ctx.total_bytes_transferred + s.session.bytes_transferred) % 2 ^ 64
    ≡ (s.ctx.total_bytes_transferred + t.session.bytes_transferred) % 2 ^ 64

module _ (h : Host) where
  open h use {World}

  dispatch-Balanced :
      (fuel : ℕ) (v : Verb) (arg : Bytes) (s : Sys World)
      → FlowAll (Balanced s) (dispatch h fuel v arg s)
  unfolding dispatch handle_syst handle_type handle_pwd handle_cwd handle_cdup handle_pasv
      handle_port handle_list handle_nlst handle_retr handle_stor handle_rest handle_dele handle_mkd
      handle_rmd handle_rnfr handle_rnto handle_size handle_mdtm send_reply with_filename with_data
      add_u64
  dispatch-Balanced fuel Verb.syst arg s = ground arith
  dispatch-Balanced fuel _ arg s = ground arith

  execute-Balanced :
      (fuel : ℕ) (v : Verb) (arg : Bytes) (s : Sys World)
      → FlowAll (Balanced s) (execute h fuel v arg s)
  unfolding execute handle_user handle_pass handle_quit handle_feat send_reply
  execute-Balanced fuel Verb.user arg s = ground arith
  execute-Balanced fuel v arg s = ground (arith, dispatch-Balanced fuel v arg s)

  on_command-Balanced :
      (fuel : ℕ) (raw : Bytes) (s : Sys World) → FlowAll (Balanced s) (on_command h fuel raw s)
  unfolding on_command send_reply
  on_command-Balanced fuel raw s = ground (
    arith,
    execute-Balanced fuel (verb_of (split_command (clean_command raw)).0)
        (split_command (clean_command raw)).1 s,
  )

  -- In every turn of the loop, whatever the command and however it ends, the server's count of bytes
  -- grows by as much as the session's, modulo 2 ^ 64.
  pub turn-Balanced : (fuel : ℕ) (s : Sys World) → FlowAll (Balanced s) (turn h fuel s)
  unfolding turn recv_command
  turn-Balanced fuel s = on_command-Balanced fuel (recv_command h s).0 (recv_command h s).1
