-- ===== src/Session/Loop.antt =====
-- src/server/session.cpp: Session::run.
use nexus_ftp_engine.Prelude.{
  ℕ, zero, suc, Bool, true, false, ◌||◌, none, some, [], ◌∷◌, ◌++◌, map, length, take, drop, ltb,
  ◌==◌, if◌then◌else◌,
}
use nexus_ftp_engine.Bytes.{Bytes, bytes, bytes_eq, is_empty, find, to_upper}
use nexus_ftp_engine.Platform.{Host}
use nexus_ftp_engine.Session.{
  SessionState, wait_user, ready, transferring, closed, Sys, Flow, next, leave, raised, out_of_fuel,
  dec, set_state,
}
use nexus_ftp_engine.Session.Reply.{send_reply, answer, recv_command}
use nexus_ftp_engine.Session.Access.{
  handle_user, handle_pass, handle_quit, handle_syst, handle_type, handle_feat,
}
use nexus_ftp_engine.Session.Directories.{
  handle_pwd, handle_cwd, handle_cdup, handle_size, handle_mdtm, handle_mkd, handle_rmd,
}
use nexus_ftp_engine.Session.Files.{handle_dele, handle_rnfr, handle_rnto, handle_rest}
use nexus_ftp_engine.Session.Data.{
  handle_pasv, handle_port, handle_list, handle_nlst, handle_retr, handle_stor,
}

-- The trailing CR and LF of cleanCommand's loop.
unfoldable pub strip_crlf : Bytes → Bytes
strip_crlf [] = []
strip_crlf (c ∷ s) = elim (strip_crlf s) [
  | [] ↦ if c == 13 || c == 10 then [] else c ∷ []
  | d ∷ t ↦ c ∷ d ∷ t
]

unfoldable pub skip_blanks : Bytes → Bytes
skip_blanks [] = []
skip_blanks (c ∷ s) = if c == b' ' || c == 9 then skip_blanks s else c ∷ s

-- Session::cleanCommand
unfoldable pub clean_command : Bytes → Bytes
unfolding strip_crlf skip_blanks
clean_command cmd = skip_blanks (strip_crlf cmd)

-- The verb, in upper case, and the argument behind the first space.
unfoldable pub split_command : Bytes → Bytes × Bytes
split_command cmd = elim (find b' ' cmd) [
  | none ↦ (map to_upper cmd, [])
  | some sp ↦ (map to_upper (take sp cmd), drop (suc sp) cmd)
]

-- The verbs that run compares with.
pub data Verb : Type 0 where
  user pass quit opts noop feat : Verb
  syst type pwd cwd cdup pasv port list nlst retr stor rest dele mkd rmd rnfr rnto size mdtm : Verb
  other : Bytes → Verb

unfoldable pub verb_of : Bytes → Verb
verb_of v =
    if bytes_eq v (bytes "USER")
    then Verb.user
    else if bytes_eq v (bytes "PASS")
    then Verb.pass
    else if bytes_eq v (bytes "QUIT")
    then Verb.quit
    else if bytes_eq v (bytes "OPTS")
    then Verb.opts
    else if bytes_eq v (bytes "NOOP")
    then Verb.noop
    else if bytes_eq v (bytes "FEAT")
    then Verb.feat
    else if bytes_eq v (bytes "SYST")
    then Verb.syst
    else if bytes_eq v (bytes "TYPE")
    then Verb.type
    else if bytes_eq v (bytes "PWD")
    then Verb.pwd
    else if bytes_eq v (bytes "CWD")
    then Verb.cwd
    else if bytes_eq v (bytes "CDUP")
    then Verb.cdup
    else if bytes_eq v (bytes "PASV")
    then Verb.pasv
    else if bytes_eq v (bytes "PORT")
    then Verb.port
    else if bytes_eq v (bytes "LIST")
    then Verb.list
    else if bytes_eq v (bytes "NLST")
    then Verb.nlst
    else if bytes_eq v (bytes "RETR")
    then Verb.retr
    else if bytes_eq v (bytes "STOR")
    then Verb.stor
    else if bytes_eq v (bytes "REST")
    then Verb.rest
    else if bytes_eq v (bytes "DELE")
    then Verb.dele
    else if bytes_eq v (bytes "MKD")
    then Verb.mkd
    else if bytes_eq v (bytes "RMD")
    then Verb.rmd
    else if bytes_eq v (bytes "RNFR")
    then Verb.rnfr
    else if bytes_eq v (bytes "RNTO")
    then Verb.rnto
    else if bytes_eq v (bytes "SIZE")
    then Verb.size
    else if bytes_eq v (bytes "MDTM")
    then Verb.mdtm
    else Verb.other v

-- The auth guard lets these states through.
abbrev pub is_logged_in : SessionState → Bool
is_logged_in ready = true
is_logged_in transferring = true
is_logged_in _ = false

abbrev pub is_closed : SessionState → Bool
is_closed closed = true
is_closed _ = false

module _ (h : Host) (fuel : ℕ) where
  open h use {World}

  -- The chain of `else if` behind the auth guard.
  unfoldable pub dispatch : Verb → Bytes → Sys World → Flow (Sys World)
  dispatch Verb.syst arg s = handle_syst h s
  dispatch Verb.type arg s = handle_type h arg s
  dispatch Verb.pwd arg s = handle_pwd h s
  dispatch Verb.cwd arg s = handle_cwd h arg s
  dispatch Verb.cdup arg s = handle_cdup h s
  dispatch Verb.pasv arg s = handle_pasv h s
  dispatch Verb.port arg s = handle_port h arg s
  dispatch Verb.list arg s = handle_list h s
  dispatch Verb.nlst arg s = handle_nlst h s
  dispatch Verb.retr arg s = handle_retr h fuel arg s
  dispatch Verb.stor arg s = handle_stor h fuel arg s
  dispatch Verb.rest arg s = handle_rest h arg s
  dispatch Verb.dele arg s = handle_dele h arg s
  dispatch Verb.mkd arg s = handle_mkd h arg s
  dispatch Verb.rmd arg s = handle_rmd h arg s
  dispatch Verb.rnfr arg s = handle_rnfr h arg s
  dispatch Verb.rnto arg s = handle_rnto h arg s
  dispatch Verb.size arg s = handle_size h arg s
  dispatch Verb.mdtm arg s = handle_mdtm h arg s
  dispatch (Verb.other v) arg s = answer h (bytes "502 Command not implemented: " ++ v) s
  dispatch _ arg s = next s

  -- The auth guard.
  unfoldable pub guarded : Verb → Bytes → Sys World → Flow (Sys World)
  unfolding dispatch
  guarded v arg s =
      if is_logged_in s.session.state
      then dispatch v arg s
      else answer h (bytes "530 Please login first") s

  -- The commands that need no login stand before the guard.
  unfoldable pub execute : Verb → Bytes → Sys World → Flow (Sys World)
  unfolding guarded
  execute Verb.user arg s = handle_user h arg s
  execute Verb.pass arg s = handle_pass h arg s
  execute Verb.quit arg s = handle_quit h s
  execute Verb.opts arg s = answer h (bytes "200 OK") s
  execute Verb.noop arg s = answer h (bytes "200 OK") s
  execute Verb.feat arg s = handle_feat h s
  execute v arg s = guarded v arg s

  -- A turn of the loop for what recvCommand returned.
  unfoldable pub on_command : Bytes → Sys World → Flow (Sys World)
  on_command raw s =
      let cmd = clean_command raw in
      let (verb, argument) = split_command cmd in
      if is_empty raw
      then leave s
      else if ltb 512 (length raw)
      then answer h (bytes "500 Command too long") s
      else if is_empty cmd
      then next s
      else execute (verb_of verb) argument s

  unfoldable pub turn : Sys World → Flow (Sys World)
  unfolding on_command
  turn s = let (raw, s1) = recv_command h s in on_command raw s1

  -- What follows the loop.
  unfoldable pub end_session : Sys World → Sys World
  end_session s = record s {
    session = record s.session { state = closed };
    ctx = record s.ctx { active_connections = dec s.ctx.active_connections };
  }

  -- What the loop does after a turn: an exception skips what follows the loop.
  unfoldable pub continue : (Sys World → Flow (Sys World)) → Flow (Sys World) → Flow (Sys World)
  continue go_on (next s) = go_on s
  continue go_on (leave s) = leave (end_session s)
  continue go_on (raised s) = raised s
  continue go_on Flow.undefined = Flow.undefined
  continue go_on out_of_fuel = out_of_fuel

  -- The loop, for at most `turns` commands.
  unfoldable pub run_loop : ℕ → Sys World → Flow (Sys World)
  unfolding continue end_session
  run_loop zero s = out_of_fuel
  run_loop (suc turns) s =
      let go_on = run_loop turns in
      if is_closed s.session.state then leave (end_session s) else continue go_on (turn s)

  -- Session::run
  unfoldable pub run : ℕ → Sys World → Flow (Sys World)
  unfolding run_loop
  run turns s =
      run_loop turns (set_state wait_user (send_reply h (bytes "220 FTP Server v2.0 ready.") s))
