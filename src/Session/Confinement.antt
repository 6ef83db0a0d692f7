-- ===== src/Session/Confinement.antt =====
-- src/server/session.cpp: the current directory and the state, over the commands and the loop. That the
-- directory is confined means what isWithinRoot tests: its text begins with the root's, letters of
-- either case being the same. A text with ".." in it passes this test from wherever it leads.
use nexus_ftp_engine.Prelude.{
  ℕ, zero, suc, ◌≡◌, refl, Bool, true, false, [], arith, Bool-cases, inl, inr,
}
use nexus_ftp_engine.Bytes.{Bytes, bytes}
use nexus_ftp_engine.Platform.{Host, SocketHandle}
use nexus_ftp_engine.Session.{
  SessionState, transferring, Session, ServerContext, Sys, Flow, next, leave, raised, out_of_fuel,
}
use nexus_ftp_engine.Session.Paths.{is_within_root}
use nexus_ftp_engine.Session.Paths.Laws.{has_root_self}
use nexus_ftp_engine.Session.Flows.{FlowAll}
use nexus_ftp_engine.Session.Reply.{recv_command, send_reply, with_path, with_filename}
use nexus_ftp_engine.Session.Access.{
  home_dir, new_session, handle_user, handle_pass, handle_quit, handle_syst, handle_type,
  handle_feat,
}
use nexus_ftp_engine.Session.Directories.{
  handle_pwd, handle_cwd, handle_cdup, handle_size, handle_mdtm, handle_mkd, handle_rmd,
}
use nexus_ftp_engine.Session.Files.{handle_dele, handle_rnfr, handle_rnto, handle_rest}
use nexus_ftp_engine.Session.Data.{
  with_data, handle_pasv, handle_port, handle_list, handle_nlst, handle_retr, handle_stor,
}
use nexus_ftp_engine.Session.Loop.{
  Verb, is_logged_in, is_closed, dispatch, guarded, execute, verb_of, split_command, clean_command,
  on_command, turn, end_session, continue, run_loop, run,
}

abbrev pub is_transferring : SessionState → Bool
is_transferring transferring = true
is_transferring _ = false

pub record IsConfined (s : Session) : Type 0 where
  pub within : is_within_root s s.current_dir ≡ true
  pub settled : is_transferring s.state ≡ false

abbrev pub Confined : {W : Type 0} → Flow (Sys W) → Type 0
Confined f = FlowAll (λ t. IsConfined t.session) f

module _ (h : Host) where
  open h use {World}

  handle_user-IsConfined :
      (arg : Bytes) (s : Sys World) → IsConfined s.session → Confined (handle_user h arg s)
  unfolding handle_user send_reply is_within_root
  handle_user-IsConfined arg s c =
      ground (arith, has_root_self (home_dir s.ctx (bytes "anonymous")))

  handle_pwd-IsConfined : (s : Sys World) → IsConfined s.session → Confined (handle_pwd h s)
  unfolding handle_pwd send_reply
  handle_pwd-IsConfined s c = ground arith

  handle_cwd-IsConfined :
      (arg : Bytes) (s : Sys World) → IsConfined s.session → Confined (handle_cwd h arg s)
  unfolding handle_cwd with_path send_reply is_within_root
  handle_cwd-IsConfined arg s c = ground arith

  handle_pass-IsConfined :
      (arg : Bytes) (s : Sys World) → IsConfined s.session → Confined (handle_pass h arg s)
  unfolding handle_pass send_reply is_within_root
  handle_pass-IsConfined arg s c = ground (arith, has_root_self (home_dir s.ctx s.session.username))

  handle_cdup-IsConfined : (s : Sys World) → IsConfined s.session → Confined (handle_cdup h s)
  unfolding handle_cdup send_reply is_within_root
  handle_cdup-IsConfined s c = ground arith

  handle_size-IsConfined :
      (arg : Bytes) (s : Sys World) → IsConfined s.session → Confined (handle_size h arg s)
  unfolding handle_size send_reply with_filename
  handle_size-IsConfined arg s c = ground arith

  handle_mdtm-IsConfined :
      (arg : Bytes) (s : Sys World) → IsConfined s.session → Confined (handle_mdtm h arg s)
  unfolding handle_mdtm send_reply with_filename
  handle_mdtm-IsConfined arg s c = ground arith

  handle_mkd-IsConfined :
      (arg : Bytes) (s : Sys World) → IsConfined s.session → Confined (handle_mkd h arg s)
  unfolding handle_mkd send_reply with_filename
  handle_mkd-IsConfined arg s c = ground arith

  handle_rmd-IsConfined :
      (arg : Bytes) (s : Sys World) → IsConfined s.session → Confined (handle_rmd h arg s)
  unfolding handle_rmd send_reply with_filename
  handle_rmd-IsConfined arg s c = ground arith

  handle_dele-IsConfined :
      (arg : Bytes) (s : Sys World) → IsConfined s.session → Confined (handle_dele h arg s)
  unfolding handle_dele send_reply with_filename
  handle_dele-IsConfined arg s c = ground arith

  handle_rnfr-IsConfined :
      (arg : Bytes) (s : Sys World) → IsConfined s.session → Confined (handle_rnfr h arg s)
  unfolding handle_rnfr send_reply with_filename is_within_root
  handle_rnfr-IsConfined arg s c = ground arith

  handle_rnto-IsConfined :
      (arg : Bytes) (s : Sys World) → IsConfined s.session → Confined (handle_rnto h arg s)
  unfolding handle_rnto send_reply with_filename is_within_root
  handle_rnto-IsConfined arg s c = ground arith

  handle_rest-IsConfined :
      (arg : Bytes) (s : Sys World) → IsConfined s.session → Confined (handle_rest h arg s)
  unfolding handle_rest send_reply is_within_root
  handle_rest-IsConfined arg s c = ground arith

  handle_pasv-IsConfined : (s : Sys World) → IsConfined s.session → Confined (handle_pasv h s)
  unfolding handle_pasv send_reply is_within_root
  handle_pasv-IsConfined s c = ground arith

  handle_port-IsConfined :
      (arg : Bytes) (s : Sys World) → IsConfined s.session → Confined (handle_port h arg s)
  unfolding handle_port send_reply is_within_root
  handle_port-IsConfined arg s c = ground arith

  handle_list-IsConfined : (s : Sys World) → IsConfined s.session → Confined (handle_list h s)
  unfolding handle_list with_data send_reply is_within_root
  handle_list-IsConfined s c = ground arith

  handle_nlst-IsConfined : (s : Sys World) → IsConfined s.session → Confined (handle_nlst h s)
  unfolding handle_nlst with_data send_reply is_within_root
  handle_nlst-IsConfined s c = ground arith

  handle_retr-IsConfined :
      (fuel : ℕ) (arg : Bytes) (s : Sys World)
      → IsConfined s.session
      → Confined (handle_retr h fuel arg s)
  unfolding handle_retr with_data with_filename send_reply is_within_root
  handle_retr-IsConfined fuel arg s c = ground arith

  handle_stor-IsConfined :
      (fuel : ℕ) (arg : Bytes) (s : Sys World)
      → IsConfined s.session
      → Confined (handle_stor h fuel arg s)
  unfolding handle_stor with_data with_filename send_reply is_within_root
  handle_stor-IsConfined fuel arg s c = ground arith

  dispatch-IsConfined :
      (fuel : ℕ) (v : Verb) (arg : Bytes) (s : Sys World)
      → IsConfined s.session
      → Confined (dispatch h fuel v arg s)
  unfolding dispatch handle_syst handle_type send_reply is_within_root
  dispatch-IsConfined fuel Verb.pwd arg s c = handle_pwd-IsConfined s c
  dispatch-IsConfined fuel Verb.cwd arg s c = handle_cwd-IsConfined arg s c
  dispatch-IsConfined fuel Verb.cdup arg s c = handle_cdup-IsConfined s c
  dispatch-IsConfined fuel Verb.pasv arg s c = handle_pasv-IsConfined s c
  dispatch-IsConfined fuel Verb.port arg s c = handle_port-IsConfined arg s c
  dispatch-IsConfined fuel Verb.list arg s c = handle_list-IsConfined s c
  dispatch-IsConfined fuel Verb.nlst arg s c = handle_nlst-IsConfined s c
  dispatch-IsConfined fuel Verb.retr arg s c = handle_retr-IsConfined fuel arg s c
  dispatch-IsConfined fuel Verb.stor arg s c = handle_stor-IsConfined fuel arg s c
  dispatch-IsConfined fuel Verb.rest arg s c = handle_rest-IsConfined arg s c
  dispatch-IsConfined fuel Verb.dele arg s c = handle_dele-IsConfined arg s c
  dispatch-IsConfined fuel Verb.mkd arg s c = handle_mkd-IsConfined arg s c
  dispatch-IsConfined fuel Verb.rmd arg s c = handle_rmd-IsConfined arg s c
  dispatch-IsConfined fuel Verb.rnfr arg s c = handle_rnfr-IsConfined arg s c
  dispatch-IsConfined fuel Verb.rnto arg s c = handle_rnto-IsConfined arg s c
  dispatch-IsConfined fuel Verb.size arg s c = handle_size-IsConfined arg s c
  dispatch-IsConfined fuel Verb.mdtm arg s c = handle_mdtm-IsConfined arg s c
  dispatch-IsConfined fuel _ arg s c = record { within = c.within; settled = c.settled }

  guarded-IsConfined :
      (fuel : ℕ) (v : Verb) (arg : Bytes) (s : Sys World)
      → IsConfined s.session
      → Confined (guarded h fuel v arg s)
  unfolding guarded send_reply is_within_root
  guarded-IsConfined fuel v arg s c = elim (Bool-cases (is_logged_in s.session.state)) [
    | inl inside ↦ rw (inside, guarded) (dispatch-IsConfined fuel v arg s c)
    | inr outside ↦ rw (outside, guarded) (record { within = c.within; settled = c.settled })
  ]

  -- Every command, in every state and on every branch of its handler, leaves a current directory that
  -- passes isWithinRoot's comparison of texts with the user's root (which a path with ".." can pass and
  -- still lead out of the root), and the session outside of a transfer, if it began so.
  pub execute-IsConfined :
      (fuel : ℕ) (v : Verb) (arg : Bytes) (s : Sys World)
      → IsConfined s.session
      → Confined (execute h fuel v arg s)
  unfolding execute handle_quit handle_feat send_reply is_within_root
  execute-IsConfined fuel Verb.user arg s c = handle_user-IsConfined arg s c
  execute-IsConfined fuel Verb.pass arg s c = handle_pass-IsConfined arg s c
  execute-IsConfined fuel Verb.quit arg s c = record { within = c.within; settled = refl }
  execute-IsConfined fuel Verb.opts arg s c = record { within = c.within; settled = c.settled }
  execute-IsConfined fuel Verb.noop arg s c = record { within = c.within; settled = c.settled }
  execute-IsConfined fuel Verb.feat arg s c = record { within = c.within; settled = c.settled }
  execute-IsConfined fuel v arg s c = guarded-IsConfined fuel v arg s c

  on_command-IsConfined :
      (fuel : ℕ) (raw : Bytes) (s : Sys World)
      → IsConfined s.session
      → Confined (on_command h fuel raw s)
  unfolding on_command send_reply is_within_root
  on_command-IsConfined fuel raw s c = ground (
    arith,
    execute-IsConfined fuel (verb_of (split_command (clean_command raw)).0)
        (split_command (clean_command raw)).1 s c,
  )

  turn-IsConfined : (fuel : ℕ) (s : Sys World) → IsConfined s.session → Confined (turn h fuel s)
  unfolding turn recv_command is_within_root
  turn-IsConfined fuel s c =
      on_command-IsConfined fuel (recv_command h s).0 (recv_command h s).1
        (record { within = c.within; settled = c.settled })

  continue-IsConfined :
      (fuel : ℕ) (go_on : Sys World → Flow (Sys World)) (f : Flow (Sys World))
      → ((t : Sys World) → IsConfined t.session → Confined (go_on t))
      → Confined f
      → Confined (continue h fuel go_on f)
  unfolding continue end_session is_within_root
  continue-IsConfined fuel go_on (next s) keep c = keep s c
  continue-IsConfined fuel go_on (leave s) keep c = record { within = c.within; settled = refl }
  continue-IsConfined fuel go_on (raised s) keep c = c
  continue-IsConfined fuel go_on Flow.undefined keep c = tt
  continue-IsConfined fuel go_on out_of_fuel keep c = tt

  run_loop-IsConfined :
      (fuel turns : ℕ) (s : Sys World) → IsConfined s.session → Confined (run_loop h fuel turns s)
  unfolding run_loop is_within_root
  run_loop-IsConfined fuel zero s c = tt
  run_loop-IsConfined fuel (suc turns) s c = elim (Bool-cases (is_closed s.session.state)) [
    | inl over ↦ rw (over, run_loop) (record { within = c.within; settled = refl })
    | inr going ↦
        rw (going, run_loop)
          (continue-IsConfined fuel (run_loop h fuel turns) (turn h fuel s)
            (run_loop-IsConfined fuel turns) (turn-IsConfined fuel s c))
  ]

  -- A run of a new session, however it ends, leaves a current directory that passes isWithinRoot's
  -- comparison of texts with the user's root (which a path with ".." can pass and still lead out of the
  -- root), and the session outside of a transfer.
  pub run-new_session-IsConfined :
      (fuel turns : ℕ) (sock : SocketHandle) (ip : Bytes) (ctx : ServerContext) (w : World)
      → Confined (run h fuel turns (new_session h sock ip ctx w))
  unfolding run new_session send_reply is_within_root
  run-new_session-IsConfined fuel turns sock ip ctx w =
      run_loop-IsConfined fuel turns _ (record { within = has_root_self []; settled = refl })
