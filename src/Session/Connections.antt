-- ===== src/Session/Connections.antt =====
-- src/server/session.cpp: the count of active connections, and exceptions.
use nexus_ftp_engine.Prelude.{
  ℕ, zero, suc, ◌≡◌, refl, ap, subst, List, true, none, [], ◌∷◌, ◌++◌, append_assoc, append-nil,
  arith, Bool-cases, inl, inr,
}
use nexus_ftp_engine.Prelude.Int.{ℤ}
use nexus_ftp_engine.Bytes.{Bytes}
use nexus_ftp_engine.Bytes.Decimal.{stoi}
use nexus_ftp_engine.Bytes.Laws.{Lacks}
use nexus_ftp_engine.Platform.{Host, SocketHandle}
use nexus_ftp_engine.DataChannel.PortCommand.{
  thrown, store, zeros, parse_numbers, parse_port_command,
}
use nexus_ftp_engine.Session.{ServerContext, Sys, Flow, next, leave, raised, out_of_fuel, inc, dec}
use nexus_ftp_engine.Session.Flows.{FlowAll, FlowAll-map}
use nexus_ftp_engine.Session.Reply.{send_reply, recv_command, with_filename}
use nexus_ftp_engine.Session.Access.{
  new_session, handle_user, handle_pass, handle_quit, handle_syst, handle_type, handle_feat,
}
use nexus_ftp_engine.Session.Directories.{
  handle_pwd, handle_cwd, handle_cdup, handle_size, handle_mdtm, handle_mkd, handle_rmd,
}
use nexus_ftp_engine.Session.Files.{handle_dele, handle_rnfr, handle_rnto, handle_rest}
use nexus_ftp_engine.Session.Data.{
  with_data, handle_pasv, handle_port, handle_list, handle_nlst, handle_retr, handle_stor,
}
use nexus_ftp_engine.Session.Loop.{
  Verb, is_logged_in, is_closed, dispatch, guarded, execute, verb_of, split_command, clean_command,
  on_command, turn, end_session, continue, run_loop, run,
}

-- What no command changes: the counts of connections, the settings, the socket and the address.
pub record SameServer {W : Type 0} (s t : Sys W) : Type 0 where
  pub active : t.ctx.active_connections ≡ s.ctx.active_connections
  pub total : t.ctx.total_connections ≡ s.ctx.total_connections
  pub root : t.ctx.root_dir ≡ s.ctx.root_dir
  pub limit : t.ctx.max_file_size_bytes ≡ s.ctx.max_file_size_bytes
  pub anonymous : t.ctx.allow_anonymous ≡ s.ctx.allow_anonymous
  pub socket : t.session.socket ≡ s.session.socket
  pub address : t.session.client_ip ≡ s.session.client_ip

module _ (h : Host) where
  open h use {World}

  dispatch-SameServer :
      (fuel : ℕ) (v : Verb) (arg : Bytes) (s : Sys World)
      → FlowAll (SameServer s) (dispatch h fuel v arg s)
  unfolding dispatch handle_syst handle_type handle_pwd handle_cwd handle_cdup handle_pasv
      handle_port handle_list handle_nlst handle_retr handle_stor handle_rest handle_dele handle_mkd
      handle_rmd handle_rnfr handle_rnto handle_size handle_mdtm send_reply with_filename with_data
  dispatch-SameServer fuel Verb.syst arg s = ground arith
  dispatch-SameServer fuel _ arg s = ground arith

  pub execute-SameServer :
      (fuel : ℕ) (v : Verb) (arg : Bytes) (s : Sys World)
      → FlowAll (SameServer s) (execute h fuel v arg s)
  unfolding execute handle_user handle_pass handle_quit handle_feat send_reply
  execute-SameServer fuel Verb.user arg s = ground arith
  execute-SameServer fuel v arg s = ground (arith, dispatch-SameServer fuel v arg s)

  on_command-SameServer :
      (fuel : ℕ) (raw : Bytes) (s : Sys World) → FlowAll (SameServer s) (on_command h fuel raw s)
  unfolding on_command send_reply
  on_command-SameServer fuel raw s = ground (
    arith,
    execute-SameServer fuel (verb_of (split_command (clean_command raw)).0)
        (split_command (clean_command raw)).1 s,
  )

  -- No turn of the loop changes the counts of connections, the root directory, the size limit, the
  -- anonymous setting, the socket or the address of the client.
  pub turn-SameServer : (fuel : ℕ) (s : Sys World) → FlowAll (SameServer s) (turn h fuel s)
  unfolding turn recv_command
  turn-SameServer fuel s =
      FlowAll-map (SameServer (recv_command h s).1) (turn h fuel s) (λ t e. same t e)
        (on_command-SameServer fuel (recv_command h s).0 (recv_command h s).1)
    where
      same : (t : Sys World) → SameServer (recv_command h s).1 t → SameServer s t
      same t e = record {
        active = e.active;
        total = e.total;
        root = e.root;
        limit = e.limit;
        anonymous = e.anonymous;
        socket = e.socket;
        address = e.address;
      }

  -- How many connections are active when a run ends that began with `n`.
  abbrev pub EndsWith : ℕ → Flow (Sys World) → Type 0
  EndsWith n (next t) = ⊥
  EndsWith n (leave t) = t.ctx.active_connections ≡ dec n
  EndsWith n (raised t) = t.ctx.active_connections ≡ n
  EndsWith n Flow.undefined = Unit
  EndsWith n out_of_fuel = Unit

  continue-EndsWith :
      (fuel : ℕ) (go_on : Sys World → Flow (Sys World)) (f : Flow (Sys World)) (n : ℕ)
      → ((t : Sys World) → EndsWith t.ctx.active_connections (go_on t))
      → FlowAll (λ t. t.ctx.active_connections ≡ n) f
      → EndsWith n (continue h fuel go_on f)
  unfolding continue end_session
  continue-EndsWith fuel go_on (next s) n ih e = subst (λ m. EndsWith m (go_on s)) e (ih s)
  continue-EndsWith fuel go_on (leave s) n ih e = ap dec e
  continue-EndsWith fuel go_on (raised s) n ih e = e
  continue-EndsWith fuel go_on Flow.undefined n ih e = tt
  continue-EndsWith fuel go_on out_of_fuel n ih e = tt

  run_loop-EndsWith :
      (fuel turns : ℕ) (s : Sys World) → EndsWith s.ctx.active_connections (run_loop h fuel turns s)
  unfolding run_loop end_session
  run_loop-EndsWith fuel zero s = tt
  run_loop-EndsWith fuel (suc turns) s = elim (Bool-cases (is_closed s.session.state)) [
    | inl over ↦ rw (over, run_loop) refl
    | inr going ↦
        rw (going, run_loop)
          (continue-EndsWith fuel (run_loop h fuel turns) (turn h fuel s) s.ctx.active_connections
            (run_loop-EndsWith fuel turns)
            (FlowAll-map (λ t. SameServer s t) (turn h fuel s) (λ t e. e.active)
              (turn-SameServer fuel s)))
  ]

  -- A session that leaves its loop gives its connection back; one that an exception ends does not:
  -- the count stays as the constructor left it.
  pub run-new_session-EndsWith :
      (fuel turns : ℕ) (sock : SocketHandle) (ip : Bytes) (ctx : ServerContext) (w : World)
      → EndsWith (inc ctx.active_connections) (run h fuel turns (new_session h sock ip ctx w))
  unfolding run new_session send_reply
  run-new_session-EndsWith fuel turns sock ip ctx w = run_loop-EndsWith fuel turns _

  parse_numbers-Lacks :
      (nums : List ℤ) (idx : ℕ) (temp s : Bytes)
      → Lacks b',' s
      → parse_numbers nums idx temp s ≡ store nums idx (temp ++ s)
  unfolding parse_numbers
  parse_numbers-Lacks nums idx temp [] l = rw append-nil
  parse_numbers-Lacks nums idx temp (c ∷ s) l =
      ground
        (arith, parse_numbers-Lacks nums idx (temp ++ c ∷ []) s l.1, append_assoc temp (c ∷ []) s)

  parse_port_command-thrown :
      (arg : Bytes) → Lacks b',' arg → stoi arg ≡ none → parse_port_command arg ≡ thrown
  unfolding parse_port_command store
  parse_port_command-thrown arg l e =
      rw (parse_port_command, parse_numbers-Lacks zeros 0 [] arg l, store, e)

  -- PORT with an argument that is no number, from a session that is logged in, ends the session by an
  -- exception, before anything has changed.
  pub execute-port_raises :
      (fuel : ℕ) (arg : Bytes) (s : Sys World)
      → is_logged_in s.session.state ≡ true
      → Lacks b',' arg
      → stoi arg ≡ none
      → execute h fuel Verb.port arg s ≡ raised s
  unfolding execute handle_port
  execute-port_raises fuel arg s inside l e =
      rw (inside, guarded) (rw (handle_port, parse_port_command-thrown arg l e))
