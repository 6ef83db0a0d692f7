-- ===== src/Session/Protocol.antt =====
-- src/server/session.cpp: the login of RFC 959 as a specification, and the session's handlers as an
-- implementation of it.
use nexus_ftp_engine.Prelude.{
  ℕ, ◌≡◌, refl, sym, ap, ◌∙◌, Bool, true, ◌&&◌, ◌||◌, arith, if◌then◌else◌, Bool-cases, inl, inr,
}
use nexus_ftp_engine.Bytes.{Bytes, bytes, bytes_eq, is_empty}
use nexus_ftp_engine.Platform.{Host}
use nexus_ftp_engine.Auth.{authenticate}
use nexus_ftp_engine.Session.{
  SessionState, connected, wait_user, wait_pass, ready, transferring, closed, Sys,
}
use nexus_ftp_engine.Session.Flows.{FlowAll, FlowAll-map}
use nexus_ftp_engine.Session.Reply.{send_reply, with_filename}
use nexus_ftp_engine.Session.Access.{
  handle_user, handle_pass, handle_quit, handle_syst, handle_type, handle_feat,
}
use nexus_ftp_engine.Session.Directories.{
  handle_pwd, handle_cwd, handle_cdup, handle_size, handle_mdtm, handle_mkd, handle_rmd,
}
use nexus_ftp_engine.Session.Files.{handle_dele, handle_rnfr, handle_rnto, handle_rest}
use nexus_ftp_engine.Session.Data.{
  with_data, handle_pasv, handle_port, handle_list, handle_nlst, handle_retr, handle_stor,
}
use nexus_ftp_engine.Session.Login.{limited_now, authenticate-is_rate_limited}
use nexus_ftp_engine.Session.Loop.{Verb, is_logged_in, dispatch, guarded, execute}

-- Where a client stands: not known, named by USER, logged in, or dismissed.
pub data Standing : Type 0 where
  unknown : Standing
  named : Bytes → Standing
  inside : Bytes → Standing
  ended : Standing

-- What a login depends on.
pub record Gate : Type 0 where
  pub anonymous : Bool
  pub blocked : Bool
  pub admits : Bytes → Bytes → Bool

-- The specification: USER names a user, from wherever the client stands, or lets an anonymous one in;
-- PASS counts behind USER only; QUIT ends; and nothing else changes where a client stands.
unfoldable pub protocol_step : Gate → Verb → Bytes → Standing → Standing
protocol_step g Verb.user arg st =
    if is_empty arg
    then st
    else if (bytes_eq arg (bytes "anonymous") || bytes_eq arg (bytes "ftp")) && g.anonymous
    then inside (bytes "anonymous")
    else named arg
protocol_step g Verb.pass arg (named user) =
    if g.blocked then ended else if g.admits user arg then inside user else unknown
protocol_step g Verb.quit arg st = ended
protocol_step g v arg st = st

-- Where a session says that its client stands.
abbrev pub standing : SessionState → Bytes → Standing
standing connected user = unknown
standing wait_user user = unknown
standing wait_pass user = named user
standing ready user = inside user
standing transferring user = inside user
standing closed user = ended

abbrev pub standing_of : {W : Type 0} → Sys W → Standing
standing_of s = standing s.session.state s.session.username

abbrev pub gate_of : (h : Host) → Sys h.World → Gate
gate_of h s = record {
  anonymous = s.ctx.allow_anonymous;
  blocked = limited_now h s;
  admits = λ user pass. authenticate user pass s.ctx.auth;
}

-- The same client, still logged in.
abbrev StaysIn : {W : Type 0} → Sys W → Sys W → Type 0
StaysIn s t = (is_logged_in t.session.state ≡ true) × (t.session.username ≡ s.session.username)

logged_in-standing :
    (state : SessionState) (user : Bytes)
    → is_logged_in state ≡ true
    → standing state user ≡ inside user
logged_in-standing ready user e = refl
logged_in-standing transferring user e = refl
logged_in-standing connected user e = cc
logged_in-standing wait_user user e = cc
logged_in-standing wait_pass user e = cc
logged_in-standing closed user e = cc

module _ (h : Host) where
  open h use {World}

  dispatch-StaysIn :
      (fuel : ℕ) (v : Verb) (arg : Bytes) (s : Sys World)
      → is_logged_in s.session.state ≡ true
      → FlowAll (StaysIn s) (dispatch h fuel v arg s)
  unfolding dispatch handle_syst handle_type handle_pwd handle_cwd handle_cdup handle_pasv
      handle_port handle_list handle_nlst handle_retr handle_stor handle_rest handle_dele handle_mkd
      handle_rmd handle_rnfr handle_rnto handle_size handle_mdtm send_reply with_filename with_data
  dispatch-StaysIn fuel Verb.syst arg s e = ground arith
  dispatch-StaysIn fuel _ arg s e = ground arith

  -- A command behind the guard changes nothing of where the client stands.
  guarded-standing :
      (fuel : ℕ) (v : Verb) (arg : Bytes) (s : Sys World)
      → FlowAll (λ t. standing_of t ≡ standing_of s) (guarded h fuel v arg s)
  unfolding guarded send_reply
  guarded-standing fuel v arg s = elim (Bool-cases (is_logged_in s.session.state)) [
    | inl e ↦
        rw (e, guarded)
          (FlowAll-map (StaysIn s) (dispatch h fuel v arg s)
            (λ t k.
              logged_in-standing t.session.state t.session.username k.0
              ∙ ap inside k.1
              ∙ sym (logged_in-standing s.session.state s.session.username e))
            (dispatch-StaysIn fuel v arg s e))
    | inr e ↦ rw (e, guarded) refl
  ]

  handle_user-protocol_step :
      (arg : Bytes) (s : Sys World)
      → FlowAll
          (λ t. standing_of t ≡ protocol_step (gate_of h s) Verb.user arg (standing_of s))
          (handle_user h arg s)
  unfolding handle_user send_reply protocol_step
  handle_user-protocol_step arg s = ground arith

  handle_pass-protocol_step :
      (arg : Bytes) (s : Sys World)
      → FlowAll
          (λ t. standing_of t ≡ protocol_step (gate_of h s) Verb.pass arg (standing_of s))
          (handle_pass h arg s)
  unfolding handle_pass send_reply protocol_step
  handle_pass-protocol_step arg s = ground (
    arith,
    authenticate-is_rate_limited s.session.username arg s.session.client_ip (h.time s.world).0
        s.ctx.auth,
  )

  -- Every command, whatever its argument and however it ends, moves the session to where the
  -- specification moves its client, by the server's setting, its blocked addresses and its users.
  pub execute-protocol_step :
      (fuel : ℕ) (v : Verb) (arg : Bytes) (s : Sys World)
      → FlowAll
          (λ t. standing_of t ≡ protocol_step (gate_of h s) v arg (standing_of s))
          (execute h fuel v arg s)
  unfolding execute handle_quit handle_feat send_reply protocol_step
  execute-protocol_step fuel Verb.user arg s = handle_user-protocol_step arg s
  execute-protocol_step fuel Verb.pass arg s = handle_pass-protocol_step arg s
  execute-protocol_step fuel Verb.quit arg s = refl
  execute-protocol_step fuel Verb.opts arg s = refl
  execute-protocol_step fuel Verb.noop arg s = refl
  execute-protocol_step fuel Verb.feat arg s = refl
  execute-protocol_step fuel v arg s = guarded-standing fuel v arg s
