-- ===== src/Session/Login.antt =====
-- src/server/session.cpp: USER, PASS and the auth guard, as ways into a session.
use nexus_ftp_engine.Prelude.{ℕ, ◌≡◌, ◌⊎◌, Bool, true, false, arith, if◌then◌else◌}
use nexus_ftp_engine.Bytes.{Bytes, bytes}
use nexus_ftp_engine.Bytes.Laws.{bytes_eq_iff}
use nexus_ftp_engine.Platform.{Host}
use nexus_ftp_engine.Auth.{AuthManager, authenticate, is_rate_limited}
use nexus_ftp_engine.Session.{wait_user, wait_pass, ready, closed, Sys, next}
use nexus_ftp_engine.Session.Flows.{FlowAll}
use nexus_ftp_engine.Session.Reply.{send_reply}
use nexus_ftp_engine.Session.Access.{home_dir, handle_user, handle_pass, handle_quit, handle_feat}
use nexus_ftp_engine.Session.Loop.{Verb, is_logged_in, guarded, execute}

-- The tests of isRateLimited and authenticate, as handlePass makes them.
abbrev pub limited_now : (h : Host) → Sys h.World → Bool
limited_now h s = (is_rate_limited s.session.client_ip (h.time s.world).0 s.ctx.auth).0

abbrev pub password_fits : {W : Type 0} → Bytes → Sys W → Bool
password_fits arg s = authenticate s.session.username arg s.ctx.auth

-- USER with an anonymous name where that is allowed, or PASS behind USER from an address that is not
-- blocked, with the password of the user that was named.
abbrev pub Admits : (h : Host) → Verb → Bytes → Sys h.World → Type 0
Admits h Verb.user arg s =
    (s.ctx.allow_anonymous ≡ true) × ((arg ≡ bytes "anonymous") ⊎ (arg ≡ bytes "ftp"))
Admits h Verb.pass arg s =
    (s.session.state ≡ wait_pass) × (limited_now h s ≡ false) × (password_fits arg s ≡ true)
Admits h _ arg s = ⊥

-- A session that has just been let in stands in the home directory of its user.
abbrev pub IsHome : {W : Type 0} → Sys W → Type 0
IsHome t =
    (t.session.user_root_dir ≡ home_dir t.ctx t.session.username)
    × (t.session.current_dir ≡ t.session.user_root_dir)

pub users-is_rate_limited :
    (ip : Bytes) (now : ℕ) (auth : AuthManager) → (is_rate_limited ip now auth).1.users ≡ auth.users
unfolding is_rate_limited
users-is_rate_limited ip now auth = ground arith

pub authenticate-is_rate_limited :
    (user pass ip : Bytes) (now : ℕ) (auth : AuthManager)
    → authenticate user pass (is_rate_limited ip now auth).1 ≡ authenticate user pass auth
unfolding authenticate
authenticate-is_rate_limited user pass ip now auth =
    rw (authenticate, users-is_rate_limited ip now auth)

module _ (h : Host) where
  open h use {World}

  handle_user-Admits :
      (arg : Bytes) (s : Sys World)
      → is_logged_in s.session.state ≡ false
      → FlowAll
          (λ t. is_logged_in t.session.state ≡ true → Admits h Verb.user arg s × IsHome t)
          (handle_user h arg s)
  unfolding handle_user send_reply
  handle_user-Admits arg s out =
      ground (arith, bytes_eq_iff arg (bytes "anonymous"), bytes_eq_iff arg (bytes "ftp"))

  handle_pass-Admits :
      (arg : Bytes) (s : Sys World)
      → is_logged_in s.session.state ≡ false
      → FlowAll
          (λ t. is_logged_in t.session.state ≡ true → Admits h Verb.pass arg s × IsHome t)
          (handle_pass h arg s)
  unfolding handle_pass send_reply
  handle_pass-Admits arg s out = ground (
    arith,
    authenticate-is_rate_limited s.session.username arg s.session.client_ip (h.time s.world).0
        s.ctx.auth,
  )

  guarded-out :
      (fuel : ℕ) (v : Verb) (arg : Bytes) (s : Sys World)
      → is_logged_in s.session.state ≡ false
      → guarded h fuel v arg s ≡ next (send_reply h (bytes "530 Please login first") s)
  unfolding guarded
  guarded-out fuel v arg s out = rw out

  guarded-Admits :
      (fuel : ℕ) (v : Verb) (arg : Bytes) (s : Sys World) (P : Sys World → Type 0)
      → is_logged_in s.session.state ≡ false
      → FlowAll (λ t. is_logged_in t.session.state ≡ true → P t) (guarded h fuel v arg s)
  unfolding send_reply
  guarded-Admits fuel v arg s P out = rw (guarded-out fuel v arg s out) (λ e. cc)

  -- Whatever the command, a session that is not logged in is logged in after it only by USER with an
  -- anonymous name where that is allowed, or by PASS from an address that is not blocked, behind USER,
  -- with the password of that user; it then stands in the home directory of its user.
  pub execute-Admits :
      (fuel : ℕ) (v : Verb) (arg : Bytes) (s : Sys World)
      → is_logged_in s.session.state ≡ false
      → FlowAll
          (λ t. is_logged_in t.session.state ≡ true → Admits h v arg s × IsHome t)
          (execute h fuel v arg s)
  unfolding execute handle_quit handle_feat send_reply
  execute-Admits fuel Verb.user arg s out = handle_user-Admits arg s out
  execute-Admits fuel Verb.pass arg s out = handle_pass-Admits arg s out
  execute-Admits fuel Verb.quit arg s out = λ e. cc
  execute-Admits fuel Verb.opts arg s out = λ e. cc
  execute-Admits fuel Verb.noop arg s out = λ e. cc
  execute-Admits fuel Verb.feat arg s out = λ e. cc
  execute-Admits fuel v arg s out = guarded-Admits fuel v arg s _ out

  -- The state after a PASS that is checked: closed for a blocked address, ready for the right
  -- password, and back to waiting for USER otherwise.
  state-handle_pass :
      (arg : Bytes) (s : Sys World)
      → s.session.state ≡ wait_pass
      → FlowAll
          (λ t. t.session.state ≡ (
            if limited_now h s then closed else if password_fits arg s then ready else wait_user))
          (handle_pass h arg s)
  unfolding handle_pass send_reply
  state-handle_pass arg s w = ground (
    arith,
    authenticate-is_rate_limited s.session.username arg s.session.client_ip (h.time s.world).0
        s.ctx.auth,
  )
