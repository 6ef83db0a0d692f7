-- ===== src/Legacy/Login.antt =====
-- server/main.cpp: what a client reaches without logging in.
use nexus_ftp_engine.Prelude.{
  ℕ, ◌≡◌, refl, sym, ap, subst, not, if◌then◌else◌, Bool, true, false, ◌&&◌, Bool-cases, inl, inr,
  ◌++◌,
}
use nexus_ftp_engine.Bytes.{Bytes, bytes, bytes_eq}
use nexus_ftp_engine.Platform.{Host}
use nexus_ftp_engine.Platform.Sockets.{send_data}
use nexus_ftp_engine.Pool.Drain.{not_off}
use nexus_ftp_engine.Session.Flows.{FlowAll}
use nexus_ftp_engine.Session.Reply.{crlf}
use nexus_ftp_engine.Session.Loop.{Verb}
use nexus_ftp_engine.Legacy.{Client, valid_user, valid_pass, send_reply, answer}
use nexus_ftp_engine.Legacy.Commands.{handle_user, handle_pass, handle_quit}
use nexus_ftp_engine.Legacy.Loop.{dispatch, guarded, execute}

-- PASS with the password, behind USER with the user's name.
abbrev pub IsAdmin : Bool → Bytes → Verb → Bytes → Type 0
IsAdmin now user v argument =
    now ≡ true
    → (v ≡ Verb.pass) × ((bytes_eq user valid_user && bytes_eq argument valid_pass) ≡ true)

module _ (h : Host) (fuel : ℕ) where
  open h use {World}

  -- What a command of a client that is not logged in leaves.
  pub record Outside (v : Verb) (argument : Bytes) (s t : Client World) : Type 0 where
    pub admitted : IsAdmin t.logged_in s.current_user v argument
    pub same_dir : t.current_dir ≡ s.current_dir
    pub same_socket : t.passive_socket ≡ s.passive_socket
    pub only_sends :
        (reply : Bytes) × (t.world ≡ (send_data h s.client_socket (reply ++ crlf) s.world).1)

  not_in : {b : Bool} {P : Type 0} → b ≡ false → b ≡ true → P
  not_in off on = absurd (not_off off on)

  -- One reply, and no login.
  stays :
      (v : Verb) (argument reply : Bytes) (s t : Client World)
      → t.logged_in ≡ false
      → t.current_dir ≡ s.current_dir
      → t.passive_socket ≡ s.passive_socket
      → t.world ≡ (send_data h s.client_socket (reply ++ crlf) s.world).1
      → Outside v argument s t
  stays v argument reply s t out dir sock w = record {
    admitted = λ e. not_in out e;
    same_dir = dir;
    same_socket = sock;
    only_sends = (reply, w);
  }

  guarded_out :
      (v : Verb) (argument : Bytes) (s : Client World)
      → s.logged_in ≡ false
      → guarded h fuel v argument s ≡ answer h (bytes "530 Please login first") s
  unfolding guarded
  guarded_out v argument s out =
      ap
        (λ b.
          if not b
          then answer h (bytes "530 Please login first") s
          else dispatch h fuel v argument s)
        out

  guarded-Outside :
      (v : Verb) (argument : Bytes) (s : Client World)
      → s.logged_in ≡ false
      → FlowAll (Outside v argument s) (guarded h fuel v argument s)
  unfolding send_reply
  guarded-Outside v argument s out =
      subst (FlowAll (Outside v argument s)) (sym (guarded_out v argument s out)) (
        stays v argument (bytes "530 Please login first") s
          (send_reply h (bytes "530 Please login first") s) out refl refl refl)

  pass-Outside :
      (argument : Bytes) (s : Client World)
      → s.logged_in ≡ false
      → FlowAll (Outside Verb.pass argument s) (handle_pass h argument s)
  unfolding send_reply handle_pass
  pass-Outside argument s out =
      elim (Bool-cases (bytes_eq s.current_user valid_user && bytes_eq argument valid_pass)) [
        | inl right ↦
            rw (right, handle_pass)
              (record {
                admitted = λ e. (refl, right);
                same_dir = refl;
                same_socket = refl;
                only_sends = (bytes "230 Login successful", refl);
              })
        | inr wrong ↦
            rw (wrong, handle_pass)
              (stays Verb.pass argument (bytes "530 Login incorrect") s
                (send_reply h (bytes "530 Login incorrect") s) out refl refl refl)
      ]

  -- A command of a client that is not logged in logs it in only if it is PASS with the password behind
  -- USER with the user's name; and whatever the command, it does nothing but send one reply: it stays
  -- in its directory, opens no data connection and calls nothing on a file.
  pub execute-Outside :
      (v : Verb) (argument : Bytes) (s : Client World)
      → s.logged_in ≡ false
      → FlowAll (Outside v argument s) (execute h fuel v argument s)
  unfolding execute handle_user handle_quit send_reply
  execute-Outside Verb.opts argument s out =
      stays Verb.opts argument (bytes "200 OK") s (send_reply h (bytes "200 OK") s) out refl refl
        refl
  execute-Outside Verb.noop argument s out =
      stays Verb.noop argument (bytes "200 OK") s (send_reply h (bytes "200 OK") s) out refl refl
        refl
  execute-Outside Verb.user argument s out =
      stays Verb.user argument (bytes "331 Password required for " ++ argument) s
        (send_reply h (bytes "331 Password required for " ++ argument)
          (record s { current_user = argument }))
        out refl refl refl
  execute-Outside Verb.pass argument s out = pass-Outside argument s out
  execute-Outside Verb.quit argument s out =
      stays Verb.quit argument (bytes "221 Goodbye") s (send_reply h (bytes "221 Goodbye") s) out
        refl refl refl
  execute-Outside v argument s out = guarded-Outside v argument s out
