-- ===== src/Session/Passwords.antt =====
-- src/server/session.cpp and src/server/auth.cpp: the commands of a client in their order, and the
-- passwords among them.
use nexus_ftp_engine.Prelude.{
  ℕ, ◌≡◌, ◌⊎◌, inl, inr, refl, sym, ap, subst, ◌∙◌, true, false, some, List, [], ◌∷◌, arith,
}
use nexus_ftp_engine.Bytes.{Bytes}
use nexus_ftp_engine.Platform.{Host, SocketHandle}
use nexus_ftp_engine.Auth.{AuthManager, authenticate, record_failed_attempt, clear_attempts, load}
use nexus_ftp_engine.Auth.Accounts.{
  Account, AllAccounts, users_text, admits, last_account, authenticate-users_text,
}
use nexus_ftp_engine.Session.{ServerContext, Sys, Flow, next, leave, raised, out_of_fuel}
use nexus_ftp_engine.Session.Flows.{FlowAll, FlowAll-map, FlowAll-both}
use nexus_ftp_engine.Session.Reply.{send_reply, with_filename}
use nexus_ftp_engine.Session.Access.{
  handle_user, handle_pass, handle_quit, handle_syst, handle_type, handle_feat, new_session,
}
use nexus_ftp_engine.Session.Directories.{
  handle_pwd, handle_cwd, handle_cdup, handle_size, handle_mdtm, handle_mkd, handle_rmd,
}
use nexus_ftp_engine.Session.Files.{handle_dele, handle_rnfr, handle_rnto, handle_rest}
use nexus_ftp_engine.Session.Data.{
  with_data, handle_pasv, handle_port, handle_list, handle_nlst, handle_retr, handle_stor,
}
use nexus_ftp_engine.Session.Login.{users-is_rate_limited}
use nexus_ftp_engine.Session.Loop.{Verb, dispatch, execute}
use nexus_ftp_engine.Session.Connections.{SameServer, execute-SameServer}
use nexus_ftp_engine.Session.Protocol.{
  Standing, inside, unknown, named, ended, Gate, protocol_step, standing_of, gate_of,
  execute-protocol_step,
}

abbrev pub Command : Type 0
Command = Verb × Bytes

-- PASS with a password that has the salted hash of the user's.
abbrev pub GivesPassword : List Account → Bytes → Command → Type 0
GivesPassword accounts user (Verb.pass, arg) = admits (last_account user accounts) arg ≡ true
GivesPassword accounts user (v, arg) = ⊥

abbrev pub GivenPassword : List Account → Bytes → List Command → Type 0
GivenPassword accounts user [] = ⊥
GivenPassword accounts user (c ∷ cs) =
    GivesPassword accounts user c ⊎ GivenPassword accounts user cs

-- What the commands hold for a client that stands there.
abbrev pub Entitles : List Account → List Command → Standing → Type 0
Entitles accounts cs (inside user) = GivenPassword accounts user cs
Entitles accounts cs st = Unit {0}

-- The context knows these accounts, and no anonymous user.
pub record Knows (accounts : List Account) (ctx : ServerContext) : Type 0 where
  pub accepts :
      (user password : Bytes)
      → authenticate user password ctx.auth ≡ admits (last_account user accounts) password
  pub no_anonymous : ctx.allow_anonymous ≡ false

authenticate-users :
    (user pass : Bytes) (a b : AuthManager)
    → b.users ≡ a.users
    → authenticate user pass b ≡ authenticate user pass a
unfolding authenticate
authenticate-users user pass a b e = rw (authenticate, e) refl

-- A step of the specification lets in by a password only.
protocol_step-inside :
    (g : Gate) (v : Verb) (arg user : Bytes) (st : Standing)
    → g.anonymous ≡ false
    → protocol_step g v arg st ≡ inside user
    → (st ≡ inside user) ⊎ ((v ≡ Verb.pass) × (g.admits user arg ≡ true))
unfolding protocol_step
protocol_step-inside g Verb.user arg user st a e = ground (arith, a, e)
protocol_step-inside g Verb.pass arg user (named u) a e = ground (arith, a, e)
protocol_step-inside g Verb.pass arg user unknown a e = inl e
protocol_step-inside g Verb.pass arg user (inside u) a e = inl e
protocol_step-inside g Verb.pass arg user ended a e = inl e
protocol_step-inside g Verb.quit arg user st a e = ground (arith, e)
protocol_step-inside g v arg user st a e = inl e

module _ (h : Host) where
  open h use {World}

  abbrev SameUsers : Sys World → Sys World → Type 0
  SameUsers s t = t.ctx.auth.users ≡ s.ctx.auth.users

  dispatch-SameUsers :
      (fuel : ℕ) (v : Verb) (arg : Bytes) (s : Sys World)
      → FlowAll (SameUsers s) (dispatch h fuel v arg s)
  unfolding dispatch handle_syst handle_type handle_pwd handle_cwd handle_cdup handle_pasv
      handle_port handle_list handle_nlst handle_retr handle_stor handle_rest handle_dele handle_mkd
      handle_rmd handle_rnfr handle_rnto handle_size handle_mdtm send_reply with_filename with_data
  dispatch-SameUsers fuel Verb.syst arg s = ground arith
  dispatch-SameUsers fuel _ arg s = ground arith

  execute-SameUsers :
      (fuel : ℕ) (v : Verb) (arg : Bytes) (s : Sys World)
      → FlowAll (SameUsers s) (execute h fuel v arg s)
  unfolding execute handle_user handle_pass handle_quit handle_feat send_reply record_failed_attempt
      clear_attempts
  execute-SameUsers fuel Verb.user arg s = ground arith
  execute-SameUsers fuel Verb.pass arg s =
      ground (arith, users-is_rate_limited s.session.client_ip (h.time s.world).0 s.ctx.auth)
  execute-SameUsers fuel v arg s = ground (arith, dispatch-SameUsers fuel v arg s)

  -- The users and the settings that a login depends on stay.
  execute-Knows :
      (accounts : List Account) (fuel : ℕ) (v : Verb) (arg : Bytes) (s : Sys World)
      → Knows accounts s.ctx
      → FlowAll (λ t. Knows accounts t.ctx) (execute h fuel v arg s)
  execute-Knows accounts fuel v arg s k =
      FlowAll-map (λ t. SameUsers s t × SameServer s t) (execute h fuel v arg s)
        (λ t e. record {
          accepts = λ user password.
              authenticate-users user password s.ctx.auth t.ctx.auth e.0 ∙ k.accepts user password;
          no_anonymous = e.1.anonymous ∙ k.no_anonymous;
        })
        (FlowAll-both (SameUsers s) (SameServer s) (execute h fuel v arg s)
          (execute-SameUsers fuel v arg s) (execute-SameServer h fuel v arg s))

  -- The commands of a client one after the other, as long as the loop goes on.
  unfoldable pub execute_all : ℕ → List Command → Sys World → Flow (Sys World)
  execute_all fuel [] s = next s
  execute_all fuel ((v, arg) ∷ cs) s =
      let go_on = execute_all fuel cs in
      elim (execute h fuel v arg s) [
        | next t ↦ go_on t
        | leave t ↦ leave t
        | raised t ↦ raised t
        | Flow.undefined ↦ Flow.undefined
        | out_of_fuel ↦ out_of_fuel
      ]

  -- Whoever stands inside did so before, or has given the password.
  abbrev pub Entitled : List Account → List Command → Sys World → Sys World → Type 0
  Entitled accounts cs s t =
      (user : Bytes)
      → standing_of t ≡ inside user
      → (standing_of s ≡ inside user) ⊎ GivenPassword accounts user cs

  execute-Entitled :
      (accounts : List Account) (fuel : ℕ) (v : Verb) (arg : Bytes) (s : Sys World)
      → Knows accounts s.ctx
      → FlowAll (Entitled accounts ((v, arg) ∷ []) s) (execute h fuel v arg s)
  execute-Entitled accounts fuel v arg s k =
      FlowAll-map (λ t. standing_of t ≡ protocol_step (gate_of h s) v arg (standing_of s))
        (execute h fuel v arg s)
        (λ t e user i.
          elim (protocol_step-inside (gate_of h s) v arg user (standing_of s) k.no_anonymous
            (sym e ∙ i)) [
              | inl before ↦ inl before
              | inr (pass, right) ↦ inr (
                  inl (
                    subst (λ c. GivesPassword accounts user (c, arg)) (sym pass)
                      (sym (k.accepts user arg) ∙ right)))
            ])
        (execute-protocol_step h fuel v arg s)

  Entitled-append :
      (accounts : List Account) (c : Command) (cs : List Command) (r s t : Sys World)
      → Entitled accounts (c ∷ []) r s
      → Entitled accounts cs s t
      → Entitled accounts (c ∷ cs) r t
  Entitled-append accounts c cs r s t first later user i = elim (later user i) [
    | inr given ↦ inr (inr given)
    | inl here ↦ elim (first user here) [
      | inl before ↦ inl before
      | inr (inl given) ↦ inr (inl given)
      | inr (inr none_given) ↦ absurd none_given
    ]
  ]

  Entitled-weaken :
      (accounts : List Account) (c : Command) (cs : List Command) (r s : Sys World)
      → Entitled accounts (c ∷ []) r s
      → Entitled accounts (c ∷ cs) r s
  Entitled-weaken accounts c cs r s first user i = elim (first user i) [
    | inl before ↦ inl before
    | inr (inl given) ↦ inr (inl given)
    | inr (inr none_given) ↦ absurd none_given
  ]

  execute_all-cons :
      (accounts : List Account) (fuel : ℕ) (c : Command) (cs : List Command) (s : Sys World)
      (f : Flow (Sys World))
      → execute h fuel c.0 c.1 s ≡ f
      → FlowAll (λ t. Entitled accounts (c ∷ []) s t × Knows accounts t.ctx) f
      → ((t : Sys World)
          → Knows accounts t.ctx
          → FlowAll (Entitled accounts cs t) (execute_all fuel cs t))
      → FlowAll (Entitled accounts (c ∷ cs) s) (execute_all fuel (c ∷ cs) s)
  unfolding execute_all
  execute_all-cons accounts fuel c cs s (next t) e p ih =
      rw (execute_all, e)
        (FlowAll-map (Entitled accounts cs t) (execute_all fuel cs t)
          (λ u q. Entitled-append accounts c cs s t u p.0 q) (ih t p.1))
  execute_all-cons accounts fuel c cs s (leave t) e p ih =
      rw (execute_all, e) (Entitled-weaken accounts c cs s t p.0)
  execute_all-cons accounts fuel c cs s (raised t) e p ih =
      rw (execute_all, e) (Entitled-weaken accounts c cs s t p.0)
  execute_all-cons accounts fuel c cs s Flow.undefined e p ih = rw (execute_all, e) tt
  execute_all-cons accounts fuel c cs s out_of_fuel e p ih = rw (execute_all, e) tt

  execute_all-Entitled :
      (accounts : List Account) (fuel : ℕ) (cs : List Command) (s : Sys World)
      → Knows accounts s.ctx
      → FlowAll (Entitled accounts cs s) (execute_all fuel cs s)
  unfolding execute_all
  execute_all-Entitled accounts fuel [] s k = λ user i. inl i
  execute_all-Entitled accounts fuel ((v, arg) ∷ cs) s k =
      execute_all-cons accounts fuel (v, arg) cs s (execute h fuel v arg s) refl
        (FlowAll-both (Entitled accounts ((v, arg) ∷ []) s) (λ t. Knows accounts t.ctx)
          (execute h fuel v arg s) (execute-Entitled accounts fuel v arg s k)
          (execute-Knows accounts fuel v arg s k))
        (λ t known. execute_all-Entitled accounts fuel cs t known)

  Entitled-Entitles :
      (accounts : List Account) (cs : List Command) (s t : Sys World)
      → standing_of s ≡ unknown
      → Entitled accounts cs s t
      → (st : Standing) → standing_of t ≡ st
      → Entitles accounts cs st
  Entitled-Entitles accounts cs s t e k (inside user) i = elim (k user i) [
    | inl before ↦ ground (arith, sym before ∙ e)
    | inr given ↦ given
  ]
  Entitled-Entitles accounts cs s t e k unknown i = tt
  Entitled-Entitles accounts cs s t e k (named user) i = tt
  Entitled-Entitles accounts cs s t e k ended i = tt

  -- On a server with a users file of these accounts and without anonymous users, a new session that is
  -- logged in as a user after some commands has been given, among them, a PASS with a password that has
  -- the salted hash of this user's: whatever else was sent, in whatever order, and however it ended.
  pub execute_all-Entitles :
      (accounts : List Account) (auth : AuthManager) (ctx : ServerContext) (sock : SocketHandle)
      (ip : Bytes) (w : World) (fuel : ℕ) (cs : List Command)
      → AllAccounts accounts
      → ctx.auth ≡ (load (some (users_text accounts)) auth).1
      → ctx.allow_anonymous ≡ false
      → FlowAll
          (λ t. Entitles accounts cs (standing_of t))
          (execute_all fuel cs (new_session h sock ip ctx w))
  unfolding new_session
  execute_all-Entitles accounts auth ctx sock ip w fuel cs all e closed_door =
      let s = new_session h sock ip ctx w in
      FlowAll-map (Entitled accounts cs s) (execute_all fuel cs s)
        (λ t k. Entitled-Entitles accounts cs s t refl k (standing_of t) refl)
        (execute_all-Entitled accounts fuel cs s (record {
          accepts = λ user password.
              ap (authenticate user password) e
              ∙ authenticate-users_text accounts user password auth all;
          no_anonymous = closed_door;
        }))
