-- ===== src/Session/Sandbox.antt =====
-- src/server/session.cpp: the paths that the commands behind the auth guard hand to the system.
pub mod Calls
pub mod Transfers
pub mod Handlers
pub mod Data
pub mod Moves
use nexus_ftp_engine.Prelude.{ℕ, ◌≡◌, ◌∙◌, true, false, ◌++◌, ◌∷◌, Option, none, some, if_both}
use nexus_ftp_engine.Bytes.{Bytes, is_empty}
use nexus_ftp_engine.Platform.{Host}
use nexus_ftp_engine.Platform.Files.{list_directory}
use nexus_ftp_engine.Session.{Session, Sys}
use nexus_ftp_engine.Session.Confinement.{IsConfined}
use nexus_ftp_engine.Session.Flows.{FlowAll}
use nexus_ftp_engine.Session.Paths.{is_within_root}
use nexus_ftp_engine.Session.Paths.Laws.{has_root-append}
use nexus_ftp_engine.Session.Access.{handle_syst, handle_type}
use nexus_ftp_engine.Session.Directories.{handle_pwd, handle_cdup}
use nexus_ftp_engine.Session.Files.{restart_at, handle_rest, parse_offset}
use nexus_ftp_engine.Session.Loop.{Verb, dispatch}
use Calls.{Survives, list_directory-Safe}
use Handlers.{
  send_reply-Safe, handle_cwd-Safe, handle_rnto-Safe, handle_dele-Safe, handle_mkd-Safe,
  handle_rmd-Safe, handle_rnfr-Safe, handle_mdtm-Safe, handle_size-Safe,
}
use Data.{handle_pasv-Safe, handle_port-Safe}
use Moves.{handle_retr-Safe, handle_stor-Safe, handle_list-Safe, handle_nlst-Safe}

module _ (h : Host) (s : Sys h.World) (P : h.World → Type 0)
    (k : Survives h (λ p. is_within_root s.session p ≡ true) P) (c : IsConfined s.session)
    (p : P s.world) where
  abbrev Below : Bytes → Type 0
  Below q = is_within_root s.session q ≡ true

  list_current-Safe : (w : h.World) → P w → P (list_directory h s.session.current_dir w).1
  unfolding is_within_root
  list_current-Safe w q =
      list_directory-Safe h Below P k s.session.current_dir w c.within
        (λ name.
          has_root-append s.session.user_root_dir s.session.current_dir (b'/' ∷ name) c.within)
        q

  handle_rest-Safe : (arg : Bytes) → FlowAll (λ t. P t.world) (handle_rest h arg s)
  unfolding handle_rest
  handle_rest-Safe arg =
      if_both (FlowAll (λ t. P t.world)) (is_empty arg) (send_reply-Safe h Below P k _ s p)
        (on_offset (parse_offset 0 arg))
    where
      on_offset : (o : Option ℕ) → FlowAll (λ t. P t.world) (restart_at h s o)
      on_offset none = send_reply-Safe h Below P k _ s p
      on_offset (some n) = send_reply-Safe h Below P k _ _ p

  -- From a current directory within the user's root, and with a pending rename source that is within it
  -- too, every command behind the auth guard keeps every property of the world that the system calls
  -- keep when the paths in them have the root as prefix.
  pub dispatch-Safe :
      (fuel : ℕ) (v : Verb) (arg : Bytes)
      → (is_empty s.session.rename_from ≡ false
          → is_within_root s.session s.session.rename_from ≡ true)
      → FlowAll (λ t. P t.world) (dispatch h fuel v arg s)
  unfolding dispatch handle_syst handle_type handle_pwd handle_cdup
  dispatch-Safe fuel Verb.cwd arg r = handle_cwd-Safe h Below P k arg s (λ q w. w) p
  dispatch-Safe fuel Verb.pasv arg r = handle_pasv-Safe h Below P k s p
  dispatch-Safe fuel Verb.port arg r = handle_port-Safe h Below P k arg s p
  dispatch-Safe fuel Verb.list arg r = handle_list-Safe h Below P k s p list_current-Safe
  dispatch-Safe fuel Verb.nlst arg r = handle_nlst-Safe h Below P k s p list_current-Safe
  dispatch-Safe fuel Verb.retr arg r = handle_retr-Safe h Below P k s p fuel arg (λ q w. w)
  dispatch-Safe fuel Verb.stor arg r = handle_stor-Safe h Below P k s p fuel arg (λ q w. w)
  dispatch-Safe fuel Verb.rest arg r = handle_rest-Safe arg
  dispatch-Safe fuel Verb.dele arg r = handle_dele-Safe h Below P k arg s (λ q w. w) p
  dispatch-Safe fuel Verb.mkd arg r = handle_mkd-Safe h Below P k arg s (λ q w. w) p
  dispatch-Safe fuel Verb.rmd arg r = handle_rmd-Safe h Below P k arg s (λ q w. w) p
  dispatch-Safe fuel Verb.rnfr arg r = handle_rnfr-Safe h Below P k arg s (λ q w. w) p
  dispatch-Safe fuel Verb.rnto arg r = handle_rnto-Safe h Below P k arg s (λ q w. w) r p
  dispatch-Safe fuel Verb.size arg r =
      handle_size-Safe h Below P k arg s (λ q w. w) p (list_current-Safe s.world p)
  dispatch-Safe fuel Verb.mdtm arg r = handle_mdtm-Safe h Below P k arg s (λ q w. w) p
  dispatch-Safe fuel Verb.syst arg r = send_reply-Safe h Below P k _ _ p
  dispatch-Safe fuel Verb.type arg r = send_reply-Safe h Below P k _ _ p
  dispatch-Safe fuel Verb.pwd arg r = send_reply-Safe h Below P k _ _ p
  dispatch-Safe fuel Verb.cdup arg r = send_reply-Safe h Below P k _ _ p
  dispatch-Safe fuel (Verb.other v) arg r = send_reply-Safe h Below P k _ _ p
  dispatch-Safe fuel _ arg r = p
