-- ===== src/Session/Reply.antt =====
-- src/server/session.cpp: sendReply, recvCommand and the checks that most handlers begin with.
use nexus_ftp_engine.Prelude.{not, none, some, [], ◌∷◌, ◌++◌, if◌then◌else◌}
use nexus_ftp_engine.Bytes.{Bytes, bytes}
use nexus_ftp_engine.Platform.{Host}
use nexus_ftp_engine.Platform.Sockets.{send_data, recv_data}
use nexus_ftp_engine.Session.{Sys, Flow, next, set_world}
use nexus_ftp_engine.Session.Paths.{is_safe_filename, resolve_path, is_within_root}

abbrev pub crlf : Bytes
crlf = 13 ∷ 10 ∷ []

module _ (h : Host) where
  open h use {World}

  -- Session::sendReply
  unfoldable pub send_reply : Bytes → Sys World → Sys World
  send_reply reply s =
      let (sent, w) = send_data h s.session.socket (reply ++ crlf) s.world in set_world w s

  -- sendReply(...); return;
  abbrev pub answer : Bytes → Sys World → Flow (Sys World)
  answer reply s = next (send_reply reply s)

  -- Session::recvCommand: a buffer of 514 bytes takes 513.
  unfoldable pub recv_command : Sys World → Bytes × Sys World
  recv_command s =
      let (received, w) = recv_data h s.session.socket 513 s.world in
      (elim received [ none ↦ [] | some raw ↦ raw ], set_world w s)

  -- resolvePath, and the refusal of a path that isWithinRoot rejects.
  unfoldable pub with_path :
      Bytes → (Bytes → Sys World → Flow (Sys World)) → Sys World → Flow (Sys World)
  with_path arg k s =
      if not (is_within_root s.session (resolve_path s.session arg))
      then answer (bytes "550 Permission denied") s
      else k (resolve_path s.session arg) s

  -- The same behind the refusal of a name that isSafeFilename rejects.
  unfoldable pub with_filename :
      Bytes → (Bytes → Sys World → Flow (Sys World)) → Sys World → Flow (Sys World)
  unfolding with_path
  with_filename arg k s =
      if not (is_safe_filename arg)
      then answer (bytes "501 Invalid filename") s
      else with_path arg k s
