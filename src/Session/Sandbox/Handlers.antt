-- ===== src/Session/Sandbox/Handlers.antt =====
-- src/server/session.cpp: the paths of the handlers of directories and files.
use nexus_ftp_engine.Prelude.{
  ◌≡◌, Bool, true, false, not, if_both, if_cases, Option-cases, Bool-cases, inl, inr,
}
use nexus_ftp_engine.Bytes.{Bytes, is_empty}
use nexus_ftp_engine.Platform.{Host}
use nexus_ftp_engine.Platform.Sockets.{send_data}
use nexus_ftp_engine.Platform.Files.{
  delete_file, path_exists, rename_file, is_directory, list_directory, create_dir, remove_dir,
  get_file_mod_time,
}
use nexus_ftp_engine.Session.{Session, Sys, Flow}
use nexus_ftp_engine.Session.Paths.{is_safe_filename, resolve_path, is_within_root}
use nexus_ftp_engine.Session.Flows.{FlowAll}
use nexus_ftp_engine.Session.Reply.{send_reply, with_path, with_filename}
use nexus_ftp_engine.Session.Files.{
  remove_file, handle_dele, note_rename, handle_rnfr, rename_to, handle_rnto,
}
use nexus_ftp_engine.Session.Directories.{
  change_dir, handle_cwd, size_of, reply_size, handle_size, is_missing, reply_mod_time, handle_mdtm,
  make_dir, handle_mkd, delete_dir, handle_rmd,
}
use nexus_ftp_engine.Session.Sandbox.Calls.{Survives}

module _ (h : Host) (Allowed : Bytes → Type 0) (P : h.World → Type 0)
    (k : Survives h Allowed P) where
  open h use {World}

  abbrev pub Safe : Flow (Sys World) → Type 0
  Safe f = FlowAll (λ t. P t.world) f

  pub send_reply-Safe : (r : Bytes) (s : Sys World) → P s.world → P (send_reply h r s).world
  unfolding send_reply send_data
  send_reply-Safe r s p = k.send_at _ _ _ p

  -- What the current root allows.
  abbrev pub Allows : Session → Type 0
  Allows s = (p : Bytes) → is_within_root s p ≡ true → Allowed p

  pub with_path-Safe :
      (arg : Bytes) (f : Bytes → Sys World → Flow (Sys World)) (s : Sys World)
      → Allows s.session
      → P s.world
      → ((p : Bytes) → Allowed p → Safe (f p s))
      → Safe (with_path h arg f s)
  unfolding with_path
  with_path-Safe arg f s a p handled =
      elim (Bool-cases (is_within_root s.session (resolve_path s.session arg))) [
        | inl inside ↦ rw (inside, with_path) (handled _ (a _ inside))
        | inr outside ↦ rw (outside, with_path) (send_reply-Safe _ s p)
      ]

  pub with_filename-Safe :
      (arg : Bytes) (f : Bytes → Sys World → Flow (Sys World)) (s : Sys World)
      → Allows s.session
      → P s.world
      → ((p : Bytes) → Allowed p → Safe (f p s))
      → Safe (with_filename h arg f s)
  unfolding with_filename
  with_filename-Safe arg f s a p handled =
      if_both Safe (not (is_safe_filename arg)) (send_reply-Safe _ s p)
        (with_path-Safe arg f s a p handled)

  remove_file-Safe : (q : Bytes) (s : Sys World) → P s.world → Allowed q → Safe (remove_file h q s)
  unfolding remove_file delete_file
  remove_file-Safe q s p a = elim (Bool-cases (h.remove q s.world).0) [
    | inl e ↦ rw (e, remove_file) (send_reply-Safe _ _ removed)
    | inr e ↦ rw (e, remove_file) (send_reply-Safe _ _ removed)
  ]
    where
      removed : P (h.remove q s.world).1
      removed = k.remove_at q s.world a p

  make_dir-Safe :
      (arg q : Bytes) (s : Sys World) → P s.world → Allowed q → Safe (make_dir h arg q s)
  unfolding make_dir create_dir
  make_dir-Safe arg q s p a = elim (Bool-cases (h.mkdir q s.world).0) [
    | inl e ↦ rw (e, make_dir) (send_reply-Safe _ _ made)
    | inr e ↦ rw (e, make_dir) (send_reply-Safe _ _ made)
  ]
    where
      made : P (h.mkdir q s.world).1
      made = k.mkdir_at q s.world a p

  delete_dir-Safe : (q : Bytes) (s : Sys World) → P s.world → Allowed q → Safe (delete_dir h q s)
  unfolding delete_dir remove_dir
  delete_dir-Safe q s p a = elim (Bool-cases (h.rmdir q s.world).0) [
    | inl e ↦ rw (e, delete_dir) (send_reply-Safe _ _ removed)
    | inr e ↦ rw (e, delete_dir) (send_reply-Safe _ _ removed)
  ]
    where
      removed : P (h.rmdir q s.world).1
      removed = k.rmdir_at q s.world a p

  note_rename-Safe : (q : Bytes) (s : Sys World) → P s.world → Allowed q → Safe (note_rename h q s)
  unfolding note_rename path_exists
  note_rename-Safe q s p a = elim (Bool-cases (path_exists h q s.world).0) [
    | inl e ↦ rw (e, note_rename) (send_reply-Safe _ _ found)
    | inr e ↦ rw (e, note_rename) (send_reply-Safe _ _ found)
  ]
    where
      found : P (h.stat q s.world).1
      found = k.stat_at q s.world a p

  rename_to-Safe :
      (q : Bytes) (s : Sys World)
      → P s.world
      → Allowed s.session.rename_from
      → Allowed q
      → Safe (rename_to h q s)
  unfolding rename_to rename_file
  rename_to-Safe q s p from a = elim (Bool-cases (h.rename s.session.rename_from q s.world).0) [
    | inl e ↦ rw (e, rename_to) (send_reply-Safe _ _ renamed)
    | inr e ↦ rw (e, rename_to) (send_reply-Safe _ _ renamed)
  ]
    where
      renamed : P (h.rename s.session.rename_from q s.world).1
      renamed = k.rename_at s.session.rename_from q s.world from a p

  pub handle_rnto-Safe :
      (arg : Bytes) (s : Sys World)
      → Allows s.session
      → (is_empty s.session.rename_from ≡ false → Allowed s.session.rename_from)
      → P s.world
      → Safe (handle_rnto h arg s)
  unfolding handle_rnto
  handle_rnto-Safe arg s a from p =
      if_cases Safe (is_empty s.session.rename_from) (λ _. send_reply-Safe _ s p)
        (λ e. with_filename-Safe arg (rename_to h) s a p (λ q. rename_to-Safe q s p (from e)))

  change_dir-Safe :
      (arg q : Bytes) (s : Sys World) → P s.world → Allowed q → Safe (change_dir h arg q s)
  unfolding change_dir is_directory
  change_dir-Safe arg q s p a = elim (Bool-cases (is_directory h q s.world).0) [
    | inl e ↦ rw (e, change_dir) (send_reply-Safe _ _ found)
    | inr e ↦ rw (e, change_dir) (send_reply-Safe _ _ found)
  ]
    where
      found : P (h.stat q s.world).1
      found = k.stat_at q s.world a p

  pub handle_cwd-Safe :
      (arg : Bytes) (s : Sys World) → Allows s.session → P s.world → Safe (handle_cwd h arg s)
  unfolding handle_cwd
  handle_cwd-Safe arg s a p =
      if_both Safe (is_empty arg) (send_reply-Safe _ s p)
        (with_path-Safe arg (change_dir h arg) s a p (λ q. change_dir-Safe arg q s p))

  pub is_missing-Safe : (q : Bytes) (w : World) → Allowed q → P w → P (is_missing h q w).1
  unfolding is_missing path_exists is_directory
  is_missing-Safe q w a p =
      if_both {A = Bool × World} (λ r. P r.1) (path_exists h q w).0
        (k.stat_at q _ a (k.stat_at q w a p)) (k.stat_at q w a p)

  reply_mod_time-Safe :
      (arg q : Bytes) (s : Sys World) → P s.world → Allowed q → Safe (reply_mod_time h arg q s)
  unfolding reply_mod_time get_file_mod_time
  reply_mod_time-Safe arg q s p a = elim (Bool-cases (is_missing h q s.world).0) [
    | inl gone ↦ rw (gone, reply_mod_time) (send_reply-Safe _ _ looked)
    | inr there ↦
        rw (there, reply_mod_time)
          (elim (Bool-cases (is_empty (get_file_mod_time h q (is_missing h q s.world).1).0)) [
            | inl e ↦ rw (e, reply_mod_time) (send_reply-Safe _ _ read)
            | inr e ↦ rw (e, reply_mod_time) (send_reply-Safe _ _ read)
          ])
  ]
    where
      looked : P (is_missing h q s.world).1
      looked = is_missing-Safe q s.world a p

      read : P (h.stat q (is_missing h q s.world).1).1
      read = k.stat_at q _ a looked

  reply_size-Safe :
      (arg q : Bytes) (s : Sys World)
      → P s.world
      → P (list_directory h s.session.current_dir s.world).1
      → Safe (reply_size h arg q s)
  unfolding reply_size
  reply_size-Safe arg q s p listed =
      elim (Option-cases (size_of arg (list_directory h s.session.current_dir s.world).0)) [
        | inl e ↦ rw (e, reply_size) (send_reply-Safe _ _ listed)
        | inr (n, e) ↦ rw (e, reply_size) (send_reply-Safe _ _ listed)
      ]

  module _ (arg : Bytes) (s : Sys World) (a : Allows s.session) (p : P s.world) where
    pub handle_dele-Safe : Safe (handle_dele h arg s)
    unfolding handle_dele
    handle_dele-Safe = with_filename-Safe arg (remove_file h) s a p (λ q. remove_file-Safe q s p)

    pub handle_mkd-Safe : Safe (handle_mkd h arg s)
    unfolding handle_mkd
    handle_mkd-Safe = with_filename-Safe arg (make_dir h arg) s a p (λ q. make_dir-Safe arg q s p)

    pub handle_rmd-Safe : Safe (handle_rmd h arg s)
    unfolding handle_rmd
    handle_rmd-Safe = with_filename-Safe arg (delete_dir h) s a p (λ q. delete_dir-Safe q s p)

    pub handle_rnfr-Safe : Safe (handle_rnfr h arg s)
    unfolding handle_rnfr
    handle_rnfr-Safe = with_filename-Safe arg (note_rename h) s a p (λ q. note_rename-Safe q s p)

    pub handle_mdtm-Safe : Safe (handle_mdtm h arg s)
    unfolding handle_mdtm
    handle_mdtm-Safe =
        with_filename-Safe arg (reply_mod_time h arg) s a p (λ q. reply_mod_time-Safe arg q s p)

    pub handle_size-Safe :
        P (list_directory h s.session.current_dir s.world).1 → Safe (handle_size h arg s)
    unfolding handle_size
    handle_size-Safe listed =
        with_filename-Safe arg (reply_size h arg) s a p (λ q _. reply_size-Safe arg q s p listed)
