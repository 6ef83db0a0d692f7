-- ===== src/Session/Directories.antt =====
-- src/server/session.cpp: PWD, CWD, CDUP, MKD, RMD, SIZE and MDTM.
use nexus_ftp_engine.Prelude.{
  ℕ, Bool, true, not, ◌&&◌, List, Option, none, some, [], ◌∷◌, ◌++◌, map, length, take, drop, ltb,
  ◌==◌, if◌then◌else◌,
}
use nexus_ftp_engine.Bytes.{Bytes, bytes, bytes_eq, is_empty, find_last_if}
use nexus_ftp_engine.Bytes.Decimal.{to_string}
use nexus_ftp_engine.Platform.{Host, FileInfo}
use nexus_ftp_engine.Platform.Files.{
  list_directory, is_directory, path_exists, create_dir, remove_dir, get_file_mod_time,
}
use nexus_ftp_engine.Session.{Session, Sys, Flow, set_world}
use nexus_ftp_engine.Session.Paths.{backslash, is_within_root}
use nexus_ftp_engine.Session.Reply.{answer, with_path, with_filename}

-- The path that PWD shows.
unfoldable pub virtual_path : Session → Bytes
virtual_path s =
    map (λ c. if c == backslash then b'/' else c)
      (if ltb (length s.user_root_dir) (length s.current_dir)
        then drop (length s.user_root_dir) s.current_dir
        else bytes "/")

-- The current directory after CDUP.
unfoldable pub parent_dir : Session → Bytes
parent_dir s = elim (find_last_if (λ c. c == backslash) s.current_dir) [
  | none ↦ s.current_dir
  | some p ↦
      if not (bytes_eq s.current_dir s.user_root_dir) && is_within_root s (take p s.current_dir)
      then take p s.current_dir
      else s.current_dir
]

-- The first plain file with the name: its size.
unfoldable pub size_of : Bytes → List FileInfo → Option ℕ
size_of name [] = none
size_of name (e ∷ entries) =
    if bytes_eq e.name name && not e.is_directory then some e.size else size_of name entries

module _ (h : Host) where
  open h use {World}

  unfoldable pub handle_pwd : Sys World → Flow (Sys World)
  unfolding virtual_path
  handle_pwd s =
      answer h (bytes "257 \"" ++ virtual_path s.session ++ bytes "\" is current directory") s

  -- handleCwd for a resolved path within the root.
  unfoldable pub change_dir : Bytes → Bytes → Sys World → Flow (Sys World)
  change_dir arg p s =
      let (found, w) = is_directory h p s.world in
      if found
      then answer h (bytes "250 Directory changed.")
          (record s { session = record s.session { current_dir = p }; world = w })
      else answer h (bytes "550 Directory not found: " ++ arg) (set_world w s)

  unfoldable pub handle_cwd : Bytes → Sys World → Flow (Sys World)
  unfolding change_dir
  handle_cwd arg s =
      if is_empty arg
      then answer h (bytes "501 Path required") s
      else with_path h arg (change_dir arg) s

  unfoldable pub handle_cdup : Sys World → Flow (Sys World)
  unfolding parent_dir
  handle_cdup s =
      answer h (bytes "250 Directory changed to parent.")
        (record s { session = record s.session { current_dir = parent_dir s.session } })

  -- handleSize lists the current directory and looks for the argument itself there.
  unfoldable pub reply_size : Bytes → Bytes → Sys World → Flow (Sys World)
  reply_size arg p s =
      let (entries, w) = list_directory h s.session.current_dir s.world in
      elim (size_of arg entries) [
        | none ↦ answer h (bytes "550 File not found") (set_world w s)
        | some n ↦ answer h (bytes "213 " ++ to_string n) (set_world w s)
      ]

  unfoldable pub handle_size : Bytes → Sys World → Flow (Sys World)
  unfolding reply_size
  handle_size arg = with_filename h arg (reply_size arg)

  -- !pathExists(p) || isDirectory(p)
  unfoldable pub is_missing : Bytes → World → Bool × World
  is_missing p w =
      let (exists, w1) = path_exists h p w in
      let (dir, w2) = is_directory h p w1 in if exists then (dir, w2) else (true, w1)

  unfoldable pub reply_mod_time : Bytes → Bytes → Sys World → Flow (Sys World)
  unfolding is_missing
  reply_mod_time arg p s =
      let (missing, w) = is_missing p s.world in
      let (mod_time, w1) = get_file_mod_time h p w in
      if missing
      then answer h (bytes "550 File not found: " ++ arg) (set_world w s)
      else if is_empty mod_time
      then answer h (bytes "550 Could not get modification time") (set_world w1 s)
      else answer h (bytes "213 " ++ mod_time) (set_world w1 s)

  unfoldable pub handle_mdtm : Bytes → Sys World → Flow (Sys World)
  unfolding reply_mod_time
  handle_mdtm arg = with_filename h arg (reply_mod_time arg)

  unfoldable pub make_dir : Bytes → Bytes → Sys World → Flow (Sys World)
  make_dir arg p s =
      let (created, w) = create_dir h p s.world in
      if created
      then answer h (bytes "257 \"" ++ arg ++ bytes "\" directory created.") (set_world w s)
      else answer h (bytes "550 Could not create directory.") (set_world w s)

  unfoldable pub handle_mkd : Bytes → Sys World → Flow (Sys World)
  unfolding make_dir
  handle_mkd arg = with_filename h arg (make_dir arg)

  unfoldable pub delete_dir : Bytes → Sys World → Flow (Sys World)
  delete_dir p s =
      let (removed, w) = remove_dir h p s.world in
      if removed
      then answer h (bytes "250 Directory removed.") (set_world w s)
      else answer h (bytes "550 Could not remove directory.") (set_world w s)

  unfoldable pub handle_rmd : Bytes → Sys World → Flow (Sys World)
  unfolding delete_dir
  handle_rmd arg = with_filename h arg delete_dir
