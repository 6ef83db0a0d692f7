-- ===== src/Session/Navigation.antt =====
-- src/server/session.cpp: CWD, CDUP and PWD among the directories below the root.
use nexus_ftp_engine.Prelude.{
  ◌≡◌, ◌≢◌, refl, ap, true, false, none, some, [], ◌∷◌, ◌++◌, map, arith, length, length-append,
  take-append, drop-append, ltb, ◌==◌, if◌then◌else◌, Bool-cases, inl, inr,
}
use nexus_ftp_engine.Bytes.{Bytes, bytes, bytes_eq, is_empty, find_last_if}
use nexus_ftp_engine.Bytes.Laws.{Lacks, eq_of_bytes_eq}
use nexus_ftp_engine.Platform.{Host}
use nexus_ftp_engine.Platform.Files.{is_directory}
use nexus_ftp_engine.Session.{Session, Sys}
use nexus_ftp_engine.Session.Flows.{FlowAll}
use nexus_ftp_engine.Session.Paths.{backslash, normalise, has_root, resolve_path, is_within_root}
use nexus_ftp_engine.Session.Paths.Laws.{resolve_path-within}
use nexus_ftp_engine.Session.Reply.{send_reply, with_path}
use nexus_ftp_engine.Session.Directories.{
  virtual_path, parent_dir, change_dir, handle_cwd, handle_cdup,
}

find_last-Lacks : (s : Bytes) → Lacks backslash s → find_last_if (λ c. c == backslash) s ≡ none
unfolding find_last_if
find_last-Lacks [] l = refl
find_last-Lacks (c ∷ s) l = ground (arith, find_last-Lacks s l.1)

find_last-append :
    (p s : Bytes)
    → Lacks backslash s
    → find_last_if (λ c. c == backslash) (p ++ (backslash ∷ s)) ≡ some (length p)
unfolding find_last_if
find_last-append [] s l = ground (arith, find_last-Lacks s l)
find_last-append (c ∷ p) s l = ground (arith, find_last-append p s l)

-- A file name: not empty, and with no separator.
abbrev pub IsName : Bytes → Type 0
IsName name = (is_empty name ≡ false) × Lacks backslash name × Lacks b'/' name

normalise-Lacks : (s : Bytes) → Lacks b'/' s → normalise s ≡ s
unfolding normalise
normalise-Lacks [] l = refl
normalise-Lacks (c ∷ s) l = ground (arith, normalise-Lacks s l.1)

resolve_path-IsName :
    (s : Session) (name : Bytes)
    → IsName name
    → resolve_path s name ≡ s.current_dir ++ (backslash ∷ name)
unfolding resolve_path
resolve_path-IsName s [] n = cc (n.0)
resolve_path-IsName s (c ∷ name) n =
    rw (resolve_path, normalise-Lacks (c ∷ name) n.2) (ground arith)

within-length :
    (s : Session) (p : Bytes)
    → is_within_root s p ≡ true
    → ltb (length p) (length s.user_root_dir) ≡ false
unfolding is_within_root has_root
within-length s p w = ground arith

-- A directory below the root is not the root.
child-not_root :
    (s : Session) (name : Bytes)
    → is_within_root s s.current_dir ≡ true
    → bytes_eq (s.current_dir ++ (backslash ∷ name)) s.user_root_dir ≡ false
child-not_root s name w =
    elim (Bool-cases (bytes_eq (s.current_dir ++ (backslash ∷ name)) s.user_root_dir)) [
      | inl e ↦ absurd (too_long (ap length (eq_of_bytes_eq _ _ e)))
      | inr e ↦ e
    ]
  where
    too_long : length (s.current_dir ++ (backslash ∷ name)) ≢ length s.user_root_dir
    too_long e =
        ground
          (arith, length-append s.current_dir (backslash ∷ name), within-length s s.current_dir w)

-- From a directory below the root, the parent of a child is that directory.
parent_dir-child :
    (s : Session) (name : Bytes)
    → is_within_root s s.current_dir ≡ true
    → Lacks backslash name
    → parent_dir (record s { current_dir = s.current_dir ++ (backslash ∷ name) }) ≡ s.current_dir
unfolding parent_dir is_within_root
parent_dir-child s name w l = ground (
  arith,
  find_last-append s.current_dir name l,
  child-not_root s name w,
  take-append s.current_dir (backslash ∷ name),
)

module _ (h : Host) where
  open h use {World}

  -- CWD with the name of a directory that exists goes to it, and a CDUP that follows comes back to
  -- where the session stood.
  pub handle_cdup-handle_cwd :
      (s : Sys World) (name : Bytes)
      → is_within_root s.session s.session.current_dir ≡ true
      → IsName name
      → (is_directory h (resolve_path s.session name) s.world).0 ≡ true
      → FlowAll
          (λ t.
            (t.session.current_dir ≡ s.session.current_dir ++ (backslash ∷ name))
            × FlowAll (λ u. u.session.current_dir ≡ s.session.current_dir) (handle_cdup h t))
          (handle_cwd h name s)
  unfolding handle_cwd change_dir handle_cdup send_reply with_path
  handle_cdup-handle_cwd s name w n found = ground (
    arith,
    n.0,
    found,
    resolve_path-within s.session name w,
    resolve_path-IsName s.session name n,
    parent_dir-child s.session name w n.1,
  )

-- PWD shows a directory below the user's root as a path with slashes that begins at "/" and does not
-- depend on where the root is.
virtual_path-below :
    (s : Session) (x : Bytes)
    → s.current_dir ≡ s.user_root_dir ++ x
    → virtual_path s
      ≡ (if is_empty x then bytes "/" else map (λ c. if c == backslash then b'/' else c) x)
unfolding virtual_path bytes
virtual_path-below s [] e = ground (arith, length-append s.user_root_dir [])
virtual_path-below s (c ∷ x) e =
    ground (arith, length-append s.user_root_dir (c ∷ x), drop-append s.user_root_dir (c ∷ x))
