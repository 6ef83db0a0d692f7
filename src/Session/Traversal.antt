-- ===== src/Session/Traversal.antt =====
-- src/server/session.cpp: isWithinRoot and the component ".." of a path.
use nexus_ftp_engine.Prelude.{
  ℕ, zero, suc, ◌≡◌, refl, Bool, true, false, ◌||◌, Option, none, some, List, [], ◌∷◌, ◌++◌, length,
  drop, drop-append, ◌==◌, if◌then◌else◌,
}
use nexus_ftp_engine.Bytes.{Bytes, bytes, bytes_eq, is_empty}
use nexus_ftp_engine.Session.{Session}
use nexus_ftp_engine.Session.Paths.{backslash, normalise, resolve_path, is_within_root}
use nexus_ftp_engine.Session.Paths.Laws.{has_root_self, has_root-append}

abbrev cons_component : ℕ → List Bytes → List Bytes
cons_component c [] = (c ∷ []) ∷ []
cons_component c (p ∷ ps) = (c ∷ p) ∷ ps

-- The components of a path, between its backslashes.
unfoldable pub components : Bytes → List Bytes
components [] = [] ∷ []
components (c ∷ s) = if c == backslash then [] ∷ components s else cons_component c (components s)

-- The depth after a component; `none` is above the start.
unfoldable pub descend : ℕ → Bytes → Option ℕ
descend d name =
    if bytes_eq name (bytes "..")
    then elim d [ zero ↦ none | suc k ↦ some k ]
    else if is_empty name || bytes_eq name (bytes ".")
    then some d
    else some (suc d)

-- Whether a walk along the components ever stands above its start.
unfoldable pub climbs_out : ℕ → List Bytes → Bool
unfolding descend
climbs_out d [] = false
climbs_out d (name ∷ rest) = elim (descend d name) [ none ↦ true | some k ↦ climbs_out k rest ]

-- Whether a path leaves the directory that it begins with.
unfoldable pub leaves_root : Bytes → Bytes → Bool
unfolding climbs_out components
leaves_root root path = climbs_out 0 (components (drop (length root) path))

resolve_path-climbing :
    (s : Session) (rest : Bytes)
    → resolve_path s (bytes "/../" ++ rest)
      ≡ s.user_root_dir ++ (backslash ∷ b'.' ∷ b'.' ∷ backslash ∷ normalise rest)
unfolding resolve_path bytes
resolve_path-climbing s rest = refl

-- For every session and every rest of a path, the argument "/../rest" passes isWithinRoot, and the
-- path that it stands for leaves the user's root.
pub is_within_root-climbing :
    (s : Session) (rest : Bytes)
    → let path = resolve_path s (bytes "/../" ++ rest) in
      (is_within_root s path ≡ true) × (leaves_root s.user_root_dir path ≡ true)
unfolding is_within_root leaves_root bytes bytes_eq
is_within_root-climbing s rest = rw (resolve_path-climbing s rest) (
  has_root-append s.user_root_dir s.user_root_dir _ (has_root_self s.user_root_dir),
  rw (drop-append s.user_root_dir (backslash ∷ b'.' ∷ b'.' ∷ backslash ∷ normalise rest)),
)
