-- ===== src/Session/Paths.antt =====
-- src/server/session.cpp: isSafeFilename, resolvePath, isWithinRoot.
pub mod Laws
use nexus_ftp_engine.Prelude.{
  ℕ, Bool, true, false, not, ◌&&◌, [], ◌∷◌, ◌++◌, map, length, take, ltb, leb, ◌==◌, if◌then◌else◌,
}
use nexus_ftp_engine.Bytes.{Bytes, bytes_eq, is_empty, to_lower}
use nexus_ftp_engine.Session.{Session}

abbrev pub backslash : ℕ
backslash = 92

unfoldable pub has_control : Bytes → Bool
has_control [] = false
has_control (c ∷ s) = if ltb c 0x20 then true else has_control s

-- A NUL byte is one of the control characters.
unfoldable pub is_safe_filename : Bytes → Bool
unfolding has_control
is_safe_filename name = not (is_empty name) && not (has_control name)

-- '/' becomes '\'.
unfoldable pub normalise : Bytes → Bytes
normalise arg = map (λ c. if c == b'/' then backslash else c) arg

unfoldable pub resolve_normal : Session → Bytes → Bytes
resolve_normal s [] = s.current_dir
resolve_normal s (c ∷ a) =
    if c == backslash then s.user_root_dir ++ (c ∷ a) else s.current_dir ++ backslash ∷ c ∷ a

unfoldable pub resolve_path : Session → Bytes → Bytes
unfolding resolve_normal normalise
resolve_path s arg = resolve_normal s (normalise arg)

-- isWithinRoot, on the directory itself.
unfoldable pub has_root : Bytes → Bytes → Bool
has_root root path =
    if ltb (length path) (length root)
    then false
    else bytes_eq (map to_lower (take (length root) path)) (map to_lower root)

unfoldable pub is_within_root : Session → Bytes → Bool
unfolding has_root
is_within_root s path = has_root s.user_root_dir path
