-- ===== src/Session/Paths/Laws.antt =====
-- src/server/session.cpp: isWithinRoot and the paths that resolvePath forms.
use nexus_ftp_engine.Prelude.{
  ℕ, zero, suc, ◌≤◌, ◌≡◌, refl, ap, true, [], ◌∷◌, ◌++◌, map, arith, length, length-append, take,
}
use nexus_ftp_engine.Bytes.{Bytes, to_lower}
use nexus_ftp_engine.Bytes.Laws.{bytes_eq_refl}
use nexus_ftp_engine.Session.{Session}
use nexus_ftp_engine.Session.Paths.{
  has_root, resolve_normal, resolve_path, is_within_root, normalise,
}

take-append_le : (n : ℕ) (p x : Bytes) → n ≤ length p → take n (p ++ x) ≡ take n p
take-append_le zero p x h = refl
take-append_le (suc n) [] x h = absurd (omega arith)
take-append_le (suc n) (c ∷ p) x h = ap (◌∷◌ c) (take-append_le n p x (omega arith))

-- What is appended to a path with the root keeps the root.
pub has_root-append : (root p x : Bytes) → has_root root p ≡ true → has_root root (p ++ x) ≡ true
unfolding has_root
has_root-append root p x h = ground (arith, length-append p x, take-append_le (length root) p x)

take_self : (p : Bytes) → take (length p) p ≡ p
take_self [] = refl
take_self (c ∷ p) = ap (◌∷◌ c) (take_self p)

pub has_root_self : (root : Bytes) → has_root root root ≡ true
unfolding has_root
has_root_self root = ground (arith, take_self root, bytes_eq_refl (map to_lower root))

resolve_normal-within :
    (s : Session) (a : Bytes)
    → is_within_root s s.current_dir ≡ true
    → is_within_root s (resolve_normal s a) ≡ true
unfolding is_within_root resolve_normal
resolve_normal-within s [] w = w
resolve_normal-within s (c ∷ a) w = ground (
  arith,
  has_root-append s.user_root_dir s.user_root_dir (c ∷ a) (has_root_self s.user_root_dir),
  has_root-append s.user_root_dir s.current_dir (92 ∷ c ∷ a),
)

-- From a current directory within the root, every argument resolves to a path that isWithinRoot
-- accepts.
pub resolve_path-within :
    (s : Session) (arg : Bytes)
    → is_within_root s s.current_dir ≡ true
    → is_within_root s (resolve_path s arg) ≡ true
unfolding resolve_path
resolve_path-within s arg w = resolve_normal-within s (normalise arg) w
