-- ===== src/Platform/Managed/Ownership.antt =====
-- src/common/platform.h, ManagedSocket: every socket has one owner, and is closed or released once.
use nexus_ftp_engine.Prelude.{
  ℕ, suc, ◌+◌, ◌<◌, ◌≡◌, ◌≢◌, refl, sym, subst, ◌∙◌, false, none, some, List, [], ◌∷◌,
  get_or-set_same, get_or-set_other, set, length, length-set, total, total-from, ◌==◌,
  if◌then◌else◌, arith, Bool-cases, inl, inr,
}
use nexus_ftp_engine.Platform.{SocketHandle}
use nexus_ftp_engine.Platform.Managed.{
  Wrappers, fd_at, set_fd, valid, log_handle, close_at, release_at, move_assign, Command, makes,
  moves_in, assigns, closes, releases,
}

abbrev pub is_fd : ℕ → ℕ → ℕ
is_fd fd n = if n == fd then 1 else 0

abbrev pub owns : ℕ → SocketHandle → ℕ
owns fd none = 0
owns fd (some n) = is_fd fd n

-- How often a socket is owned, closed and released, together.
abbrev pub balance : ℕ → Wrappers → ℕ
balance fd s = total (owns fd) s.fds + total (is_fd fd) s.closed + total (is_fd fd) s.released

-- How often a wrapper is made for a socket.
abbrev pub made : ℕ → List Command → ℕ
made fd [] = 0
made fd (makes sock ∷ cs) = owns fd sock + made fd cs
made fd (c ∷ cs) = made fd cs

-- Every command names wrappers of the scope, of which there are `n`.
abbrev pub InScope : List Command → ℕ → Type 0
InScope [] n = Unit {0}
InScope (makes sock ∷ cs) n = InScope cs (suc n)
InScope (moves_in j ∷ cs) n = (j < n) × InScope cs (suc n)
InScope (assigns i j ∷ cs) n = (i < n) × (j < n) × InScope cs n
InScope (closes i ∷ cs) n = (i < n) × InScope cs n
InScope (releases i ∷ cs) n = (i < n) × InScope cs n

log_handle-total :
    (fd : ℕ) (sock : SocketHandle) (log : List ℕ)
    → total (is_fd fd) (log_handle sock log) ≡ owns fd sock + total (is_fd fd) log
unfolding log_handle
log_handle-total fd none log = omega arith
log_handle-total fd (some n) log = refl

pub total-set_fd :
    (fd : ℕ) (s : Wrappers) (i : ℕ) (sock : SocketHandle)
    → i < length s.fds
    → total (owns fd) (set s.fds i sock) + owns fd (fd_at s i)
      ≡ total (owns fd) s.fds + owns fd sock
total-set_fd fd s i sock h = total-from (owns fd) s.fds i (fd_at s i) sock none h refl

pub close_at-balance :
    (fd : ℕ) (s : Wrappers) (i : ℕ) → i < length s.fds → balance fd (close_at i s) ≡ balance fd s
unfolding close_at
close_at-balance fd s i h = elim (Bool-cases (valid (fd_at s i))) [
  | inl e ↦
      rw e (omega (arith, total-set_fd fd s i none h, log_handle-total fd (fd_at s i) s.closed))
  | inr e ↦ rw e refl
]

pub release_at-balance :
    (fd : ℕ) (s : Wrappers) (i : ℕ) → i < length s.fds → balance fd (release_at i s) ≡ balance fd s
unfolding release_at
release_at-balance fd s i h =
    omega (arith, total-set_fd fd s i none h, log_handle-total fd (fd_at s i) s.released)

pub length-close_at : (i : ℕ) (s : Wrappers) → length (close_at i s).fds ≡ length s.fds
unfolding close_at
length-close_at i s = elim (Bool-cases (valid (fd_at s i))) [
  | inl e ↦ rw e (length-set s.fds i none)
  | inr e ↦ rw e refl
]

invalid : (sock : SocketHandle) → valid sock ≡ false → sock ≡ none
unfolding valid
invalid none e = refl
invalid (some fd) e = ground (arith, e)

-- A closed wrapper is empty.
pub close_at-none : (i : ℕ) (s : Wrappers) → i < length s.fds → fd_at (close_at i s) i ≡ none
unfolding close_at
close_at-none i s h = elim (Bool-cases (valid (fd_at s i))) [
  | inl e ↦ rw e (get_or-set_same s.fds i none none h)
  | inr e ↦ rw e (invalid (fd_at s i) e)
]

-- Moving between two wrappers, of which the first is empty.
move-balance :
    (fd : ℕ) (s : Wrappers) (i j : ℕ)
    → i < length s.fds
    → j < length s.fds
    → i ≢ j
    → fd_at s i ≡ none
    → balance fd (set_fd j none (set_fd i (fd_at s j) s)) ≡ balance fd s
move-balance fd s i j h k other e = omega (
  arith,
  total-from (owns fd) s.fds i none (fd_at s j) none h e,
  total-from (owns fd) (set s.fds i (fd_at s j)) j (fd_at s j) none none
      (subst (λ n. j < n) (sym (length-set s.fds i (fd_at s j))) k)
      (get_or-set_other s.fds i j (fd_at s j) none other),
)

pub move_assign-balance :
    (fd : ℕ) (s : Wrappers) (i j : ℕ)
    → i < length s.fds
    → j < length s.fds
    → balance fd (move_assign i j s) ≡ balance fd s
unfolding move_assign
move_assign-balance fd s i j h k = elim (Bool-cases (i == j)) [
  | inl e ↦ rw e refl
  | inr e ↦ rw e (
      move-balance fd (close_at i s) i j (subst (λ n. i < n) (sym (length-close_at i s)) h)
        (subst (λ n. j < n) (sym (length-close_at i s)) k) (λ same. ground (arith, e, same))
        (close_at-none i s h)
      ∙ close_at-balance fd s i h)
]

pub length-move_assign : (i j : ℕ) (s : Wrappers) → length (move_assign i j s).fds ≡ length s.fds
unfolding move_assign
length-move_assign i j s = elim (Bool-cases (i == j)) [
  | inl e ↦ rw e refl
  | inr e ↦ rw e (
      length-set (set (close_at i s).fds i (fd_at (close_at i s) j)) j none
      ∙ length-set (close_at i s).fds i (fd_at (close_at i s) j)
      ∙ length-close_at i s)
]
