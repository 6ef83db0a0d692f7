-- ===== src/Platform/Managed/Scopes.antt =====
-- src/common/platform.h, ManagedSocket: what is left of the sockets of a scope at its end.
use nexus_ftp_engine.Prelude.{
  ℕ, zero, suc, ◌+◌, ◌<◌, ◌≤◌, ◌≡◌, refl, sym, ap, subst, ◌∙◌, none, List, [], ◌∷◌, get_or, set,
  length, length-set, total, arith, Bool-cases, inl, inr, same_or_other,
}
use nexus_ftp_engine.Platform.{SocketHandle}
use nexus_ftp_engine.Platform.Managed.{
  Wrappers, fd_at, construct, valid, close_at, release_at, move_construct, Command, makes, moves_in,
  assigns, closes, releases, exec, exec_all, destroy_all, no_wrappers,
}
use nexus_ftp_engine.Platform.Managed.Ownership.{
  is_fd, owns, balance, made, InScope, close_at-balance, release_at-balance, move_assign-balance,
  close_at-none, length-close_at, length-move_assign, total-set_fd,
}

exec_all-balance :
    (fd : ℕ) (cs : List Command) (s : Wrappers)
    → InScope cs (length s.fds)
    → balance fd (exec_all cs s) ≡ balance fd s + made fd cs
unfolding exec_all exec construct move_construct release_at
exec_all-balance fd [] s scope = omega arith
exec_all-balance fd (makes sock ∷ cs) s scope =
    omega (arith, exec_all-balance fd cs (construct sock s) scope)
exec_all-balance fd (moves_in j ∷ cs) s (h, scope) = omega (
  arith,
  exec_all-balance fd cs (move_construct j s)
      (subst (λ n. InScope cs (suc n)) (sym (length-set s.fds j none)) scope),
  total-set_fd fd s j none h,
)
exec_all-balance fd (assigns i j ∷ cs) s (h, k, scope) = omega (
  arith,
  exec_all-balance fd cs (exec (assigns i j) s)
      (subst (InScope cs) (sym (length-move_assign i j s)) scope),
  move_assign-balance fd s i j h k,
)
exec_all-balance fd (closes i ∷ cs) s (h, scope) = omega (
  arith,
  exec_all-balance fd cs (close_at i s) (subst (InScope cs) (sym (length-close_at i s)) scope),
  close_at-balance fd s i h,
)
exec_all-balance fd (releases i ∷ cs) s (h, scope) = omega (
  arith,
  exec_all-balance fd cs (release_at i s)
      (subst (InScope cs) (sym (length-set s.fds i none)) scope),
  release_at-balance fd s i h,
)

-- The destructors.
destroy_all-balance :
    (fd n : ℕ) (s : Wrappers) → n ≤ length s.fds → balance fd (destroy_all n s) ≡ balance fd s
unfolding destroy_all
destroy_all-balance fd zero s h = refl
destroy_all-balance fd (suc n) s h =
    destroy_all-balance fd n (close_at n s) (omega (arith, h, length-close_at n s))
    ∙ close_at-balance fd s n (omega (arith, h))

close_at-keeps : (i k : ℕ) (s : Wrappers) → fd_at s i ≡ none → fd_at (close_at k s) i ≡ none
unfolding close_at
close_at-keeps i k s e = elim (Bool-cases (valid (fd_at s k))) [
  | inl v ↦ rw v (stays s.fds i k e)
  | inr v ↦ rw v e
]
  where
    stays :
        (fds : List SocketHandle) (i k : ℕ)
        → get_or fds i none ≡ none
        → get_or (set fds k none) i none ≡ none
    stays [] i k e = refl
    stays (x ∷ fds) zero zero e = refl
    stays (x ∷ fds) (suc i) zero e = e
    stays (x ∷ fds) zero (suc k) e = e
    stays (x ∷ fds) (suc i) (suc k) e = stays fds i k e

destroy_all-keeps : (i n : ℕ) (s : Wrappers) → fd_at s i ≡ none → fd_at (destroy_all n s) i ≡ none
unfolding destroy_all
destroy_all-keeps i zero s e = e
destroy_all-keeps i (suc n) s e = destroy_all-keeps i n (close_at n s) (close_at-keeps i n s e)

destroy_all-empties :
    (i n : ℕ) (s : Wrappers) → i < n → n ≤ length s.fds → fd_at (destroy_all n s) i ≡ none
unfolding destroy_all
destroy_all-empties i zero s h k = absurd (omega (arith, h))
destroy_all-empties i (suc n) s h k = elim (same_or_other i n) [
  | inl e ↦
      destroy_all-keeps i n (close_at n s)
        (subst (λ m. fd_at (close_at m s) i ≡ none) e (close_at-none i s (omega (arith, h, k))))
  | inr other ↦
      destroy_all-empties i n (close_at n s) (omega (arith, h, other))
        (omega (arith, k, length-close_at n s))
]

total-none :
    (fd : ℕ) (fds : List SocketHandle)
    → ((i : ℕ) → i < length fds → get_or fds i none ≡ none)
    → total (owns fd) fds ≡ 0
total-none fd [] e = refl
total-none fd (x ∷ fds) e = omega (
  arith,
  ap (owns fd) (e 0 (omega arith)),
  total-none fd fds (λ i h. e (suc i) (omega (arith, h))),
)

length-destroy_all : (n : ℕ) (s : Wrappers) → length (destroy_all n s).fds ≡ length s.fds
unfolding destroy_all
length-destroy_all zero s = refl
length-destroy_all (suc n) s = length-destroy_all n (close_at n s) ∙ length-close_at n s

-- A whole scope, with the destructors at its end.
abbrev pub whole_scope : List Command → Wrappers
whole_scope cs = let s = exec_all cs no_wrappers in destroy_all (length s.fds) s

-- A scope that makes one wrapper for a socket, and then moves, assigns, closes and releases wrappers
-- in any way, has at its end, behind the destructors, either closed the socket once or handed it out
-- by release() once, and not both: no socket is closed twice, and none is lost.
pub whole_scope-once :
    (fd : ℕ) (cs : List Command)
    → InScope cs 0
    → made fd cs ≡ 1
    → total (is_fd fd) (whole_scope cs).closed + total (is_fd fd) (whole_scope cs).released ≡ 1
whole_scope-once fd cs scope once =
    let s = exec_all cs no_wrappers in
    omega (
      arith,
      once,
      exec_all-balance fd cs no_wrappers scope,
      destroy_all-balance fd (length s.fds) s (omega arith),
      total-none fd (destroy_all (length s.fds) s).fds (λ i h.
          destroy_all-empties i (length s.fds) s
            (omega (arith, h, length-destroy_all (length s.fds) s)) (omega arith)),
    )
