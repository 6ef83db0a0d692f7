-- ===== src/Threads/Handles/Joins.antt =====
-- src/common/win32_threads.h, Windows: every thread that a Thread wraps is waited for, once.
use nexus_ftp_engine.Prelude.{
  ℕ, zero, suc, ◌<◌, ◌≡◌, refl, sym, ap, subst, ◌∙◌, Bool, true, false, Option, none, some, List,
  [], ◌∷◌, set_same, length, length-set, total, ◌==◌, ==_iff, if◌then◌else◌, arith, if_both, map,
}
use nexus_ftp_engine.Platform.Managed.{
  Wrappers, fd_at, set_fd, construct, valid, log_handle, close_at, move_construct, move_assign,
  Command, makes, moves_in, assigns, closes, exec, exec_all, destroy_all, no_wrappers,
}
use nexus_ftp_engine.Platform.Managed.Ownership.{
  is_fd, made, InScope, close_at-none, length-close_at, length-move_assign,
}
use nexus_ftp_engine.Platform.Managed.Scopes.{whole_scope, whole_scope-once}
use nexus_ftp_engine.Threads.Handles.{
  joinable, join_handle, join_at, assign_thread, ThreadCommand, starts, moves_thread,
  assigns_thread, joins, exec_thread, exec_threads, join_all, thread_scope,
}

-- The same on sockets: an assignment to itself is a close.
abbrev pub command_of : ThreadCommand → Command
command_of (starts handle) = makes (some handle)
command_of (moves_thread j) = moves_in j
command_of (assigns_thread i j) = if i == j then closes i else assigns i j
command_of (joins i) = closes i

join_handle-valid :
    (i : ℕ) (s : Wrappers) (fd : Option ℕ)
    → join_handle fd i s
      ≡ (if valid fd then set_fd i none (record s { closed = log_handle fd s.closed }) else s)
unfolding join_handle valid
join_handle-valid i s none = refl
join_handle-valid i s (some handle) = refl

join_at-close_at : (i : ℕ) (s : Wrappers) → join_at i s ≡ close_at i s
unfolding join_at close_at
join_at-close_at i s = join_handle-valid i s (fd_at s i)

-- The test of joinable() changes nothing.
joinable-join_handle :
    (i : ℕ) (s : Wrappers) (fd : Option ℕ)
    → (if joinable fd then join_handle fd i s else s) ≡ join_handle fd i s
unfolding joinable join_handle
joinable-join_handle i s none = refl
joinable-join_handle i s (some handle) = refl

joinable-close_at :
    (i : ℕ) (s : Wrappers) → (if joinable (fd_at s i) then join_at i s else s) ≡ close_at i s
unfolding join_at
joinable-close_at i s = joinable-join_handle i s (fd_at s i) ∙ join_at-close_at i s

assign_thread-itself :
    (i : ℕ) (s : Wrappers) → i < length s.fds → assign_thread i i s ≡ close_at i s
unfolding assign_thread
assign_thread-itself i s h =
    ap (λ t. set_fd i none (set_fd i (fd_at t i) t)) (joinable-close_at i s)
    ∙ ap (λ fds. set_fd i none (record (close_at i s) { fds = fds }))
        (set_same (close_at i s).fds i (fd_at (close_at i s) i) none refl)
    ∙ ap (λ fds. record (close_at i s) { fds = fds })
        (set_same (close_at i s).fds i none none (close_at-none i s h))

assign_thread-move_assign :
    (i j : ℕ) (s : Wrappers) → (i == j) ≡ false → assign_thread i j s ≡ move_assign i j s
unfolding assign_thread move_assign
assign_thread-move_assign i j s e =
    rw e (ap (λ t. set_fd j none (set_fd i (fd_at t j) t)) (joinable-close_at i s))

-- An assignment, with the outcome of the test for itself.
assign_thread-exec :
    (i j : ℕ) (cs : List Command) (s : Wrappers) (same : Bool)
    → (i == j) ≡ same
    → InScope ((if same then closes i else assigns i j) ∷ cs) (length s.fds)
    → (assign_thread i j s ≡ exec (if same then closes i else assigns i j) s)
      × InScope cs (length (exec (if same then closes i else assigns i j) s).fds)
unfolding exec
assign_thread-exec i j cs s true e scope = (
  ap (λ k. assign_thread i k s) (sym ((==_iff i j).0 e)) ∙ assign_thread-itself i s scope.0,
  subst (InScope cs) (sym (length-close_at i s)) scope.1,
)
assign_thread-exec i j cs s false e (h, k, scope) =
    (assign_thread-move_assign i j s e, subst (InScope cs) (sym (length-move_assign i j s)) scope)

exec_thread-exec :
    (c : ThreadCommand) (cs : List Command) (s : Wrappers)
    → InScope (command_of c ∷ cs) (length s.fds)
    → (exec_thread c s ≡ exec (command_of c) s) × InScope cs (length (exec (command_of c) s).fds)
unfolding exec_thread exec construct move_construct
exec_thread-exec (starts handle) cs s scope = (refl, scope)
exec_thread-exec (moves_thread j) cs s scope =
    (refl, subst (λ n. InScope cs (suc n)) (sym (length-set s.fds j none)) scope.1)
exec_thread-exec (assigns_thread i j) cs s scope = assign_thread-exec i j cs s (i == j) refl scope
exec_thread-exec (joins i) cs s scope =
    (join_at-close_at i s, subst (InScope cs) (sym (length-close_at i s)) scope.1)

exec_threads-exec_all :
    (cs : List ThreadCommand) (s : Wrappers)
    → InScope (map command_of cs) (length s.fds)
    → exec_threads cs s ≡ exec_all (map command_of cs) s
unfolding exec_threads exec_all
exec_threads-exec_all [] s scope = refl
exec_threads-exec_all (c ∷ cs) s scope =
    let (same, later) = exec_thread-exec c (map command_of cs) s scope in
    ap (exec_threads cs) same ∙ exec_threads-exec_all cs (exec (command_of c) s) later

join_all-destroy_all : (n : ℕ) (s : Wrappers) → join_all n s ≡ destroy_all n s
unfolding join_all destroy_all
join_all-destroy_all zero s = refl
join_all-destroy_all (suc n) s =
    ap (join_all n) (joinable-close_at n s) ∙ join_all-destroy_all n (close_at n s)

-- Nothing is released.
join_handle-released :
    (fd : Option ℕ) (i : ℕ) (s : Wrappers) → (join_handle fd i s).released ≡ s.released
unfolding join_handle
join_handle-released none i s = refl
join_handle-released (some handle) i s = refl

join_at-released : (i : ℕ) (s : Wrappers) → (join_at i s).released ≡ s.released
unfolding join_at
join_at-released i s = join_handle-released (fd_at s i) i s

joinable-released :
    (i : ℕ) (s : Wrappers) → (if joinable (fd_at s i) then join_at i s else s).released ≡ s.released
joinable-released i s =
    if_both (λ (t : Wrappers). t.released ≡ s.released) (joinable (fd_at s i))
      (join_at-released i s) refl

exec_thread-released : (c : ThreadCommand) (s : Wrappers) → (exec_thread c s).released ≡ s.released
unfolding exec_thread construct move_construct assign_thread
exec_thread-released (starts handle) s = refl
exec_thread-released (moves_thread j) s = refl
exec_thread-released (assigns_thread i j) s = joinable-released i s
exec_thread-released (joins i) s = join_at-released i s

exec_threads-released :
    (cs : List ThreadCommand) (s : Wrappers) → (exec_threads cs s).released ≡ s.released
unfolding exec_threads
exec_threads-released [] s = refl
exec_threads-released (c ∷ cs) s =
    exec_threads-released cs (exec_thread c s) ∙ exec_thread-released c s

join_all-released : (n : ℕ) (s : Wrappers) → (join_all n s).released ≡ s.released
unfolding join_all
join_all-released zero s = refl
join_all-released (suc n) s =
    join_all-released n (if joinable (fd_at s n) then join_at n s else s) ∙ joinable-released n s

thread_scope-whole_scope :
    (cs : List ThreadCommand)
    → InScope (map command_of cs) 0
    → thread_scope cs ≡ whole_scope (map command_of cs)
thread_scope-whole_scope cs scope =
    ap (λ s. join_all (length s.fds) s) (exec_threads-exec_all cs no_wrappers scope)
    ∙ join_all-destroy_all (length (exec_all (map command_of cs) no_wrappers).fds)
        (exec_all (map command_of cs) no_wrappers)

-- A scope that starts a thread once, and then moves, assigns and joins its wrappers in any way, has
-- waited for the thread and closed its handle exactly once when its wrappers are destroyed.
pub thread_scope-once :
    (handle : ℕ) (cs : List ThreadCommand)
    → InScope (map command_of cs) 0
    → made handle (map command_of cs) ≡ 1
    → total (is_fd handle) (thread_scope cs).closed ≡ 1
thread_scope-once handle cs scope once =
    let s = exec_threads cs no_wrappers in
    let none_released : (thread_scope cs).released ≡ [] =
      join_all-released (length s.fds) s ∙ exec_threads-released cs no_wrappers in
    omega (
      arith,
      ap (λ t. total (is_fd handle) t.closed) (thread_scope-whole_scope cs scope),
      ap (λ t. total (is_fd handle) t.released) (thread_scope-whole_scope cs scope),
      ap (total (is_fd handle)) none_released,
      whole_scope-once handle (map command_of cs) scope once,
    )
