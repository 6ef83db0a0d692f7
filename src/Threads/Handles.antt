-- ===== src/Threads/Handles.antt =====
-- src/common/win32_threads.h, Windows: the wrapper class Thread over the handle of CreateThread. Its
-- wrappers are kept as those of ManagedSocket are, `fds` being the handles and `closed` those that
-- were waited for and closed. The pointer fn_ goes with the handle and is freed by the new thread.
pub mod Joins
use nexus_ftp_engine.Prelude.{
  ℕ, zero, suc, Bool, true, false, Option, none, some, List, [], ◌∷◌, length, if◌then◌else◌,
}
use nexus_ftp_engine.Platform.Managed.{
  Wrappers, fd_at, set_fd, construct, log_handle, move_construct, no_wrappers,
}

-- Thread(fn), with the result of CreateThread: without a handle it throws.
unfoldable pub make_thread : Option ℕ → Wrappers → Option Wrappers
unfolding construct
make_thread none s = none
make_thread (some handle) s = some (construct (some handle) s)

-- joinable()
unfoldable pub joinable : Option ℕ → Bool
joinable none = false
joinable (some handle) = true

-- join(): WaitForSingleObject and CloseHandle.
unfoldable pub join_handle : Option ℕ → ℕ → Wrappers → Wrappers
unfolding log_handle
join_handle none i s = s
join_handle (some handle) i s =
    set_fd i none (record s { closed = log_handle (some handle) s.closed })

unfoldable pub join_at : ℕ → Wrappers → Wrappers
unfolding join_handle
join_at i s = join_handle (fd_at s i) i s

-- operator=(Thread&& o): it has no test for an assignment to itself.
unfoldable pub assign_thread : ℕ → ℕ → Wrappers → Wrappers
unfolding join_at joinable
assign_thread i j s =
    let s1 = if joinable (fd_at s i) then join_at i s else s in
    set_fd j none (set_fd i (fd_at s1 j) s1)

pub data ThreadCommand : Type 0 where
  starts : (handle : ℕ) → ThreadCommand
  moves_thread : (j : ℕ) → ThreadCommand
  assigns_thread : (i j : ℕ) → ThreadCommand
  joins : (i : ℕ) → ThreadCommand

unfoldable pub exec_thread : ThreadCommand → Wrappers → Wrappers
unfolding construct move_construct assign_thread join_at
exec_thread (starts handle) s = construct (some handle) s
exec_thread (moves_thread j) s = move_construct j s
exec_thread (assigns_thread i j) s = assign_thread i j s
exec_thread (joins i) s = join_at i s

unfoldable pub exec_threads : List ThreadCommand → Wrappers → Wrappers
unfolding exec_thread
exec_threads [] s = s
exec_threads (c ∷ cs) s = exec_threads cs (exec_thread c s)

-- ~Thread()
unfoldable pub join_all : ℕ → Wrappers → Wrappers
unfolding join_at joinable
join_all zero s = s
join_all (suc n) s = join_all n (if joinable (fd_at s n) then join_at n s else s)

-- A whole scope, with the destructors at its end.
abbrev pub thread_scope : List ThreadCommand → Wrappers
thread_scope cs = let s = exec_threads cs no_wrappers in join_all (length s.fds) s
