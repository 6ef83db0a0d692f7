-- ===== src/Platform/Managed.antt =====
-- src/common/platform.h, ManagedSocket: its operations over the wrappers of a scope, and the calls of
-- closeSocket that they make. A wrapper is named by its place in the list.
pub mod Ownership
pub mod Scopes
use nexus_ftp_engine.Prelude.{
  ℕ, zero, suc, ◌+◌, ◌<◌, ◌≡◌, Bool, true, false, Option, none, some, List, [], ◌∷◌, ◌++◌, get_or,
  set, length, ◌==◌, if◌then◌else◌,
}
use nexus_ftp_engine.Platform.{SocketHandle}

pub record Wrappers : Type 0 where
  pub fds : List SocketHandle  -- fd_ of each wrapper
  pub closed : List ℕ  -- the calls of closeSocket
  pub released : List ℕ  -- the results of release()

abbrev pub fd_at : Wrappers → ℕ → SocketHandle
fd_at s i = get_or s.fds i none

abbrev pub set_fd : ℕ → SocketHandle → Wrappers → Wrappers
set_fd i fd s = record s { fds = set s.fds i fd }

-- ManagedSocket(fd), and ManagedSocket() for `none`
unfoldable pub construct : SocketHandle → Wrappers → Wrappers
construct fd s = record s { fds = fd ∷ s.fds }

-- valid()
unfoldable pub valid : SocketHandle → Bool
valid none = false
valid (some fd) = true

unfoldable pub log_handle : SocketHandle → List ℕ → List ℕ
log_handle none log = log
log_handle (some fd) log = fd ∷ log

-- close()
unfoldable pub close_at : ℕ → Wrappers → Wrappers
unfolding valid log_handle
close_at i s =
    if valid (fd_at s i)
    then set_fd i none (record s { closed = log_handle (fd_at s i) s.closed })
    else s

-- release()
unfoldable pub release_at : ℕ → Wrappers → Wrappers
unfolding log_handle
release_at i s = set_fd i none (record s { released = log_handle (fd_at s i) s.released })

-- ManagedSocket(ManagedSocket&& o), with o at `j`; the new wrapper becomes the first one.
unfoldable pub move_construct : ℕ → Wrappers → Wrappers
move_construct j s = record s { fds = fd_at s j ∷ set s.fds j none }

-- operator=(ManagedSocket&& o)
unfoldable pub move_assign : ℕ → ℕ → Wrappers → Wrappers
unfolding close_at
move_assign i j s =
    let s1 = close_at i s in if i == j then s else set_fd j none (set_fd i (fd_at s1 j) s1)

-- What a scope does with its wrappers. The destructor of one is the close() of a wrapper that is not
-- used again.
pub data Command : Type 0 where
  makes : SocketHandle → Command
  moves_in : (j : ℕ) → Command
  assigns : (i j : ℕ) → Command
  closes : (i : ℕ) → Command
  releases : (i : ℕ) → Command

unfoldable pub exec : Command → Wrappers → Wrappers
unfolding construct move_construct move_assign close_at release_at
exec (makes fd) s = construct fd s
exec (moves_in j) s = move_construct j s
exec (assigns i j) s = move_assign i j s
exec (closes i) s = close_at i s
exec (releases i) s = release_at i s

unfoldable pub exec_all : List Command → Wrappers → Wrappers
unfolding exec
exec_all [] s = s
exec_all (c ∷ cs) s = exec_all cs (exec c s)

-- The destructors at the end of the scope, `n` wrappers.
unfoldable pub destroy_all : ℕ → Wrappers → Wrappers
unfolding close_at
destroy_all zero s = s
destroy_all (suc n) s = destroy_all n (close_at n s)

abbrev pub no_wrappers : Wrappers
no_wrappers = record { fds = []; closed = []; released = [] }
