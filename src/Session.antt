-- ===== src/Session.antt =====
-- src/server/session.h and src/server/session.cpp: the state of a session and of the server that
-- its handlers share. The handlers and the loop are in the modules below.
pub mod Paths
pub mod Reply
pub mod Access
pub mod Directories
pub mod Files
pub mod Data
pub mod Loop
pub mod Flows
pub mod Confinement
pub mod Sandbox
pub mod Login
pub mod Ports
pub mod Connections
pub mod Traversal
pub mod Navigation
pub mod Offsets
pub mod Accounting
pub mod Protocol
pub mod Passwords
use nexus_ftp_engine.Prelude.{ℕ, ◌+◌, ◌-◌, ◌%◌, ◌^◌, Bool, [], ◌==◌, if◌then◌else◌}
use nexus_ftp_engine.Prelude.Int.{ℤ}
use nexus_ftp_engine.Bytes.{Bytes}
use nexus_ftp_engine.Platform.{Host, SocketHandle}
use nexus_ftp_engine.Auth.{AuthManager}
use nexus_ftp_engine.DataChannel.{DataChannel, initial_channel}
use nexus_ftp_engine.Transfer.Limiter.{RateLimiter}

pub data SessionState : Type 0 where
  connected wait_user wait_pass ready transferring closed : SessionState

pub record Session : Type 0 where
  pub socket : SocketHandle
  pub client_ip : Bytes
  pub state : SessionState
  pub username : Bytes
  pub user_root_dir : Bytes
  pub current_dir : Bytes
  pub rename_from : Bytes
  pub data_channel : DataChannel
  pub rate_limiter : RateLimiter
  pub bytes_transferred : ℕ
  pub restart_offset : ℕ

pub record ServerContext : Type 0 where
  pub auth : AuthManager
  pub root_dir : Bytes
  pub total_connections : ℕ
  pub active_connections : ℕ
  pub total_bytes_transferred : ℕ
  pub timeout_secs : ℤ
  pub max_file_size_bytes : ℕ
  pub allow_anonymous : Bool
  pub bandwidth_limit_bps : ℕ
  pub send_buf_kb : ℤ
  pub recv_buf_kb : ℤ

-- What a handler works on: the session, the shared context and the world.
pub record Sys (W : Type 0) : Type 0 where
  pub session : Session
  pub ctx : ServerContext
  pub world : W

-- How a turn of the loop ends: go on, leave the loop, leave it by an exception, undefined behaviour,
-- or a transfer that outlasts the fuel.
pub data Flow {ℓ} (S : Type ℓ) : Type ℓ where
  next leave raised : S → Flow S
  undefined out_of_fuel : Flow S

-- AtomicU64::inc, AtomicU64::dec and AtomicU64::add
unfoldable pub inc : ℕ → ℕ
inc n = (n + 1) % 2 ^ 64

unfoldable pub dec : ℕ → ℕ
dec n = n - 1

unfoldable pub add_u64 : ℕ → ℕ → ℕ
add_u64 n m = (n + m) % 2 ^ 64

module _ {W : Type 0} where
  abbrev pub set_state : SessionState → Sys W → Sys W
  set_state st s = record s { session = record s.session { state = st } }

  abbrev pub set_world : W → Sys W → Sys W
  set_world w s = record s { world = w }
