-- ===== src/Platform.antt =====
-- src/common/platform.h: what the platform layer asks of the operating system and of the C and C++
-- libraries. `Host` is the parameter of every module that touches a socket, a file or a clock.
pub mod Sockets
pub mod Files
pub mod Transmit
pub mod Managed
pub mod Windows
use nexus_ftp_engine.Prelude.{ℕ, Bool, Option, List}
use nexus_ftp_engine.Prelude.Int.{ℤ}
use nexus_ftp_engine.Bytes.{Bytes}

-- SocketHandle: `none` is kInvalidSocket.
abbrev pub SocketHandle : Type 0
SocketHandle = Option ℕ

-- The fields of `struct stat` that the program reads.
pub record Stat : Type 0 where
  pub is_dir : Bool
  pub st_size : ℕ
  pub st_mtime : ℕ

-- `struct tm`, with the full year and the month from 1.
pub record Tm : Type 0 where
  pub year : ℕ
  pub month : ℕ
  pub day : ℕ
  pub hour : ℕ
  pub minute : ℕ
  pub second : ℕ

pub data SockOpt : Type 0 where
  reuse_addr keep_alive : SockOpt
  recv_timeout send_buf recv_buf : ℤ → SockOpt

-- The modes "rb", "wb" and "ab" of fopen.
pub data OpenMode : Type 0 where
  rb wb ab : OpenMode

-- FileInfo
pub record FileInfo : Type 0 where
  pub name : Bytes
  pub is_directory : Bool
  pub size : ℕ

-- The system calls and library functions, each from a state of the world to its result and the next
-- state. A Boolean result is "returned 0", `none` is a negative or null result.
pub record Host : Type 1 where
  pub World : Type 0
  pub stat : Bytes → World → Option Stat × World
  pub mkdir : Bytes → World → Bool × World
  pub rmdir : Bytes → World → Bool × World
  pub remove : Bytes → World → Bool × World
  pub rename : Bytes → Bytes → World → Bool × World
  pub read_dir : Bytes → World → Option (List Bytes) × World
  -- FindFirstFile, FindNextFile and FindClose: the entries, and whether each is a directory.
  pub find_files : Bytes → World → Option (List (Bytes × Bool)) × World
  pub gmtime : ℕ → Option Tm
  pub open_read : Bytes → World → Option ℕ × World
  pub fstat_size : ℕ → World → ℕ × World
  pub send_file : SocketHandle → ℕ → ℕ → ℕ → World → Option ℕ × World
  pub close_fd : ℕ → World → World
  pub fopen : Bytes → OpenMode → World → Option ℕ × World
  pub fseek : ℕ → ℕ → World → World
  pub fread : ℕ → ℕ → World → Bytes × World
  pub fwrite : ℕ → Bytes → World → World
  pub fclose : ℕ → World → World
  pub socket : World → SocketHandle × World
  pub bind : SocketHandle → ℕ → World → Bool × World
  pub listen : SocketHandle → ℤ → World → Bool × World
  pub accept : SocketHandle → World → SocketHandle × World
  pub connect : SocketHandle → Bytes → ℕ → World → Bool × World
  pub send : SocketHandle → Bytes → World → Option ℕ × World
  pub recv : SocketHandle → ℕ → World → Option Bytes × World
  pub close : SocketHandle → World → World
  pub local_port : SocketHandle → World → ℕ × World
  pub peer_ip : SocketHandle → World → Bytes × World
  pub set_sockopt : SocketHandle → SockOpt → World → World
  pub time : World → ℕ × World
  pub clock : World → ℕ × World
  pub sleep_ms : ℕ → World → World
  -- What the program computes in `double`: the milliseconds that a transfer over its budget sleeps
  -- (limit, bytes of the window, clock ticks of the window; 0 within the budget), whether the window
  -- is a second old, and the speed in KB/s of a transfer (bytes, ticks).
  pub over_budget_ms : ℕ → ℕ → ℕ → ℕ
  pub second_elapsed : ℕ → Bool
  pub speed_kbps : ℕ → ℕ → ℕ
