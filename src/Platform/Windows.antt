-- ===== src/Platform/Windows.antt =====
-- src/common/platform.h and src/common/platform.cpp, Windows: the handles, and the functions whose code
-- differs from that of POSIX by more than the name of the call. `WinApi` is what they ask of Windows.
pub mod Handles
use nexus_ftp_engine.Prelude.{
  ℕ, ◌+◌, ◌-◌, ◌*◌, ◌%◌, ◌^◌, ◌<◌, Bool, true, false, not, ◌&&◌, ◌||◌, Option, none, some, List, [],
  ◌∷◌, ◌++◌, ltb, ◌==◌, if◌then◌else◌,
}
use nexus_ftp_engine.Prelude.Int.{ℤ, pos, negsuc, ◌*ℤ◌, ltb_ℤ}
use nexus_ftp_engine.Bytes.{Bytes, bytes, bytes_eq}
use nexus_ftp_engine.Platform.{FileInfo}

-- kInvalidSocket, and INVALID_SOCKET: all bits set.
abbrev pub invalid_handle : ℤ
invalid_handle = negsuc 0

abbrev pub invalid_socket : ℕ
invalid_socket = 2 ^ 64 - 1

-- toWin: (SOCKET)(uintptr_t)h, of an intptr_t
unfoldable pub to_win : ℤ → ℕ
to_win (pos n) = n % 2 ^ 64
to_win (negsuc n) = 2 ^ 64 - 1 - n % 2 ^ 64

-- (SocketHandle)(uintptr_t)s
unfoldable pub as_signed : ℕ → ℤ
as_signed s = if ltb s (2 ^ 63) then pos s else negsuc (2 ^ 64 - 1 - s)

unfoldable pub from_win : ℕ → ℤ
unfolding as_signed
from_win s = if s == invalid_socket then invalid_handle else as_signed s

-- fromPosix
unfoldable pub from_posix : ℤ → ℤ
from_posix fd = if ltb_ℤ fd (pos 0) then invalid_handle else fd

-- WIN32_FIND_DATAA, of which listDirectory reads the name, the attributes and the size.
pub record FindData : Type 0 where
  pub file_name : Bytes
  pub directory_attribute : Bool
  pub size_high : ℕ
  pub size_low : ℕ

-- The calls, each from a state of the world to its result and the next state; `none` is a call that
-- failed.
pub record WinApi : Type 1 where
  pub World : Type 0
  pub wsa_startup : World → ℕ × World
  pub wsa_cleanup : World → World
  pub format_message : World → Bytes
  pub set_recv_timeout_ms : ℕ → ℕ → World → World
  -- FindFirstFileA, FindNextFileA and FindClose: the entries in their order.
  pub find_files : Bytes → World → Option (List FindData) × World
  -- GetFileAttributesA: whether it has FILE_ATTRIBUTE_DIRECTORY.
  pub file_attributes : Bytes → World → Option Bool
  pub create_file : Bytes → World → Option ℕ × World
  pub set_file_pointer : ℕ → ℕ → World → Bool × World
  pub file_size : ℕ → World → ℕ
  pub transmit_file : ℕ → ℕ → World → Bool × World
  pub close_handle : ℕ → World → World

-- (DWORD)(seconds * 1000), where the int product does not overflow
unfoldable pub to_milliseconds : ℤ → ℕ
to_milliseconds (pos n) = n * 1000 % 2 ^ 32
to_milliseconds (negsuc n) = 0

-- An entry of listDirectory, none for "." and "..".
unfoldable pub found_entry : FindData → Option FileInfo
found_entry fd =
    if bytes_eq fd.file_name (bytes ".") || bytes_eq fd.file_name (bytes "..")
    then none
    else some (record {
      name = fd.file_name;
      is_directory = fd.directory_attribute;
      size = fd.size_high * 2 ^ 32 + fd.size_low;
    })

unfoldable pub found_entries : List FindData → List FileInfo
unfolding found_entry
found_entries [] = []
found_entries (fd ∷ fds) = elim (found_entry fd) [
  | none ↦ found_entries fds
  | some fi ↦ fi ∷ found_entries fds
]

module _ (api : WinApi) where
  open api use {World}

  -- initNetworking
  unfoldable pub init_networking : World → Bool × World
  init_networking w = let (code, w1) = api.wsa_startup w in (code == 0, w1)

  -- cleanupNetworking
  unfoldable pub cleanup_networking : World → World
  cleanup_networking w = api.wsa_cleanup w

  -- getSocketError
  unfoldable pub get_socket_error : World → Bytes
  get_socket_error w = api.format_message w

  -- setRecvTimeout
  unfoldable pub win_recv_timeout : ℤ → ℤ → World → World
  unfolding to_win to_milliseconds
  win_recv_timeout sock seconds w =
      if ltb_ℤ (pos 0) seconds
      then api.set_recv_timeout_ms (to_win sock) (to_milliseconds seconds) w
      else w

  -- listDirectory
  unfoldable pub win_list_directory : Bytes → World → List FileInfo × World
  unfolding found_entries
  win_list_directory path w =
      let (found, w1) = api.find_files (path ++ bytes "\\*") w in
      (elim found [ none ↦ [] | some fds ↦ found_entries fds ], w1)

  -- isDirectory
  unfoldable pub win_is_directory : Bytes → World → Bool
  win_is_directory path w = elim (api.file_attributes path w) [ none ↦ false | some d ↦ d ]

  -- pathExists
  unfoldable pub win_path_exists : Bytes → World → Bool
  win_path_exists path w = elim (api.file_attributes path w) [ none ↦ false | some d ↦ true ]

  -- transmitFile behind the seek: the size that is reported is computed in uint64_t.
  unfoldable pub win_transmit_rest : ℤ → ℕ → ℕ → World → (Bool × ℕ) × World
  unfolding to_win
  win_transmit_rest sock file offset w =
      let send_size = (api.file_size file w + 2 ^ 64 - offset) % 2 ^ 64 in
      let (ok, w1) = api.transmit_file (to_win sock) file w in
      ((if ok then (true, send_size) else (false, 0)), api.close_handle file w1)

  unfoldable pub win_transmit_opened : ℤ → ℕ → ℕ → World → (Bool × ℕ) × World
  unfolding win_transmit_rest
  win_transmit_opened sock file offset w =
      let (sought, w1) = api.set_file_pointer file offset w in
      let served = win_transmit_rest sock file offset w1 in
      if ltb 0 offset
      then (if sought then served else ((false, 0), api.close_handle file w1))
      else win_transmit_rest sock file offset w

  -- transmitFile
  unfoldable pub win_transmit_file : ℤ → Bytes → ℕ → World → (Bool × ℕ) × World
  unfolding win_transmit_opened
  win_transmit_file sock path offset w =
      let (opened, w1) = api.create_file path w in
      elim opened [ none ↦ ((false, 0), w1) | some file ↦ win_transmit_opened sock file offset w1 ]
