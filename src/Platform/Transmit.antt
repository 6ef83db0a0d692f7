-- ===== src/Platform/Transmit.antt =====
-- src/common/platform.cpp, transmitFile (the Linux branch: sendfile).
use nexus_ftp_engine.Prelude.{
  ltb, if◌then◌else◌, ℕ, ◌+◌, ◌-◌, ◌%◌, ◌^◌, Bool, true, false, none, some,
}
use nexus_ftp_engine.Bytes.{Bytes}
use nexus_ftp_engine.Platform.{Host, SocketHandle}

module _ (h : Host) where
  open h use {World, open_read, fstat_size, send_file, close_fd}

  -- Whether zero-copy served, and `bytesSent`; `toSend` is computed in uint64_t. An offset from 2^63 on
  -- is negative as an off_t, and sendfile then fails.
  unfoldable pub transmit_opened : SocketHandle → ℕ → ℕ → World → (Bool × ℕ) × World
  transmit_opened sock fd offset w =
      let (st_size, w1) = fstat_size fd w in
      let to_send = (st_size + 2 ^ 64 - offset) % 2 ^ 64 in
      let (sent, w2) =
        (if ltb offset (2 ^ 63) then send_file sock fd offset to_send w1 else (none, w1)) in
      (elim sent [ none ↦ (false, 0) | some n ↦ (true, n) ], close_fd fd w2)

  unfoldable pub transmit_file : SocketHandle → Bytes → ℕ → World → (Bool × ℕ) × World
  unfolding transmit_opened
  transmit_file sock path offset w =
      let (opened, w1) = open_read path w in
      elim opened [ none ↦ ((false, 0), w1) | some fd ↦ transmit_opened sock fd offset w1 ]
