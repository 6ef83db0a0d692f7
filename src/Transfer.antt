-- ===== src/Transfer.antt =====
-- src/server/transfer.h
pub mod Limiter
pub mod Send
pub mod Receive
pub mod Uploads
pub mod Streams
pub mod Downloads
use nexus_ftp_engine.Prelude.{ℕ, Bool}

-- TransferResult, with the time in clock ticks.
pub record TransferResult : Type 0 where
  pub bytes : ℕ
  pub seconds : ℕ
  pub ok : Bool
  pub rate_limit_hit : Bool

abbrev pub initial_result : TransferResult
initial_result = record { bytes = 0; seconds = 0; ok = Bool.false; rate_limit_hit = Bool.false }

-- CHUNK_SIZE
abbrev pub chunk_size : ℕ
chunk_size = 65536
