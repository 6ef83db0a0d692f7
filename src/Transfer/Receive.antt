-- ===== src/Transfer/Receive.antt =====
-- src/server/transfer.h: TransferEngine::recvFile.
use nexus_ftp_engine.Prelude.{
  ℕ, zero, suc, ◌+◌, ◌-◌, ◌%◌, ◌^◌, Bool, true, false, ◌&&◌, Option, none, some, [], ◌∷◌, length,
  ltb, if◌then◌else◌,
}
use nexus_ftp_engine.Bytes.{Bytes}
use nexus_ftp_engine.Platform.{Host, SocketHandle, wb, ab}
use nexus_ftp_engine.Platform.Sockets.{recv_data}
use nexus_ftp_engine.Platform.Files.{delete_file}
use nexus_ftp_engine.Transfer.{TransferResult, initial_result, chunk_size}
use nexus_ftp_engine.Transfer.Limiter.{RateLimiter, throttle}

-- What the loop leaves: the bytes written and whether the size limit stopped it.
pub record Received (W : Type 0) : Type 0 where
  pub total : ℕ
  pub overflow : Bool
  pub limiter : RateLimiter
  pub world : W

-- The guard on the file size, in uint64_t.
unfoldable pub exceeds : ℕ → ℕ → ℕ → Bool
exceeds max_file_size total n = ltb 0 max_file_size && ltb max_file_size ((total + n) % 2 ^ 64)

module _ (h : Host) where
  open h use {World, fopen, fwrite, fclose, clock}

  -- The receive loop; `none` means that the fuel ran out.
  unfoldable pub recv_loop :
      ℕ → SocketHandle → ℕ → ℕ → ℕ → RateLimiter → World → Option (Received World)
  unfolding exceeds
  recv_loop zero sock file max_file_size total l w = none
  recv_loop (suc fuel) sock file max_file_size total l w =
      let (received, w1) = recv_data h sock chunk_size w in
      elim received [
        | none ↦ some (record { total = total; overflow = false; limiter = l; world = w1 })
        | some [] ↦ some (record { total = total; overflow = false; limiter = l; world = w1 })
        | some (c ∷ s) ↦
            let n = length (c ∷ s) in
            let w2 = fwrite file (c ∷ s) w1 in
            let (l3, w3) = throttle h n l w2 in
            let rest = recv_loop fuel sock file max_file_size ((total + n) % 2 ^ 64) l3 w3 in
            if exceeds max_file_size total n
            then some (record { total = total; overflow = true; limiter = l; world = w1 })
            else rest
      ]

  -- What follows the loop and fclose.
  unfoldable pub finish_recv : ℕ → Bytes → Received World → TransferResult × World
  finish_recv start path r =
      let (deleted, w1) = delete_file h path r.world in
      let (now, w2) = clock r.world in
      if r.overflow
      then (record initial_result { bytes = r.total; rate_limit_hit = true }, w1)
      else (
        record { bytes = r.total; seconds = now - start; ok = true; rate_limit_hit = false },
        w2,
      )

  -- TransferEngine::recvFile; the `fseek` of the source needs mode 'w' and a positive offset at
  -- once, so it is never made.
  unfoldable pub recv_file :
      ℕ
      → SocketHandle
      → Bytes
      → ℕ
      → RateLimiter
      → ℕ
      → World
      → Option (TransferResult × RateLimiter × World)
  unfolding recv_loop finish_recv
  recv_file fuel sock path append_offset l max_file_size w0 =
      let (start, w) = clock w0 in
      let (opened, w1) = fopen path (if ltb 0 append_offset then ab else wb) w in
      elim opened [
        | none ↦ some (initial_result, l, w1)
        | some file ↦ elim (recv_loop fuel sock file max_file_size 0 l w1) [
          | none ↦ none
          | some r ↦
              let (res, w3) = finish_recv start path (record r { world = fclose file r.world }) in
              some (res, r.limiter, w3)
        ]
      ]
