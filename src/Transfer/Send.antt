-- ===== src/Transfer/Send.antt =====
-- src/server/transfer.h: TransferEngine::sendFile and its buffered fallback.
use nexus_ftp_engine.Prelude.{
  ℕ, zero, suc, ◌+◌, ◌-◌, ◌%◌, ◌^◌, false, ◌||◌, ◌&&◌, Option, none, some, [], ◌∷◌, length, ltb,
  ◌==◌, if◌then◌else◌,
}
use nexus_ftp_engine.Bytes.{Bytes}
use nexus_ftp_engine.Platform.{Host, SocketHandle, rb}
use nexus_ftp_engine.Platform.Sockets.{send_data}
use nexus_ftp_engine.Platform.Transmit.{transmit_file}
use nexus_ftp_engine.Transfer.{TransferResult, chunk_size}
use nexus_ftp_engine.Transfer.Limiter.{RateLimiter, throttle}

module _ (h : Host) where
  open h use {World, fopen, fseek, fread, fclose, clock}

  -- The loop of sendFileBuffered from `total` bytes on; `none` means that the fuel ran out.
  unfoldable pub send_loop :
      ℕ → SocketHandle → ℕ → ℕ → RateLimiter → World → Option (ℕ × RateLimiter × World)
  send_loop zero sock file total l w = none
  send_loop (suc fuel) sock file total l w =
      let (buf, w1) = fread file chunk_size w in
      let (sent, w2) = send_data h sock buf w1 in
      let (l3, w3) = throttle h (length buf) l w2 in
      let rest = send_loop fuel sock file ((total + length buf) % 2 ^ 64) l3 w3 in
      elim buf [
        | [] ↦ some (total, l, w1)
        | c ∷ s ↦ elim sent [ none ↦ some (total, l, w2) | some n ↦ rest ]
      ]

  -- TransferEngine::sendFileBuffered from `total` bytes on. An offset from 2^63 on is negative as a
  -- long: fseek fails and the file stays at its start.
  unfoldable pub send_file_buffered :
      ℕ → SocketHandle → Bytes → ℕ → ℕ → RateLimiter → World → Option (ℕ × RateLimiter × World)
  unfolding send_loop
  send_file_buffered fuel sock path offset total l w =
      let (opened, w1) = fopen path rb w in
      elim opened [
        | none ↦ some (total, l, w1)
        | some file ↦
            let w2 = (if ltb 0 offset && ltb offset (2 ^ 63) then fseek file offset w1 else w1) in
            elim (send_loop fuel sock file total l w2) [
              | none ↦ none
              | some (n, l3, w3) ↦ some (n, l3, fclose file w3)
            ]
      ]

  -- The end of sendFile.
  unfoldable pub sent_result : ℕ → ℕ → ℕ → World → TransferResult × World
  sent_result start offset n w =
      let (now, w1) = clock w in
      (
        record {
          bytes = n;
          seconds = now - start;
          ok = ltb 0 n || offset == 0;
          rate_limit_hit = false;
        },
        w1,
      )

  -- TransferEngine::sendFile: zero-copy first, then the buffered fallback.
  unfoldable pub send_file :
      ℕ
      → SocketHandle
      → Bytes
      → ℕ
      → RateLimiter
      → World
      → Option (TransferResult × RateLimiter × World)
  unfolding send_file_buffered sent_result
  send_file fuel sock path offset l w0 =
      let (start, w) = clock w0 in
      let ((zero_copy, n), w1) = transmit_file h sock path offset w in
      if zero_copy
      then (let (res, w2) = sent_result start offset n w1 in some (res, l, w2))
      else elim (send_file_buffered fuel sock path offset n l w1) [
        | none ↦ none
        | some (total, l2, w2) ↦
            let (res, w3) = sent_result start offset total w2 in some (res, l2, w3)
      ]
