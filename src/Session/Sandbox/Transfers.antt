-- ===== src/Session/Sandbox/Transfers.antt =====
-- src/server/transfer.h: the paths of a transfer.
use nexus_ftp_engine.Prelude.{
  ℕ, zero, suc, ◌^◌, ◌&&◌, Option, none, some, [], ◌∷◌, length, ltb, ◌==◌, if◌then◌else◌, if_both,
  List-cases, Option-cases, inl, inr,
}
use nexus_ftp_engine.Bytes.{Bytes}
use nexus_ftp_engine.Platform.{Host, SocketHandle, rb, wb, ab}
use nexus_ftp_engine.Platform.Sockets.{send_data, recv_data}
use nexus_ftp_engine.Platform.Files.{delete_file}
use nexus_ftp_engine.Platform.Transmit.{transmit_file}
use nexus_ftp_engine.Transfer.{TransferResult, chunk_size}
use nexus_ftp_engine.Transfer.Limiter.{RateLimiter, reset_window, sleep_over_budget, throttle}
use nexus_ftp_engine.Transfer.Send.{send_loop, send_file_buffered, send_file, sent_result}
use nexus_ftp_engine.Transfer.Receive.{Received, exceeds, recv_loop, finish_recv, recv_file}
use nexus_ftp_engine.Session.Sandbox.Calls.{Survives, transmit_file-Safe}

module _ (h : Host) (Allowed : Bytes → Type 0) (P : h.World → Type 0)
    (k : Survives h Allowed P) where
  open h use {World, second_elapsed}

  sleep_over_budget-Safe :
      (elapsed : ℕ) (l : RateLimiter) (w : World) → P w → P (sleep_over_budget h elapsed l w).1
  unfolding sleep_over_budget
  sleep_over_budget-Safe elapsed l w p =
      if_both {A = RateLimiter × World} (λ r. P r.1) _ (k.clock_at _ (k.sleep_ms_at _ w p)) p

  slow_down-Safe :
      (elapsed : ℕ) (l : RateLimiter) (w : World)
      → P w
      → P (if second_elapsed elapsed then reset_window h l w else (l, w)).1
  unfolding reset_window
  slow_down-Safe elapsed l w p =
      if_both {A = RateLimiter × World} (λ r. P r.1) (second_elapsed elapsed) (k.clock_at w p) p

  throttle-Safe : (n : ℕ) (l : RateLimiter) (w : World) → P w → P (throttle h n l w).1
  unfolding throttle
  throttle-Safe n l w p =
      if_both {A = RateLimiter × World} (λ r. P r.1) (l.limit == 0) p
        (slow_down-Safe _ _ _ (sleep_over_budget-Safe _ _ _ (k.clock_at w p)))

  -- A result of the loops keeps the invariant, if there is one.
  abbrev Kept : Option (ℕ × RateLimiter × World) → Type 0
  Kept none = Unit
  Kept (some (n, l, w)) = P w

  send_loop-Safe :
      (fuel : ℕ) (sock : SocketHandle) (file total : ℕ) (l : RateLimiter) (w : World)
      → P w
      → Kept (send_loop h fuel sock file total l w)
  unfolding send_loop send_data
  send_loop-Safe zero sock file total l w p = tt
  send_loop-Safe (suc fuel) sock file total l w p =
      elim (List-cases (h.fread file chunk_size w).0) [
        | inl e ↦ rw (e, send_loop) (k.fread_at file _ w p)
        | inr (c, s, e) ↦
            elim (Option-cases
              (send_data h sock (h.fread file chunk_size w).0 (h.fread file chunk_size w).1).0) [
                | inl failed ↦
                    rw (e, failed, send_loop) (k.send_at sock _ _ (k.fread_at file _ w p))
                | inr (n, sent) ↦
                    rw (e, sent, send_loop)
                      (send_loop-Safe fuel sock file _ _ _
                        (throttle-Safe _ _ _ (k.send_at sock _ _ (k.fread_at file _ w p))))
              ]
      ]

  send_file_buffered-Safe :
      (fuel : ℕ) (sock : SocketHandle) (path : Bytes) (offset total : ℕ) (l : RateLimiter)
      (w : World)
      → Allowed path
      → P w
      → Kept (send_file_buffered h fuel sock path offset total l w)
  unfolding send_file_buffered
  send_file_buffered-Safe fuel sock path offset total l w a p =
      elim (Option-cases (h.fopen path rb w).0) [
        | inl e ↦ rw (e, send_file_buffered) opened
        | inr (file, e) ↦
            rw (e, send_file_buffered)
              (closed file _ (send_loop-Safe fuel sock file total l _ (sought file)))
      ]
    where
      opened : P (h.fopen path rb w).1
      opened = k.fopen_at path rb w a p

      sought :
          (file : ℕ)
          → P (
              if ltb 0 offset && ltb offset (2 ^ 63)
              then h.fseek file offset (h.fopen path rb w).1
              else (h.fopen path rb w).1)
      sought file =
          if_both P (ltb 0 offset && ltb offset (2 ^ 63)) (k.fseek_at file offset _ opened) opened

      closed :
          (file : ℕ) (r : Option (ℕ × RateLimiter × World))
          → Kept r
          → Kept (elim r as (λ _. Option (ℕ × RateLimiter × World)) [
            | none ↦ none
            | some (n, l3, w3) ↦ some (n, l3, h.fclose file w3)
          ])
      closed file none q = tt
      closed file (some (n, l3, w3)) q = k.fclose_at file w3 q

  abbrev pub Transferred : Option (TransferResult × RateLimiter × World) → Type 0
  Transferred none = Unit
  Transferred (some (res, l, w)) = P w

  pub send_file-Safe :
      (fuel : ℕ) (sock : SocketHandle) (path : Bytes) (offset : ℕ) (l : RateLimiter) (w : World)
      → Allowed path
      → P w
      → Transferred (send_file h fuel sock path offset l w)
  unfolding send_file
  send_file-Safe fuel sock path offset l w a p =
      if_both Transferred (transmit_file h sock path offset (h.clock w).1).0.0
        (k.clock_at _ transmitted)
        (finished _ (send_file_buffered-Safe fuel sock path offset _ l _ a transmitted))
    where
      transmitted : P (transmit_file h sock path offset (h.clock w).1).1
      transmitted = transmit_file-Safe h Allowed P k sock path offset _ a (k.clock_at w p)

      finished :
          (r : Option (ℕ × RateLimiter × World))
          → Kept r
          → Transferred (elim r as (λ _. Option (TransferResult × RateLimiter × World)) [
            | none ↦ none
            | some (total, l2, w2) ↦ some (
              (sent_result h (h.clock w).0 offset total w2).0,
              l2,
              (sent_result h (h.clock w).0 offset total w2).1,
            )
          ])
      finished none q = tt
      finished (some (total, l2, w2)) q = k.clock_at w2 q

  abbrev KeptReceived : Option (Received World) → Type 0
  KeptReceived none = Unit
  KeptReceived (some r) = P r.world

  recv_loop-Safe :
      (fuel : ℕ) (sock : SocketHandle) (file max_file_size total : ℕ) (l : RateLimiter) (w : World)
      → P w
      → KeptReceived (recv_loop h fuel sock file max_file_size total l w)
  unfolding recv_loop recv_data
  recv_loop-Safe zero sock file max_file_size total l w p = tt
  recv_loop-Safe (suc fuel) sock file max_file_size total l w p =
      elim (Option-cases (h.recv sock chunk_size w).0) [
        | inl e ↦ rw (e, recv_loop) received
        | inr ([], e) ↦ rw (e, recv_loop) received
        | inr (c ∷ s, e) ↦
            rw (e, recv_loop)
              (if_both KeptReceived (exceeds max_file_size total (length (c ∷ s))) received (
                recv_loop-Safe fuel sock file max_file_size _ _ _
                  (throttle-Safe _ _ _ (k.fwrite_at file (c ∷ s) _ received))))
      ]
    where
      received : P (h.recv sock chunk_size w).1
      received = k.recv_at sock chunk_size w p

  pub recv_file-Safe :
      (fuel : ℕ) (sock : SocketHandle) (path : Bytes) (offset : ℕ) (l : RateLimiter)
      (max_file_size : ℕ) (w : World)
      → Allowed path
      → P w
      → Transferred (recv_file h fuel sock path offset l max_file_size w)
  unfolding recv_file delete_file
  recv_file-Safe fuel sock path offset l max_file_size w a p =
      elim (Option-cases (h.fopen path (if ltb 0 offset then ab else wb) (h.clock w).1).0) [
        | inl e ↦ rw (e, recv_file) opened
        | inr (file, e) ↦
            rw (e, recv_file)
              (finished file _ (recv_loop-Safe fuel sock file max_file_size 0 l _ opened))
      ]
    where
      opened : P (h.fopen path (if ltb 0 offset then ab else wb) (h.clock w).1).1
      opened = k.fopen_at path _ _ a (k.clock_at w p)

      finished :
          (file : ℕ) (r : Option (Received World))
          → KeptReceived r
          → Transferred (elim r as (λ _. Option (TransferResult × RateLimiter × World)) [
            | none ↦ none
            | some r ↦
                let (res, w3) =
                  finish_recv h (h.clock w).0 path (record r { world = h.fclose file r.world }) in
                some (res, r.limiter, w3)
          ])
      finished file none q = tt
      finished file (some r) q =
          if_both {A = TransferResult × World} (λ x. P x.1) r.overflow
            (k.remove_at path _ a (k.fclose_at file r.world q))
            (k.clock_at _ (k.fclose_at file r.world q))
