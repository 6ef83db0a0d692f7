-- ===== src/Transfer/Uploads.antt =====
-- src/server/transfer.h: the receive loop of an upload.
use nexus_ftp_engine.Prelude.{
  ℕ, zero, suc, ◌+◌, ◌%◌, ◌^◌, ◌≤◌, ◌<◌, ◌≡◌, ap, Bool, true, false, none, some, [], ◌∷◌, arith,
  length, ◌∙◌, ◌⊎◌, if◌then◌else◌, Bool-cases, Option-cases, inl, inr,
}
use nexus_ftp_engine.Bytes.{Bytes}
use nexus_ftp_engine.Platform.{Host, SocketHandle}
use nexus_ftp_engine.Platform.Sockets.{recv_data}
use nexus_ftp_engine.Transfer.{chunk_size}
use nexus_ftp_engine.Transfer.Limiter.{RateLimiter, throttle, sleep_over_budget, reset_window}
use nexus_ftp_engine.Transfer.Receive.{Received, exceeds, recv_loop}

-- What an upload relies on: a client that has `pending` bytes left to send, a `recv` that takes at
-- most as many as were asked for, and an `fwrite` that adds its buffer to the bytes on disk.
pub record Uploading (h : Host) : Type 0 where
  pub pending : h.World → ℕ
  pub written : h.World → ℕ
  pub pending-recv :
      (sock : SocketHandle) (n : ℕ) (w : h.World) (b : Bytes)
      → (h.recv sock n w).0 ≡ some b
      → (pending (h.recv sock n w).1 + length b ≡ pending w) × (length b ≤ n)
  pub written-recv :
      (sock : SocketHandle) (n : ℕ) (w : h.World) → written (h.recv sock n w).1 ≡ written w
  pub pending-fwrite :
      (file : ℕ) (b : Bytes) (w : h.World) → pending (h.fwrite file b w) ≡ pending w
  pub written-fwrite :
      (file : ℕ) (b : Bytes) (w : h.World) → written (h.fwrite file b w) ≡ written w + length b
  pub pending-clock : (w : h.World) → pending (h.clock w).1 ≡ pending w
  pub written-clock : (w : h.World) → written (h.clock w).1 ≡ written w
  pub pending-sleep : (n : ℕ) (w : h.World) → pending (h.sleep_ms n w) ≡ pending w
  pub written-sleep : (n : ℕ) (w : h.World) → written (h.sleep_ms n w) ≡ written w

module _ (h : Host) (u : Uploading h) where
  open h use {World}

  -- The throttle neither takes nor writes a byte.
  throttle-keeps :
      (n : ℕ) (l : RateLimiter) (w : World)
      → (u.pending (throttle h n l w).1 ≡ u.pending w)
        × (u.written (throttle h n l w).1 ≡ u.written w)
  unfolding throttle sleep_over_budget reset_window
  throttle-keeps n l w =
      grind (arith, u.pending-clock, u.written-clock, u.pending-sleep, u.written-sleep)

  -- What the loop leaves, from `total` bytes on: the bytes that it counted are on disk, and they are
  -- within the limit.
  pub record Bounded (limit total : ℕ) (w : World) (r : Received World) : Type 0 where
    pub within : r.total ≤ limit
    pub counted : u.written r.world + total ≡ u.written w + r.total

  exceeds-false :
      (limit total n : ℕ)
      → 0 < limit
      → limit < 2 ^ 63
      → total ≤ limit
      → n < 2 ^ 63
      → exceeds limit total n ≡ false
      → total + n ≤ limit
  unfolding exceeds
  exceeds-false limit total n pos low le short e = ground arith

  no_wrap : (n : ℕ) → n < 2 ^ 64 → n % 2 ^ 64 ≡ n
  no_wrap n h = omega arith

  -- The world after a `recv`, and the limiter and the world after its bytes are written.
  abbrev after_recv : SocketHandle → World → World
  after_recv sock w = (h.recv sock chunk_size w).1

  abbrev after_write : SocketHandle → ℕ → Bytes → RateLimiter → World → RateLimiter × World
  after_write sock file b l w = throttle h (length b) l (h.fwrite file b (after_recv sock w))

  abbrev stopped : ℕ → Bool → RateLimiter → World → Received World
  stopped total overflow l w = record { total = total; overflow = overflow; limiter = l; world = w }

  recv_loop-stop :
      (limit fuel : ℕ) (sock : SocketHandle) (file total : ℕ) (l : RateLimiter) (w : World)
      → ((h.recv sock chunk_size w).0 ≡ none) ⊎ ((h.recv sock chunk_size w).0 ≡ some [])
      → recv_loop h (suc fuel) sock file limit total l w
        ≡ some (stopped total false l (after_recv sock w))
  unfolding recv_loop recv_data
  recv_loop-stop limit fuel sock file total l w (inl e) = rw (e, recv_loop)
  recv_loop-stop limit fuel sock file total l w (inr e) = rw (e, recv_loop)

  recv_loop-chunk :
      (limit fuel : ℕ) (sock : SocketHandle) (file total : ℕ) (l : RateLimiter) (w : World) (c : ℕ)
      (b : Bytes)
      → (h.recv sock chunk_size w).0 ≡ some (c ∷ b)
      → recv_loop h (suc fuel) sock file limit total l w ≡ (
          if exceeds limit total (length (c ∷ b))
          then some (stopped total true l (after_recv sock w))
          else recv_loop h fuel sock file limit
              ((total + length (c ∷ b)) % 2 ^ 64)
              (after_write sock file (c ∷ b) l w).0
              (after_write sock file (c ∷ b) l w).1)
  unfolding recv_loop recv_data
  recv_loop-chunk limit fuel sock file total l w c b e = rw (e, recv_loop)

  stopped-Bounded :
      (limit total : ℕ) (sock : SocketHandle) (overflow : Bool) (l : RateLimiter) (w : World)
      → total ≤ limit
      → Bounded limit total w (stopped total overflow l (after_recv sock w))
  stopped-Bounded limit total sock overflow l w le = record {
    within = le;
    counted = ap (λ x. x + total) (u.written-recv sock chunk_size w);
  }

  -- What the loop still has to show after a chunk, for the rest of it.
  chunk-Bounded :
      (limit total : ℕ) (sock : SocketHandle) (file : ℕ) (b : Bytes) (l : RateLimiter) (w : World)
      (r : Received World)
      → Bounded limit (total + length b) (after_write sock file b l w).1 r
      → Bounded limit total w r
  chunk-Bounded limit total sock file b l w r bd = record {
    within = bd.within;
    counted = omega (
      arith,
      bd.counted,
      (throttle-keeps (length b) l (h.fwrite file b (after_recv sock w))).1,
      u.written-fwrite file b (after_recv sock w),
      u.written-recv sock chunk_size w,
    );
  }

  -- The loop ends on this fuel, within the limit.
  abbrev pub Ends : ℕ → ℕ → SocketHandle → ℕ → ℕ → RateLimiter → World → Type 0
  Ends limit fuel sock file total l w =
      (r : Received World) × (recv_loop h fuel sock file limit total l w ≡ some r)
      × Bounded limit total w r

  chunk-Ends :
      (limit : ℕ)
      → 0 < limit
      → limit < 2 ^ 63
      → (fuel : ℕ) (sock : SocketHandle) (file total : ℕ) (l : RateLimiter) (w : World)
      → u.pending w < suc fuel
      → total ≤ limit
      → ((total' : ℕ) (l' : RateLimiter) (w' : World)
          → u.pending w' < fuel
          → total' ≤ limit
          → Ends limit fuel sock file total' l' w')
      → (c : ℕ) (b : Bytes) → (h.recv sock chunk_size w).0 ≡ some (c ∷ b)
      → Ends limit (suc fuel) sock file total l w
  chunk-Ends limit pos low fuel sock file total l w few le ih c b e =
      elim (Bool-cases (exceeds limit total (length (c ∷ b)))) [
        | inl over ↦ (
          stopped total true l (after_recv sock w),
          recv_loop-chunk limit fuel sock file total l w c b e ∙ rw over,
          stopped-Bounded limit total sock true l w le,
        )
        | inr fits ↦
            let took = u.pending-recv sock chunk_size w (c ∷ b) e in
            let sum =
              exceeds-false limit total (length (c ∷ b)) pos low le (omega (arith, took.1)) fits in
            let kept =
              (throttle-keeps (length (c ∷ b)) l (h.fwrite file (c ∷ b) (after_recv sock w))).0 in
            let (r, eq, bd) =
              ih (total + length (c ∷ b)) (after_write sock file (c ∷ b) l w).0
                (after_write sock file (c ∷ b) l w).1
                (omega (arith, took.0, kept, u.pending-fwrite file (c ∷ b) (after_recv sock w)))
                sum in
            (
              r,
              recv_loop-chunk limit fuel sock file total l w c b e
                  ∙ rw (fits, no_wrap (total + length (c ∷ b)) (omega arith)) eq,
              chunk-Bounded limit total sock file (c ∷ b) l w r bd,
            )
      ]

  -- With a limit below 2 ^ 63 bytes, the receive loop ends on any fuel above the bytes that the
  -- client has left to send; the bytes that it counted are on disk, and never more than the limit.
  pub recv_loop-Bounded :
      (limit : ℕ)
      → 0 < limit
      → limit < 2 ^ 63
      → (fuel : ℕ) (sock : SocketHandle) (file total : ℕ) (l : RateLimiter) (w : World)
      → u.pending w < fuel
      → total ≤ limit
      → Ends limit fuel sock file total l w
  recv_loop-Bounded limit pos low zero sock file total l w few le = absurd (omega arith)
  recv_loop-Bounded limit pos low (suc fuel) sock file total l w few le =
      elim (Option-cases (h.recv sock chunk_size w).0) [
        | inl e ↦ (
          stopped total false l (after_recv sock w),
          recv_loop-stop limit fuel sock file total l w (inl e),
          stopped-Bounded limit total sock false l w le,
        )
        | inr ([], e) ↦ (
          stopped total false l (after_recv sock w),
          recv_loop-stop limit fuel sock file total l w (inr e),
          stopped-Bounded limit total sock false l w le,
        )
        | inr (c ∷ b, e) ↦
            chunk-Ends limit pos low fuel sock file total l w few le
              (recv_loop-Bounded limit pos low fuel sock file) c b e
      ]
