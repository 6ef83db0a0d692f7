-- ===== src/Transfer/Downloads.antt =====
-- src/server/transfer.h: the buffered fallback of sendFile.
use nexus_ftp_engine.Prelude.{
  ℕ, zero, suc, ◌+◌, ◌%◌, ◌^◌, ◌<◌, ◌≡◌, ◌&&◌, sym, ap, ◌∙◌, subst, some, [], ◌∷◌, ◌++◌, arith,
  length, length-append, drop, ltb, append_assoc, append-nil, take-append-drop, List-cases, inl,
  inr, if◌then◌else◌,
}
use nexus_ftp_engine.Bytes.{Bytes}
use nexus_ftp_engine.Platform.{Host, SocketHandle, rb}
use nexus_ftp_engine.Platform.Sockets.{send_data}
use nexus_ftp_engine.Transfer.{chunk_size}
use nexus_ftp_engine.Transfer.Limiter.{RateLimiter, throttle, sleep_over_budget, reset_window}
use nexus_ftp_engine.Transfer.Send.{send_loop, send_file_buffered}
use nexus_ftp_engine.Transfer.Streams.{Streams, Seeks, take_empty}

module _ (h : Host) (u : Streams h) (seeks : Seeks h u) where
  open h use {World}

  throttle-streams :
      (f n : ℕ) (s : SocketHandle) (l : RateLimiter) (w : World)
      → (u.unread f (throttle h n l w).1 ≡ u.unread f w)
        × (u.sent s (throttle h n l w).1 ≡ u.sent s w)
  unfolding throttle sleep_over_budget reset_window
  throttle-streams f n s l w =
      grind (arith, u.unread-clock, u.sent-clock, u.unread-sleep, u.sent-sleep)

  -- The world after a chunk is read and sent, and then the throttle.
  abbrev after_send : SocketHandle → ℕ → Bytes → World → World
  after_send s f b w = (h.send s b (h.fread f chunk_size w).1).1

  abbrev after_chunk : SocketHandle → ℕ → Bytes → RateLimiter → World → RateLimiter × World
  after_chunk s f b l w = throttle h (length b) l (after_send s f b w)

  send_loop-end :
      (fuel : ℕ) (s : SocketHandle) (f total : ℕ) (l : RateLimiter) (w : World)
      → (h.fread f chunk_size w).0 ≡ []
      → send_loop h (suc fuel) s f total l w ≡ some (total, l, (h.fread f chunk_size w).1)
  unfolding send_loop
  send_loop-end fuel s f total l w e = rw (e, send_loop)

  send_loop-chunk :
      (fuel : ℕ) (s : SocketHandle) (f total : ℕ) (l : RateLimiter) (w : World) (c : ℕ) (b : Bytes)
      → (h.fread f chunk_size w).0 ≡ c ∷ b
      → send_loop h (suc fuel) s f total l w
        ≡ send_loop h fuel s f
            ((total + length (c ∷ b)) % 2 ^ 64)
            (after_chunk s f (c ∷ b) l w).0
            (after_chunk s f (c ∷ b) l w).1
  unfolding send_loop send_data
  send_loop-chunk fuel s f total l w c b e =
      rw (e, send_loop, u.send_takes s (h.fread f chunk_size w).0 (h.fread f chunk_size w).1)
        (ap
          (λ x.
            send_loop h fuel s f ((total + length x) % 2 ^ 64) (after_chunk s f x l w).0
              (after_chunk s f x l w).1)
          e)

  unread-after_chunk :
      (s : SocketHandle) (f : ℕ) (b : Bytes) (l : RateLimiter) (w : World)
      → u.unread f (after_chunk s f b l w).1 ≡ drop chunk_size (u.unread f w)
  unread-after_chunk s f b l w =
      (throttle-streams f (length b) s l (after_send s f b w)).0
      ∙ u.unread-send f s b (h.fread f chunk_size w).1
      ∙ u.unread-fread f chunk_size w

  sent-after_chunk :
      (s : SocketHandle) (f : ℕ) (b : Bytes) (l : RateLimiter) (w : World)
      → u.sent s (after_chunk s f b l w).1 ≡ u.sent s w ++ b
  sent-after_chunk s f b l w =
      (throttle-streams f (length b) s l (after_send s f b w)).1
      ∙ u.sent-send s b (h.fread f chunk_size w).1
      ∙ ap (λ x. x ++ b) (u.sent-fread s f chunk_size w)

  -- The loop ends, with this total, and this text went out behind what was sent before.
  abbrev pub Sends : ℕ → SocketHandle → ℕ → ℕ → RateLimiter → World → Bytes → Type 0
  Sends fuel s f total l w text =
      (l2 : RateLimiter) × (w2 : World) × (send_loop h fuel s f total l w
        ≡ some (total + length text, l2, w2))
      × (u.sent s w2 ≡ u.sent s w ++ text)

  end-Sends :
      (fuel : ℕ) (s : SocketHandle) (f total : ℕ) (l : RateLimiter) (w : World)
      → (h.fread f chunk_size w).0 ≡ []
      → Sends (suc fuel) s f total l w []
  end-Sends fuel s f total l w e = (
    l,
    (h.fread f chunk_size w).1,
    send_loop-end fuel s f total l w e
        ∙ ap (λ n. some (n, l, (h.fread f chunk_size w).1)) (omega arith),
    u.sent-fread s f chunk_size w ∙ sym (append-nil (u.sent s w)),
  )

  no_wrap : (n : ℕ) → n < 2 ^ 64 → n % 2 ^ 64 ≡ n
  no_wrap n small = omega (arith, small)

  chunk-Sends :
      (fuel : ℕ) (s : SocketHandle) (f total : ℕ) (l : RateLimiter) (w : World) (c : ℕ)
      (b rest : Bytes)
      → (h.fread f chunk_size w).0 ≡ c ∷ b
      → total + length (c ∷ b) < 2 ^ 64
      → Sends fuel s f
          (total + length (c ∷ b))
          (after_chunk s f (c ∷ b) l w).0
          (after_chunk s f (c ∷ b) l w).1
          rest
      → Sends (suc fuel) s f total l w ((c ∷ b) ++ rest)
  chunk-Sends fuel s f total l w c b rest e small (l2, w2, eq, out) = (
    l2,
    w2,
    send_loop-chunk fuel s f total l w c b e
        ∙ ap
            (λ n.
              send_loop h fuel s f n (after_chunk s f (c ∷ b) l w).0
                (after_chunk s f (c ∷ b) l w).1)
            (no_wrap (total + length (c ∷ b)) small)
        ∙ eq
        ∙ ap (λ n. some (n, l2, w2)) (omega (arith, length-append (c ∷ b) rest)),
    out
        ∙ ap (λ x. x ++ rest) (sent-after_chunk s f (c ∷ b) l w)
        ∙ append_assoc (u.sent s w) (c ∷ b) rest,
  )

  -- The chunk that is read, and what is left behind it.
  chunk_split :
      (f : ℕ) (w : World)
      → (h.fread f chunk_size w).0 ++ drop chunk_size (u.unread f w) ≡ u.unread f w
  chunk_split f w =
      ap (λ x. x ++ drop chunk_size (u.unread f w)) (u.fread-take f chunk_size w)
      ∙ take-append-drop chunk_size (u.unread f w)

  -- An empty chunk is the end of the file.
  chunk_empty : (f : ℕ) (w : World) → (h.fread f chunk_size w).0 ≡ [] → u.unread f w ≡ []
  chunk_empty f w e = take_empty 65535 (u.unread f w) (sym (u.fread-take f chunk_size w) ∙ e)

  send_loop-Sends :
      (fuel : ℕ) (s : SocketHandle) (f total : ℕ) (l : RateLimiter) (w : World)
      → length (u.unread f w) < fuel
      → total + length (u.unread f w) < 2 ^ 64
      → Sends fuel s f total l w (u.unread f w)
  send_loop-Sends zero s f total l w few small = absurd (omega (arith, few))
  send_loop-Sends (suc fuel) s f total l w few small =
      elim (List-cases (h.fread f chunk_size w).0) [
        | inl e ↦
            subst (Sends (suc fuel) s f total l w) (sym (chunk_empty f w e))
              (end-Sends fuel s f total l w e)
        | inr (c, b, e) ↦
            let left = drop chunk_size (u.unread f w) in
            let whole : (c ∷ b) ++ left ≡ u.unread f w =
              ap (λ x. x ++ drop chunk_size (u.unread f w)) (sym e) ∙ chunk_split f w in
            let len : length (c ∷ b) + length left ≡ length (u.unread f w) =
              sym (length-append (c ∷ b) left) ∙ ap length whole in
            let same = unread-after_chunk s f (c ∷ b) l w in
            subst (Sends (suc fuel) s f total l w) whole (
              chunk-Sends fuel s f total l w c b left e (omega (arith, small, len)) (
                subst
                  (Sends fuel s f (total + length (c ∷ b)) (after_chunk s f (c ∷ b) l w).0
                    (after_chunk s f (c ∷ b) l w).1)
                  same
                  (send_loop-Sends fuel s f (total + length (c ∷ b)) (after_chunk s f (c ∷ b) l w).0
                    (after_chunk s f (c ∷ b) l w).1 (omega (arith, few, len, ap length same))
                    (omega (arith, small, len, ap length same)))))
      ]

  -- The world in which the loop begins.
  unfoldable pub positioned : Bytes → ℕ → ℕ → World → World
  positioned path offset f w =
      let w1 = (h.fopen path rb w).1 in
      if ltb 0 offset && ltb offset (2 ^ 63) then h.fseek f offset w1 else w1

  positioned-suc :
      (path : Bytes) (offset f : ℕ) (w : World)
      → suc offset < 2 ^ 63
      → positioned path (suc offset) f w ≡ h.fseek f (suc offset) (h.fopen path rb w).1
  unfolding positioned
  positioned-suc path offset f w in_long = ground arith

  unread-positioned :
      (path : Bytes) (offset f : ℕ) (w : World)
      → offset < 2 ^ 63
      → (h.fopen path rb w).0 ≡ some f
      → u.unread f (positioned path offset f w) ≡ drop offset (u.stored path w)
  unfolding positioned
  unread-positioned path zero f w in_long e = u.unread-fopen path f w e
  unread-positioned path (suc offset) f w in_long e =
      ap (u.unread f) (positioned-suc path offset f w in_long)
      ∙ seeks.unread-fseek f (suc offset) (h.fopen path rb w).1 in_long
      ∙ ap (drop (suc offset)) (seeks.content-fopen path f w e)

  sent-positioned :
      (path : Bytes) (offset f : ℕ) (s : SocketHandle) (w : World)
      → offset < 2 ^ 63
      → u.sent s (positioned path offset f w) ≡ u.sent s w
  unfolding positioned
  sent-positioned path zero f s w in_long = u.sent-fopen s path w
  sent-positioned path (suc offset) f s w in_long =
      ap (u.sent s) (positioned-suc path offset f w in_long)
      ∙ seeks.sent-fseek s f (suc offset) (h.fopen path rb w).1
      ∙ u.sent-fopen s path w

  send_file_buffered-loop :
      (fuel : ℕ) (s : SocketHandle) (path : Bytes) (offset total f n : ℕ) (l l2 : RateLimiter)
      (w w2 : World)
      → (h.fopen path rb w).0 ≡ some f
      → send_loop h fuel s f total l (positioned path offset f w) ≡ some (n, l2, w2)
      → send_file_buffered h fuel s path offset total l w ≡ some (n, l2, h.fclose f w2)
  unfolding send_file_buffered positioned
  send_file_buffered-loop fuel s path offset total f n l l2 w w2 opened e =
      rw (opened, send_file_buffered, e)

  -- For a file that can be opened, an offset below 2^63 and a client that takes what is sent, the
  -- buffered fallback ends on any fuel above the bytes behind the offset, as long as the total stays
  -- below 2^64: it sends exactly the file's bytes from the offset on, in order, behind what was sent
  -- before, and adds their number to its total.
  pub send_file_buffered-sends :
      (fuel : ℕ) (s : SocketHandle) (path : Bytes) (offset total f : ℕ) (l : RateLimiter)
      (w : World)
      → offset < 2 ^ 63
      → (h.fopen path rb w).0 ≡ some f
      → length (drop offset (u.stored path w)) < fuel
      → total + length (drop offset (u.stored path w)) < 2 ^ 64
      → (l2 : RateLimiter) × (w2 : World) × (send_file_buffered h fuel s path offset total l w
          ≡ some (total + length (drop offset (u.stored path w)), l2, w2))
        × (u.sent s w2 ≡ u.sent s w ++ drop offset (u.stored path w))
  send_file_buffered-sends fuel s path offset total f l w in_long opened few small =
      let left = unread-positioned path offset f w in_long opened in
      let (l2, w2, eq, out) = subst (Sends fuel s f total l (positioned path offset f w)) left (
        send_loop-Sends fuel s f total l (positioned path offset f w)
          (omega (arith, few, ap length left)) (omega (arith, small, ap length left))) in
      (
        l2,
        h.fclose f w2,
        send_file_buffered-loop fuel s path offset total f _ l l2 w w2 opened eq,
        u.sent-fclose s f w2
            ∙ out
            ∙ ap (λ x. x ++ drop offset (u.stored path w))
                (sent-positioned path offset f s w in_long),
      )
