-- ===== src/Client/Uploads.antt =====
-- src/client/ftp_client.cpp: the loop of upload.
use nexus_ftp_engine.Prelude.{
  ℕ, zero, suc, ◌<◌, ◌≡◌, refl, sym, ap, subst, ◌∙◌, true, some, [], ◌∷◌, ◌++◌, arith, length,
  length-append, take, drop, ltb, append_assoc, append-nil, take-append-drop, Bool-cases,
  List-cases, inl, inr, if◌then◌else◌,
}
use nexus_ftp_engine.Bytes.{Bytes}
use nexus_ftp_engine.Platform.{Host, SocketHandle}
use nexus_ftp_engine.Platform.Sockets.{send_data}
use nexus_ftp_engine.Transfer.Streams.{Streams, take_empty}
use nexus_ftp_engine.Client.Transfers.{buffer_size, upload_loop}

ltb_less : (m n : ℕ) → ltb m n ≡ true → m < n
ltb_less m n e = ground (arith, e)

-- A text of which less than `n` bytes can be taken has no more.
drop_short : (n : ℕ) (b : Bytes) → length (take n b) < n → drop n b ≡ []
drop_short zero b h = absurd (omega (arith, h))
drop_short (suc n) [] h = refl
drop_short (suc n) (c ∷ b) h = drop_short n b (omega (arith, h))

module _ (h : Host) (u : Streams h) where
  open h use {World}

  abbrev after_send : SocketHandle → ℕ → Bytes → World → World
  after_send s f b w = (h.send s b (h.fread f buffer_size w).1).1

  upload_loop-end :
      (fuel : ℕ) (s : SocketHandle) (f : ℕ) (w : World)
      → (h.fread f buffer_size w).0 ≡ []
      → upload_loop h (suc fuel) s f w ≡ some (h.fread f buffer_size w).1
  unfolding upload_loop
  upload_loop-end fuel s f w e = rw (e, upload_loop)

  upload_loop-chunk :
      (fuel : ℕ) (s : SocketHandle) (f : ℕ) (w : World) (c : ℕ) (b : Bytes)
      → (h.fread f buffer_size w).0 ≡ c ∷ b
      → upload_loop h (suc fuel) s f w ≡ (
          if ltb (length (c ∷ b)) buffer_size
          then some (after_send s f (c ∷ b) w)
          else upload_loop h fuel s f (after_send s f (c ∷ b) w))
  unfolding upload_loop send_data
  upload_loop-chunk fuel s f w c b e =
      rw (e, upload_loop)
        (ap
          (λ x.
            if ltb (length (c ∷ b)) buffer_size
            then some (after_send s f x w)
            else upload_loop h fuel s f (after_send s f x w))
          e)

  sent-after_send :
      (s : SocketHandle) (f : ℕ) (b : Bytes) (w : World)
      → u.sent s (after_send s f b w) ≡ u.sent s w ++ b
  sent-after_send s f b w =
      u.sent-send s b (h.fread f buffer_size w).1
      ∙ ap (λ x. x ++ b) (u.sent-fread s f buffer_size w)

  unread-after_send :
      (s : SocketHandle) (f : ℕ) (b : Bytes) (w : World)
      → u.unread f (after_send s f b w) ≡ drop buffer_size (u.unread f w)
  unread-after_send s f b w =
      u.unread-send f s b (h.fread f buffer_size w).1 ∙ u.unread-fread f buffer_size w

  chunk_split :
      (f : ℕ) (w : World)
      → (h.fread f buffer_size w).0 ++ drop buffer_size (u.unread f w) ≡ u.unread f w
  chunk_split f w =
      ap (λ x. x ++ drop buffer_size (u.unread f w)) (u.fread-take f buffer_size w)
      ∙ take-append-drop buffer_size (u.unread f w)

  chunk_empty : (f : ℕ) (w : World) → (h.fread f buffer_size w).0 ≡ [] → u.unread f w ≡ []
  chunk_empty f w e = take_empty 8191 (u.unread f w) (sym (u.fread-take f buffer_size w) ∙ e)

  -- The loop ends, and the text went out behind what was sent before.
  abbrev pub Uploads : ℕ → SocketHandle → ℕ → World → Bytes → Type 0
  Uploads fuel s f w text =
      (w2 : World) × (upload_loop h fuel s f w ≡ some w2) × (u.sent s w2 ≡ u.sent s w ++ text)

  -- A short chunk is the last.
  short-Uploads :
      (fuel : ℕ) (s : SocketHandle) (f : ℕ) (w : World) (c : ℕ) (b : Bytes)
      → (h.fread f buffer_size w).0 ≡ c ∷ b
      → ltb (length (c ∷ b)) buffer_size ≡ true
      → Uploads (suc fuel) s f w (u.unread f w)
  short-Uploads fuel s f w c b e short =
      let less : length (take buffer_size (u.unread f w)) < buffer_size =
        subst (λ x. length x < buffer_size) (sym (sym (u.fread-take f buffer_size w) ∙ e))
          (ltb_less (length (c ∷ b)) buffer_size short) in
      let whole : c ∷ b ≡ u.unread f w =
        sym (append-nil (c ∷ b))
        ∙ ap (λ x. (c ∷ b) ++ x) (sym (drop_short buffer_size (u.unread f w) less))
        ∙ ap (λ x. x ++ drop buffer_size (u.unread f w)) (sym e)
        ∙ chunk_split f w in
      (
        after_send s f (c ∷ b) w,
        upload_loop-chunk fuel s f w c b e ∙ rw short refl,
        sent-after_send s f (c ∷ b) w ∙ ap (λ x. u.sent s w ++ x) whole,
      )

  -- From a file that is open and a server that takes what is sent, the loop of upload ends on any fuel
  -- above the bytes that the file has left, and sends exactly these, in order, behind what was sent
  -- before.
  pub upload_loop-Uploads :
      (fuel : ℕ) (s : SocketHandle) (f : ℕ) (w : World)
      → length (u.unread f w) < fuel
      → Uploads fuel s f w (u.unread f w)
  upload_loop-Uploads zero s f w few = absurd (omega (arith, few))
  upload_loop-Uploads (suc fuel) s f w few = elim (List-cases (h.fread f buffer_size w).0) [
    | inl e ↦ (
      (h.fread f buffer_size w).1,
      upload_loop-end fuel s f w e,
      u.sent-fread s f buffer_size w
          ∙ sym (append-nil (u.sent s w))
          ∙ ap (λ x. u.sent s w ++ x) (sym (chunk_empty f w e)),
    )
    | inr (c, b, e) ↦ elim (Bool-cases (ltb (length (c ∷ b)) buffer_size)) [
      | inl short ↦ short-Uploads fuel s f w c b e short
      | inr full ↦
          let w2 = after_send s f (c ∷ b) w in
          let left = unread-after_send s f (c ∷ b) w in
          let whole : (c ∷ b) ++ drop buffer_size (u.unread f w) ≡ u.unread f w =
            ap (λ x. x ++ drop buffer_size (u.unread f w)) (sym e) ∙ chunk_split f w in
          let len =
            sym (length-append (c ∷ b) (drop buffer_size (u.unread f w))) ∙ ap length whole in
          let (w3, eq, out) =
            upload_loop-Uploads fuel s f w2 (omega (arith, few, len, ap length left)) in
          (
            w3,
            upload_loop-chunk fuel s f w c b e ∙ rw full eq,
            out
                ∙ ap (λ x. x ++ u.unread f w2) (sent-after_send s f (c ∷ b) w)
                ∙ append_assoc (u.sent s w) (c ∷ b) (u.unread f w2)
                ∙ ap (λ x. u.sent s w ++ ((c ∷ b) ++ x)) left
                ∙ ap (λ x. u.sent s w ++ x) whole,
          )
    ]
  ]
