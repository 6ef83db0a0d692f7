-- ===== src/Client/Replies.antt =====
-- src/client/ftp_client.cpp, readReply, against src/server/session.cpp, sendReply: the framing of the
-- replies on the control connection.
use nexus_ftp_engine.Prelude.{
  ℕ, zero, suc, ◌+◌, ◌≤◌, ◌≡◌, refl, sym, ap, ◌∙◌, true, false, some, List, [], ◌∷◌, ◌++◌,
  append_assoc, append-nil, arith, length, take, ◌==◌, if◌then◌else◌,
}
use nexus_ftp_engine.Bytes.{Bytes}
use nexus_ftp_engine.Platform.{Host, SocketHandle}
use nexus_ftp_engine.Platform.Sockets.{recv_data}
use nexus_ftp_engine.Client.{read_line, is_last_line, skip_lines, read_reply}
use nexus_ftp_engine.Session.Reply.{crlf}
use nexus_ftp_engine.Client.Framing.{
  Reply, single, multi, lines_text, reply_text, first_line, opens, IsLine, Marked, AreInner,
  IsReply, opens-Marked, take-Marked, opens-unmarked, is_last_line-Marked, is_last_line-unmarked,
}

-- A connection as the client's end sees it: `pending` is what the server has sent and the client has
-- not received.
pub record Wire (h : Host) (server client : SocketHandle) : Type 0 where
  pub pending : h.World → Bytes
  pub pending-send : (b : Bytes) (w : h.World) → pending (h.send server b w).1 ≡ pending w ++ b
  pub recv-pending :
      (c : ℕ) (rest : Bytes) (w : h.World)
      → pending w ≡ c ∷ rest
      → (h.recv client 1 w).0 ≡ some (c ∷ [])
  pub pending-recv :
      (c : ℕ) (rest : Bytes) (w : h.World)
      → pending w ≡ c ∷ rest
      → pending (h.recv client 1 w).1 ≡ rest

module _ (h : Host) {server client : SocketHandle} (wire : Wire h server client) where
  open wire use {pending, pending-send, recv-pending, pending-recv}

  after : h.World → h.World
  after w = (h.recv client 1 w).1

  read_line-byte :
      (fuel c : ℕ) (rest line : Bytes) (w : h.World)
      → pending w ≡ c ∷ rest
      → read_line h (suc fuel) client line w ≡ (
          if c == 10
          then some (line, after w)
          else if c == 13
          then read_line h fuel client line (after w)
          else read_line h fuel client (line ++ c ∷ []) (after w))
  unfolding read_line recv_data after
  read_line-byte fuel c rest line w e = rw (read_line, recv-pending c rest w e) refl

  -- A whole line.
  read_line-crlf :
      (fuel : ℕ) (l rest line : Bytes) (w : h.World)
      → IsLine fuel l
      → pending w ≡ l ++ (crlf ++ rest)
      → (w1 : h.World) × (read_line h fuel client line w ≡ some (line ++ l, w1))
        × (pending w1 ≡ rest)
  unfolding after
  read_line-crlf zero l rest line w (a, b, k) e = absurd (omega (arith, k))
  read_line-crlf (suc zero) l rest line w (a, b, k) e = absurd (omega (arith, k))
  read_line-crlf (suc (suc fuel)) [] rest line w p e =
      let e1 = pending-recv 13 (10 ∷ rest) w e in
      (
        after (after w),
        read_line-byte (suc fuel) 13 (10 ∷ rest) line w e
            ∙ read_line-byte fuel 10 rest line (after w) e1
            ∙ ap (λ l. some (l, after (after w))) (sym (append-nil line)),
        pending-recv 10 rest (after w) e1,
      )
  read_line-crlf (suc (suc fuel)) (c ∷ l) rest line w ((x, a), (y, b), k) e =
      let (w1, read, left) =
        read_line-crlf (suc fuel) l rest (line ++ c ∷ []) (after w) (a, b, omega (arith, k))
          (pending-recv c (l ++ (crlf ++ rest)) w e) in
      (
        w1,
        read_line-byte (suc fuel) c (l ++ (crlf ++ rest)) line w e
            ∙ ground (arith, x, y)
            ∙ read
            ∙ ap (λ l. some (l, w1)) (append_assoc line (c ∷ []) l),
        left,
      )

  skip_lines-line :
      (fuel n : ℕ) (code l : Bytes) (w w1 : h.World)
      → read_line h fuel client [] w ≡ some (l, w1)
      → skip_lines h fuel (suc n) client code w
        ≡ (if is_last_line code l then some w1 else skip_lines h fuel n client code w1)
  unfolding skip_lines
  skip_lines-line fuel n code l w w1 e = rw (skip_lines, e) refl

  -- Two lines, with their ends.
  lines_assoc : (l s rest : Bytes) → (l ++ (crlf ++ s)) ++ rest ≡ l ++ (crlf ++ (s ++ rest))
  lines_assoc l s rest = append_assoc l (crlf ++ s) rest

  skip_lines-lines_text :
      (fuel n c0 c1 c2 : ℕ) (middle : List Bytes) (last rest : Bytes) (w : h.World)
      → AreInner fuel c0 c1 c2 middle
      → IsLine fuel last
      → Marked c0 c1 c2 b' ' last
      → length middle + 1 ≤ n
      → pending w ≡ lines_text middle last ++ (crlf ++ rest)
      → (w1 : h.World) × (skip_lines h fuel n client (c0 ∷ c1 ∷ c2 ∷ []) w ≡ some w1)
        × (pending w1 ≡ rest)
  skip_lines-lines_text fuel zero c0 c1 c2 middle last rest w inner p ends k e =
      absurd (omega (arith, k))
  skip_lines-lines_text fuel (suc n) c0 c1 c2 [] last rest w inner p ends k e =
      let (w1, read, left) = read_line-crlf fuel last rest [] w p e in
      (
        w1,
        skip_lines-line fuel n (c0 ∷ c1 ∷ c2 ∷ []) last w w1 read
            ∙ ap (λ b. if b then some w1 else skip_lines h fuel n client (c0 ∷ c1 ∷ c2 ∷ []) w1)
                (is_last_line-Marked c0 c1 c2 last ends),
        left,
      )
  skip_lines-lines_text fuel (suc n) c0 c1 c2 (l ∷ ls) last rest w ((q, goes_on), inner) p ends k
        e =
      let (w1, read, left) =
        read_line-crlf fuel l (lines_text ls last ++ (crlf ++ rest)) [] w q
          (e ∙ lines_assoc l (lines_text ls last) (crlf ++ rest)) in
      let (w2, skipped, done) =
        skip_lines-lines_text fuel n c0 c1 c2 ls last rest w1 inner p ends (omega (arith, k))
          left in
      (
        w2,
        skip_lines-line fuel n (c0 ∷ c1 ∷ c2 ∷ []) l w w1 read
            ∙ ap (λ b. if b then some w1 else skip_lines h fuel n client (c0 ∷ c1 ∷ c2 ∷ []) w1)
                (is_last_line-unmarked c0 c1 c2 l goes_on)
            ∙ skipped,
        done,
      )

  read_reply-single :
      (fuel : ℕ) (l : Bytes) (w w1 : h.World)
      → read_line h fuel client [] w ≡ some (l, w1)
      → opens l ≡ false
      → read_reply h fuel client w ≡ some (l, w1)
  unfolding read_reply
  read_reply-single fuel l w w1 e o = rw (read_reply, e) (rw o refl)

  read_reply-multi :
      (fuel : ℕ) (l : Bytes) (w w1 w2 : h.World)
      → read_line h fuel client [] w ≡ some (l, w1)
      → opens l ≡ true
      → skip_lines h fuel fuel client (take 3 l) w1 ≡ some w2
      → read_reply h fuel client w ≡ some (l, w2)
  unfolding read_reply
  read_reply-multi fuel l w w1 w2 e o k = rw (read_reply, e) (rw (o, k) refl)

  -- A reply in front of other bytes is read, and the other bytes are left.
  pub read_reply-reply_text :
      (fuel : ℕ) (r : Reply) (rest : Bytes) (w : h.World)
      → IsReply fuel r
      → pending w ≡ reply_text r ++ (crlf ++ rest)
      → (w1 : h.World) × (read_reply h fuel client w ≡ some (first_line r, w1))
        × (pending w1 ≡ rest)
  read_reply-reply_text fuel (single l) rest w (p, o) e =
      let (w1, read, left) = read_line-crlf fuel l rest [] w p e in
      (w1, read_reply-single fuel l w w1 read (opens-unmarked l o), left)
  read_reply-reply_text fuel (multi opening middle last) rest w
        (c0, c1, c2, (p, o), inner, (q, ends), k) e =
      let (w1, read, left) =
        read_line-crlf fuel opening (lines_text middle last ++ (crlf ++ rest)) [] w p
          (e ∙ lines_assoc opening (lines_text middle last) (crlf ++ rest)) in
      let (w2, skipped, done) =
        skip_lines-lines_text fuel fuel c0 c1 c2 middle last rest w1 inner q ends k left in
      (
        w2,
        read_reply-multi fuel opening w w1 w2 read (opens-Marked c0 c1 c2 opening o) (
            ap (λ code. skip_lines h fuel fuel client code w1) (take-Marked c0 c1 c2 b'-' opening o)
            ∙ skipped),
        done,
      )
