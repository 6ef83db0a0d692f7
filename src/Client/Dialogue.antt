-- ===== src/Client/Dialogue.antt =====
-- src/server/session.cpp and src/client/ftp_client.cpp: the replies of a session as the client reads
-- them, one after the other.
use nexus_ftp_engine.Prelude.{
  ℕ, zero, suc, ◌≡◌, refl, sym, ap, ◌∙◌, Option, none, some, List, [], ◌∷◌, ◌++◌, append_assoc,
  append-nil, length, map,
}
use nexus_ftp_engine.Bytes.{Bytes}
use nexus_ftp_engine.Platform.{Host, SocketHandle}
use nexus_ftp_engine.Platform.Sockets.{send_data}
use nexus_ftp_engine.Session.{Sys}
use nexus_ftp_engine.Session.Reply.{crlf, send_reply}
use nexus_ftp_engine.Client.{read_reply}
use nexus_ftp_engine.Client.Framing.{Reply, reply_text, first_line, IsReply}
use nexus_ftp_engine.Client.Replies.{Wire, read_reply-reply_text}

abbrev pub AreReplies : ℕ → List Reply → Type 0
AreReplies fuel [] = Unit {0}
AreReplies fuel (r ∷ rs) = IsReply fuel r × AreReplies fuel rs

-- What goes over the connection.
abbrev wire_text : List Reply → Bytes
wire_text [] = []
wire_text (r ∷ rs) = reply_text r ++ (crlf ++ wire_text rs)

module _ (h : Host) where
  -- The server sends replies in turn.
  abbrev pub send_replies : List Reply → Sys h.World → Sys h.World
  send_replies [] s = s
  send_replies (r ∷ rs) s = send_replies rs (send_reply h (reply_text r) s)

  -- The client reads as many.
  abbrev pub read_replies : ℕ → ℕ → SocketHandle → h.World → Option (List Bytes × h.World)
  read_replies fuel zero sock w = some ([], w)
  read_replies fuel (suc n) sock w = elim (read_reply h fuel sock w) [
    | none ↦ none
    | some (reply, w1) ↦ elim (read_replies fuel n sock w1) [
      | none ↦ none
      | some (replies, w2) ↦ some (reply ∷ replies, w2)
    ]
  ]

  module _ {server client : SocketHandle} (wire : Wire h server client) where
    open wire use {pending, pending-send}

    pending-send_reply :
        (text : Bytes) (s : Sys h.World)
        → s.session.socket ≡ server
        → pending (send_reply h text s).world ≡ pending s.world ++ (text ++ crlf)
    unfolding send_reply send_data
    pending-send_reply text s e =
        ap (λ sock. pending (h.send sock (text ++ crlf) s.world).1) e
        ∙ pending-send (text ++ crlf) s.world

    socket-send_reply :
        (text : Bytes) (s : Sys h.World) → (send_reply h text s).session.socket ≡ s.session.socket
    unfolding send_reply
    socket-send_reply text s = refl

    pending-send_replies :
        (rs : List Reply) (s : Sys h.World)
        → s.session.socket ≡ server
        → pending (send_replies rs s).world ≡ pending s.world ++ wire_text rs
    pending-send_replies [] s e = sym (append-nil (pending s.world))
    pending-send_replies (r ∷ rs) s e =
        pending-send_replies rs (send_reply h (reply_text r) s)
          (socket-send_reply (reply_text r) s ∙ e)
        ∙ ap (λ b. b ++ wire_text rs) (pending-send_reply (reply_text r) s e)
        ∙ append_assoc (pending s.world) (reply_text r ++ crlf) (wire_text rs)
        ∙ ap (λ b. pending s.world ++ b) (append_assoc (reply_text r) crlf (wire_text rs))

    read_replies-some :
        (fuel n : ℕ) (reply : Bytes) (replies : List Bytes) (w w1 w2 : h.World)
        → read_reply h fuel client w ≡ some (reply, w1)
        → read_replies fuel n client w1 ≡ some (replies, w2)
        → read_replies fuel (suc n) client w ≡ some (reply ∷ replies, w2)
    read_replies-some fuel n reply replies w w1 w2 e k = rw (read_replies, e) (rw k refl)

    read_replies-wire_text :
        (fuel : ℕ) (rs : List Reply) (w : h.World)
        → AreReplies fuel rs
        → pending w ≡ wire_text rs
        → (w1 : h.World) × (read_replies fuel (length rs) client w ≡ some (map first_line rs, w1))
          × (pending w1 ≡ [])
    read_replies-wire_text fuel [] w p e = (w, refl, e)
    read_replies-wire_text fuel (r ∷ rs) w (p, ps) e =
        let (w1, read, left) = read_reply-reply_text h wire fuel r (wire_text rs) w p e in
        let (w2, reads, done) = read_replies-wire_text fuel rs w1 ps left in
        (
          w2,
          read_replies-some fuel (length rs) (first_line r) (map first_line rs) w w1 w2 read reads,
          done,
        )

    -- Over a connection on which nothing is pending, whatever replies the server sends in turn, of one
    -- line or of several in the form of RFC 959 and with lines that fit the client's bound, the client's
    -- readReply returns the first line of each of them in their order, and nothing is left: no reply is
    -- read into another one.
    pub read_replies-send_replies :
        (fuel : ℕ) (rs : List Reply) (s : Sys h.World)
        → AreReplies fuel rs
        → s.session.socket ≡ server
        → pending s.world ≡ []
        → (w : h.World) × (read_replies fuel (length rs) client (send_replies rs s).world
            ≡ some (map first_line rs, w))
          × (pending w ≡ [])
    read_replies-send_replies fuel rs s p e empty =
        read_replies-wire_text fuel rs (send_replies rs s).world p
          (pending-send_replies rs s e ∙ ap (λ b. b ++ wire_text rs) empty)
