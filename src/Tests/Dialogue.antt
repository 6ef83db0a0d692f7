-- ===== src/Tests/Dialogue.antt =====
-- Tests of the replies on the control connection: a greeting, the features and a farewell, over a host
-- that gives the client what the server has sent.
use nexus_ftp_engine.Prelude.{
  ◌+◌, ◌≤◌, ℕ, ◌≡◌, refl, ap, none, some, List, [], ◌∷◌, ◌++◌, length, map, take, drop, arith,
}
use nexus_ftp_engine.Bytes.{Bytes, bytes, find, find_if, bytes_eq}
use nexus_ftp_engine.Platform.{Host}
use nexus_ftp_engine.Platform.Sockets.{set_socket_buffers, set_keep_alive, set_recv_timeout}
use nexus_ftp_engine.Session.{Sys, next}
use nexus_ftp_engine.Session.Access.{handle_feat, new_session}
use nexus_ftp_engine.Session.Reply.{send_reply}
use nexus_ftp_engine.Client.Passive.{Lacks-find}
use nexus_ftp_engine.Client.Framing.{Reply, single, multi, reply_text, first_line, IsLine, IsReply}
use nexus_ftp_engine.Client.Replies.{Wire}
use nexus_ftp_engine.Client.Dialogue.{
  AreReplies, send_replies, read_replies, read_replies-send_replies,
}
use nexus_ftp_engine.Tests.Sessions.{demo_ctx}
use nexus_ftp_engine.Tests.Toy.{ToyWorld, empty_world, next_chunk, toy}

abbrev first_chunk : List Bytes → Bytes
first_chunk [] = []
first_chunk (c ∷ cs) = c

abbrev piped : Host
piped = record toy {
  send = λ sock buf w. (some (length buf), record w { inbox = (first_chunk w.inbox ++ buf) ∷ [] });
  recv = λ sock n w. next_chunk n w.inbox w;
}

next_chunk-first_chunk :
    (chunks : List Bytes) (c : ℕ) (rest : Bytes) (w : ToyWorld)
    → first_chunk chunks ≡ c ∷ rest
    → ((next_chunk 1 chunks w).0 ≡ some (c ∷ []))
      × (first_chunk (next_chunk 1 chunks w).1.inbox ≡ rest)
next_chunk-first_chunk [] c rest w e = ground (arith, e)
next_chunk-first_chunk (b ∷ chunks) c rest w e = (ap (λ x. some (take 1 x)) e, ap (drop 1) e)

abbrev piped_wire : Wire piped (some 4) (some 3)
piped_wire = record {
  pending = λ w. first_chunk w.inbox;
  pending-send = λ b w. refl;
  recv-pending = λ c rest w e. (next_chunk-first_chunk w.inbox c rest w e).0;
  pending-recv = λ c rest w e. (next_chunk-first_chunk w.inbox c rest w e).1;
}

abbrev features : Reply
features =
    multi (bytes "211-Extensions supported:")
      (bytes " SIZE" ∷ bytes " MDTM" ∷ bytes " REST STREAM" ∷ []) (bytes "211 End.")

-- The reply to FEAT is one of several lines in this sense.
handle_feat-reply_text :
    (h : Host) (s : Sys h.World) → handle_feat h s ≡ next (send_reply h (reply_text features) s)
unfolding handle_feat bytes
handle_feat-reply_text h s = refl

abbrev conversation : List Reply
conversation = single (bytes "220 Welcome") ∷ features ∷ single (bytes "221 Goodbye.") ∷ []

is_line : (l : Bytes) → find 10 l ≡ none → find 13 l ≡ none → length l + 2 ≤ 40 → IsLine 40 l
is_line l e k short = (Lacks-find 10 l e, Lacks-find 13 l k, short)

conversation-AreReplies : AreReplies 40 conversation
unfolding bytes find_if bytes_eq
conversation-AreReplies =
    let features_IsReply : IsReply 40 features = (
      b'2',
      b'1',
      b'1',
      (
        is_line (bytes "211-Extensions supported:") refl refl (omega arith),
        (bytes "Extensions supported:", refl),
      ),
      (
        (is_line (bytes " SIZE") refl refl (omega arith), (λ (t, e). ground (arith, e))),
        (
          (is_line (bytes " MDTM") refl refl (omega arith), (λ (t, e). ground (arith, e))),
          (
            (is_line (bytes " REST STREAM") refl refl (omega arith), (λ (t, e). ground (arith, e))),
            tt,
          ),
        ),
      ),
      (is_line (bytes "211 End.") refl refl (omega arith), (bytes "End.", refl)),
      omega arith,
    ) in
    (
      (
        is_line (bytes "220 Welcome") refl refl (omega arith),
        (λ c0 c1 c2 (t, e). ground (arith, e)),
      ),
      (
        features_IsReply,
        (
          (
            is_line (bytes "221 Goodbye.") refl refl (omega arith),
            (λ c0 c1 c2 (t, e). ground (arith, e)),
          ),
          tt,
        ),
      ),
    )

abbrev serving : Sys ToyWorld
serving = new_session piped (some 4) (bytes "10.0.0.7") demo_ctx empty_world

read_replies-send_replies_example :
    (w : ToyWorld) × (read_replies piped 40 3
        (some 3)
        (send_replies piped conversation serving).world
      ≡ some (map first_line conversation, w))
    × (first_chunk w.inbox ≡ [])
unfolding new_session set_socket_buffers set_keep_alive set_recv_timeout
read_replies-send_replies_example =
    read_replies-send_replies piped piped_wire 40 conversation serving conversation-AreReplies refl
      refl
