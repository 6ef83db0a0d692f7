-- ===== src/Transfer/Streams.antt =====
-- What the loops that send a file rely on: files that are read front to back, and a connection that
-- takes what is sent.
use nexus_ftp_engine.Prelude.{
  ℕ, zero, suc, ◌+◌, ◌^◌, ◌<◌, ◌≡◌, refl, some, [], ◌∷◌, ◌++◌, arith, length, take, drop,
}
use nexus_ftp_engine.Bytes.{Bytes}
use nexus_ftp_engine.Platform.{Host, SocketHandle, rb}

-- `stored` is a file's content, `unread` what an open file has left, `sent` what went out on a socket.
pub record Streams (h : Host) : Type 0 where
  pub stored : Bytes → h.World → Bytes
  pub unread : ℕ → h.World → Bytes
  pub sent : SocketHandle → h.World → Bytes
  pub fread-take : (f n : ℕ) (w : h.World) → (h.fread f n w).0 ≡ take n (unread f w)
  pub unread-fread : (f n : ℕ) (w : h.World) → unread f (h.fread f n w).1 ≡ drop n (unread f w)
  pub unread-send :
      (f : ℕ) (s : SocketHandle) (b : Bytes) (w : h.World) → unread f (h.send s b w).1 ≡ unread f w
  pub unread-clock : (f : ℕ) (w : h.World) → unread f (h.clock w).1 ≡ unread f w
  pub unread-sleep : (f n : ℕ) (w : h.World) → unread f (h.sleep_ms n w) ≡ unread f w
  pub unread-fopen :
      (p : Bytes) (f : ℕ) (w : h.World)
      → (h.fopen p rb w).0 ≡ some f
      → unread f (h.fopen p rb w).1 ≡ stored p w
  pub send_takes : (s : SocketHandle) (b : Bytes) (w : h.World) → (h.send s b w).0 ≡ some (length b)
  pub sent-send :
      (s : SocketHandle) (b : Bytes) (w : h.World) → sent s (h.send s b w).1 ≡ sent s w ++ b
  pub sent-fread : (s : SocketHandle) (f n : ℕ) (w : h.World) → sent s (h.fread f n w).1 ≡ sent s w
  pub sent-clock : (s : SocketHandle) (w : h.World) → sent s (h.clock w).1 ≡ sent s w
  pub sent-sleep : (s : SocketHandle) (n : ℕ) (w : h.World) → sent s (h.sleep_ms n w) ≡ sent s w
  pub sent-fopen :
      (s : SocketHandle) (p : Bytes) (w : h.World) → sent s (h.fopen p rb w).1 ≡ sent s w
  pub sent-fclose : (s : SocketHandle) (f : ℕ) (w : h.World) → sent s (h.fclose f w) ≡ sent s w

-- fseek with SEEK_SET, for an offset that a long holds: wherever the file stood, it then has left what
-- its whole `content` has from the offset on.
pub record Seeks (h : Host) (u : Streams h) : Type 0 where
  pub content : ℕ → h.World → Bytes
  pub content-fopen :
      (p : Bytes) (f : ℕ) (w : h.World)
      → (h.fopen p rb w).0 ≡ some f
      → content f (h.fopen p rb w).1 ≡ u.stored p w
  pub unread-fseek :
      (f n : ℕ) (w : h.World) → n < 2 ^ 63 → u.unread f (h.fseek f n w) ≡ drop n (content f w)
  pub sent-fseek :
      (s : SocketHandle) (f n : ℕ) (w : h.World) → u.sent s (h.fseek f n w) ≡ u.sent s w

-- A chunk of a text, against the text.
pub take_empty : (n : ℕ) (b : Bytes) → take (suc n) b ≡ [] → b ≡ []
take_empty n [] e = refl
take_empty n (c ∷ b) e = cc

pub length-take-drop : (n : ℕ) (b : Bytes) → length (take n b) + length (drop n b) ≡ length b
length-take-drop zero b = omega arith
length-take-drop (suc n) [] = omega arith
length-take-drop (suc n) (c ∷ b) = omega (arith, length-take-drop n b)

pub length-take_pos : (n : ℕ) (b : Bytes) → 0 < n → 0 < length b → 0 < length (take n b)
length-take_pos zero b h k = absurd (omega (arith, h))
length-take_pos (suc n) [] h k = absurd (omega (arith, k))
length-take_pos (suc n) (c ∷ b) h k = omega arith
