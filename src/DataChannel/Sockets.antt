-- ===== src/DataChannel/Sockets.antt =====
-- src/server/data_channel.h: the sockets that a data channel opens, hands out and closes.
use nexus_ftp_engine.Prelude.{
  ℕ, ◌+◌, ◌==◌, if◌then◌else◌, ◌≡◌, refl, ap, ◌∙◌, none, some, arith, Bool-cases, Option-cases, inl,
  inr,
}
use nexus_ftp_engine.Prelude.Int.{ℤ, pos}
use nexus_ftp_engine.Bytes.{Bytes}
use nexus_ftp_engine.Platform.{Host, SocketHandle, SockOpt}
use nexus_ftp_engine.Platform.Sockets.{
  create_tcp_socket, set_reuse_addr, bind_socket, listen_socket, close_socket, get_local_port,
  managed_close, accept_connection, connect_socket, to_uint16,
}
use nexus_ftp_engine.DataChannel.{
  DataChannel, close_passive, listen_passive, enter_passive, enter_active, open_data,
}

-- How often the handle is the descriptor `k`.
abbrev pub held : ℕ → SocketHandle → ℕ
held k none = 0
held k (some fd) = if fd == k then 1 else 0

-- A host that counts how often socket and accept have given the descriptor `k`, and how often close was
-- called for it.
pub record Counted (h : Host) (k : ℕ) : Type 0 where
  pub opens : h.World → ℕ
  pub closes : h.World → ℕ
  pub opens-socket : (w : h.World) → opens (h.socket w).1 ≡ opens w + held k (h.socket w).0
  pub closes-socket : (w : h.World) → closes (h.socket w).1 ≡ closes w
  pub opens-accept :
      (s : SocketHandle) (w : h.World) → opens (h.accept s w).1 ≡ opens w + held k (h.accept s w).0
  pub closes-accept : (s : SocketHandle) (w : h.World) → closes (h.accept s w).1 ≡ closes w
  pub opens-close : (s : SocketHandle) (w : h.World) → opens (h.close s w) ≡ opens w
  pub closes-close : (s : SocketHandle) (w : h.World) → closes (h.close s w) ≡ closes w + held k s
  pub opens-bind : (s : SocketHandle) (p : ℕ) (w : h.World) → opens (h.bind s p w).1 ≡ opens w
  pub closes-bind : (s : SocketHandle) (p : ℕ) (w : h.World) → closes (h.bind s p w).1 ≡ closes w
  pub opens-listen : (s : SocketHandle) (n : ℤ) (w : h.World) → opens (h.listen s n w).1 ≡ opens w
  pub closes-listen :
      (s : SocketHandle) (n : ℤ) (w : h.World) → closes (h.listen s n w).1 ≡ closes w
  pub opens-connect :
      (s : SocketHandle) (ip : Bytes) (p : ℕ) (w : h.World) → opens (h.connect s ip p w).1 ≡ opens w
  pub closes-connect :
      (s : SocketHandle) (ip : Bytes) (p : ℕ) (w : h.World)
      → closes (h.connect s ip p w).1 ≡ closes w
  pub opens-option :
      (s : SocketHandle) (o : SockOpt) (w : h.World) → opens (h.set_sockopt s o w) ≡ opens w
  pub closes-option :
      (s : SocketHandle) (o : SockOpt) (w : h.World) → closes (h.set_sockopt s o w) ≡ closes w
  pub opens-port : (s : SocketHandle) (w : h.World) → opens (h.local_port s w).1 ≡ opens w
  pub closes-port : (s : SocketHandle) (w : h.World) → closes (h.local_port s w).1 ≡ closes w

module _ (h : Host) (k : ℕ) (counted : Counted h k) where
  open h use {World}
  open counted use {
    opens, closes, opens-socket, closes-socket, opens-accept, closes-accept, opens-close,
    closes-close, opens-bind, closes-bind, opens-listen, closes-listen, opens-connect,
    closes-connect, opens-option, closes-option, opens-port, closes-port,
  }

  -- From `w` with the descriptor held `before` times to `v` with it held `later` times, what was opened is
  -- what was closed and what is held more.
  abbrev pub Balanced : World → ℕ → World → ℕ → Type 0
  Balanced w before v later = opens v + closes w + before ≡ opens w + closes v + later

  managed_close-Balanced :
      (sock : SocketHandle) (w : World)
      → Balanced w (held k sock) (managed_close h sock w).1 (held k (managed_close h sock w).0)
  unfolding managed_close close_socket
  managed_close-Balanced none w = refl
  managed_close-Balanced (some fd) w =
      omega (arith, opens-close (some fd) w, closes-close (some fd) w)

  pub close_passive-Balanced :
      (d : DataChannel) (w : World)
      → Balanced w
          (held k d.passive_socket)
          (close_passive h d w).1
          (held k (close_passive h d w).0.passive_socket)
  unfolding close_passive
  close_passive-Balanced d w = managed_close-Balanced d.passive_socket w

  pub close_passive-none :
      (d : DataChannel) (w : World) → (close_passive h d w).0.passive_socket ≡ none
  unfolding close_passive managed_close
  close_passive-none d w = emptied d.passive_socket
    where
      emptied : (sock : SocketHandle) → (managed_close h sock w).0 ≡ none
      emptied none = refl
      emptied (some fd) = refl

  connect_socket-Balanced :
      (ip : Bytes) (port : ℤ) (w : World)
      → Balanced w 0 (connect_socket h ip port w).1 (held k (connect_socket h ip port w).0)
  unfolding connect_socket close_socket
  connect_socket-Balanced ip port w =
      let fd = (h.socket w).0 in
      let w1 = (h.socket w).1 in
      let w2 = (h.connect fd ip (to_uint16 port) w1).1 in
      elim (Bool-cases (h.connect fd ip (to_uint16 port) w1).0) [
        | inl e ↦ rw e (
            omega (
              arith,
              opens-socket w,
              closes-socket w,
              opens-connect fd ip (to_uint16 port) w1,
              closes-connect fd ip (to_uint16 port) w1,
            ))
        | inr e ↦ rw e (
            omega (
              arith,
              opens-socket w,
              closes-socket w,
              opens-connect fd ip (to_uint16 port) w1,
              closes-connect fd ip (to_uint16 port) w1,
              opens-close fd w2,
              closes-close fd w2,
            ))
      ]

  -- A socket in hand, made the listening one or closed again.
  listen_passive-Balanced :
      (d : DataChannel) (sock : SocketHandle) (w : World)
      → d.passive_socket ≡ none
      → Balanced w
          (held k sock)
          (listen_passive h d sock w).2
          (held k (listen_passive h d sock w).1.passive_socket)
  unfolding listen_passive close_socket set_reuse_addr bind_socket listen_socket get_local_port
  listen_passive-Balanced d sock w empty =
      let w1 = h.set_sockopt sock SockOpt.reuse_addr w in
      let w2 = (h.bind sock (to_uint16 (pos 0)) w1).1 in
      let w3 = (h.listen sock (pos 1) w2).1 in
      let none_held : held k d.passive_socket ≡ 0 = ap (held k) empty in
      let prepared : (opens w2 ≡ opens w) × (closes w2 ≡ closes w) = (
        opens-bind sock (to_uint16 (pos 0)) w1 ∙ opens-option sock SockOpt.reuse_addr w,
        closes-bind sock (to_uint16 (pos 0)) w1 ∙ closes-option sock SockOpt.reuse_addr w,
      ) in
      let listened : (opens w3 ≡ opens w2) × (closes w3 ≡ closes w2) =
        (opens-listen sock (pos 1) w2, closes-listen sock (pos 1) w2) in
      elim (Bool-cases (h.bind sock (to_uint16 (pos 0)) w1).0) [
        | inr unbound ↦ rw unbound (
            omega
              (arith, prepared.0, prepared.1, none_held, opens-close sock w2, closes-close sock w2))
        | inl bound ↦ elim (Bool-cases (h.listen sock (pos 1) w2).0) [
          | inr deaf ↦ rw bound (
              rw deaf (
                omega (
                  arith,
                  prepared.0,
                  prepared.1,
                  listened.0,
                  listened.1,
                  none_held,
                  opens-close sock w3,
                  closes-close sock w3,
                )))
          | inl listening ↦ rw bound (
              rw listening (
                omega (
                  arith,
                  prepared.0,
                  prepared.1,
                  listened.0,
                  listened.1,
                  opens-port sock w3,
                  closes-port sock w3,
                )))
        ]
      ]

  pub enter_passive-Balanced :
      (d : DataChannel) (w : World)
      → Balanced w
          (held k d.passive_socket)
          (enter_passive h d w).2
          (held k (enter_passive h d w).1.passive_socket)
  unfolding enter_passive create_tcp_socket
  enter_passive-Balanced d w =
      let d1 = (close_passive h d w).0 in
      let w1 = (close_passive h d w).1 in
      let empty : d1.passive_socket ≡ none = close_passive-none d w in
      let none_held : held k d1.passive_socket ≡ 0 = ap (held k) empty in
      elim (Option-cases (h.socket w1).0) [
        | inl e ↦
            rw (e, enter_passive)
              (omega (
                arith,
                opens-socket w1,
                closes-socket w1,
                ap (held k) e,
                close_passive-Balanced d w,
              ))
        | inr (fd, e) ↦
            rw (e, enter_passive)
              (omega (
                arith,
                opens-socket w1,
                closes-socket w1,
                ap (held k) e,
                none_held,
                close_passive-Balanced d w,
                listen_passive-Balanced d1 (some fd) (h.socket w1).1 empty,
              ))
      ]

  pub enter_active-Balanced :
      (ip : Bytes) (port : ℤ) (d : DataChannel) (w : World)
      → Balanced w
          (held k d.passive_socket)
          (enter_active h ip port d w).1
          (held k (enter_active h ip port d w).0.passive_socket)
  unfolding enter_active
  enter_active-Balanced ip port d w = close_passive-Balanced d w

  pub open_data-Balanced :
      (d : DataChannel) (w : World)
      → Balanced w
          (held k d.passive_socket)
          (open_data h d w).2
          (held k (open_data h d w).1.passive_socket + held k (open_data h d w).0)
  unfolding open_data accept_connection
  open_data-Balanced d w = elim (Bool-cases d.use_passive) [
    | inl e ↦ rw e (
        omega (
          arith,
          opens-accept d.passive_socket w,
          closes-accept d.passive_socket w,
          close_passive-Balanced d (h.accept d.passive_socket w).1,
        ))
    | inr e ↦ rw e (omega (arith, connect_socket-Balanced d.active_ip d.active_port w))
  ]
