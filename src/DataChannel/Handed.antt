-- ===== src/DataChannel/Handed.antt =====
-- src/server/data_channel.h: the connections that a data channel makes and hands out.
use nexus_ftp_engine.Prelude.{
  ℕ, ◌+◌, ◌≡◌, refl, ◌∙◌, none, some, arith, Bool-cases, Option-cases, inl, inr, if◌then◌else◌,
}
use nexus_ftp_engine.Prelude.Int.{ℤ, pos}
use nexus_ftp_engine.Bytes.{Bytes}
use nexus_ftp_engine.Platform.{Host, SocketHandle, SockOpt}
use nexus_ftp_engine.Platform.Sockets.{
  create_tcp_socket, set_reuse_addr, bind_socket, listen_socket, close_socket, get_local_port,
  managed_close, accept_connection, connect_socket, to_uint16,
}
use nexus_ftp_engine.DataChannel.{
  DataChannel, close_passive, listen_passive, enter_passive, enter_active, open_data,
}
use nexus_ftp_engine.DataChannel.Sockets.{held}

-- A host that counts how often accept has given the descriptor `k` or connect has succeeded on it.
pub record Connecting (h : Host) (k : ℕ) : Type 0 where
  pub made : h.World → ℕ
  pub made-accept :
      (s : SocketHandle) (w : h.World) → made (h.accept s w).1 ≡ made w + held k (h.accept s w).0
  pub made-connect :
      (s : SocketHandle) (ip : Bytes) (p : ℕ) (w : h.World)
      → made (h.connect s ip p w).1 ≡ made w + (if (h.connect s ip p w).0 then held k s else 0)
  pub made-socket : (w : h.World) → made (h.socket w).1 ≡ made w
  pub made-close : (s : SocketHandle) (w : h.World) → made (h.close s w) ≡ made w
  pub made-bind : (s : SocketHandle) (p : ℕ) (w : h.World) → made (h.bind s p w).1 ≡ made w
  pub made-listen : (s : SocketHandle) (n : ℤ) (w : h.World) → made (h.listen s n w).1 ≡ made w
  pub made-option :
      (s : SocketHandle) (o : SockOpt) (w : h.World) → made (h.set_sockopt s o w) ≡ made w
  pub made-port : (s : SocketHandle) (w : h.World) → made (h.local_port s w).1 ≡ made w

module _ (h : Host) (k : ℕ) (c : Connecting h k) where
  open h use {World}

  managed_close-same :
      (sock : SocketHandle) (w : World) → c.made (managed_close h sock w).1 ≡ c.made w
  unfolding managed_close close_socket
  managed_close-same none w = refl
  managed_close-same (some fd) w = c.made-close (some fd) w

  pub close_passive-same : (d : DataChannel) (w : World) → c.made (close_passive h d w).1 ≡ c.made w
  unfolding close_passive
  close_passive-same d w = managed_close-same d.passive_socket w

  connect_socket-handed :
      (ip : Bytes) (port : ℤ) (w : World)
      → c.made (connect_socket h ip port w).1 ≡ c.made w + held k (connect_socket h ip port w).0
  unfolding connect_socket close_socket
  connect_socket-handed ip port w =
      let fd = (h.socket w).0 in
      let w1 = (h.socket w).1 in
      let connected = c.made-connect fd ip (to_uint16 port) w1 in
      elim (Bool-cases (h.connect fd ip (to_uint16 port) w1).0) [
        | inl e ↦ rw e (ground (arith, connected, e, c.made-socket w))
        | inr e ↦ rw e (
            ground (
              arith,
              connected,
              e,
              c.made-socket w,
              c.made-close fd (h.connect fd ip (to_uint16 port) w1).1,
            ))
      ]

  listen_passive-same :
      (d : DataChannel) (sock : SocketHandle) (w : World)
      → c.made (listen_passive h d sock w).2 ≡ c.made w
  unfolding listen_passive close_socket set_reuse_addr bind_socket listen_socket get_local_port
  listen_passive-same d sock w =
      let w1 = h.set_sockopt sock SockOpt.reuse_addr w in
      let w2 = (h.bind sock (to_uint16 (pos 0)) w1).1 in
      let w3 = (h.listen sock (pos 1) w2).1 in
      let prepared =
        c.made-bind sock (to_uint16 (pos 0)) w1 ∙ c.made-option sock SockOpt.reuse_addr w in
      let listened = c.made-listen sock (pos 1) w2 ∙ prepared in
      elim (Bool-cases (h.bind sock (to_uint16 (pos 0)) w1).0) [
        | inr unbound ↦ rw unbound (c.made-close sock w2 ∙ prepared)
        | inl bound ↦ elim (Bool-cases (h.listen sock (pos 1) w2).0) [
          | inr deaf ↦ rw bound (rw deaf (c.made-close sock w3 ∙ listened))
          | inl listening ↦ rw bound (rw listening (c.made-port sock w3 ∙ listened))
        ]
      ]

  pub enter_passive-same : (d : DataChannel) (w : World) → c.made (enter_passive h d w).2 ≡ c.made w
  unfolding enter_passive create_tcp_socket
  enter_passive-same d w =
      let d1 = (close_passive h d w).0 in
      let w1 = (close_passive h d w).1 in
      let before = c.made-socket w1 ∙ close_passive-same d w in
      elim (Option-cases (h.socket w1).0) [
        | inl e ↦ rw (e, enter_passive) before
        | inr (fd, e) ↦
            rw (e, enter_passive) (listen_passive-same d1 (some fd) (h.socket w1).1 ∙ before)
      ]

  pub enter_active-same :
      (ip : Bytes) (port : ℤ) (d : DataChannel) (w : World)
      → c.made (enter_active h ip port d w).1 ≡ c.made w
  unfolding enter_active
  enter_active-same ip port d w = close_passive-same d w

  pub open_data-handed :
      (d : DataChannel) (w : World)
      → c.made (open_data h d w).2 ≡ c.made w + held k (open_data h d w).0
  unfolding open_data accept_connection
  open_data-handed d w = elim (Bool-cases d.use_passive) [
    | inl e ↦
        rw e
          (close_passive-same d (h.accept d.passive_socket w).1 ∙ c.made-accept d.passive_socket w)
    | inr e ↦ rw e (connect_socket-handed d.active_ip d.active_port w)
  ]
