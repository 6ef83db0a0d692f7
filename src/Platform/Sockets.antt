-- ===== src/Platform/Sockets.antt =====
-- src/common/platform.cpp, sockets (the POSIX branch), and ManagedSocket of src/common/platform.h.
use nexus_ftp_engine.Prelude.{ℕ, ◌-◌, ◌%◌, ◌^◌, Bool, ltb, Option, none, some, if◌then◌else◌}
use nexus_ftp_engine.Prelude.Int.{ℤ, pos, ◌*ℤ◌, ltb_ℤ}
use nexus_ftp_engine.Bytes.{Bytes}
use nexus_ftp_engine.Platform.{
  Host, SocketHandle, reuse_addr, keep_alive, recv_timeout, send_buf, recv_buf,
}

-- (uint16_t)port for an int
unfoldable pub to_uint16 : ℤ → ℕ
to_uint16 (pos n) = n % 2 ^ 16
to_uint16 (ℤ.negsuc n) = 2 ^ 16 - 1 - n % 2 ^ 16

-- An int as a word of 32 bits.
abbrev to_word : ℤ → ℕ
to_word (pos n) = n % 2 ^ 32
to_word (ℤ.negsuc n) = 2 ^ 32 - 1 - n % 2 ^ 32

-- An int multiplication on 32 bits that wraps.
unfoldable pub mul_int : ℤ → ℤ → ℤ
mul_int a b =
    let word = to_word (a *ℤ b) in
    if ltb word (2 ^ 31) then pos word else ℤ.negsuc (2 ^ 32 - 1 - word)

module _ (h : Host) where
  open h use {World, socket, bind, listen, accept, connect, send, recv, close, set_sockopt}

  unfoldable pub close_socket : SocketHandle → World → World
  close_socket sock w = close sock w

  unfoldable pub create_tcp_socket : World → SocketHandle × World
  create_tcp_socket w = socket w

  unfoldable pub bind_socket : SocketHandle → ℤ → World → Bool × World
  bind_socket sock port w = bind sock (to_uint16 port) w

  unfoldable pub listen_socket : SocketHandle → ℤ → World → Bool × World
  listen_socket sock backlog w = listen sock backlog w

  unfoldable pub accept_connection : SocketHandle → World → SocketHandle × World
  accept_connection server w = accept server w

  unfoldable pub connect_socket : Bytes → ℤ → World → SocketHandle × World
  unfolding close_socket
  connect_socket ip port w =
      let (fd, w1) = socket w in
      let (connected, w2) = connect fd ip (to_uint16 port) w1 in
      if connected then (fd, w2) else (none, close fd w2)

  unfoldable pub send_data : SocketHandle → Bytes → World → Option ℕ × World
  send_data sock buf w = send sock buf w

  unfoldable pub recv_data : SocketHandle → ℕ → World → Option Bytes × World
  recv_data sock len w = recv sock len w

  unfoldable pub set_reuse_addr : SocketHandle → World → World
  set_reuse_addr sock w = set_sockopt sock reuse_addr w

  unfoldable pub set_recv_timeout : SocketHandle → ℤ → World → World
  set_recv_timeout sock seconds w =
      if ltb_ℤ (pos 0) seconds then set_sockopt sock (recv_timeout seconds) w else w

  unfoldable pub set_keep_alive : SocketHandle → World → World
  set_keep_alive sock w = set_sockopt sock keep_alive w

  unfoldable pub set_socket_buffers : SocketHandle → ℤ → ℤ → World → World
  set_socket_buffers sock send_buf_kb recv_buf_kb w =
      set_sockopt sock (recv_buf (mul_int recv_buf_kb (pos 1024)))
        (set_sockopt sock (send_buf (mul_int send_buf_kb (pos 1024))) w)

  unfoldable pub get_local_port : SocketHandle → World → ℕ × World
  get_local_port sock w = h.local_port sock w

  unfoldable pub get_peer_ip : SocketHandle → World → Bytes × World
  get_peer_ip sock w = h.peer_ip sock w

  -- ManagedSocket::close
  unfoldable pub managed_close : SocketHandle → World → SocketHandle × World
  unfolding close_socket
  managed_close none w = (none, w)
  managed_close (some fd) w = (none, close_socket (some fd) w)
