-- ===== src/DataChannel.antt =====
-- src/server/data_channel.h
pub mod PortCommand
pub mod Sockets
pub mod Handed
pub mod Uses
use nexus_ftp_engine.Prelude.{
  ℕ, ◌/◌, ◌%◌, Bool, true, false, not, ◌&&◌, Option, none, some, [], ◌∷◌, ◌++◌, if◌then◌else◌,
}
use nexus_ftp_engine.Prelude.Int.{ℤ, pos, negsuc}
use nexus_ftp_engine.Bytes.{Bytes, bytes}
use nexus_ftp_engine.Bytes.Decimal.{to_string}
use nexus_ftp_engine.Platform.{Host, SocketHandle}
use nexus_ftp_engine.Platform.Sockets.{
  create_tcp_socket, set_reuse_addr, bind_socket, listen_socket, close_socket, get_local_port,
  managed_close, accept_connection, connect_socket,
}

pub record DataChannel : Type 0 where
  pub passive_socket : SocketHandle
  pub use_passive : Bool
  pub passive_port : ℕ
  pub active_ip : Bytes
  pub active_port : ℤ

abbrev pub initial_channel : DataChannel
initial_channel = record {
  passive_socket = none;
  use_passive = false;
  passive_port = 0;
  active_ip = [];
  active_port = pos 0;
}

-- DataChannel::pasvResponse
unfoldable pub pasv_response : DataChannel → Bytes
pasv_response d =
    bytes "227 Entering Passive Mode (127,0,0,1,"
    ++ to_string (d.passive_port / 256)
    ++ b',' ∷ to_string (d.passive_port % 256)
    ++ bytes ")"

module _ (h : Host) where
  open h use {World}

  -- DataChannel::closePassive
  unfoldable pub close_passive : DataChannel → World → DataChannel × World
  close_passive d w =
      let (sock, w1) = managed_close h d.passive_socket w in
      (record d { passive_socket = sock }, w1)

  -- The rest of enterPassive, with a socket in hand.
  unfoldable pub listen_passive :
      DataChannel → SocketHandle → World → Option ℕ × DataChannel × World
  listen_passive d sock w =
      let w1 = set_reuse_addr h sock w in
      let (bound, w2) = bind_socket h sock (pos 0) w1 in
      let (listening, w3) = (if bound then listen_socket h sock (pos 1) w2 else (false, w2)) in
      let (port, w4) = get_local_port h sock w3 in
      if not (bound && listening) then (none, d, close_socket h sock w3) else (
        some port,
        record d { passive_socket = sock; use_passive = true; passive_port = port },
        w4,
      )

  -- DataChannel::enterPassive; `none` is the result -1.
  unfoldable pub enter_passive : DataChannel → World → Option ℕ × DataChannel × World
  unfolding close_passive listen_passive
  enter_passive d0 w0 =
      let (d, w) = close_passive d0 w0 in
      let (sock, w1) = create_tcp_socket h w in
      elim sock [ none ↦ (none, d, w1) | some fd ↦ listen_passive d (some fd) w1 ]

  -- DataChannel::enterActive
  unfoldable pub enter_active : Bytes → ℤ → DataChannel → World → DataChannel × World
  unfolding close_passive
  enter_active ip port d0 w0 =
      let (d, w) = close_passive d0 w0 in
      (record d { active_ip = ip; active_port = port; use_passive = false }, w)

  -- DataChannel::open
  unfoldable pub open_data : DataChannel → World → SocketHandle × DataChannel × World
  unfolding close_passive
  open_data d w =
      if d.use_passive
      then (let (ds, w1) = accept_connection h d.passive_socket w in
          let (d2, w2) = close_passive d w1 in (ds, d2, w2))
      else (let (ds, w1) = connect_socket h d.active_ip d.active_port w in (ds, d, w1))
