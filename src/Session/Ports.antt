-- ===== src/Session/Ports.antt =====
-- src/server/session.cpp: PORT, the data channel and the guard on privileged ports.
use nexus_ftp_engine.Prelude.{ℕ, ◌+◌, ◌*◌, ◌^◌, ◌<◌, ◌≡◌, false, none, arith}
use nexus_ftp_engine.Prelude.Int.{pos}
use nexus_ftp_engine.Bytes.{Bytes, bytes}
use nexus_ftp_engine.Platform.{Host}
use nexus_ftp_engine.Platform.Sockets.{to_uint16}
use nexus_ftp_engine.DataChannel.{enter_active}
use nexus_ftp_engine.DataChannel.PortCommand.RoundTrip.{
  host_port, dotted, parse_port_command-host_port,
}
use nexus_ftp_engine.Session.{Sys, next}
use nexus_ftp_engine.Session.Flows.{FlowAll}
use nexus_ftp_engine.Session.Reply.{send_reply}
use nexus_ftp_engine.Session.Data.{handle_port, use_port}

-- The data channel of the session connects to the address, and to the port that is left when the
-- socket layer cuts the number to 16 bits.
abbrev pub ConnectsTo : {W : Type 0} → Bytes → ℕ → Sys W → Type 0
ConnectsTo ip port t =
    (t.session.data_channel.use_passive ≡ false)
    × (t.session.data_channel.passive_socket ≡ none)
    × (t.session.data_channel.active_ip ≡ ip)
    × (to_uint16 t.session.data_channel.active_port ≡ port)

module _ (h : Host) (s : Sys h.World) where
  open h use {World}

  use_port-privileged :
      (ip : Bytes) (port : ℕ)
      → port < 1024
      → use_port h ip (pos port) s
        ≡ next (send_reply h (bytes "504 PORT to privileged port rejected") s)
  unfolding use_port
  use_port-privileged ip port low = ground arith

  module _ (a b c d hi lo : ℕ) (ha : a < 2 ^ 31) (hb : b < 2 ^ 31) (hc : c < 2 ^ 31)
      (hd : d < 2 ^ 31) (port_fits : hi * 256 + lo < 2 ^ 31) where
    handle_port-host_port :
        handle_port h (host_port a b c d hi lo) s
        ≡ use_port h (dotted a b c d) (pos (hi * 256 + lo)) s
    unfolding handle_port
    handle_port-host_port =
        rw (handle_port, parse_port_command-host_port a b c d hi lo ha hb hc hd port_fits)

    -- PORT with such numbers and a port below 1024 is answered 504, and nothing else changes.
    handle_port-privileged :
        hi * 256 + lo < 1024
        → handle_port h (host_port a b c d hi lo) s
          ≡ next (send_reply h (bytes "504 PORT to privileged port rejected") s)
    handle_port-privileged low =
        rw handle_port-host_port (use_port-privileged (dotted a b c d) (hi * 256 + lo) low)

  -- 256 as the high byte passes the guard for every privileged port, and the socket layer cuts the
  -- sum down to that port again.
  pub handle_port_wraps :
      (a b c d p : ℕ)
      → a < 2 ^ 31
      → b < 2 ^ 31
      → c < 2 ^ 31
      → d < 2 ^ 31
      → p < 1024
      → FlowAll
          (λ t.
            (t.session.data_channel.active_ip ≡ dotted a b c d)
            × (to_uint16 t.session.data_channel.active_port ≡ p))
          (handle_port h (host_port a b c d 256 p) s)
  unfolding to_uint16 use_port enter_active send_reply
  handle_port_wraps a b c d p ha hb hc hd low =
      rw (handle_port-host_port a b c d 256 p ha hb hc hd (omega arith)) (ground arith)
