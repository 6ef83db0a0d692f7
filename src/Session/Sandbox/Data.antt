-- ===== src/Session/Sandbox/Data.antt =====
-- src/server/session.cpp: the paths of the commands on the data connection.
use nexus_ftp_engine.Prelude.{
  ℕ, Bool, false, Option, some, if◌then◌else◌, if_both, Option-cases, Bool-cases, inl, inr,
}
use nexus_ftp_engine.Prelude.Int.{ℤ, pos, ltb_ℤ}
use nexus_ftp_engine.Bytes.{Bytes}
use nexus_ftp_engine.Platform.{Host, SocketHandle}
use nexus_ftp_engine.Platform.Sockets.{
  accept_connection, close_socket, create_tcp_socket, set_reuse_addr, bind_socket, listen_socket,
  get_local_port,
}
use nexus_ftp_engine.DataChannel.{
  DataChannel, open_data, close_passive, enter_passive, listen_passive, enter_active,
}
use nexus_ftp_engine.DataChannel.PortCommand.{Outcome, ok, thrown, parse_port_command}
use nexus_ftp_engine.Session.{Sys, Flow}
use nexus_ftp_engine.Session.Data.{handle_pasv, use_port, handle_port}
use nexus_ftp_engine.Session.Sandbox.Calls.{Survives, managed_close-Safe, connect_socket-Safe}
use nexus_ftp_engine.Session.Sandbox.Handlers.{Safe, send_reply-Safe}

module _ (h : Host) (Allowed : Bytes → Type 0) (P : h.World → Type 0)
    (k : Survives h Allowed P) where
  open h use {World}

  close_passive-Safe : (d : DataChannel) (w : World) → P w → P (close_passive h d w).1
  unfolding close_passive
  close_passive-Safe d w p = managed_close-Safe h Allowed P k d.passive_socket w p

  pub open_data-Safe : (d : DataChannel) (w : World) → P w → P (open_data h d w).2
  unfolding open_data accept_connection
  open_data-Safe d w p =
      if_both {A = SocketHandle × DataChannel × World} (λ r. P r.2) d.use_passive
        (close_passive-Safe d _ (k.accept_at d.passive_socket w p))
        (connect_socket-Safe h Allowed P k d.active_ip d.active_port w p)

  listening-Safe :
      (bound : Bool) (sock : SocketHandle) (w : World)
      → P w
      → P (if bound then listen_socket h sock (pos 1) w else (false, w)).1
  unfolding listen_socket
  listening-Safe bound sock w p =
      if_both {A = Bool × World} (λ r. P r.1) bound (k.listen_at sock (pos 1) w p) p

  listen_passive-Safe :
      (d : DataChannel) (sock : SocketHandle) (w : World) → P w → P (listen_passive h d sock w).2
  unfolding listen_passive close_socket set_reuse_addr bind_socket get_local_port
  listen_passive-Safe d sock w p =
      if_both {A = Option ℕ × DataChannel × World} (λ r. P r.2) _ (k.close_at sock _ listened)
        (k.local_port_at sock _ listened)
    where
      bound : P (bind_socket h sock (pos 0) (set_reuse_addr h sock w)).1
      bound = k.bind_at sock _ _ (k.set_sockopt_at sock _ w p)

      listened :
          P
            (if (bind_socket h sock (pos 0) (set_reuse_addr h sock w)).0
              then listen_socket h sock
                  (pos 1)
                  (bind_socket h sock (pos 0) (set_reuse_addr h sock w)).1
              else (false, (bind_socket h sock (pos 0) (set_reuse_addr h sock w)).1)).1
      listened = listening-Safe _ sock _ bound

  enter_passive-Safe : (d : DataChannel) (w : World) → P w → P (enter_passive h d w).2
  unfolding enter_passive create_tcp_socket
  enter_passive-Safe d w p = elim (Option-cases (h.socket (close_passive h d w).1).0) [
    | inl e ↦ rw (e, enter_passive) made
    | inr (fd, e) ↦ rw (e, enter_passive) (listen_passive-Safe _ (some fd) _ made)
  ]
    where
      made : P (h.socket (close_passive h d w).1).1
      made = k.socket_at _ (close_passive-Safe d w p)

  pub handle_pasv-Safe : (s : Sys World) → P s.world → Safe h Allowed P k (handle_pasv h s)
  unfolding handle_pasv
  handle_pasv-Safe s p = elim (Option-cases (enter_passive h s.session.data_channel s.world).0) [
    | inl e ↦ rw (e, handle_pasv) (send_reply-Safe h Allowed P k _ _ entered)
    | inr (port, e) ↦ rw (e, handle_pasv) (send_reply-Safe h Allowed P k _ _ entered)
  ]
    where
      entered : P (enter_passive h s.session.data_channel s.world).2
      entered = enter_passive-Safe s.session.data_channel s.world p

  use_port-Safe :
      (ip : Bytes) (port : ℤ) (s : Sys World)
      → P s.world
      → Safe h Allowed P k (use_port h ip port s)
  unfolding use_port enter_active
  use_port-Safe ip port s p = elim (Bool-cases (ltb_ℤ port (pos 1024))) [
    | inl e ↦ rw (e, use_port) (send_reply-Safe h Allowed P k _ s p)
    | inr e ↦
        rw (e, use_port)
          (send_reply-Safe h Allowed P k _ _ (close_passive-Safe s.session.data_channel s.world p))
  ]

  pub handle_port-Safe :
      (arg : Bytes) (s : Sys World) → P s.world → Safe h Allowed P k (handle_port h arg s)
  unfolding handle_port
  handle_port-Safe arg s p = on_parsed (parse_port_command arg)
    where
      on_parsed :
          (o : Outcome (Bytes × ℤ))
          → Safe h Allowed P k (elim o as (λ _. Flow (Sys World)) [
            | ok (ip, port) ↦ use_port h ip port s
            | thrown ↦ Flow.raised s
            | Outcome.undefined ↦ Flow.undefined
          ])
      on_parsed (ok (ip, port)) = use_port-Safe ip port s p
      on_parsed thrown = p
      on_parsed Outcome.undefined = tt
