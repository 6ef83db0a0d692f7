-- ===== src/Admin.antt =====
-- src/server/admin_server.cpp: AdminServer. Lines of the log are left out; the password of the
-- environment, if it is set, is an argument.
pub mod Page
pub mod Stop
use nexus_ftp_engine.Prelude.{
  ℕ, zero, suc, Bool, true, false, not, ◌&&◌, Option, none, some, [], ◌∷◌, ◌++◌, length, ◌==◌,
  if◌then◌else◌,
}
use nexus_ftp_engine.Prelude.Int.{ℤ, pos, ltb_ℤ}
use nexus_ftp_engine.Bytes.{Bytes, bytes}
use nexus_ftp_engine.Bytes.Decimal.{to_string}
use nexus_ftp_engine.Platform.{Host, SocketHandle}
use nexus_ftp_engine.Platform.Sockets.{
  create_tcp_socket, set_reuse_addr, bind_socket, listen_socket, accept_connection, get_peer_ip,
  set_recv_timeout, send_data, recv_data, close_socket, managed_close,
}
use nexus_ftp_engine.Session.{ServerContext}
use nexus_ftp_engine.Session.Reply.{crlf}
use Page.{page}

-- Whether a text begins with another, and whether it has it somewhere: `find(t) == 0` and
-- `find(t) != npos`.
unfoldable pub starts_with : Bytes → Bytes → Bool
starts_with [] s = true
starts_with (c ∷ t) [] = false
starts_with (c ∷ t) (d ∷ s) = c == d && starts_with t s

unfoldable pub contains : Bytes → Bytes → Bool
unfolding starts_with
contains t [] = starts_with t []
contains t (c ∷ s) = let later = contains t s in if starts_with t (c ∷ s) then true else later

pub record AdminServer : Type 0 where
  pub port : ℤ
  pub listen_socket : SocketHandle
  pub running : Bool

unfoldable pub new_admin : ℤ → AdminServer
new_admin port = record { port = port; listen_socket = none; running = false }

-- The password that a shutdown wants.
unfoldable pub expected_pass : Option Bytes → Bytes
expected_pass none = bytes "admin123"
expected_pass (some pass) = pass

unfoldable pub stop_target : Option Bytes → Bytes
unfolding expected_pass
stop_target env_pass = bytes "GET /stop?key=" ++ expected_pass env_pass ++ bytes " "

-- Only GET is accepted.
unfoldable pub is_get : Bytes → Bool
is_get request = starts_with (bytes "GET") request

unfoldable pub wants_stop : Option Bytes → Bytes → Bool
wants_stop env_pass request = contains (stop_target env_pass) request

unfoldable pub response_head : ℕ → Bytes
response_head n =
    bytes "HTTP/1.1 200 OK"
    ++ crlf
    ++ bytes "Content-Type: text/html; charset=utf-8"
    ++ crlf
    ++ bytes "Content-Length: "
    ++ to_string n
    ++ crlf
    ++ bytes "Connection: close"
    ++ crlf
    ++ crlf

-- The response to a GET request.
unfoldable pub response_to : Option Bytes → ServerContext → Bytes → Bytes
response_to env_pass ctx request =
    let do_stop = wants_stop env_pass request in
    let invalid_stop = not do_stop && contains (bytes "GET /stop") request in
    let body = page do_stop invalid_stop ctx in response_head (length body) ++ body

module _ (h : Host) where
  open h use {World}

  -- AdminServer::start, up to the thread.
  unfoldable pub listen_admin : SocketHandle → AdminServer → World → AdminServer × World
  listen_admin sock a w0 =
      let (bound, w1) = bind_socket h sock a.port (set_reuse_addr h sock w0) in
      let (listening, w2) = listen_socket h sock (pos 5) w1 in
      if not bound
      then (a, close_socket h sock w1)
      else if not listening
      then (a, close_socket h sock w2)
      else (record a { listen_socket = sock; running = true }, w2)

  unfoldable pub start_admin : AdminServer → World → AdminServer × World
  unfolding listen_admin
  start_admin a w =
      let (sock, w1) = create_tcp_socket h w in
      let started : AdminServer × World = elim sock [
        | none ↦ (a, w1)
        | some fd ↦ listen_admin (some fd) a w1
      ] in
      if ltb_ℤ (pos 0) a.port then started else (a, w)

  -- AdminServer::stop, up to the join of the thread.
  unfoldable pub stop_admin : AdminServer → World → AdminServer × World
  stop_admin a w =
      let (sock, w1) = managed_close h a.listen_socket w in
      if a.running then (record a { running = false; listen_socket = sock }, w1) else (a, w)

  -- AdminServer::handleClient for a request: whether it shuts the server down.
  unfoldable pub handle_request :
      Option Bytes → ServerContext → SocketHandle → Bytes → World → Bool × World
  handle_request env_pass ctx client request w = if not (is_get request) then (false, w) else (
    wants_stop env_pass request,
    (send_data h client (response_to env_pass ctx request) w).1,
  )

  -- AdminServer::handleClient
  unfoldable pub handle_admin_client :
      Option Bytes → ServerContext → SocketHandle → World → Bool × World
  unfolding handle_request
  handle_admin_client env_pass ctx client w =
      let (received, w1) = recv_data h client 2047 w in
      elim received [
        | none ↦ (false, w1)
        | some [] ↦ (false, w1)
        | some (c ∷ s) ↦ handle_request env_pass ctx client (c ∷ s) w1
      ]

  -- A turn of AdminServer::loop.
  unfoldable pub admin_turn : Option Bytes → ServerContext → AdminServer → World → Bool × World
  unfolding handle_admin_client
  admin_turn env_pass ctx a w =
      let (client, w1) = accept_connection h a.listen_socket w in
      elim client [
        | none ↦ (false, w1)
        | some fd ↦
            let w2 = set_recv_timeout h (some fd) (pos 2) w1 in
            let (ip, w3) = get_peer_ip h (some fd) w2 in
            let (stops, w4) = handle_admin_client env_pass ctx (some fd) w3 in
            (stops, close_socket h (some fd) w4)
      ]
