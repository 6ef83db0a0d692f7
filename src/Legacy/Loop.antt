-- ===== src/Legacy/Loop.antt =====
-- server/main.cpp: handleClient and main.
use nexus_ftp_engine.Prelude.{
  ℕ, zero, suc, false, not, Option, List, none, some, [], ◌∷◌, ◌++◌, length, take, leb, ◌==◌,
  if◌then◌else◌,
}
use nexus_ftp_engine.Prelude.Int.{pos}
use nexus_ftp_engine.Bytes.{Bytes, bytes, find_if}
use nexus_ftp_engine.Platform.{Host, SocketHandle}
use nexus_ftp_engine.Platform.Sockets.{recv_data, close_socket}
use nexus_ftp_engine.Session.{Flow, next, leave, raised, out_of_fuel}
use nexus_ftp_engine.Session.Loop.{Verb, verb_of, strip_crlf, split_command}
use nexus_ftp_engine.Legacy.{Client, root_dir, send_reply, answer, close_if_valid}
use nexus_ftp_engine.Legacy.Commands.{
  handle_user, handle_pass, handle_quit, handle_pwd, handle_cwd, handle_cdup, handle_pasv,
  handle_port, handle_dele, handle_mkd, handle_rmd, handle_rnfr, handle_rnto,
}
use nexus_ftp_engine.Legacy.Transfers.{handle_list, handle_nlst, handle_retr, handle_stor}

-- std::string(buffer): the bytes before the first zero. A buffer that `recv` filled has none behind
-- them, and without one among them the constructor reads past its end.
unfoldable pub buffer_text : Bytes → Option Bytes
buffer_text buf = elim (find_if (λ c. c == 0) buf) [
  | some n ↦ some (take n buf)
  | none ↦ if leb 4096 (length buf) then none else some buf
]

module _ (h : Host) (fuel : ℕ) where
  open h use {World}

  -- The branches behind `!loggedIn`; the verbs that are not among them are answered alike.
  unfoldable pub dispatch : Verb → Bytes → Client World → Flow (Client World)
  dispatch Verb.syst argument s = answer h (bytes "215 Windows_NT") s
  dispatch Verb.type argument s = answer h (bytes "200 Type set to " ++ argument) s
  dispatch Verb.pwd argument s = handle_pwd h s
  dispatch Verb.cwd argument s = handle_cwd h argument s
  dispatch Verb.cdup argument s = handle_cdup h s
  dispatch Verb.pasv argument s = handle_pasv h s
  dispatch Verb.port argument s = handle_port h argument s
  dispatch Verb.list argument s = handle_list h s
  dispatch Verb.nlst argument s = handle_nlst h s
  dispatch Verb.retr argument s = handle_retr h fuel argument s
  dispatch Verb.stor argument s = handle_stor h fuel argument s
  dispatch Verb.dele argument s = handle_dele h argument s
  dispatch Verb.mkd argument s = handle_mkd h argument s
  dispatch Verb.rmd argument s = handle_rmd h argument s
  dispatch Verb.rnfr argument s = handle_rnfr h argument s
  dispatch Verb.rnto argument s = handle_rnto h argument s
  dispatch _ argument s = answer h (bytes "202 Command not implemented yet") s

  unfoldable pub guarded : Verb → Bytes → Client World → Flow (Client World)
  unfolding dispatch
  guarded v argument s =
      if not s.logged_in then answer h (bytes "530 Please login first") s else dispatch v argument s

  unfoldable pub execute : Verb → Bytes → Client World → Flow (Client World)
  unfolding guarded
  execute Verb.opts argument s = answer h (bytes "200 OK") s
  execute Verb.noop argument s = answer h (bytes "200 OK") s
  execute Verb.user argument s = handle_user h argument s
  execute Verb.pass argument s = handle_pass h argument s
  execute Verb.quit argument s = handle_quit h s
  execute v argument s = guarded v argument s

  -- A turn of the loop for what `recv` gave; cleanCommand and the split at the first space are those
  -- of the session's loop, without the blanks in front.
  unfoldable pub on_buffer : Bytes → Client World → Flow (Client World)
  unfolding buffer_text execute
  on_buffer buf s = elim (buffer_text buf) [
    | none ↦ Flow.undefined
    | some text ↦
        let (verb, argument) = split_command (strip_crlf text) in execute (verb_of verb) argument s
  ]

  unfoldable pub turn : Client World → Flow (Client World)
  unfolding on_buffer
  turn s0 =
      let (received, w) = recv_data h s0.client_socket 4096 s0.world in
      let s = record s0 { world = w } in
      elim received [ none ↦ leave s | some [] ↦ leave s | some (c ∷ b) ↦ on_buffer (c ∷ b) s ]

  -- What follows the loop.
  unfoldable pub end_client : Client World → Client World
  end_client s = record s {
    world = close_socket h s.client_socket (close_if_valid h s.passive_socket s.world);
  }

  abbrev pub continue :
      (Client World → Flow (Client World)) → Flow (Client World) → Flow (Client World)
  continue go_on (next s) = go_on s
  continue go_on (leave s) = leave (end_client s)
  continue go_on (raised s) = raised s
  continue go_on Flow.undefined = Flow.undefined
  continue go_on out_of_fuel = out_of_fuel

  -- The loop, for at most `turns` commands.
  unfoldable pub client_loop : ℕ → Client World → Flow (Client World)
  unfolding turn end_client
  client_loop zero s = out_of_fuel
  client_loop (suc turns) s = continue (client_loop turns) (turn s)

  unfoldable pub new_client : SocketHandle → World → Client World
  new_client sock w = record {
    client_socket = sock;
    logged_in = false;
    current_user = [];
    current_dir = root_dir;
    rename_from = [];
    passive_socket = none;
    use_passive = false;
    active_ip = [];
    active_port = pos 0;
    world = w;
  }

  -- handleClient
  unfoldable pub handle_client : ℕ → SocketHandle → World → Flow (Client World)
  unfolding client_loop new_client
  handle_client turns sock w =
      client_loop turns (send_reply h (bytes "220 Welcome to My FTP Server") (new_client sock w))

module _ (h : Host) where
  open h use {World}

  -- main, up to its loop: the listening socket, whatever socket, bind and listen return.
  unfoldable pub open_server : World → SocketHandle × World
  open_server w =
      let (server, w1) = h.socket w in
      let (bound, w2) = h.bind server 21 w1 in
      let (listening, w3) = h.listen server (pos 5) w2 in (server, w3)

  -- main's loop: each socket that accept gives, the invalid one too, is the argument of a thread that
  -- runs handleClient. The sockets of `turns` turns.
  unfoldable pub accept_clients : ℕ → SocketHandle → World → List SocketHandle × World
  accept_clients zero server w = ([], w)
  accept_clients (suc turns) server w =
      let (client, w1) = h.accept server w in
      let (clients, w2) = accept_clients turns server w1 in (client ∷ clients, w2)
