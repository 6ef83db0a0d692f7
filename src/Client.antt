-- ===== src/Client.antt =====
-- src/client/ftp_client.cpp: FTPClient over the host's calls. What it prints is left out. The control
-- socket is an argument.
pub mod Passive
pub mod Transfers
pub mod Keyboard
pub mod Repeats
pub mod Uploads
pub mod Framing
pub mod Replies
pub mod Dialogue
pub mod Main
use nexus_ftp_engine.Prelude.{
  ℕ, zero, suc, ◌+◌, ◌-◌, ◌%◌, ◌^◌, Bool, true, false, not, ◌&&◌, Option, none, some, [], ◌∷◌, ◌++◌,
  length, take, drop, get_or, ltb, leb, ◌==◌, if◌then◌else◌,
}
use nexus_ftp_engine.Prelude.Int.{ℤ, pos}
use nexus_ftp_engine.Bytes.{Bytes, bytes, bytes_eq, find, substr}
use nexus_ftp_engine.Bytes.Decimal.{stoi}
use nexus_ftp_engine.Platform.{Host, SocketHandle, rb, wb}
use nexus_ftp_engine.Platform.Sockets.{send_data, recv_data, connect_socket, managed_close}
use nexus_ftp_engine.DataChannel.PortCommand.{Outcome, ok, thrown, undefined, parse_port_command}
use nexus_ftp_engine.Session.{Flow, next, raised, out_of_fuel}
use nexus_ftp_engine.Session.Reply.{crlf}

-- A reply code equal to this number.
unfoldable pub is_code : ℕ → ℤ → Bool
is_code n (pos m) = m == n
is_code n (ℤ.negsuc m) = false

-- FTPClient::getReplyCode; std::stoi's exceptions are caught.
unfoldable pub get_reply_code : Bytes → ℤ
get_reply_code r =
    if leb 3 (length r) then (elim (stoi (take 3 r)) [ none ↦ pos 0 | some n ↦ n ]) else pos 0

-- The text between the brackets of a PASV reply; the count `e - s - 1` wraps in size_t.
unfoldable pub between : Bytes → Option Bytes
between reply = elim (find b'(' reply) [
  | none ↦ none
  | some s ↦ elim (find b')' reply) [
    | none ↦ none
    | some e ↦ some (substr (suc s) ((e + 2 ^ 64 - s - 1) % 2 ^ 64) reply)
  ]
]

-- The address and the port of a PASV reply: the loop is that of parsePortCommand, with its exceptions
-- and its unchecked index.
unfoldable pub parse_pasv : Bytes → Outcome (Option (Bytes × ℤ))
unfolding between
parse_pasv reply = elim (between reply) [
  | none ↦ ok none
  | some inner ↦ elim (parse_port_command inner) [
    | ok target ↦ ok (some target)
    | thrown ↦ thrown
    | undefined ↦ undefined
  ]
]

-- Whether a line ends a multi-line reply with this code.
abbrev pub is_last_line : Bytes → Bytes → Bool
is_last_line reply_code line =
    leb 4 (length line) && bytes_eq (take 3 line) reply_code && get_or line 3 0 == b' '

module _ (h : Host) where
  open h use {World, fopen, fread, fwrite, fclose}

  -- FTPClient::sendCommand
  unfoldable pub send_command : SocketHandle → Bytes → World → World
  send_command sock cmd w = (send_data h sock (cmd ++ crlf) w).1

  -- A line, byte by byte; the fuel bounds its bytes.
  unfoldable pub read_line : ℕ → SocketHandle → Bytes → World → Option (Bytes × World)
  read_line zero sock line w = none
  read_line (suc fuel) sock line w =
      let (received, w1) = recv_data h sock 1 w in
      let skipped = read_line fuel sock line w1 in
      elim received [
        | none ↦ some (line, w1)
        | some [] ↦ some (line, w1)
        | some (c ∷ s) ↦
            let added = read_line fuel sock (line ++ c ∷ []) w1 in
            if c == 10 then some (line, w1) else if c == 13 then skipped else added
      ]

  -- The further lines of a multi-line reply; `lines` bounds their number.
  unfoldable pub skip_lines : ℕ → ℕ → SocketHandle → Bytes → World → Option World
  unfolding read_line
  skip_lines fuel zero sock reply_code w = none
  skip_lines fuel (suc lines) sock reply_code w = elim (read_line fuel sock [] w) [
    | none ↦ none
    | some (line, w1) ↦
        let rest = skip_lines fuel lines sock reply_code w1 in
        if is_last_line reply_code line then some w1 else rest
  ]

  -- FTPClient::readReply
  unfoldable pub read_reply : ℕ → SocketHandle → World → Option (Bytes × World)
  unfolding skip_lines
  read_reply fuel sock w = elim (read_line fuel sock [] w) [
    | none ↦ none
    | some (reply, w1) ↦
        if leb 4 (length reply) && get_or reply 3 0 == b'-'
        then elim (skip_lines fuel fuel sock (take 3 reply) w1) [
          | none ↦ none
          | some w2 ↦ some (reply, w2)
        ]
        else some (reply, w1)
  ]

  -- openDataConnection for the reply to PASV.
  unfoldable pub connect_data : Bytes → World → Flow (SocketHandle × World)
  connect_data reply w =
      if not (is_code 227 (get_reply_code reply)) then next (none, w) else elim (parse_pasv reply) [
        | ok none ↦ next (none, w)
        | ok (some (ip, port)) ↦ next (connect_socket h ip port w)
        | thrown ↦ raised (none, w)
        | undefined ↦ Flow.undefined
      ]

  module _ (fuel : ℕ) where
    -- sendCommand(cmd); readReply();
    unfoldable pub ask : SocketHandle → Bytes → World → Option (Bytes × World)
    unfolding read_reply send_command
    ask sock cmd w = read_reply fuel sock (send_command sock cmd w)

    -- FTPClient::connect: the result and the control socket.
    unfoldable pub connect : Bytes → ℤ → World → Option ((Bool × SocketHandle) × World)
    unfolding read_reply
    connect host port w =
        let (sock, w1) = connect_socket h host port w in
        elim sock [
          | none ↦ some ((false, none), w1)
          | some fd ↦ elim (read_reply fuel (some fd) w1) [
            | none ↦ none
            | some (welcome, w2) ↦ some ((is_code 220 (get_reply_code welcome), some fd), w2)
          ]
        ]

    -- FTPClient::disconnect
    unfoldable pub disconnect : SocketHandle → World → Option (SocketHandle × World)
    unfolding ask
    disconnect none w = some (none, w)
    disconnect (some fd) w = elim (ask (some fd) (bytes "QUIT") w) [
      | none ↦ none
      | some (reply, w1) ↦ some (managed_close h (some fd) w1)
    ]

    -- FTPClient::login
    unfoldable pub login : SocketHandle → Bytes → Bytes → World → Option (Bool × World)
    unfolding ask
    login sock user pass w = elim (ask sock (bytes "USER " ++ user) w) [
      | none ↦ none
      | some (reply, w1) ↦
          if is_code 331 (get_reply_code reply)
          then elim (ask sock (bytes "PASS " ++ pass) w1) [
            | none ↦ none
            | some (answer, w2) ↦ some (is_code 230 (get_reply_code answer), w2)
          ]
          else some (false, w1)
    ]

    -- FTPClient::openDataConnection
    unfoldable pub open_data_connection : SocketHandle → World → Flow (SocketHandle × World)
    unfolding connect_data
    open_data_connection sock w = elim (ask sock (bytes "PASV") w) [
      | none ↦ out_of_fuel
      | some (reply, w1) ↦ connect_data reply w1
    ]

    -- FTPClient::rename; pwd, cd, deleteFile, mkdir and rmdir are one `ask` each.
    unfoldable pub rename : SocketHandle → Bytes → Bytes → World → Option (Bytes × World)
    unfolding ask
    rename sock o n w = elim (ask sock (bytes "RNFR " ++ o) w) [
      | none ↦ none
      | some (reply, w1) ↦ ask sock (bytes "RNTO " ++ n) w1
    ]

    unfoldable pub pwd : SocketHandle → World → Option (Bytes × World)
    pwd sock w = ask sock (bytes "PWD") w

    unfoldable pub cd : SocketHandle → Bytes → World → Option (Bytes × World)
    cd sock d w = ask sock (bytes "CWD " ++ d) w

    unfoldable pub delete_remote : SocketHandle → Bytes → World → Option (Bytes × World)
    delete_remote sock f w = ask sock (bytes "DELE " ++ f) w

    unfoldable pub make_remote : SocketHandle → Bytes → World → Option (Bytes × World)
    make_remote sock d w = ask sock (bytes "MKD " ++ d) w

    unfoldable pub remove_remote : SocketHandle → Bytes → World → Option (Bytes × World)
    remove_remote sock d w = ask sock (bytes "RMD " ++ d) w
