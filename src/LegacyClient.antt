-- ===== src/LegacyClient.antt =====
-- client/main.cpp: the single-file client. sendCommand and readFullReply do what sendCommand and
-- readReply of the later client do; a std::ofstream and a std::ifstream are the host's fopen, fwrite,
-- fread and fclose. What it prints is left out, but for the listing.
pub mod Commands
use nexus_ftp_engine.Prelude.{
  ℕ, zero, suc, ◌+◌, ◌-◌, ◌*◌, Bool, true, false, not, Option, none, some, [], ◌∷◌, ◌++◌, length,
  take, ltb, leb, if◌then◌else◌,
}
use nexus_ftp_engine.Prelude.Int.{ℤ, pos}
use nexus_ftp_engine.Bytes.{Bytes, bytes, find, substr}
use nexus_ftp_engine.Bytes.Decimal.{stoi}
use nexus_ftp_engine.Platform.{Host, SocketHandle, rb, wb}
use nexus_ftp_engine.Platform.Sockets.{send_data, recv_data, close_socket}
use nexus_ftp_engine.DataChannel.PortCommand.{Outcome, ok, thrown, undefined, parse_port_command}
use nexus_ftp_engine.Session.{Flow, next, leave, raised, out_of_fuel}
use nexus_ftp_engine.Client.{is_code, ask, read_reply}
use nexus_ftp_engine.Legacy.{connect_to_client}

-- getReplyCode; `none` is the exception of std::stoi, which nothing catches.
unfoldable pub code_of : Bytes → Option ℤ
code_of reply = if leb 3 (length reply) then stoi (take 3 reply) else some (pos 0)

-- Where the text between the brackets begins, and where it ends: std::string::npos is -1 as an int.
unfoldable pub inner_start : Bytes → ℕ
inner_start reply = elim (find b'(' reply) [ none ↦ 0 | some s ↦ suc s ]

-- The number of bytes that substr takes; a negative one is larger than any text as a size_t.
unfoldable pub inner_count : Bytes → ℕ
inner_count reply = elim (find b')' reply) [
  | none ↦ length reply
  | some e ↦ if ltb e (inner_start reply) then length reply else e - inner_start reply
]

unfoldable pub addr_str : Bytes → Bytes
unfolding inner_start inner_count
addr_str reply = substr (inner_start reply) (inner_count reply) reply

module _ (h : Host) where
  open h use {World, fopen, fread, fwrite, fclose}

  -- openDataConnection for a reply; the loop over the numbers is that of parsePortCommand.
  unfoldable pub connect_reply : Bytes → World → Flow (SocketHandle × World)
  unfolding addr_str
  connect_reply reply w = elim (parse_port_command (addr_str reply)) [
    | thrown ↦ raised (none, w)
    | undefined ↦ Flow.undefined
    | ok (ip, port) ↦ next (connect_to_client h ip port w)
  ]

  -- What follows a reply, by whether it has the code.
  unfoldable pub on_code :
      {A : Type 0} → ℕ → Bytes → A × World → Flow (A × World) → Flow (A × World) → Flow (A × World)
  on_code n reply s then_do else_do = elim (code_of reply) [
    | none ↦ raised s
    | some code ↦ if is_code n code then then_do else else_do
  ]

  module _ (fuel : ℕ) where
    unfoldable pub open_data_socket : SocketHandle → World → Flow (SocketHandle × World)
    unfolding connect_reply on_code
    open_data_socket sock w = elim (ask h fuel sock (bytes "PASV") w) [
      | none ↦ out_of_fuel
      | some (reply, w1) ↦ on_code 227 reply (none, w1) (connect_reply reply w1) (next (none, w1))
    ]

    -- With a data connection, what follows; without one, the end of the function.
    unfoldable pub with_data_socket :
        SocketHandle
        → (World → World)
        → (ℕ → World → Flow (Bytes × World))
        → World
        → Flow (Bytes × World)
    with_data_socket sock cleanup k w = elim (open_data_socket sock w) [
      | next (none, w1) ↦ next ([], cleanup w1)
      | next (some fd, w1) ↦ k fd w1
      | leave (fd, w1) ↦ leave ([], w1)
      | raised (fd, w1) ↦ raised ([], w1)
      | Flow.undefined ↦ Flow.undefined
      | out_of_fuel ↦ out_of_fuel
    ]

    -- readFullReply(), at the end of a command.
    unfoldable pub last_reply : SocketHandle → Bytes → World → Flow (Bytes × World)
    last_reply sock res w = elim (read_reply h fuel sock w) [
      | none ↦ out_of_fuel
      | some (reply, w1) ↦ next (res, w1)
    ]
