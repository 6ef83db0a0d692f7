-- ===== src/Client/Main.antt =====
-- src/client/main.cpp: the entry point of the client, without what it prints.
use nexus_ftp_engine.Prelude.{ℕ, Bool, not, none, some, List, [], if◌then◌else◌}
use nexus_ftp_engine.Prelude.Int.{ℤ, pos}
use nexus_ftp_engine.Bytes.{Bytes, is_empty}
use nexus_ftp_engine.Bytes.Decimal.{stoi}
use nexus_ftp_engine.Platform.{Host, SocketHandle}
use nexus_ftp_engine.Session.{Flow, next, leave, raised, out_of_fuel}
use nexus_ftp_engine.Client
use nexus_ftp_engine.Client.{login, disconnect}
use nexus_ftp_engine.Client.Keyboard.{Keyboard, command_loop}

-- What the user types: three words, the line of the port, and the words for commandLoop.
pub record Typed : Type 0 where
  pub host : Bytes
  pub port_line : Bytes
  pub user : Bytes
  pub pass : Bytes
  pub words : List Bytes

-- The port: 21 for an empty line, and where std::stoi throws.
unfoldable pub typed_port : Bytes → ℤ
typed_port line =
    if is_empty line then pos 21 else (elim (stoi line) [ none ↦ pos 21 | some n ↦ n ])

module _ (h : Host) (fuel turns : ℕ) where
  open h use {World}

  -- disconnect(), behind the loop or in ~FTPClient, and the exit code.
  unfoldable pub quit_with : ℕ → SocketHandle → World → Flow (ℕ × World)
  quit_with code sock w = elim (disconnect h fuel sock w) [
    | none ↦ out_of_fuel
    | some (closed, w1) ↦ next (code, w1)
  ]

  -- The end of the loop; an exception that leaves it is not caught.
  unfoldable pub finish : SocketHandle → Flow (Keyboard × World) → Flow (ℕ × World)
  unfolding quit_with
  finish sock (next (k, w)) = out_of_fuel
  finish sock (leave (k, w)) = quit_with 0 sock w
  finish sock (raised (k, w)) = raised (1, w)
  finish sock Flow.undefined = Flow.undefined
  finish sock out_of_fuel = out_of_fuel

  unfoldable pub run_client : SocketHandle → Typed → World → Flow (ℕ × World)
  unfolding finish
  run_client sock a w = elim (login h fuel sock a.user a.pass w) [
    | none ↦ out_of_fuel
    | some (admitted, w1) ↦
        if admitted
        then finish sock
            (command_loop h fuel turns sock (record { words = a.words; input = [] }) w1)
        else quit_with 1 sock w1
  ]

  -- main, with the result of initNetworking.
  unfoldable pub client_main : Typed → Bool → World → Flow (ℕ × World)
  unfolding typed_port run_client
  client_main a networking w =
      if not networking
      then next (1, w)
      else elim (Client.connect h fuel a.host (typed_port a.port_line) w) [
        | none ↦ out_of_fuel
        | some ((connected, sock), w1) ↦
            if connected then run_client sock a w1 else quit_with 1 sock w1
      ]
