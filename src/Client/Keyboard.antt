-- ===== src/Client/Keyboard.antt =====
-- src/client/ftp_client.cpp: commandLoop. The keyboard is the list of the words to come.
use nexus_ftp_engine.Prelude.{
  ℕ, zero, suc, ◌||◌, Option, none, some, List, [], ◌∷◌, map, if◌then◌else◌,
}
use nexus_ftp_engine.Bytes.{Bytes, bytes, bytes_eq, to_lower}
use nexus_ftp_engine.Platform.{Host, SocketHandle}
use nexus_ftp_engine.Session.{Flow, next, leave, raised, out_of_fuel}
use nexus_ftp_engine.Client
use nexus_ftp_engine.Client.{delete_remote, make_remote, remove_remote}
use nexus_ftp_engine.Client.Transfers.{list, download, upload}

-- The words of the keyboard and the variable `input`; `std::cin >>` at the end of the words leaves its
-- variable as it is.
pub record Keyboard : Type 0 where
  pub words : List Bytes
  pub input : Bytes

-- std::cin >> s, for a variable that holds `old`.
unfoldable pub next_word : Bytes → List Bytes → Bytes × List Bytes
next_word old [] = (old, [])
next_word old (word ∷ words) = (word, words)

-- The commands of the loop.
pub data Choice : Type 0 where
  bye ls pwd help get put cd mkdir rmdir delete rename unknown : Choice

unfoldable pub choice_of : Bytes → Choice
choice_of w =
    if bytes_eq w (bytes "bye") || bytes_eq w (bytes "quit") || bytes_eq w (bytes "exit")
    then Choice.bye
    else if bytes_eq w (bytes "ls") || bytes_eq w (bytes "dir")
    then Choice.ls
    else if bytes_eq w (bytes "pwd")
    then Choice.pwd
    else if bytes_eq w (bytes "help")
    then Choice.help
    else if bytes_eq w (bytes "get")
    then Choice.get
    else if bytes_eq w (bytes "put")
    then Choice.put
    else if bytes_eq w (bytes "cd")
    then Choice.cd
    else if bytes_eq w (bytes "mkdir")
    then Choice.mkdir
    else if bytes_eq w (bytes "rmdir")
    then Choice.rmdir
    else if bytes_eq w (bytes "delete")
    then Choice.delete
    else if bytes_eq w (bytes "rename")
    then Choice.rename
    else Choice.unknown

module _ (h : Host) (fuel : ℕ) where
  open h use {World}

  -- What a command leaves: the words behind its arguments, and the world. No transfer leaves the loop.
  abbrev pub transferred : List Bytes → Flow (Option Bytes × World) → Flow (List Bytes × World)
  transferred words (next (res, w)) = next (words, w)
  transferred words (leave (res, w)) = next (words, w)
  transferred words (raised (res, w)) = raised (words, w)
  transferred words Flow.undefined = Flow.undefined
  transferred words out_of_fuel = out_of_fuel

  abbrev pub asked : List Bytes → Option (Bytes × World) → Flow (List Bytes × World)
  asked words none = out_of_fuel
  asked words (some (reply, w)) = next (words, w)

  -- The chain of `else if`; a new std::string is empty.
  unfoldable pub perform : Choice → SocketHandle → List Bytes → World → Flow (List Bytes × World)
  unfolding next_word
  perform Choice.bye sock words w = leave (words, w)
  perform Choice.ls sock words w = transferred words (list h fuel sock w)
  perform Choice.pwd sock words w = asked words (Client.pwd h fuel sock w)
  perform Choice.help sock words w = next (words, w)
  perform Choice.get sock words w =
      let (f, rest) = next_word [] words in transferred rest (download h fuel sock f w)
  perform Choice.put sock words w =
      let (f, rest) = next_word [] words in transferred rest (upload h fuel sock f w)
  perform Choice.cd sock words w =
      let (d, rest) = next_word [] words in asked rest (Client.cd h fuel sock d w)
  perform Choice.mkdir sock words w =
      let (d, rest) = next_word [] words in asked rest (make_remote h fuel sock d w)
  perform Choice.rmdir sock words w =
      let (d, rest) = next_word [] words in asked rest (remove_remote h fuel sock d w)
  perform Choice.delete sock words w =
      let (f, rest) = next_word [] words in asked rest (delete_remote h fuel sock f w)
  perform Choice.rename sock words w =
      let (o, rest) = next_word [] words in
      let (n, rest2) = next_word [] rest in asked rest2 (Client.rename h fuel sock o n w)
  perform Choice.unknown sock words w = next (words, w)

  -- The variable `input` behind a command.
  abbrev pub with_input : Bytes → Flow (List Bytes × World) → Flow (Keyboard × World)
  with_input input (next (words, w)) = next (record { words = words; input = input }, w)
  with_input input (leave (words, w)) = leave (record { words = words; input = input }, w)
  with_input input (raised (words, w)) = raised (record { words = words; input = input }, w)
  with_input input Flow.undefined = Flow.undefined
  with_input input out_of_fuel = out_of_fuel

  -- A turn of the loop; the input is kept in lower case.
  unfoldable pub keyboard_turn : SocketHandle → Keyboard → World → Flow (Keyboard × World)
  unfolding perform choice_of
  keyboard_turn sock k w =
      let (word, rest) = next_word k.input k.words in
      let input = map to_lower word in with_input input (perform (choice_of input) sock rest w)

  -- What the loop does after a turn.
  abbrev pub carry_on :
      (Keyboard → World → Flow (Keyboard × World))
      → Flow (Keyboard × World)
      → Flow (Keyboard × World)
  carry_on go_on (next (k, w)) = go_on k w
  carry_on go_on (leave s) = leave s
  carry_on go_on (raised s) = raised s
  carry_on go_on Flow.undefined = Flow.undefined
  carry_on go_on out_of_fuel = out_of_fuel

  -- FTPClient::commandLoop, for at most `turns` commands.
  unfoldable pub command_loop : ℕ → SocketHandle → Keyboard → World → Flow (Keyboard × World)
  unfolding keyboard_turn
  command_loop zero sock k w = out_of_fuel
  command_loop (suc turns) sock k w =
      let go_on = command_loop turns sock in carry_on go_on (keyboard_turn sock k w)
