-- ===== src/LegacyClient/Commands.antt =====
-- client/main.cpp: doList, doDownload, doUpload and main.
use nexus_ftp_engine.Prelude.{
  ℕ, zero, suc, not, Option, none, some, List, [], ◌∷◌, ◌++◌, map, length, ltb, if◌then◌else◌,
}
use nexus_ftp_engine.Bytes.{Bytes, bytes, to_lower}
use nexus_ftp_engine.Platform.{Host, SocketHandle, rb, wb}
use nexus_ftp_engine.Platform.Sockets.{send_data, close_socket}
use nexus_ftp_engine.Session.{Flow, next, leave, raised, out_of_fuel}
use nexus_ftp_engine.Client.{ask, read_reply}
use nexus_ftp_engine.Client.Transfers.{list_loop}
use nexus_ftp_engine.Client.Keyboard.{Keyboard, next_word, Choice, choice_of, asked}
use nexus_ftp_engine.Legacy.Transfers.{buffer_size, recv_chunks}
use nexus_ftp_engine.LegacyClient.{on_code, with_data_socket, last_reply}

module _ (h : Host) where
  open h use {World, fopen, fread, fwrite, fclose}

  -- The loop of doUpload; a short read is the last.
  unfoldable pub send_stream : ℕ → SocketHandle → ℕ → World → Option World
  send_stream zero sock file w = none
  send_stream (suc fuel) sock file w =
      let (buf, w1) = fread file buffer_size w in
      let w2 = (send_data h sock buf w1).1 in
      let rest = send_stream fuel sock file w2 in
      elim buf [ [] ↦ some w1 | c ∷ b ↦ if ltb (length (c ∷ b)) buffer_size then some w2 else rest ]

  module _ (fuel : ℕ) where
    unfoldable pub list_data : SocketHandle → ℕ → World → Flow (Bytes × World)
    list_data sock fd w = elim (ask h fuel sock (bytes "LIST") w) [
      | none ↦ out_of_fuel
      | some (reply, w1) ↦ elim (list_loop h fuel (some fd) [] w1) [
        | none ↦ out_of_fuel
        | some (listing, w2) ↦ last_reply h fuel sock listing (close_socket h (some fd) w2)
      ]
    ]

    unfoldable pub do_list : SocketHandle → World → Flow (Bytes × World)
    unfolding list_data
    do_list sock w = with_data_socket h fuel sock (λ v. v) (list_data sock) w

    -- The loop and the end of doDownload; its loop is that of the server's STOR.
    unfoldable pub receive_file : SocketHandle → ℕ → Bytes → World → Flow (Bytes × World)
    receive_file sock fd filename w =
        let (opened, w1) = fopen filename wb w in
        elim opened [
          | none ↦ next ([], close_socket h (some fd) w1)
          | some file ↦ elim (recv_chunks h fuel (some fd) file w1) [
            | none ↦ out_of_fuel
            | some w2 ↦ last_reply h fuel sock [] (close_socket h (some fd) (fclose file w2))
          ]
        ]

    unfoldable pub download_data : Bytes → SocketHandle → ℕ → World → Flow (Bytes × World)
    unfolding receive_file
    download_data filename sock fd w = elim (ask h fuel sock (bytes "RETR " ++ filename) w) [
      | none ↦ out_of_fuel
      | some (reply, w1) ↦
          on_code h 150 reply ([], w1) (receive_file sock fd filename w1)
            (next ([], close_socket h (some fd) w1))
    ]

    unfoldable pub do_download : SocketHandle → Bytes → World → Flow (Bytes × World)
    unfolding download_data
    do_download sock filename w =
        with_data_socket h fuel sock (λ v. v) (download_data filename sock) w

    unfoldable pub send_opened : SocketHandle → ℕ → ℕ → World → Flow (Bytes × World)
    unfolding send_stream
    send_opened sock file fd w = elim (send_stream fuel (some fd) file w) [
      | none ↦ out_of_fuel
      | some w1 ↦ last_reply h fuel sock [] (close_socket h (some fd) (fclose file w1))
    ]

    unfoldable pub upload_data : Bytes → SocketHandle → ℕ → ℕ → World → Flow (Bytes × World)
    unfolding send_opened
    upload_data filename sock file fd w = elim (ask h fuel sock (bytes "STOR " ++ filename) w) [
      | none ↦ out_of_fuel
      | some (reply, w1) ↦
          on_code h 150 reply ([], w1) (send_opened sock file fd w1)
            (next ([], fclose file (close_socket h (some fd) w1)))
    ]

    unfoldable pub do_upload : SocketHandle → Bytes → World → Flow (Bytes × World)
    unfolding upload_data
    do_upload sock filename w =
        let (opened, w1) = fopen filename rb w in
        elim opened [
          | none ↦ next ([], w1)
          | some file ↦
              with_data_socket h fuel sock (fclose file) (upload_data filename sock file) w1
        ]

    -- What a command leaves: the words behind its arguments, and the world.
    abbrev pub then_words : List Bytes → Flow (Bytes × World) → Flow (List Bytes × World)
    then_words words (next (res, w)) = next (words, w)
    then_words words (leave (res, w)) = leave (words, w)
    then_words words (raised (res, w)) = raised (words, w)
    then_words words Flow.undefined = Flow.undefined
    then_words words out_of_fuel = out_of_fuel

    abbrev pub quits : List Bytes → Option (Bytes × World) → Flow (List Bytes × World)
    quits words none = out_of_fuel
    quits words (some (reply, w)) = leave (words, w)

    -- RNFR and RNTO.
    unfoldable pub do_rename : SocketHandle → Bytes → Bytes → World → Option (Bytes × World)
    do_rename sock old_name new_name w = elim (ask h fuel sock (bytes "RNFR " ++ old_name) w) [
      | none ↦ none
      | some (reply, w1) ↦ ask h fuel sock (bytes "RNTO " ++ new_name) w1
    ]

    -- The chain of `else if` of main's loop.
    unfoldable pub carry_out :
        Choice → SocketHandle → List Bytes → World → Flow (List Bytes × World)
    unfolding do_rename
    carry_out Choice.bye sock words w = quits words (ask h fuel sock (bytes "QUIT") w)
    carry_out Choice.ls sock words w = then_words words (do_list sock w)
    carry_out Choice.get sock words w =
        let (f, rest) = next_word [] words in then_words rest (do_download sock f w)
    carry_out Choice.put sock words w =
        let (f, rest) = next_word [] words in then_words rest (do_upload sock f w)
    carry_out Choice.mkdir sock words w =
        let (d, rest) = next_word [] words in
        asked h fuel rest (ask h fuel sock (bytes "MKD " ++ d) w)
    carry_out Choice.rmdir sock words w =
        let (d, rest) = next_word [] words in
        asked h fuel rest (ask h fuel sock (bytes "RMD " ++ d) w)
    carry_out Choice.delete sock words w =
        let (f, rest) = next_word [] words in
        asked h fuel rest (ask h fuel sock (bytes "DELE " ++ f) w)
    carry_out Choice.rename sock words w =
        let (o, rest) = next_word [] words in
        let (n, rest2) = next_word [] rest in asked h fuel rest2 (do_rename sock o n w)
    carry_out Choice.cd sock words w =
        let (d, rest) = next_word [] words in
        asked h fuel rest (ask h fuel sock (bytes "CWD " ++ d) w)
    carry_out Choice.pwd sock words w = asked h fuel words (ask h fuel sock (bytes "PWD") w)
    carry_out Choice.help sock words w = next (words, w)
    carry_out Choice.unknown sock words w = next (words, w)

    -- main's loop, for at most `turns` commands.
    unfoldable pub input_loop : ℕ → SocketHandle → Keyboard → World → Flow (List Bytes × World)
    unfolding carry_out
    input_loop zero sock k w = out_of_fuel
    input_loop (suc turns) sock k w =
        let (word, rest) = next_word k.input k.words in
        let input = map to_lower word in
        elim (carry_out (choice_of input) sock rest w) [
          | next (words, w1) ↦ input_loop turns sock (record { words = words; input = input }) w1
          | leave s ↦ leave s
          | raised s ↦ raised s
          | Flow.undefined ↦ Flow.undefined
          | out_of_fuel ↦ out_of_fuel
        ]

    -- main with a control socket: the greeting, the login and the loop.
    unfoldable pub log_in_and_loop :
        ℕ → SocketHandle → List Bytes → World → Flow (List Bytes × World)
    unfolding input_loop
    log_in_and_loop turns sock words w = elim (read_reply h fuel sock w) [
      | none ↦ out_of_fuel
      | some (welcome, w1) ↦
          let (user, words1) = next_word [] words in
          let (pass, words2) = next_word [] words1 in
          elim (ask h fuel sock (bytes "USER " ++ user) w1) [
            | none ↦ out_of_fuel
            | some (reply, w2) ↦ elim (ask h fuel sock (bytes "PASS " ++ pass) w2) [
              | none ↦ out_of_fuel
              | some (login_reply, w3) ↦
                  on_code h 230 login_reply (words2, w3)
                    (input_loop turns sock (record { words = words2; input = [] }) w3)
                    (leave (words2, w3))
            ]
          ]
    ]

    -- main: the first word is the server's address; the control socket is closed at the end, after a
    -- failed login too.
    unfoldable pub client_main : ℕ → List Bytes → World → Flow (List Bytes × World)
    unfolding log_in_and_loop
    client_main turns words w =
        let (host, rest) = next_word [] words in
        let (sock, w1) = h.socket w in
        let (connected, w2) = h.connect sock host 21 w1 in
        if not connected then leave (rest, w2) else closes sock (log_in_and_loop turns sock rest w2)
      where
        closes : SocketHandle → Flow (List Bytes × World) → Flow (List Bytes × World)
        closes sock (next (ws, v)) = next (ws, close_socket h sock v)
        closes sock (leave (ws, v)) = leave (ws, close_socket h sock v)
        closes sock (raised s) = raised s
        closes sock Flow.undefined = Flow.undefined
        closes sock out_of_fuel = out_of_fuel
