-- ===== src/Client/Transfers.antt =====
-- src/client/ftp_client.cpp: list, download and upload. A std::ofstream and a std::ifstream are the
-- host's fopen, fwrite, fread and fclose; what is printed is left out, but for the listing.
use nexus_ftp_engine.Prelude.{
  ℕ, zero, suc, Option, none, some, [], ◌∷◌, ◌++◌, length, ltb, if◌then◌else◌,
}
use nexus_ftp_engine.Bytes.{Bytes, bytes}
use nexus_ftp_engine.Platform.{Host, SocketHandle, rb, wb}
use nexus_ftp_engine.Platform.Sockets.{send_data, recv_data, close_socket}
use nexus_ftp_engine.Session.{Flow, next, raised, out_of_fuel}
use nexus_ftp_engine.Client.{is_code, get_reply_code, read_reply, ask, open_data_connection}

-- sizeof(buf) in download and upload
abbrev pub buffer_size : ℕ
buffer_size = 8192

module _ (h : Host) where
  open h use {World, fopen, fread, fwrite, fclose}

  -- The loop of list; `none` means that the fuel ran out.
  unfoldable pub list_loop : ℕ → SocketHandle → Bytes → World → Option (Bytes × World)
  list_loop zero ds listing w = none
  list_loop (suc fuel) ds listing w =
      let (received, w1) = recv_data h ds 4096 w in
      elim received [
        | none ↦ some (listing, w1)
        | some [] ↦ some (listing, w1)
        | some (c ∷ b) ↦ list_loop fuel ds (listing ++ c ∷ b) w1
      ]

  -- The loop of download.
  unfoldable pub download_loop : ℕ → SocketHandle → ℕ → World → Option World
  download_loop zero ds file w = none
  download_loop (suc fuel) ds file w =
      let (received, w1) = recv_data h ds buffer_size w in
      elim received [
        | none ↦ some w1
        | some [] ↦ some w1
        | some (c ∷ b) ↦ download_loop fuel ds file (fwrite file (c ∷ b) w1)
      ]

  -- The loop of upload: after a short read the stream has failed, and the next read gives nothing. The
  -- result of the send is not looked at.
  unfoldable pub upload_loop : ℕ → SocketHandle → ℕ → World → Option World
  upload_loop zero ds file w = none
  upload_loop (suc fuel) ds file w =
      let (buf, w1) = fread file buffer_size w in
      let w2 = (send_data h ds buf w1).1 in
      let rest = upload_loop fuel ds file w2 in
      elim buf [ [] ↦ some w1 | c ∷ b ↦ if ltb (length (c ∷ b)) buffer_size then some w2 else rest ]

  module _ (fuel : ℕ) where
    -- openDataConnection; without a connection, the end of the scope.
    unfoldable pub with_connection :
        SocketHandle
        → (World → World)
        → (ℕ → World → Flow (Option Bytes × World))
        → World
        → Flow (Option Bytes × World)
    with_connection sock cleanup k w = elim (open_data_connection h fuel sock w) [
      | next (none, w1) ↦ next (none, cleanup w1)
      | next (some ds, w1) ↦ k ds w1
      | Flow.leave (ds, w1) ↦ next (none, cleanup w1)
      | raised (ds, w1) ↦ raised (none, w1)
      | Flow.undefined ↦ Flow.undefined
      | out_of_fuel ↦ out_of_fuel
    ]

    -- readReply(); and the end of the scope of the data connection.
    unfoldable pub finish_with :
        SocketHandle → (World → World) → Option Bytes → World → Flow (Option Bytes × World)
    finish_with sock cleanup res w = elim (read_reply h fuel sock w) [
      | none ↦ out_of_fuel
      | some (reply, w1) ↦ next (res, cleanup w1)
    ]

    unfoldable pub list_on : SocketHandle → ℕ → World → Flow (Option Bytes × World)
    unfolding list_loop finish_with
    list_on sock ds w = elim (ask h fuel sock (bytes "LIST") w) [
      | none ↦ out_of_fuel
      | some (reply, w1) ↦ elim (list_loop fuel (some ds) [] w1) [
        | none ↦ out_of_fuel
        | some (listing, w2) ↦ finish_with sock (close_socket h (some ds)) (some listing) w2
      ]
    ]

    -- FTPClient::list: the text of the listing, if there was a connection.
    unfoldable pub list : SocketHandle → World → Flow (Option Bytes × World)
    unfolding with_connection list_on
    list sock w = with_connection sock (λ v. v) (list_on sock) w

    -- download, behind the reply to RETR.
    unfoldable pub download_into : SocketHandle → ℕ → Bytes → World → Flow (Option Bytes × World)
    unfolding download_loop finish_with
    download_into sock ds filename w =
        let (opened, w1) = fopen filename wb w in
        elim opened [
          | none ↦ next (none, close_socket h (some ds) w1)
          | some file ↦ elim (download_loop fuel (some ds) file w1) [
            | none ↦ out_of_fuel
            | some w2 ↦ finish_with sock (close_socket h (some ds)) none (fclose file w2)
          ]
        ]

    unfoldable pub download_on : Bytes → SocketHandle → ℕ → World → Flow (Option Bytes × World)
    unfolding download_into
    download_on filename sock ds w = elim (ask h fuel sock (bytes "RETR " ++ filename) w) [
      | none ↦ out_of_fuel
      | some (reply, w1) ↦
          let accepted = download_into sock ds filename w1 in
          if is_code 150 (get_reply_code reply)
          then accepted
          else next (none, close_socket h (some ds) w1)
    ]

    -- FTPClient::download
    unfoldable pub download : SocketHandle → Bytes → World → Flow (Option Bytes × World)
    unfolding with_connection download_on
    download sock filename w = with_connection sock (λ v. v) (download_on filename sock) w

    unfoldable pub upload_on : Bytes → SocketHandle → ℕ → ℕ → World → Flow (Option Bytes × World)
    unfolding upload_loop finish_with
    upload_on filename sock file ds w = elim (ask h fuel sock (bytes "STOR " ++ filename) w) [
      | none ↦ out_of_fuel
      | some (reply, w1) ↦
          let accepted : Flow (Option Bytes × World) = elim (upload_loop fuel (some ds) file w1) [
            | none ↦ out_of_fuel
            | some w2 ↦ finish_with sock (λ v. v) none (close_socket h (some ds) (fclose file w2))
          ] in
          if is_code 150 (get_reply_code reply)
          then accepted
          else next (none, fclose file (close_socket h (some ds) w1))
    ]

    -- FTPClient::upload
    unfoldable pub upload : SocketHandle → Bytes → World → Flow (Option Bytes × World)
    unfolding with_connection upload_on
    upload sock filename w =
        let (opened, w1) = fopen filename rb w in
        elim opened [
          | none ↦ next (none, w1)
          | some file ↦ with_connection sock (fclose file) (upload_on filename sock file) w1
        ]
