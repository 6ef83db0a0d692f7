-- ===== src/Legacy/Transfers.antt =====
-- server/main.cpp: handleClient, the commands with a data connection. The counts that it prints are
-- left out.
use nexus_ftp_engine.Prelude.{ℕ, zero, suc, Option, none, some, [], ◌∷◌}
use nexus_ftp_engine.Bytes.{Bytes, bytes}
use nexus_ftp_engine.Platform.{Host, SocketHandle, rb, wb}
use nexus_ftp_engine.Platform.Sockets.{send_data, recv_data, close_socket}
use nexus_ftp_engine.Session.{Flow, next, out_of_fuel}
use nexus_ftp_engine.Legacy.{
  Client, path_of, send_reply, answer, drop_passive, get_data_socket, get_directory_listing,
  get_name_listing,
}

-- sizeof(fileBuffer)
abbrev pub buffer_size : ℕ
buffer_size = 4096

module _ (h : Host) where
  open h use {World}

  -- LIST and NLST, with the text of the listing.
  unfoldable pub send_listing :
      Bytes → Bytes → (Bytes → World → Bytes × World) → Client World → Flow (Client World)
  send_listing opening complete list s0 =
      let s = send_reply h opening s0 in
      let (data_socket, w) = get_data_socket h s in
      elim data_socket [
        | none ↦ answer h (bytes "425 Cannot open data connection") (record s { world = w })
        | some fd ↦
            let (listing, w1) = list s.current_dir w in
            let (sent, w2) = send_data h (some fd) listing w1 in
            answer h complete (drop_passive h (record s { world = close_socket h (some fd) w2 }))
      ]

  unfoldable pub handle_list : Client World → Flow (Client World)
  unfolding send_listing
  handle_list s =
      send_listing (bytes "150 Opening data connection for LIST")
        (bytes "226 Directory listing complete") (get_directory_listing h) s

  unfoldable pub handle_nlst : Client World → Flow (Client World)
  unfolding send_listing
  handle_nlst s =
      send_listing (bytes "150 Opening data connection for NLST")
        (bytes "226 Name listing complete") (get_name_listing h) s

  -- The loop of RETR; `none` means that the fuel ran out.
  unfoldable pub send_chunks : ℕ → SocketHandle → ℕ → World → Option World
  send_chunks zero sock file w = none
  send_chunks (suc fuel) sock file w =
      let (buf, w1) = h.fread file buffer_size w in
      let rest = send_chunks fuel sock file (send_data h sock buf w1).1 in
      elim buf [ [] ↦ some w1 | c ∷ b ↦ rest ]

  -- The loop of STOR.
  unfoldable pub recv_chunks : ℕ → SocketHandle → ℕ → World → Option World
  recv_chunks zero sock file w = none
  recv_chunks (suc fuel) sock file w =
      let (received, w1) = recv_data h sock buffer_size w in
      elim received [
        | none ↦ some w1
        | some [] ↦ some w1
        | some (c ∷ b) ↦ recv_chunks fuel sock file (h.fwrite file (c ∷ b) w1)
      ]

  -- RETR and STOR behind fopen, with the loop.
  unfoldable pub transfer :
      Bytes
      → Bytes
      → (SocketHandle → ℕ → World → Option World)
      → ℕ
      → Client World
      → Flow (Client World)
  transfer opening complete loop file s0 =
      let s = send_reply h opening s0 in
      let (data_socket, w) = get_data_socket h s in
      elim data_socket [
        | none ↦
            let refused =
              send_reply h (bytes "425 Cannot open data connection") (record s { world = w }) in
            next (record refused { world = h.fclose file refused.world })
        | some fd ↦ elim (loop (some fd) file w) [
          | none ↦ out_of_fuel
          | some w1 ↦
              answer h complete
                (drop_passive h (record s { world = close_socket h (some fd) (h.fclose file w1) }))
        ]
      ]

  unfoldable pub handle_retr : ℕ → Bytes → Client World → Flow (Client World)
  unfolding transfer send_chunks
  handle_retr fuel argument s =
      let (file, w) = h.fopen (path_of s argument) rb s.world in
      elim file [
        | none ↦ answer h (bytes "550 File not found") (record s { world = w })
        | some f ↦
            transfer (bytes "150 Opening data connection for file download")
              (bytes "226 File transfer complete") (send_chunks fuel) f (record s { world = w })
      ]

  unfoldable pub handle_stor : ℕ → Bytes → Client World → Flow (Client World)
  unfolding transfer recv_chunks
  handle_stor fuel argument s =
      let (file, w) = h.fopen (path_of s argument) wb s.world in
      elim file [
        | none ↦ answer h (bytes "550 Cannot create file") (record s { world = w })
        | some f ↦
            transfer (bytes "150 Opening data connection for file upload")
              (bytes "226 File upload complete") (recv_chunks fuel) f (record s { world = w })
      ]
