-- ===== src/Client/Passive.antt =====
-- src/client/ftp_client.cpp and src/server/data_channel.h: the reply to PASV on both sides.
use nexus_ftp_engine.Prelude.{
  ℕ, suc, ◌+◌, ◌-◌, ◌*◌, ◌/◌, ◌%◌, ◌^◌, ◌<◌, ◌≡◌, refl, sym, ap, ◌∙◌, none, some, [], ◌∷◌, ◌++◌,
  append_assoc, arith, length, length-append, take, drop, take-append,
}
use nexus_ftp_engine.Prelude.Int.{pos}
use nexus_ftp_engine.Bytes.{Bytes, bytes, find, find_if}
use nexus_ftp_engine.Bytes.Laws.{Lacks, Lacks-append, find-append, drop-suc-append}
use nexus_ftp_engine.Bytes.Decimal.{
  to_string, AllDigits, to_string-AllDigits, length-to_string, stoi,
}
use nexus_ftp_engine.DataChannel.{DataChannel, pasv_response}
use nexus_ftp_engine.DataChannel.PortCommand.{ok}
use nexus_ftp_engine.DataChannel.PortCommand.RoundTrip.{
  host_port, dotted, parse_port_command-host_port,
}
use nexus_ftp_engine.Client.{between, parse_pasv, get_reply_code, is_code, connect_data}
use nexus_ftp_engine.Platform.{Host}
use nexus_ftp_engine.Platform.Sockets.{connect_socket}
use nexus_ftp_engine.Session.{next}

between-split :
    (reply y x : Bytes) (s e n : ℕ)
    → find b'(' reply ≡ some s
    → find b')' reply ≡ some e
    → drop (suc s) reply ≡ y
    → (e + 2 ^ 64 - s - 1) % 2 ^ 64 ≡ n
    → take n y ≡ x
    → between reply ≡ some x
unfolding between
between-split reply y x s e n opened closed rest count inner =
    rw (opened, between, closed) (rw (rest, count, inner))

-- A text in brackets, behind a text without any.
between-brackets :
    (pre x : Bytes)
    → Lacks b'(' pre
    → Lacks b')' pre
    → Lacks b')' x
    → length x < 2 ^ 63
    → between (pre ++ (b'(' ∷ (x ++ (b')' ∷ [])))) ≡ some x
between-brackets pre x l r rx short =
    between-split (pre ++ (b'(' ∷ (x ++ (b')' ∷ [])))) (x ++ (b')' ∷ [])) x (length pre)
      (length pre + suc (length x)) (length x) (find-append b'(' pre (x ++ (b')' ∷ [])) l)
      (ap (find b')') (sym (append_assoc pre (b'(' ∷ x) (b')' ∷ [])))
        ∙ find-append b')' (pre ++ (b'(' ∷ x)) []
            (Lacks-append b')' pre (b'(' ∷ x) r ((λ e. omega (arith, e)), rx))
        ∙ ap some (length-append pre (b'(' ∷ x)))
      (drop-suc-append pre b'(' (x ++ (b')' ∷ []))) (omega arith) (take-append x (b')' ∷ []))

pub Lacks-find : (c : ℕ) (s : Bytes) → find c s ≡ none → Lacks c s
unfolding find_if
Lacks-find c [] e = tt
Lacks-find c (d ∷ s) e = (ground arith, Lacks-find c s (ground arith))

Lacks-AllDigits : (c : ℕ) (s : Bytes) → c < 48 → AllDigits s → Lacks c s
Lacks-AllDigits c [] h d = tt
Lacks-AllDigits c (d ∷ s) h k = ((λ e. omega (arith, e, k.0)), Lacks-AllDigits c s h k.2)

-- What pasvResponse says of the high and the low byte of a port.
pasv_text : ℕ → ℕ → Bytes
pasv_text hi lo =
    bytes "227 Entering Passive Mode " ++ (b'(' ∷ (host_port 127 0 0 1 hi lo ++ (b')' ∷ [])))

to_string_127 : to_string 127 ≡ bytes "127"
unfolding to_string bytes
to_string_127 = refl

to_string_0 : to_string 0 ≡ bytes "0"
unfolding to_string bytes
to_string_0 = refl

to_string_1 : to_string 1 ≡ bytes "1"
unfolding to_string bytes
to_string_1 = refl

host_port-loopback :
    (hi lo : ℕ)
    → host_port 127 0 0 1 hi lo ≡ bytes "127,0,0,1," ++ (to_string hi ++ (b',' ∷ to_string lo))
unfolding bytes
host_port-loopback hi lo = rw (to_string_127, to_string_0, to_string_1)

bracketed :
    (x y : Bytes)
    → bytes "227 Entering Passive Mode (127,0,0,1," ++ x ++ b',' ∷ y ++ bytes ")"
      ≡ bytes "227 Entering Passive Mode "
        ++ (b'(' ∷ ((bytes "127,0,0,1," ++ (x ++ (b',' ∷ y))) ++ (b')' ∷ [])))
unfolding bytes
bracketed x y = rw (append_assoc)

pasv_response-text :
    (d : DataChannel) → pasv_response d ≡ pasv_text (d.passive_port / 256) (d.passive_port % 256)
unfolding pasv_response pasv_text
pasv_response-text d =
    bracketed (to_string (d.passive_port / 256)) (to_string (d.passive_port % 256))
    ∙ ap (λ x. bytes "227 Entering Passive Mode " ++ (b'(' ∷ (x ++ (b')' ∷ []))))
        (sym (host_port-loopback (d.passive_port / 256) (d.passive_port % 256)))

host_port-Lacks : (hi lo : ℕ) → Lacks b')' (host_port 127 0 0 1 hi lo)
unfolding bytes find_if
host_port-Lacks hi lo = rw (host_port-loopback hi lo) (
    Lacks-append b')' (bytes "127,0,0,1,") (to_string hi ++ (b',' ∷ to_string lo))
      (Lacks-find b')' (bytes "127,0,0,1,") refl)
      (Lacks-append b')' (to_string hi) (b',' ∷ to_string lo)
        (Lacks-AllDigits b')' (to_string hi) (omega arith) (to_string-AllDigits hi))
        (
          (λ e. omega (arith, e)),
          Lacks-AllDigits b')' (to_string lo) (omega arith) (to_string-AllDigits lo),
        )))

length-host_port : (hi lo : ℕ) → hi < 256 → lo < 256 → length (host_port 127 0 0 1 hi lo) < 2 ^ 63
unfolding bytes
length-host_port hi lo h l = rw (host_port-loopback hi lo) (
    omega (
      arith,
      length-append (to_string hi) (b',' ∷ to_string lo),
      length-to_string hi,
      length-to_string lo,
    ))

parse_pasv-text :
    (hi lo : ℕ)
    → hi < 256
    → lo < 256
    → parse_pasv (pasv_text hi lo) ≡ ok (some (dotted 127 0 0 1, pos (hi * 256 + lo)))
unfolding parse_pasv pasv_text bytes find_if
parse_pasv-text hi lo h l = rw (
  between-brackets (bytes "227 Entering Passive Mode ") (host_port 127 0 0 1 hi lo)
      (Lacks-find b'(' (bytes "227 Entering Passive Mode ") refl)
      (Lacks-find b')' (bytes "227 Entering Passive Mode ") refl) (host_port-Lacks hi lo)
      (length-host_port hi lo h l),
  parse_pasv,
  parse_port_command-host_port 127 0 0 1 hi lo (omega arith) (omega arith) (omega arith)
      (omega arith) (omega arith),
)

get_reply_code-text : (hi lo : ℕ) → get_reply_code (pasv_text hi lo) ≡ pos 227
unfolding get_reply_code pasv_text bytes stoi
get_reply_code-text hi lo = ground arith

module _ (h : Host) where
  open h use {World}

  -- From the server's reply to PASV, the client connects to 127.0.0.1 at the port on which the server
  -- listens, for every port that fits 16 bits.
  pub connect_data-pasv_response :
      (d : DataChannel) (w : World)
      → d.passive_port < 2 ^ 16
      → connect_data h (pasv_response d) w
        ≡ next (connect_socket h (dotted 127 0 0 1) (pos d.passive_port) w)
  unfolding connect_data is_code
  connect_data-pasv_response d w fits = rw (pasv_response-text d) (
      rw
        (
          get_reply_code-text (d.passive_port / 256) (d.passive_port % 256),
          connect_data,
          parse_pasv-text (d.passive_port / 256) (d.passive_port % 256) (omega arith) (omega arith),
        )
        (ap (λ p. next (connect_socket h (dotted 127 0 0 1) (pos p) w)) (omega arith)))
