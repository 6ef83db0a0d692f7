-- ===== src/DataChannel/PortCommand/RoundTrip.antt =====
-- src/server/data_channel.h: parsePortCommand and the text of an address and a port.
use nexus_ftp_engine.Prelude.{
  ℕ, ◌+◌, ◌*◌, ◌^◌, ◌<◌, ◌≡◌, sym, ap, ◌∙◌, List, [], ◌∷◌, ◌++◌, append-nil, append_assoc, arith,
  set,
}
use nexus_ftp_engine.Prelude.Int.{ℤ, pos, ◌+ℤ◌, ◌*ℤ◌}
use nexus_ftp_engine.Bytes.{Bytes}
use nexus_ftp_engine.Bytes.Decimal.{to_string, stoi-to_string, AllDigits, to_string-AllDigits}
use nexus_ftp_engine.DataChannel.PortCommand.{
  ok, zeros, store, parse_numbers, dotted_ip, port_of, parse_port_command,
}

-- h1,h2,h3,h4,p1,p2
abbrev pub host_port : (a b c d hi lo : ℕ) → Bytes
host_port a b c d hi lo =
    to_string a
    ++ (b','
        ∷ (to_string b
            ++ (b','
                ∷ (to_string c
                    ++ (b','
                        ∷ (to_string d ++ (b',' ∷ (to_string hi ++ (b',' ∷ to_string lo)))))))))

-- h1.h2.h3.h4
abbrev pub dotted : (a b c d : ℕ) → Bytes
dotted a b c d = to_string a ++ b'.' ∷ to_string b ++ b'.' ∷ to_string c ++ b'.' ∷ to_string d

parse_numbers-digits :
    (nums : List ℤ) (idx : ℕ) (temp s rest : Bytes)
    → AllDigits s
    → parse_numbers nums idx temp (s ++ rest) ≡ parse_numbers nums idx (temp ++ s) rest
unfolding parse_numbers
parse_numbers-digits nums idx temp [] rest h = rw append-nil
parse_numbers-digits nums idx temp (c ∷ s) rest h =
    ground (
      arith,
      parse_numbers-digits nums idx (temp ++ c ∷ []) s rest h.2,
      append_assoc temp (c ∷ []) s,
    )

store-to_string :
    (nums : List ℤ) (idx n : ℕ)
    → idx < 6
    → n < 2 ^ 31
    → store nums idx (to_string n) ≡ ok (set nums idx (pos n))
unfolding store
store-to_string nums idx n i h = ground (arith, stoi-to_string n h)

number_then :
    (nums : List ℤ) (idx n : ℕ) (rest : Bytes)
    → idx < 6
    → n < 2 ^ 31
    → parse_numbers nums idx [] (to_string n ++ b',' ∷ rest)
      ≡ parse_numbers (set nums idx (pos n)) (idx + 1) [] rest
unfolding parse_numbers
number_then nums idx n rest i h =
    parse_numbers-digits nums idx [] (to_string n) (b',' ∷ rest) (to_string-AllDigits n)
    ∙ rw (store-to_string nums idx n i h)

number_last :
    (nums : List ℤ) (idx n : ℕ)
    → idx < 6
    → n < 2 ^ 31
    → parse_numbers nums idx [] (to_string n) ≡ ok (set nums idx (pos n))
unfolding parse_numbers
number_last nums idx n i h =
    ap (parse_numbers nums idx []) (sym (append-nil (to_string n)))
    ∙ parse_numbers-digits nums idx [] (to_string n) [] (to_string-AllDigits n)
    ∙ store-to_string nums idx n i h

-- The six numbers come back in their places.
pub parse_numbers-host_port :
    (a b c d hi lo : ℕ)
    → a < 2 ^ 31
    → b < 2 ^ 31
    → c < 2 ^ 31
    → d < 2 ^ 31
    → hi < 2 ^ 31
    → lo < 2 ^ 31
    → parse_numbers zeros 0 [] (host_port a b c d hi lo)
      ≡ ok (pos a ∷ pos b ∷ pos c ∷ pos d ∷ pos hi ∷ pos lo ∷ [])
parse_numbers-host_port a b c d hi lo ha hb hc hd hhi hlo =
    number_then _ 0 a _ (omega arith) ha
    ∙ number_then _ 1 b _ (omega arith) hb
    ∙ number_then _ 2 c _ (omega arith) hc
    ∙ number_then _ 3 d _ (omega arith) hd
    ∙ number_then _ 4 hi _ (omega arith) hhi
    ∙ number_last _ 5 lo (omega arith) hlo

port_of-pos :
    (a b c d : ℤ) (hi lo : ℕ)
    → hi * 256 + lo < 2 ^ 31
    → port_of (a ∷ b ∷ c ∷ d ∷ pos hi ∷ pos lo ∷ []) ≡ ok (pos (hi * 256 + lo))
unfolding port_of ◌*ℤ◌ ◌+ℤ◌
port_of-pos a b c d hi lo h = ground arith

-- Where the port fits an int, parsePortCommand returns the dotted address and 256 hi + lo.
pub parse_port_command-host_port :
    (a b c d hi lo : ℕ)
    → a < 2 ^ 31
    → b < 2 ^ 31
    → c < 2 ^ 31
    → d < 2 ^ 31
    → hi * 256 + lo < 2 ^ 31
    → parse_port_command (host_port a b c d hi lo) ≡ ok (dotted a b c d, pos (hi * 256 + lo))
unfolding parse_port_command dotted_ip
parse_port_command-host_port a b c d hi lo ha hb hc hd h = rw (
  parse_numbers-host_port a b c d hi lo ha hb hc hd (omega arith) (omega arith),
  port_of-pos (pos a) (pos b) (pos c) (pos d) hi lo h,
)
