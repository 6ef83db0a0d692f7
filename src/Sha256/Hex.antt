-- ===== src/Sha256/Hex.antt =====
-- The hexadecimal output of std::ostream: std::hex, std::setw, std::setfill('0'), std::uppercase.
use nexus_ftp_engine.Prelude.{
  ℕ, zero, suc, ◌+◌, ◌-◌, ◌/◌, ◌%◌, [], ◌∷◌, ◌++◌, length, replicate, ltb, if◌then◌else◌,
}
use nexus_ftp_engine.Bytes.{Bytes}

-- `letter` is the digit ten, 'a' or 'A'.
unfoldable pub hex_digit : ℕ → ℕ → ℕ
hex_digit letter d = if ltb d 10 then b'0' + d else letter + (d - 10)

unfoldable pub hex_digits : ℕ → ℕ → ℕ → Bytes
unfolding hex_digit
hex_digits letter zero n = []
hex_digits letter (suc fuel) n =
    let rest = hex_digits letter fuel (n / 16) in
    if ltb n 16 then hex_digit letter n ∷ [] else rest ++ hex_digit letter (n % 16) ∷ []

-- std::hex with std::setw(width) and std::setfill('0'); 16 digits suffice for a uint64_t.
unfoldable pub to_hex : ℕ → ℕ → Bytes
unfolding hex_digits
to_hex width n = let s = hex_digits b'a' 16 n in replicate (width - length s) b'0' ++ s

-- std::hex << std::uppercase, with no width.
unfoldable pub to_upper_hex : ℕ → Bytes
unfolding hex_digits
to_upper_hex n = hex_digits b'A' 16 n
