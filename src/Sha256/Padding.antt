-- ===== src/Sha256/Padding.antt =====
-- src/common/sha256.h: the padded message.
use nexus_ftp_engine.Prelude.{
  ℕ, zero, suc, ◌*◌, ◌/◌, ◌%◌, ◌^◌, [], ◌∷◌, ◌++◌, length, ◌==◌, if◌then◌else◌,
}
use nexus_ftp_engine.Bytes.{Bytes}

-- while ((msg.size() % 64) != 56) msg += '\x00'; with fuel 64.
unfoldable pub pad_zeros : ℕ → Bytes → Bytes
pad_zeros zero msg = msg
pad_zeros (suc fuel) msg =
    let rest = pad_zeros fuel (msg ++ 0 ∷ []) in if length msg % 64 == 56 then msg else rest

-- The uint64_t length in bits, big-endian.
unfoldable pub length_bytes : ℕ → Bytes
length_bytes bit_len =
    bit_len / 2 ^ 56 % 256
    ∷ bit_len / 2 ^ 48 % 256
    ∷ bit_len / 2 ^ 40 % 256
    ∷ bit_len / 2 ^ 32 % 256
    ∷ bit_len / 2 ^ 24 % 256
    ∷ bit_len / 2 ^ 16 % 256
    ∷ bit_len / 2 ^ 8 % 256
    ∷ bit_len % 256
    ∷ []

unfoldable pub padded : Bytes → Bytes
unfolding pad_zeros length_bytes
padded input = pad_zeros 64 (input ++ 128 ∷ []) ++ length_bytes (length input * 8 % 2 ^ 64)
