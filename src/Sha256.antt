-- ===== src/Sha256.antt =====
-- src/common/sha256.h
pub mod Rounds
pub mod Schedule
pub mod Padding
pub mod Hex
pub mod Digest
pub mod Standard
pub mod Roots
pub mod Texts
pub mod Equivalence
use nexus_ftp_engine.Prelude.{
  ℕ, zero, suc, ◌/◌, List, [], ◌∷◌, ◌++◌, length, take, drop, if◌then◌else◌,
}
use nexus_ftp_engine.Bytes.{Bytes, is_empty}
use Rounds.{Hash, initial_hash, process_block}
use Padding.{padded}
use Hex.{to_hex}

-- The loop over the 64-byte blocks; the fuel is one more than their number.
unfoldable pub process : ℕ → Bytes → Hash → Hash
process zero msg st = st
process (suc fuel) msg st =
    let rest = process fuel (drop 64 msg) (process_block (take 64 msg) st) in
    if is_empty msg then st else rest

unfoldable pub hash_words : Bytes → Hash
unfolding process
hash_words input = process (suc (length (padded input) / 64)) (padded input) initial_hash

unfoldable pub hash_hex : Hash → Bytes
hash_hex st =
    to_hex 8 st.h0
    ++ to_hex 8 st.h1
    ++ to_hex 8 st.h2
    ++ to_hex 8 st.h3
    ++ to_hex 8 st.h4
    ++ to_hex 8 st.h5
    ++ to_hex 8 st.h6
    ++ to_hex 8 st.h7

unfoldable pub sha256 : Bytes → Bytes
unfolding hash_words hash_hex process_block padded to_hex
sha256 input = hash_hex (hash_words input)

unfoldable pub sha256_salted : Bytes → Bytes → Bytes
sha256_salted salt password = sha256 (salt ++ b':' ∷ password)
