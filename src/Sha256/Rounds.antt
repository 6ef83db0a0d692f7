-- ===== src/Sha256/Rounds.antt =====
-- src/common/sha256.h: the message schedule and the compression of one block, in uint32_t.
use Prim.Native.Nat.{bit_and, bit_or, bit_xor}
use nexus_ftp_engine.Prelude.{
  ℕ, zero, suc, ◌+◌, ◌-◌, ◌*◌, ◌/◌, ◌%◌, ◌^◌, List, [], ◌∷◌, ◌++◌, get_or,
}
use nexus_ftp_engine.Bytes.{Bytes}

-- The words h0 to h7, and the working variables a to h.
pub record Hash : Type 0 where
  pub h0 : ℕ
  pub h1 : ℕ
  pub h2 : ℕ
  pub h3 : ℕ
  pub h4 : ℕ
  pub h5 : ℕ
  pub h6 : ℕ
  pub h7 : ℕ

abbrev pub add32 : ℕ → ℕ → ℕ
add32 x y = (x + y) % 2 ^ 32

abbrev pub not32 : ℕ → ℕ
not32 x = 2 ^ 32 - 1 - x

unfoldable pub rotr32 : ℕ → ℕ → ℕ
rotr32 x n = bit_or (x / 2 ^ n) (x * 2 ^ (32 - n) % 2 ^ 32)

unfoldable pub k256 : List ℕ
k256 =
    0x428a2f98 ∷ 0x71374491 ∷ 0xb5c0fbcf ∷ 0xe9b5dba5 ∷ 0x3956c25b ∷ 0x59f111f1 ∷ 0x923f82a4
    ∷ 0xab1c5ed5 ∷ 0xd807aa98 ∷ 0x12835b01 ∷ 0x243185be ∷ 0x550c7dc3 ∷ 0x72be5d74 ∷ 0x80deb1fe
    ∷ 0x9bdc06a7 ∷ 0xc19bf174 ∷ 0xe49b69c1 ∷ 0xefbe4786 ∷ 0x0fc19dc6 ∷ 0x240ca1cc ∷ 0x2de92c6f
    ∷ 0x4a7484aa ∷ 0x5cb0a9dc ∷ 0x76f988da ∷ 0x983e5152 ∷ 0xa831c66d ∷ 0xb00327c8 ∷ 0xbf597fc7
    ∷ 0xc6e00bf3 ∷ 0xd5a79147 ∷ 0x06ca6351 ∷ 0x14292967 ∷ 0x27b70a85 ∷ 0x2e1b2138 ∷ 0x4d2c6dfc
    ∷ 0x53380d13 ∷ 0x650a7354 ∷ 0x766a0abb ∷ 0x81c2c92e ∷ 0x92722c85 ∷ 0xa2bfe8a1 ∷ 0xa81a664b
    ∷ 0xc24b8b70 ∷ 0xc76c51a3 ∷ 0xd192e819 ∷ 0xd6990624 ∷ 0xf40e3585 ∷ 0x106aa070 ∷ 0x19a4c116
    ∷ 0x1e376c08 ∷ 0x2748774c ∷ 0x34b0bcb5 ∷ 0x391c0cb3 ∷ 0x4ed8aa4a ∷ 0x5b9cca4f ∷ 0x682e6ff3
    ∷ 0x748f82ee ∷ 0x78a5636f ∷ 0x84c87814 ∷ 0x8cc70208 ∷ 0x90befffa ∷ 0xa4506ceb ∷ 0xbef9a3f7
    ∷ 0xc67178f2 ∷ []

unfoldable pub initial_hash : Hash
initial_hash = record {
  h0 = 0x6a09e667;
  h1 = 0xbb67ae85;
  h2 = 0x3c6ef372;
  h3 = 0xa54ff53a;
  h4 = 0x510e527f;
  h5 = 0x9b05688c;
  h6 = 0x1f83d9ab;
  h7 = 0x5be0cd19;
}

-- w[0] to w[15]: big-endian words of the block.
unfoldable pub block_words : Bytes → List ℕ
block_words (b0 ∷ b1 ∷ b2 ∷ b3 ∷ rest) =
    bit_or (bit_or (bit_or (b0 * 2 ^ 24) (b1 * 2 ^ 16)) (b2 * 2 ^ 8)) b3 ∷ block_words rest
block_words short = []

-- w[i] for i from 16, `rounds` of them.
unfoldable pub extend_words : ℕ → ℕ → List ℕ → List ℕ
unfolding rotr32
extend_words zero i w = w
extend_words (suc rounds) i w =
    let w15 = get_or w (i - 15) 0 in
    let w2 = get_or w (i - 2) 0 in
    let s0 = bit_xor (bit_xor (rotr32 w15 7) (rotr32 w15 18)) (w15 / 2 ^ 3) in
    let s1 = bit_xor (bit_xor (rotr32 w2 17) (rotr32 w2 19)) (w2 / 2 ^ 10) in
    let wi = add32 (add32 (add32 (get_or w (i - 16) 0) s0) (get_or w (i - 7) 0)) s1 in
    extend_words rounds (i + 1) (w ++ wi ∷ [])

unfoldable pub round : Hash → ℕ → ℕ → Hash
unfolding rotr32
round v k w =
    let e = v.h4 in
    let a = v.h0 in
    let s1 = bit_xor (bit_xor (rotr32 e 6) (rotr32 e 11)) (rotr32 e 25) in
    let ch = bit_xor (bit_and e v.h5) (bit_and (not32 e) v.h6) in
    let temp1 = add32 (add32 (add32 (add32 v.h7 s1) ch) k) w in
    let s0 = bit_xor (bit_xor (rotr32 a 2) (rotr32 a 13)) (rotr32 a 22) in
    let maj = bit_xor (bit_xor (bit_and a v.h1) (bit_and a v.h2)) (bit_and v.h1 v.h2) in
    let temp2 = add32 s0 maj in
    record {
      h0 = add32 temp1 temp2;
      h1 = a;
      h2 = v.h1;
      h3 = v.h2;
      h4 = add32 v.h3 temp1;
      h5 = e;
      h6 = v.h5;
      h7 = v.h6;
    }

unfoldable pub compress : List ℕ → List ℕ → Hash → Hash
unfolding round
compress (k ∷ ks) (w ∷ ws) v = compress ks ws (round v k w)
compress ks ws v = v

unfoldable pub add_hash : Hash → Hash → Hash
add_hash s v = record {
  h0 = add32 s.h0 v.h0;
  h1 = add32 s.h1 v.h1;
  h2 = add32 s.h2 v.h2;
  h3 = add32 s.h3 v.h3;
  h4 = add32 s.h4 v.h4;
  h5 = add32 s.h5 v.h5;
  h6 = add32 s.h6 v.h6;
  h7 = add32 s.h7 v.h7;
}

unfoldable pub process_block : Bytes → Hash → Hash
unfolding compress extend_words block_words add_hash k256 initial_hash
process_block block st = add_hash st (compress k256 (extend_words 48 16 (block_words block)) st)
