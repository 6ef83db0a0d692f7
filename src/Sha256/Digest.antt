-- ===== src/Sha256/Digest.antt =====
-- src/common/sha256.h: the shape of the padded message and of the digest.
use nexus_ftp_engine.Prelude.{
  ℕ, zero, suc, ◌+◌, ◌-◌, ◌*◌, ◌/◌, ◌%◌, ◌^◌, ◌≤◌, ◌<◌, ◌≡◌, ◌⊎◌, [], ◌∷◌, ◌++◌, arith, length,
  length-append, length-replicate, replicate, take, drop, ltb, Bool-cases, inl, inr,
}
use nexus_ftp_engine.Bytes.{Bytes}
use nexus_ftp_engine.Sha256.{process, sha256, hash_words, hash_hex, sha256_salted}
use nexus_ftp_engine.Sha256.Rounds.{
  Hash, add32, add_hash, initial_hash, process_block, compress, k256, extend_words, block_words,
}
use nexus_ftp_engine.Sha256.Hex.{hex_digit, hex_digits, to_hex}
use nexus_ftp_engine.Sha256.Padding.{pad_zeros, length_bytes, padded}

-- The zeros still to come, up to 56 modulo 64.
pad_zeros-length :
    (fuel : ℕ) (msg : Bytes)
    → (56 + 64 - length msg % 64) % 64 ≤ fuel
    → length (pad_zeros fuel msg) % 64 ≡ 56
unfolding pad_zeros
pad_zeros-length zero msg e = omega arith
pad_zeros-length (suc fuel) msg e =
    ground (arith, pad_zeros-length fuel (msg ++ 0 ∷ []), length-append msg (0 ∷ []))

-- The padded message is a whole number of 64-byte blocks.
pub length-padded : (input : Bytes) → length (padded input) % 64 ≡ 0
unfolding padded length_bytes
length-padded input = ground (
  arith,
  pad_zeros-length 64 (input ++ 128 ∷ []),
  length-append (pad_zeros 64 (input ++ 128 ∷ [])) (length_bytes (length input * 8 % 2 ^ 64)),
)

-- Every byte is a lower-case hexadecimal digit.
abbrev pub AllHex : Bytes → Type 0
AllHex [] = Unit {0}
AllHex (c ∷ s) = (((48 ≤ c) × (c ≤ 57)) ⊎ ((97 ≤ c) × (c ≤ 102))) × AllHex s

pub AllHex-append : (s t : Bytes) → AllHex s → AllHex t → AllHex (s ++ t)
AllHex-append [] t h k = k
AllHex-append (c ∷ s) t h k = (h.0, AllHex-append s t h.1 k)

replicate-AllHex : (n : ℕ) → AllHex (replicate n b'0')
replicate-AllHex zero = tt
replicate-AllHex (suc n) = (inl (omega arith, omega arith), replicate-AllHex n)

hex_digit-AllHex : (d : ℕ) → d < 16 → AllHex (hex_digit b'a' d ∷ [])
unfolding hex_digit
hex_digit-AllHex d h = ground arith

hex_digits-AllHex : (fuel n : ℕ) → AllHex (hex_digits b'a' fuel n)
unfolding hex_digits
hex_digits-AllHex zero n = tt
hex_digits-AllHex (suc fuel) n = elim (Bool-cases (ltb n 16)) [
  | inl e ↦ rw e (hex_digit-AllHex n (ground arith))
  | inr e ↦ rw e (
      AllHex-append (hex_digits b'a' fuel (n / 16)) (hex_digit b'a' (n % 16) ∷ [])
        (hex_digits-AllHex fuel (n / 16)) (hex_digit-AllHex (n % 16) (omega arith)))
]

pub to_hex-AllHex : (width n : ℕ) → AllHex (to_hex width n)
unfolding to_hex
to_hex-AllHex width n =
    AllHex-append (replicate (width - length (hex_digits b'a' 16 n)) b'0') (hex_digits b'a' 16 n)
      (replicate-AllHex (width - length (hex_digits b'a' 16 n))) (hex_digits-AllHex 16 n)

AllHex-word : (s : Bytes) → AllHex s → (n : ℕ) → AllHex (s ++ to_hex 8 n)
AllHex-word s k n = AllHex-append s (to_hex 8 n) k (to_hex-AllHex 8 n)

hash_hex-AllHex : (st : Hash) → AllHex (hash_hex st)
unfolding hash_hex
hash_hex-AllHex st =
    AllHex-word _
      (AllHex-word _
        (AllHex-word _
          (AllHex-word _
            (AllHex-word _ (AllHex-word _ (AllHex-word _ (to_hex-AllHex 8 st.h0) st.h1) st.h2)
              st.h3)
            st.h4)
          st.h5)
        st.h6)
      st.h7

pub sha256_salted-AllHex : (salt password : Bytes) → AllHex (sha256_salted salt password)
unfolding sha256_salted sha256
sha256_salted-AllHex salt password = hash_hex-AllHex (hash_words (salt ++ b':' ∷ password))

-- Numbers below `m` have at most `k` digits.
abbrev Short : ℕ → ℕ → ℕ → Type 0
Short fuel k m = (n : ℕ) → n < m → length (hex_digits b'a' fuel n) ≤ k

Short-one : (fuel : ℕ) → Short (suc fuel) 1 16
unfolding hex_digits
Short-one fuel n h = ground arith

Short-step : (fuel k m : ℕ) → 0 < k → Short fuel k m → Short (suc fuel) (suc k) (16 * m)
unfolding hex_digits
Short-step fuel k m pos short n h = ground (
  arith,
  short (n / 16),
  length-append (hex_digits b'a' fuel (n / 16)) (hex_digit b'a' (n % 16) ∷ []),
)

Short-word : Short 16 8 (2 ^ 32)
Short-word = Short-step 15 7 (2 ^ 28) (omega arith) (
    Short-step 14 6 (2 ^ 24) (omega arith) (
      Short-step 13 5 (2 ^ 20) (omega arith) (
        Short-step 12 4 (2 ^ 16) (omega arith) (
          Short-step 11 3 4096 (omega arith)
            (Short-step 10 2 256 (omega arith) (Short-step 9 1 16 (omega arith) (Short-one 8)))))))

length-to_hex : (n : ℕ) → n < 2 ^ 32 → length (to_hex 8 n) ≡ 8
unfolding to_hex
length-to_hex n h = omega (
  arith,
  length-append (replicate (8 - length (hex_digits b'a' 16 n)) b'0') (hex_digits b'a' 16 n),
  length-replicate {A = ℕ} (8 - length (hex_digits b'a' 16 n)) b'0',
  Short-word n h,
)

-- The eight words of a hash fit 32 bits.
abbrev pub Fits : Hash → Type 0
Fits st =
    (st.h0 < 2 ^ 32)
    × (st.h1 < 2 ^ 32)
    × (st.h2 < 2 ^ 32)
    × (st.h3 < 2 ^ 32)
    × (st.h4 < 2 ^ 32)
    × (st.h5 < 2 ^ 32)
    × (st.h6 < 2 ^ 32)
    × (st.h7 < 2 ^ 32)

add32-fits : (a b : ℕ) → add32 a b < 2 ^ 32
add32-fits a b = omega arith

add_hash-Fits : (s v : Hash) → Fits (add_hash s v)
unfolding add_hash
add_hash-Fits s v = (
  add32-fits s.h0 v.h0,
  add32-fits s.h1 v.h1,
  add32-fits s.h2 v.h2,
  add32-fits s.h3 v.h3,
  add32-fits s.h4 v.h4,
  add32-fits s.h5 v.h5,
  add32-fits s.h6 v.h6,
  add32-fits s.h7 v.h7,
)

process-Fits : (fuel : ℕ) (msg : Bytes) (st : Hash) → Fits st → Fits (process fuel msg st)
unfolding process process_block
process-Fits zero msg st f = f
process-Fits (suc fuel) [] st f = f
process-Fits (suc fuel) (c ∷ msg) st f =
    process-Fits fuel (drop 64 (c ∷ msg)) (process_block (take 64 (c ∷ msg)) st)
      (add_hash-Fits st (compress k256 (extend_words 48 16 (block_words (take 64 (c ∷ msg)))) st))

initial_hash-Fits : Fits initial_hash
unfolding initial_hash
initial_hash-Fits = (
  omega arith,
  omega arith,
  omega arith,
  omega arith,
  omega arith,
  omega arith,
  omega arith,
  omega arith,
)

length-word : (s : Bytes) (k n : ℕ) → length s ≡ k → n < 2 ^ 32 → length (s ++ to_hex 8 n) ≡ k + 8
length-word s k n e h = omega (arith, length-append s (to_hex 8 n), length-to_hex n h)

length-hash_hex : (st : Hash) → Fits st → length (hash_hex st) ≡ 64
unfolding hash_hex
length-hash_hex st (f0, f1, f2, f3, f4, f5, f6, f7) =
    length-word _ 56 st.h7
      (length-word _ 48 st.h6
        (length-word _ 40 st.h5
          (length-word _ 32 st.h4
            (length-word _ 24 st.h3
              (length-word _ 16 st.h2 (length-word _ 8 st.h1 (length-to_hex st.h0 f0) f1) f2) f3)
            f4)
          f5)
        f6)
      f7

pub hash_words-Fits : (input : Bytes) → Fits (hash_words input)
unfolding hash_words
hash_words-Fits input =
    process-Fits (suc (length (padded input) / 64)) (padded input) initial_hash initial_hash-Fits

-- The digest of every input is 64 lower-case hexadecimal digits.
pub sha256-IsDigest : (input : Bytes) → (length (sha256 input) ≡ 64) × AllHex (sha256 input)
unfolding sha256 hash_words
sha256-IsDigest input =
    (length-hash_hex (hash_words input) (hash_words-Fits input), hash_hex-AllHex (hash_words input))
