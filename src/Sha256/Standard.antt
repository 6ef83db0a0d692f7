-- ===== src/Sha256/Standard.antt =====
-- src/common/sha256.h: FIPS 180-4 as the standard words it, to which the code is compared.
use Prim.Native.Nat.{bit_and, bit_or, bit_xor}
use nexus_ftp_engine.Prelude.{
  ℕ, zero, suc, ◌+◌, ◌-◌, ◌*◌, ◌/◌, ◌%◌, ◌^◌, List, [], ◌∷◌, ◌++◌, length, take, drop, get_or,
  replicate, map, Bool, true, not, ◌&&◌, ltb, leb, ◌==◌, if◌then◌else◌,
}
use nexus_ftp_engine.Bytes.{Bytes}
use nexus_ftp_engine.Sha256.Rounds.{Hash}
use nexus_ftp_engine.Sha256.Schedule.{schedule_word, rotate_right}

-- The greatest r with r ^ e at most n, a binary digit at a time.
abbrev root : ℕ → ℕ → ℕ → ℕ → ℕ
root zero e n r = r
root (suc bits) e n r = root bits e n (if leb ((r + 2 ^ bits) ^ e) n then r + 2 ^ bits else r)

-- The first 32 bits of the fractional part of the e-th root.
unfoldable pub root_fraction : ℕ → ℕ → ℕ
root_fraction e n = root 40 e (n * 2 ^ (32 * e)) 0 % 2 ^ 32

-- No divisor among the `k` numbers from 2 on.
abbrev no_divisor : ℕ → ℕ → Bool
no_divisor zero n = true
no_divisor (suc k) n = not (n % (k + 2) == 0) && no_divisor k n

-- The first primes from `n` on, with `fuel` numbers to look at.
unfoldable pub primes_from : ℕ → ℕ → List ℕ
primes_from zero n = []
primes_from (suc fuel) n =
    let rest = primes_from fuel (n + 1) in if no_divisor (n - 2) n then n ∷ rest else rest

-- 5.3.3 and 4.2.2: the square roots of the first eight primes, the cube roots of the first 64.
unfoldable pub standard_initial : List ℕ
unfolding root_fraction primes_from
standard_initial = map (root_fraction 2) (primes_from 18 2)

unfoldable pub standard_constants : List ℕ
unfolding root_fraction primes_from
standard_constants = map (root_fraction 3) (primes_from 310 2)

-- 5.1.1: the bit 1, the least number of zeros that makes 448 bits modulo 512, the length in 64 bits.
unfoldable pub big_endian : ℕ → ℕ → Bytes
big_endian zero n = []
big_endian (suc k) n = n / 2 ^ (8 * k) % 256 ∷ big_endian k n

unfoldable pub standard_padding : Bytes → Bytes
unfolding big_endian
standard_padding message =
    message
    ++ 128 ∷ replicate ((56 + 63 - length message % 64) % 64) 0
    ++ big_endian 8 (8 * length message)

-- 4.1.2, with the complement of a word.
abbrev complement : ℕ → ℕ
complement x = 2 ^ 32 - 1 - x

unfoldable pub big_sigma0 : ℕ → ℕ
unfolding rotate_right
big_sigma0 x = bit_xor (bit_xor (rotate_right 2 x) (rotate_right 13 x)) (rotate_right 22 x)

unfoldable pub big_sigma1 : ℕ → ℕ
unfolding rotate_right
big_sigma1 x = bit_xor (bit_xor (rotate_right 6 x) (rotate_right 11 x)) (rotate_right 25 x)

unfoldable pub choice : ℕ → ℕ → ℕ → ℕ
choice x y z = bit_xor (bit_and x y) (bit_and (complement x) z)

unfoldable pub majority : ℕ → ℕ → ℕ → ℕ
majority x y z = bit_xor (bit_xor (bit_and x y) (bit_and x z)) (bit_and y z)

-- 5.2.1: the t-th word of a block, from the four bytes at 4 t, the first one on the left.
unfoldable pub word_at : Bytes → ℕ → ℕ
word_at block t =
    bit_or
      (bit_or (bit_or (get_or block (4 * t) 0 * 2 ^ 24) (get_or block (4 * t + 1) 0 * 2 ^ 16))
        (get_or block (4 * t + 2) 0 * 2 ^ 8))
      (get_or block (4 * t + 3) 0)

-- 6.2.2, step 1: W_t, with the sixteen words of the block and the recurrence. The fuel bounds the
-- depth of the recurrence.
unfoldable pub standard_word : ℕ → Bytes → ℕ → ℕ
unfolding word_at
standard_word zero block t = word_at block t
standard_word (suc fuel) block t =
    if ltb t 16 then word_at block t else schedule_word (standard_word fuel block) t

-- Step 3, for one t: the sums T1 and T2, each modulo 2^32, and the eight new variables.
unfoldable pub standard_round : ℕ → ℕ → Hash → Hash
unfolding big_sigma0 big_sigma1 choice majority
standard_round k w v =
    let t1 = (v.h7 + big_sigma1 v.h4 + choice v.h4 v.h5 v.h6 + k + w) % 2 ^ 32 in
    let t2 = (big_sigma0 v.h0 + majority v.h0 v.h1 v.h2) % 2 ^ 32 in
    record {
      h0 = (t1 + t2) % 2 ^ 32;
      h1 = v.h0;
      h2 = v.h1;
      h3 = v.h2;
      h4 = (v.h3 + t1) % 2 ^ 32;
      h5 = v.h4;
      h6 = v.h5;
      h7 = v.h6;
    }

-- The variables after the rounds 0 to t - 1.
unfoldable pub standard_rounds : (ℕ → ℕ) → (ℕ → ℕ) → Hash → ℕ → Hash
standard_rounds k w v zero = v
standard_rounds k w v (suc t) = standard_round (k t) (w t) (standard_rounds k w v t)

-- Step 4.
unfoldable pub standard_sum : Hash → Hash → Hash
standard_sum h v = record {
  h0 = (v.h0 + h.h0) % 2 ^ 32;
  h1 = (v.h1 + h.h1) % 2 ^ 32;
  h2 = (v.h2 + h.h2) % 2 ^ 32;
  h3 = (v.h3 + h.h3) % 2 ^ 32;
  h4 = (v.h4 + h.h4) % 2 ^ 32;
  h5 = (v.h5 + h.h5) % 2 ^ 32;
  h6 = (v.h6 + h.h6) % 2 ^ 32;
  h7 = (v.h7 + h.h7) % 2 ^ 32;
}

unfoldable pub standard_block : Hash → Bytes → Hash
unfolding standard_rounds standard_word standard_sum
standard_block h block =
    standard_sum h
      (standard_rounds (λ t. get_or standard_constants t 0) (standard_word 48 block) h 64)

-- H of the first n blocks of the padded message.
unfoldable pub standard_chain : Bytes → ℕ → Hash
unfolding standard_block
standard_chain message zero = record {
  h0 = get_or standard_initial 0 0;
  h1 = get_or standard_initial 1 0;
  h2 = get_or standard_initial 2 0;
  h3 = get_or standard_initial 3 0;
  h4 = get_or standard_initial 4 0;
  h5 = get_or standard_initial 5 0;
  h6 = get_or standard_initial 6 0;
  h7 = get_or standard_initial 7 0;
}
standard_chain message (suc n) =
    standard_block (standard_chain message n) (take 64 (drop (64 * n) message))

unfoldable pub standard_hash : Bytes → Hash
unfolding standard_chain standard_padding
standard_hash input =
    let message = standard_padding input in standard_chain message (length message / 64)

-- A number in hexadecimal with `k` digits, and the digest as a text, from H_0 on.
abbrev pub nibble : ℕ → ℕ
nibble d = if leb d 9 then 48 + d else 87 + d

unfoldable pub hex_word : ℕ → ℕ → Bytes
hex_word zero n = []
hex_word (suc k) n = hex_word k (n / 16) ++ nibble (n % 16) ∷ []

unfoldable pub hex_text : Hash → Bytes
unfolding hex_word
hex_text h =
    hex_word 8 h.h0
    ++ hex_word 8 h.h1
    ++ hex_word 8 h.h2
    ++ hex_word 8 h.h3
    ++ hex_word 8 h.h4
    ++ hex_word 8 h.h5
    ++ hex_word 8 h.h6
    ++ hex_word 8 h.h7
