-- ===== src/Sha256/Texts.antt =====
-- src/common/sha256.h: the words that the code reads from a block and the digits that it prints, against
-- those of the standard.
use nexus_ftp_engine.Prelude.{
  ℕ, zero, suc, ◌+◌, ◌-◌, ◌*◌, ◌/◌, ◌%◌, ◌^◌, ◌<◌, ◌≤◌, ◌≡◌, refl, sym, ap, ◌∙◌, [], ◌∷◌, ◌++◌,
  append_assoc, arith, length, length-append, replicate, get_or, ltb, Bool-cases, inl, inr,
}
use nexus_ftp_engine.Bytes.{Bytes}
use nexus_ftp_engine.Sha256.{hash_hex}
use nexus_ftp_engine.Sha256.Rounds.{Hash, add_hash, block_words}
use nexus_ftp_engine.Sha256.Hex.{hex_digit, hex_digits, to_hex}
use nexus_ftp_engine.Sha256.Digest.{Fits}
use nexus_ftp_engine.Sha256.Standard.{word_at, standard_sum, nibble, hex_word, hex_text}

get_or-skip :
    (a b c d : ℕ) (s : Bytes) (m n : ℕ)
    → m ≡ suc (suc (suc (suc n)))
    → get_or (a ∷ b ∷ c ∷ d ∷ s) m 0 ≡ get_or s n 0
get_or-skip a b c d s m n e = ap (λ k. get_or (a ∷ b ∷ c ∷ d ∷ s) k 0) e

word_at-suc : (a b c d : ℕ) (s : Bytes) (t : ℕ) → word_at (a ∷ b ∷ c ∷ d ∷ s) (suc t) ≡ word_at s t
unfolding word_at
word_at-suc a b c d s t = rw (
  get_or-skip a b c d s (4 * suc t) (4 * t) (omega arith),
  get_or-skip a b c d s (4 * suc t + 1) (4 * t + 1) (omega arith),
  get_or-skip a b c d s (4 * suc t + 2) (4 * t + 2) (omega arith),
  get_or-skip a b c d s (4 * suc t + 3) (4 * t + 3) (omega arith),
)

word_at-nil : (t : ℕ) → word_at [] t ≡ 0
unfolding word_at
word_at-nil t = refl

-- The list of the words, against the words at their places.
pub block_words-word_at :
    (n : ℕ) (block : Bytes) (t : ℕ)
    → length block ≡ n * 4
    → get_or (block_words block) t 0 ≡ word_at block t
unfolding block_words word_at
block_words-word_at n [] t e = sym (word_at-nil t)
block_words-word_at zero (a ∷ s) t e = absurd (omega (arith, e))
block_words-word_at (suc n) (a ∷ []) t e = absurd (omega (arith, e))
block_words-word_at (suc n) (a ∷ b ∷ []) t e = absurd (omega (arith, e))
block_words-word_at (suc n) (a ∷ b ∷ c ∷ []) t e = absurd (omega (arith, e))
block_words-word_at (suc n) (a ∷ b ∷ c ∷ d ∷ s) zero e = refl
block_words-word_at (suc n) (a ∷ b ∷ c ∷ d ∷ s) (suc t) e =
    block_words-word_at n s t (omega (arith, e)) ∙ sym (word_at-suc a b c d s t)

sum_comm : (a b : ℕ) → (a + b) % 2 ^ 32 ≡ (b + a) % 2 ^ 32
sum_comm a b = omega arith

pub add_hash-standard_sum : (s v : Hash) → add_hash s v ≡ standard_sum s v
unfolding add_hash standard_sum
add_hash-standard_sum s v = rw (
  sum_comm s.h0 v.h0,
  sum_comm s.h1 v.h1,
  sum_comm s.h2 v.h2,
  sum_comm s.h3 v.h3,
  sum_comm s.h4 v.h4,
  sum_comm s.h5 v.h5,
  sum_comm s.h6 v.h6,
  sum_comm s.h7 v.h7,
)

hex_digit-nibble : (d : ℕ) → d < 16 → hex_digit b'a' d ≡ nibble d
unfolding hex_digit
hex_digit-nibble d h = ground arith

replicate_last : (k : ℕ) → replicate {A = ℕ} k 48 ++ 48 ∷ [] ≡ replicate (suc k) b'0'
replicate_last zero = refl
replicate_last (suc k) = ap (λ s. b'0' ∷ s) (replicate_last k)

hex_word-zero : (k : ℕ) → hex_word k 0 ≡ replicate k b'0'
unfolding hex_word
hex_word-zero zero = refl
hex_word-zero (suc k) = ap (λ s. s ++ b'0' ∷ []) (hex_word-zero k) ∙ replicate_last k

-- Numbers below `m`, printed and filled up with zeros to `k` digits.
abbrev Fills : ℕ → ℕ → ℕ → Type 0
Fills fuel k m =
    (n : ℕ)
    → n < m
    → replicate (k - length (hex_digits b'a' fuel n)) b'0' ++ hex_digits b'a' fuel n ≡ hex_word k n

Fills-digit :
    (fuel k n : ℕ) → n < 16 → replicate k b'0' ++ hex_digits b'a' (suc fuel) n ≡ hex_word (suc k) n
unfolding hex_digits hex_word
Fills-digit fuel k n h =
    let top : n / 16 ≡ 0 = omega (arith, h) in
    let last : n ≡ n % 16 = omega (arith, h) in
    ap (λ s. replicate k b'0' ++ s) (ground (arith, h))
    ∙ ap (λ d. replicate k b'0' ++ d ∷ []) (hex_digit-nibble n h ∙ ap nibble last)
    ∙ ap (λ s. s ++ nibble (n % 16) ∷ []) (sym (ap (hex_word k) top ∙ hex_word-zero k))

length-digit : (fuel n : ℕ) → n < 16 → length (hex_digits b'a' (suc fuel) n) ≡ 1
unfolding hex_digits
length-digit fuel n h = ground (arith, h)

Fills-low :
    (fuel k n : ℕ)
    → n < 16
    → replicate (suc k - length (hex_digits b'a' (suc fuel) n)) b'0' ++ hex_digits b'a' (suc fuel) n
      ≡ hex_word (suc k) n
Fills-low fuel k n h =
    ap (λ j. replicate j b'0' ++ hex_digits b'a' (suc fuel) n)
      (omega (arith, length-digit fuel n h))
    ∙ Fills-digit fuel k n h

Fills-one : (fuel : ℕ) → Fills (suc fuel) 1 16
Fills-one fuel n h = Fills-low fuel 0 n h

more_digits :
    (fuel n : ℕ)
    → 16 ≤ n
    → hex_digits b'a' (suc fuel) n ≡ hex_digits b'a' fuel (n / 16) ++ hex_digit b'a' (n % 16) ∷ []
unfolding hex_digits
more_digits fuel n h = ground (arith, h)

Fills-step : (fuel k m : ℕ) → Fills fuel k m → Fills (suc fuel) (suc k) (16 * m)
unfolding hex_word
Fills-step fuel k m fills n h = elim (Bool-cases (ltb n 16)) [
  | inl low ↦ Fills-low fuel k n (ground (arith, low))
  | inr high ↦
      let rest = hex_digits b'a' fuel (n / 16) in
      let last = hex_digit b'a' (n % 16) ∷ [] in
      ap (λ s. replicate (suc k - length s) b'0' ++ s) (more_digits fuel n (ground (arith, high)))
      ∙ ap (λ j. replicate j b'0' ++ (rest ++ last)) (omega (arith, length-append rest last))
      ∙ sym (append_assoc (replicate (k - length rest) b'0') rest last)
      ∙ ap (λ s. s ++ last) (fills (n / 16) (omega (arith, h)))
      ∙ ap (λ d. hex_word k (n / 16) ++ d ∷ []) (hex_digit-nibble (n % 16) (omega arith))
]

Fills-word : Fills 16 8 (2 ^ 32)
Fills-word = Fills-step 15 7 (2 ^ 28) (
    Fills-step 14 6 (2 ^ 24) (
      Fills-step 13 5 (2 ^ 20) (
        Fills-step 12 4 (2 ^ 16)
          (Fills-step 11 3 4096 (Fills-step 10 2 256 (Fills-step 9 1 16 (Fills-one 8)))))))

to_hex-hex_word : (n : ℕ) → n < 2 ^ 32 → to_hex 8 n ≡ hex_word 8 n
unfolding to_hex
to_hex-hex_word n h = Fills-word n h

pub hash_hex-hex_text : (st : Hash) → Fits st → hash_hex st ≡ hex_text st
unfolding hash_hex hex_text
hash_hex-hex_text st (f0, f1, f2, f3, f4, f5, f6, f7) = rw (
  to_hex-hex_word st.h0 f0,
  to_hex-hex_word st.h1 f1,
  to_hex-hex_word st.h2 f2,
  to_hex-hex_word st.h3 f3,
  to_hex-hex_word st.h4 f4,
  to_hex-hex_word st.h5 f5,
  to_hex-hex_word st.h6 f6,
  to_hex-hex_word st.h7 f7,
)
