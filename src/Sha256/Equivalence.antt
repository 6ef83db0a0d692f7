-- ===== src/Sha256/Equivalence.antt =====
-- src/common/sha256.h: the whole computation against that of the standard.
use nexus_ftp_engine.Prelude.{
  ℕ, zero, suc, ◌+◌, ◌-◌, ◌*◌, ◌/◌, ◌^◌, ◌<◌, ◌≤◌, ◌≡◌, refl, sym, ap, ◌∙◌, [], ◌∷◌, arith, length,
  get_or, take, drop, ltb, Bool-cases, inl, inr,
}
use nexus_ftp_engine.Bytes.{Bytes}
use nexus_ftp_engine.Sha256.{process, hash_words, sha256}
use nexus_ftp_engine.Sha256.Rounds.{Hash, k256, extend_words, block_words, process_block}
use nexus_ftp_engine.Sha256.Padding.{padded}
use nexus_ftp_engine.Sha256.Schedule.{
  IsSchedule, schedule_word-agree, extend_words-IsSchedule, length-block_words, length-extend_words,
}
use nexus_ftp_engine.Sha256.Digest.{length-padded, hash_words-Fits}
use nexus_ftp_engine.Sha256.Standard.{
  standard_constants, standard_word, standard_rounds, standard_block, standard_chain, standard_hash,
  standard_sum, hex_text,
}
use nexus_ftp_engine.Sha256.Texts.{block_words-word_at, add_hash-standard_sum, hash_hex-hex_text}
use nexus_ftp_engine.Sha256.Roots.{
  standard_constants-k256, standard_chain-zero, padded-standard_padding, compress-standard_rounds,
  standard_rounds-agree,
}

-- A schedule is the recurrence, to the depth that its index needs.
IsSchedule-standard_word :
    (block : Bytes) (w : ℕ → ℕ)
    → length block ≡ 64
    → IsSchedule (block_words block) w
    → (fuel t : ℕ) → t < 64
    → t < 16 + fuel
    → w t ≡ standard_word fuel block t
unfolding standard_word
IsSchedule-standard_word block w e s zero t h k =
    s.first t (omega (arith, k)) ∙ block_words-word_at 16 block t (omega (arith, e))
IsSchedule-standard_word block w e s (suc fuel) t h k = elim (Bool-cases (ltb t 16)) [
  | inl low ↦
      rw low (s.first t (ground (arith, low)) ∙ block_words-word_at 16 block t (omega (arith, e)))
  | inr high ↦ rw high (
      s.further t (ground (arith, high)) h
      ∙ schedule_word-agree w (standard_word fuel block) t (ground (arith, high)) (λ r less.
        IsSchedule-standard_word block w e s fuel r (omega (arith, h, less))
          (omega (arith, k, less))))
]

process_block-standard_block :
    (block : Bytes) (h : Hash) → length block ≡ 64 → process_block block h ≡ standard_block h block
unfolding process_block standard_block
process_block-standard_block block h e =
    add_hash-standard_sum h _
    ∙ ap (standard_sum h) (
        compress-standard_rounds k256 (extend_words 48 16 (block_words block)) h (
          sym (
            length-extend_words 48 16 (block_words block)
              (length-block_words 16 block (omega (arith, e)))))
        ∙ ap
            (λ ks.
              standard_rounds (λ t. get_or ks t 0)
                (λ t. get_or (extend_words 48 16 (block_words block)) t 0) h 64)
            (sym standard_constants-k256)
        ∙ standard_rounds-agree (λ t. get_or standard_constants t 0)
            (λ t. get_or (extend_words 48 16 (block_words block)) t 0) (standard_word 48 block) h 64
            (λ t less.
              IsSchedule-standard_word block
                (λ s. get_or (extend_words 48 16 (block_words block)) s 0) e
                (extend_words-IsSchedule block e) 48 t less less))

drop-nil : (n : ℕ) → drop {A = ℕ} n [] ≡ []
drop-nil zero = refl
drop-nil (suc n) = refl

drop-drop : (a b : ℕ) (s : Bytes) → drop b (drop a s) ≡ drop (a + b) s
drop-drop zero b s = ap (λ k. drop k s) (omega arith)
drop-drop (suc a) b [] = drop-nil b ∙ sym (drop-nil (suc a + b))
drop-drop (suc a) b (c ∷ s) =
    let e : suc (a + b) ≡ suc a + b = omega arith in drop-drop a b s ∙ ap (λ k. drop k (c ∷ s)) e

length-drop : (n : ℕ) (s : Bytes) → length (drop n s) ≡ length s - n
length-drop zero s = omega arith
length-drop (suc n) [] = omega arith
length-drop (suc n) (c ∷ s) = omega (arith, length-drop n s)

length-take : (n : ℕ) (s : Bytes) → n ≤ length s → length (take n s) ≡ n
length-take zero s h = refl
length-take (suc n) [] h = absurd (omega (arith, h))
length-take (suc n) (c ∷ s) h = ap suc (length-take n s (omega (arith, h)))

process-empty : (fuel : ℕ) (s : Bytes) (h : Hash) → length s ≡ 0 → process fuel s h ≡ h
unfolding process
process-empty zero s h e = refl
process-empty (suc fuel) [] h e = refl
process-empty (suc fuel) (c ∷ s) h e = absurd (omega (arith, e))

process-more :
    (fuel : ℕ) (s : Bytes) (h : Hash)
    → 0 < length s
    → process (suc fuel) s h ≡ process fuel (drop 64 s) (process_block (take 64 s) h)
unfolding process
process-more fuel [] h e = absurd (omega (arith, e))
process-more fuel (c ∷ s) h e = refl

-- The loop from block `i` on, with `n` blocks to go.
process-standard_chain :
    (message : Bytes) (n i : ℕ)
    → length message ≡ 64 * (i + n)
    → process (suc n) (drop (64 * i) message) (standard_chain message i)
      ≡ standard_chain message (i + n)
unfolding standard_chain
process-standard_chain message zero i e =
    process-empty 1 (drop (64 * i) message) (standard_chain message i)
      (omega (arith, e, length-drop (64 * i) message))
    ∙ ap (standard_chain message) (omega arith)
process-standard_chain message (suc n) i e =
    process-more (suc n) (drop (64 * i) message) (standard_chain message i)
      (omega (arith, e, length-drop (64 * i) message))
    ∙ ap (λ h. process (suc n) (drop 64 (drop (64 * i) message)) h)
        (process_block-standard_block (take 64 (drop (64 * i) message)) (standard_chain message i)
          (length-take 64 (drop (64 * i) message) (omega (arith, e, length-drop (64 * i) message))))
    ∙ ap (λ s. process (suc n) s (standard_chain message (suc i)))
        (drop-drop (64 * i) 64 message ∙ ap (λ k. drop k message) (omega arith))
    ∙ process-standard_chain message n (suc i) (omega (arith, e))
    ∙ ap (standard_chain message) (omega arith)

hash_words-standard_hash :
    (input : Bytes) → length input * 8 < 2 ^ 64 → hash_words input ≡ standard_hash input
unfolding hash_words standard_hash
hash_words-standard_hash input h =
    ap (process (suc (length (padded input) / 64)) (padded input))
      (sym (standard_chain-zero (padded input)))
    ∙ process-standard_chain (padded input) (length (padded input) / 64) 0
        (omega (arith, length-padded input))
    ∙ ap (standard_chain (padded input)) (omega arith)
    ∙ ap (λ m. standard_chain m (length m / 64)) (padded-standard_padding input h)

-- For an input of less than 2^64 bits, the code's SHA-256 is the digest that FIPS 180-4 defines, each of
-- its eight words as eight hexadecimal digits: the standard's padding, its words of a block, its
-- recurrence for the schedule, its rotations and its rounds with the two sums modulo 2^32, its chain
-- over the blocks, and its constants, the first 32 bits of the fractional parts of the roots of the
-- first primes.
pub sha256-standard_hash :
    (input : Bytes) → length input * 8 < 2 ^ 64 → sha256 input ≡ hex_text (standard_hash input)
unfolding sha256
sha256-standard_hash input h =
    hash_hex-hex_text (hash_words input) (hash_words-Fits input)
    ∙ ap hex_text (hash_words-standard_hash input h)
