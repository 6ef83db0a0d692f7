-- ===== src/Sha256/Roots.antt =====
-- src/common/sha256.h: the code's constants, padding and rounds against those of the standard.
use nexus_ftp_engine.Prelude.{
  ℕ, zero, suc, ◌+◌, ◌-◌, ◌*◌, ◌%◌, ◌^◌, ◌<◌, ◌≤◌, ◌≡◌, refl, sym, ap, ◌∙◌, List, [], ◌∷◌, ◌++◌,
  append_assoc, append-nil, arith, length, length-append, replicate, get_or, ◌==◌, Bool-cases, inl,
  inr,
}
use nexus_ftp_engine.Bytes.{Bytes}
use nexus_ftp_engine.Sha256.Rounds.{Hash, add32, rotr32, k256, initial_hash, round, compress}
use nexus_ftp_engine.Sha256.Schedule.{rotate_right}
use nexus_ftp_engine.Sha256.Padding.{pad_zeros, length_bytes, padded}
use nexus_ftp_engine.Sha256.Standard.{
  standard_constants, standard_initial, standard_padding, standard_round, standard_rounds,
  standard_chain, big_sigma0, big_sigma1, choice, majority, big_endian,
}

pub standard_constants-k256 : standard_constants ≡ k256
unfolding standard_constants k256
standard_constants-k256 = refl

pub standard_chain-zero : (message : Bytes) → standard_chain message 0 ≡ initial_hash
unfolding standard_chain standard_initial initial_hash
standard_chain-zero message = refl

-- The loop appends as many zeros as are missing.
pad_zeros-replicate :
    (fuel n : ℕ) (msg : Bytes)
    → n < 64
    → n ≤ fuel
    → (length msg + n) % 64 ≡ 56
    → pad_zeros fuel msg ≡ msg ++ replicate n 0
unfolding pad_zeros
pad_zeros-replicate zero zero msg h k e = sym (append-nil msg)
pad_zeros-replicate zero (suc n) msg h k e = absurd (omega (arith, k))
pad_zeros-replicate (suc fuel) zero msg h k e = ground (arith, append-nil msg, e)
pad_zeros-replicate (suc fuel) (suc n) msg h k e = elim (Bool-cases (length msg % 64 == 56)) [
  | inl full ↦ absurd (ground (arith, full, h, e))
  | inr some_left ↦ rw some_left (
      pad_zeros-replicate fuel n (msg ++ 0 ∷ []) (omega (arith, h)) (omega (arith, k))
        (omega (arith, e, length-append msg (0 ∷ [])))
      ∙ append_assoc msg (0 ∷ []) (replicate n 0))
]

length_bytes-big_endian :
    (n : ℕ) → n * 8 < 2 ^ 64 → length_bytes (n * 8 % 2 ^ 64) ≡ big_endian 8 (8 * n)
unfolding length_bytes big_endian
length_bytes-big_endian n h = ground (arith, h)

append-three : (input z b : Bytes) → ((input ++ 128 ∷ []) ++ z) ++ b ≡ (input ++ 128 ∷ z) ++ b
append-three input z b = ap (λ s. s ++ b) (append_assoc input (128 ∷ []) z)

zeros_enough :
    (input : Bytes) → (length (input ++ 128 ∷ []) + (56 + 63 - length input % 64) % 64) % 64 ≡ 56
zeros_enough input = omega (arith, length-append input (128 ∷ []))

pub padded-standard_padding :
    (input : Bytes) → length input * 8 < 2 ^ 64 → padded input ≡ standard_padding input
unfolding padded standard_padding
padded-standard_padding input h =
    rw
      (
        pad_zeros-replicate 64 ((56 + 63 - length input % 64) % 64) (input ++ 128 ∷ [])
            (omega arith) (omega arith) (zeros_enough input),
        length_bytes-big_endian (length input) h,
      )
      (append-three input (replicate ((56 + 63 - length input % 64) % 64) 0)
        (big_endian 8 (8 * length input)))

add32-five :
    (a b c d e : ℕ) → add32 (add32 (add32 (add32 a b) c) d) e ≡ (a + b + c + d + e) % 2 ^ 32
add32-five a b c d e = omega arith

-- The new variables for the two sums.
abbrev shift_in : Hash → ℕ → ℕ → Hash
shift_in v t2 t1 = record {
  h0 = add32 t1 t2;
  h1 = v.h0;
  h2 = v.h1;
  h3 = v.h2;
  h4 = add32 v.h3 t1;
  h5 = v.h4;
  h6 = v.h5;
  h7 = v.h6;
}

round-standard_round : (v : Hash) (k w : ℕ) → round v k w ≡ standard_round k w v
unfolding round rotr32 standard_round big_sigma0 big_sigma1 choice majority rotate_right
round-standard_round v k w =
    ap (shift_in v ((big_sigma0 v.h0 + majority v.h0 v.h1 v.h2) % 2 ^ 32))
      (add32-five v.h7 (big_sigma1 v.h4) (choice v.h4 v.h5 v.h6) k w)

-- The rounds counted from the first one on.
standard_rounds-suc :
    (k w : ℕ → ℕ) (v : Hash) (n : ℕ)
    → standard_rounds k w v (suc n)
      ≡ standard_rounds (λ t. k (suc t)) (λ t. w (suc t)) (standard_round (k 0) (w 0) v) n
unfolding standard_rounds
standard_rounds-suc k w v zero = refl
standard_rounds-suc k w v (suc n) =
    ap (standard_round (k (suc n)) (w (suc n))) (standard_rounds-suc k w v n)

pub compress-standard_rounds :
    (ks ws : List ℕ) (v : Hash)
    → length ks ≡ length ws
    → compress ks ws v ≡ standard_rounds (λ t. get_or ks t 0) (λ t. get_or ws t 0) v (length ks)
unfolding compress standard_rounds
compress-standard_rounds [] ws v e = refl
compress-standard_rounds (k ∷ ks) [] v e = absurd (omega (arith, e))
compress-standard_rounds (k ∷ ks) (w ∷ ws) v e =
    compress-standard_rounds ks ws (round v k w) (omega (arith, e))
    ∙ ap (λ u. standard_rounds (λ t. get_or ks t 0) (λ t. get_or ws t 0) u (length ks))
        (round-standard_round v k w)
    ∙ sym (standard_rounds-suc (λ t. get_or (k ∷ ks) t 0) (λ t. get_or (w ∷ ws) t 0) v (length ks))

-- Only the words before the last round count.
pub standard_rounds-agree :
    (k v w : ℕ → ℕ) (h : Hash) (n : ℕ)
    → ((t : ℕ) → t < n → v t ≡ w t)
    → standard_rounds k v h n ≡ standard_rounds k w h n
unfolding standard_rounds
standard_rounds-agree k v w h zero same = refl
standard_rounds-agree k v w h (suc n) same =
    ap (λ x. standard_round (k n) x (standard_rounds k v h n)) (same n (omega arith))
    ∙ ap (standard_round (k n) (w n))
        (standard_rounds-agree k v w h n (λ t less. same t (omega (arith, less))))
