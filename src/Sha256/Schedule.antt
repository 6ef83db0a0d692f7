-- ===== src/Sha256/Schedule.antt =====
-- src/common/sha256.h: the message schedule against the recurrence of FIPS 180-4, section 6.2.2.
use Prim.Native.Nat.{bit_or, bit_xor}
use nexus_ftp_engine.Prelude.{
  ℕ, zero, suc, ◌+◌, ◌-◌, ◌*◌, ◌/◌, ◌%◌, ◌^◌, ◌<◌, ◌≤◌, ◌≡◌, refl, sym, ap, ◌∙◌, subst, List, [],
  ◌∷◌, ◌++◌, arith, length, length-append, get_or, inl, inr, same_or_other,
}
use nexus_ftp_engine.Bytes.{Bytes}
use nexus_ftp_engine.Sha256.Rounds.{rotr32, add32, block_words, extend_words}

-- ROTR of the standard, section 3.2, on words of 32 bits.
unfoldable pub rotate_right : ℕ → ℕ → ℕ
rotate_right n x = bit_or (x / 2 ^ n) (x * 2 ^ (32 - n) % 2 ^ 32)

-- The functions sigma0 and sigma1 of the standard.
unfoldable pub small_sigma0 : ℕ → ℕ
unfolding rotate_right
small_sigma0 x = bit_xor (bit_xor (rotate_right 7 x) (rotate_right 18 x)) (x / 2 ^ 3)

unfoldable pub small_sigma1 : ℕ → ℕ
unfolding rotate_right
small_sigma1 x = bit_xor (bit_xor (rotate_right 17 x) (rotate_right 19 x)) (x / 2 ^ 10)

-- W_t of the standard, from the words before it: one sum modulo 2^32.
unfoldable pub schedule_word : (ℕ → ℕ) → ℕ → ℕ
unfolding small_sigma0 small_sigma1
schedule_word w t =
    (small_sigma1 (w (t - 2)) + w (t - 7) + small_sigma0 (w (t - 15)) + w (t - 16)) % 2 ^ 32

-- The schedule of a block: its words first, and then those of the recurrence.
pub record IsSchedule (block : List ℕ) (w : ℕ → ℕ) : Type 0 where
  pub first : (t : ℕ) → t < 16 → w t ≡ get_or block t 0
  pub further : (t : ℕ) → 16 ≤ t → t < 64 → w t ≡ schedule_word w t

get_or-append : (xs ys : List ℕ) (t : ℕ) → t < length xs → get_or (xs ++ ys) t 0 ≡ get_or xs t 0
get_or-append [] ys t h = absurd (omega (arith, h))
get_or-append (x ∷ xs) ys zero h = refl
get_or-append (x ∷ xs) ys (suc t) h = get_or-append xs ys t (omega (arith, h))

get_or-append_last : (xs : List ℕ) (y : ℕ) → get_or (xs ++ y ∷ []) (length xs) 0 ≡ y
get_or-append_last [] y = refl
get_or-append_last (x ∷ xs) y = get_or-append_last xs y

-- The word that the loop appends at `i`.
next_word : ℕ → List ℕ → ℕ
next_word i w =
    add32
      (add32 (add32 (get_or w (i - 16) 0) (small_sigma0 (get_or w (i - 15) 0)))
        (get_or w (i - 7) 0))
      (small_sigma1 (get_or w (i - 2) 0))

extend_words-suc :
    (n i : ℕ) (w : List ℕ)
    → extend_words (suc n) i w ≡ extend_words n (i + 1) (w ++ next_word i w ∷ [])
unfolding extend_words next_word small_sigma0 small_sigma1 rotate_right rotr32
extend_words-suc n i w = refl

next_word-schedule_word : (i : ℕ) (w : List ℕ) → next_word i w ≡ schedule_word (λ t. get_or w t 0) i
unfolding next_word schedule_word
next_word-schedule_word i w = omega arith

length-next : (w : List ℕ) (x i : ℕ) → length w ≡ i → length (w ++ x ∷ []) ≡ i + 1
length-next w x i e = omega (arith, length-append w (x ∷ []), e)

pub length-extend_words :
    (n i : ℕ) (w : List ℕ) → length w ≡ i → length (extend_words n i w) ≡ i + n
unfolding extend_words
length-extend_words zero i w e = omega (arith, e)
length-extend_words (suc n) i w e =
    ap length (extend_words-suc n i w)
    ∙ length-extend_words n (i + 1) (w ++ next_word i w ∷ []) (length-next w (next_word i w) i e)
    ∙ omega arith

-- The loop leaves the words that are there.
extend_words-before :
    (n i t : ℕ) (w : List ℕ) → length w ≡ i → t < i → get_or (extend_words n i w) t 0 ≡ get_or w t 0
unfolding extend_words
extend_words-before zero i t w e h = refl
extend_words-before (suc n) i t w e h =
    ap (λ ws. get_or ws t 0) (extend_words-suc n i w)
    ∙ extend_words-before n (i + 1) t (w ++ next_word i w ∷ []) (length-next w (next_word i w) i e)
        (omega (arith, h))
    ∙ get_or-append w (next_word i w ∷ []) t (omega (arith, h, e))

-- The recurrence looks at four words, which two sequences may share.
pub schedule_word-agree :
    (v w : ℕ → ℕ) (t : ℕ)
    → 16 ≤ t
    → ((s : ℕ) → s < t → v s ≡ w s)
    → schedule_word v t ≡ schedule_word w t
unfolding schedule_word
schedule_word-agree v w t h same = rw (
  same (t - 2) (omega (arith, h)),
  same (t - 7) (omega (arith, h)),
  same (t - 15) (omega (arith, h)),
  same (t - 16) (omega (arith, h)),
)

-- The word at `i` itself.
extend_words-at :
    (n i : ℕ) (w : List ℕ)
    → length w ≡ i
    → 16 ≤ i
    → get_or (extend_words (suc n) i w) i 0
      ≡ schedule_word (λ s. get_or (extend_words (suc n) i w) s 0) i
extend_words-at n i w e low =
    ap (λ ws. get_or ws i 0) (extend_words-suc n i w)
    ∙ extend_words-before n (i + 1) i (w ++ next_word i w ∷ []) (length-next w (next_word i w) i e)
        (omega arith)
    ∙ subst (λ j. get_or (w ++ next_word i w ∷ []) j 0 ≡ next_word i w) e
        (get_or-append_last w (next_word i w))
    ∙ next_word-schedule_word i w
    ∙ schedule_word-agree (λ s. get_or w s 0) (λ s. get_or (extend_words (suc n) i w) s 0) i low
        (λ s h. sym (extend_words-before (suc n) i s w e h))

extend_words-from :
    (n i t : ℕ) (w : List ℕ)
    → length w ≡ i
    → 16 ≤ i
    → i ≤ t
    → t < i + n
    → get_or (extend_words n i w) t 0 ≡ schedule_word (λ s. get_or (extend_words n i w) s 0) t
extend_words-from zero i t w e low h k = absurd (omega (arith, h, k))
extend_words-from (suc n) i t w e low h k = elim (same_or_other i t) [
  | inl here ↦
      subst
        (λ j.
          get_or (extend_words (suc n) i w) j 0
          ≡ schedule_word (λ s. get_or (extend_words (suc n) i w) s 0) j)
        here (extend_words-at n i w e low)
  | inr later ↦
      subst (λ ws. get_or ws t 0 ≡ schedule_word (λ s. get_or ws s 0) t)
        (sym (extend_words-suc n i w))
        (extend_words-from n (i + 1) t (w ++ next_word i w ∷ []) (length-next w (next_word i w) i e)
          (omega (arith, low)) (omega (arith, h, later)) (omega (arith, k)))
]

pub length-block_words :
    (n : ℕ) (block : Bytes) → length block ≡ n * 4 → length (block_words block) ≡ n
unfolding block_words
length-block_words zero [] e = refl
length-block_words zero (a ∷ b) e = absurd (omega (arith, e))
length-block_words (suc n) [] e = absurd (omega (arith, e))
length-block_words (suc n) (a ∷ []) e = absurd (omega (arith, e))
length-block_words (suc n) (a ∷ b ∷ []) e = absurd (omega (arith, e))
length-block_words (suc n) (a ∷ b ∷ c ∷ []) e = absurd (omega (arith, e))
length-block_words (suc n) (a ∷ b ∷ c ∷ d ∷ rest) e =
    ap suc (length-block_words n rest (omega (arith, e)))

-- The schedule that the code makes of a block of 64 bytes, its sixteen words and the words of the
-- loop, is the schedule of FIPS 180-4 for these sixteen words.
pub extend_words-IsSchedule :
    (block : Bytes)
    → length block ≡ 64
    → IsSchedule (block_words block) (λ t. get_or (extend_words 48 16 (block_words block)) t 0)
extend_words-IsSchedule block e = record {
  first = λ t h. extend_words-before 48 16 t (block_words block) sixteen h;
  further = λ t low h.
      extend_words-from 48 16 t (block_words block) sixteen (omega arith) low (omega (arith, h));
}
  where
    sixteen : length (block_words block) ≡ 16
    sixteen = length-block_words 16 block (omega (arith, e))
