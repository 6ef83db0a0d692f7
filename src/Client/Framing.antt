-- ===== src/Client/Framing.antt =====
-- src/client/ftp_client.cpp, readReply: what a reply is by RFC 959, and what the client's tests of a
-- line make of it.
use nexus_ftp_engine.Prelude.{
  ℕ, ◌+◌, ◌≤◌, ◌≡◌, refl, ap, ◌∙◌, Bool, true, false, ◌&&◌, List, [], ◌∷◌, ◌++◌, arith, length,
  take, get_or, leb, ◌==◌, Bool-cases, inl, inr,
}
use nexus_ftp_engine.Bytes.{Bytes, bytes_eq}
use nexus_ftp_engine.Bytes.Laws.{Lacks, bytes_eq_refl, eq_of_bytes_eq}
use nexus_ftp_engine.Client.{is_last_line}
use nexus_ftp_engine.Session.Reply.{crlf}

-- A reply of one line, and one of several, of which the last one ends it.
pub data Reply : Type 0 where
  single : Bytes → Reply
  multi : (opening : Bytes) (middle : List Bytes) (last : Bytes) → Reply

abbrev pub lines_text : List Bytes → Bytes → Bytes
lines_text [] last = last
lines_text (l ∷ ls) last = l ++ (crlf ++ lines_text ls last)

-- The text that the server gives to sendReply, which appends the last end of line.
abbrev pub reply_text : Reply → Bytes
reply_text (single l) = l
reply_text (multi opening middle last) = opening ++ (crlf ++ lines_text middle last)

-- What the client's readReply returns of it.
abbrev pub first_line : Reply → Bytes
first_line (single l) = l
first_line (multi opening middle last) = opening

abbrev pub opens : Bytes → Bool
opens l = leb 4 (length l) && get_or l 3 0 == b'-'

abbrev pub IsLine : ℕ → Bytes → Type 0
IsLine fuel l = Lacks 10 l × Lacks 13 l × (length l + 2 ≤ fuel)

-- The line has the three bytes of a code and then the byte `mark`.
abbrev pub Marked : ℕ → ℕ → ℕ → ℕ → Bytes → Type 0
Marked c0 c1 c2 mark l = (text : Bytes) × (l ≡ c0 ∷ c1 ∷ c2 ∷ mark ∷ text)

abbrev pub AreInner : ℕ → ℕ → ℕ → ℕ → List Bytes → Type 0
AreInner fuel c0 c1 c2 [] = Unit {0}
AreInner fuel c0 c1 c2 (l ∷ ls) =
    (IsLine fuel l × ¬ (Marked c0 c1 c2 b' ' l)) × AreInner fuel c0 c1 c2 ls

-- RFC 959, section 4.2, for lines that fit the client's bound and have no ends of line within. A reply
-- of one line has no '-' behind three bytes. One of several opens with a code and '-' and ends with the
-- first line that begins with the same code and a space.
abbrev pub IsReply : ℕ → Reply → Type 0
IsReply fuel (single l) = IsLine fuel l × ((c0 c1 c2 : ℕ) → ¬ (Marked c0 c1 c2 b'-' l))
IsReply fuel (multi opening middle last) =
    (c0 : ℕ) × (c1 : ℕ) × (c2 : ℕ) × (IsLine fuel opening × Marked c0 c1 c2 b'-' opening)
    × AreInner fuel c0 c1 c2 middle
    × (IsLine fuel last × Marked c0 c1 c2 b' ' last)
    × (length middle + 1 ≤ fuel)

-- What the client's tests make of such lines.
pub opens-Marked : (c0 c1 c2 : ℕ) (l : Bytes) → Marked c0 c1 c2 b'-' l → opens l ≡ true
opens-Marked c0 c1 c2 l (text, e) = ap opens e ∙ ground arith

pub take-Marked :
    (c0 c1 c2 mark : ℕ) (l : Bytes) → Marked c0 c1 c2 mark l → take 3 l ≡ c0 ∷ c1 ∷ c2 ∷ []
take-Marked c0 c1 c2 mark l (text, e) = ap (take 3) e

pub opens-unmarked : (l : Bytes) → ((c0 c1 c2 : ℕ) → ¬ (Marked c0 c1 c2 b'-' l)) → opens l ≡ false
opens-unmarked [] k = refl
opens-unmarked (a ∷ []) k = refl
opens-unmarked (a ∷ b ∷ []) k = refl
opens-unmarked (a ∷ b ∷ c ∷ []) k = refl
opens-unmarked (a ∷ b ∷ c ∷ d ∷ text) k = elim (Bool-cases (d == b'-')) [
  | inl e ↦ absurd (k a b c (text, ap (λ x. a ∷ b ∷ c ∷ x ∷ text) (ground (arith, e))))
  | inr e ↦ ground (arith, e)
]

pub is_last_line-Marked :
    (c0 c1 c2 : ℕ) (l : Bytes) → Marked c0 c1 c2 b' ' l → is_last_line (c0 ∷ c1 ∷ c2 ∷ []) l ≡ true
is_last_line-Marked c0 c1 c2 l (text, e) =
    ap (is_last_line (c0 ∷ c1 ∷ c2 ∷ [])) e ∙ ground (arith, bytes_eq_refl (c0 ∷ c1 ∷ c2 ∷ []))

pub is_last_line-unmarked :
    (c0 c1 c2 : ℕ) (l : Bytes)
    → ¬ (Marked c0 c1 c2 b' ' l)
    → is_last_line (c0 ∷ c1 ∷ c2 ∷ []) l ≡ false
is_last_line-unmarked c0 c1 c2 [] k = refl
is_last_line-unmarked c0 c1 c2 (a ∷ []) k = refl
is_last_line-unmarked c0 c1 c2 (a ∷ b ∷ []) k = refl
is_last_line-unmarked c0 c1 c2 (a ∷ b ∷ c ∷ []) k = ground arith
is_last_line-unmarked c0 c1 c2 (a ∷ b ∷ c ∷ d ∷ text) k =
    elim (Bool-cases (bytes_eq (a ∷ b ∷ c ∷ []) (c0 ∷ c1 ∷ c2 ∷ []))) [
      | inr other ↦ ground (arith, other)
      | inl same ↦ elim (Bool-cases (d == b' ')) [
        | inr e ↦ ground (arith, e)
        | inl e ↦ absurd (
            k (
              text,
              ap (λ x. a ∷ b ∷ c ∷ x ∷ text) (ground (arith, e))
                  ∙ ap (λ x. x ++ b' ' ∷ text)
                      (eq_of_bytes_eq (a ∷ b ∷ c ∷ []) (c0 ∷ c1 ∷ c2 ∷ []) same),
            ))
      ]
    ]
