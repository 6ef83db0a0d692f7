-- ===== src/Bytes/Laws.antt =====
-- Laws of the operations on byte strings.
use nexus_ftp_engine.Prelude.{
  ℕ, suc, ◌≡◌, ◌≢◌, ◌↔◌, refl, true, none, some, [], ◌∷◌, ◌++◌, arith, length, drop,
}
use nexus_ftp_engine.Bytes.{Bytes, bytes_eq, find_if, find}

pub bytes_eq_refl : (s : Bytes) → bytes_eq s s ≡ true
unfolding bytes_eq
bytes_eq_refl [] = refl
bytes_eq_refl (c ∷ s) = ground (arith, bytes_eq_refl s)

pub eq_of_bytes_eq : (s t : Bytes) → bytes_eq s t ≡ true → s ≡ t
unfolding bytes_eq
eq_of_bytes_eq [] [] h = refl
eq_of_bytes_eq [] (d ∷ t) h = cc
eq_of_bytes_eq (c ∷ s) [] h = cc
eq_of_bytes_eq (c ∷ s) (d ∷ t) h = ground (arith, eq_of_bytes_eq s t)

pub bytes_eq_iff : (s t : Bytes) → (bytes_eq s t ≡ true) ↔ (s ≡ t)
bytes_eq_iff s t = (eq_of_bytes_eq s t, λ e. rw e (bytes_eq_refl t))

-- No byte of the text is `c`.
abbrev pub Lacks : ℕ → Bytes → Type 0
Lacks c [] = Unit {0}
Lacks c (d ∷ s) = (d ≢ c) × Lacks c s

pub find-append : (c : ℕ) (s t : Bytes) → Lacks c s → find c (s ++ c ∷ t) ≡ some (length s)
unfolding find_if
find-append c [] t h = ground arith
find-append c (d ∷ s) t h = ground (arith, find-append c s t h.1)

pub find-none : (c : ℕ) (s : Bytes) → Lacks c s → find c s ≡ none
unfolding find_if
find-none c [] h = refl
find-none c (d ∷ s) h = ground (arith, find-none c s h.1)

pub Lacks-append : (c : ℕ) (s t : Bytes) → Lacks c s → Lacks c t → Lacks c (s ++ t)
Lacks-append c [] t h k = k
Lacks-append c (d ∷ s) t h k = (h.0, Lacks-append c s t h.1 k)

pub drop-suc-append : (s : Bytes) (c : ℕ) (t : Bytes) → drop (suc (length s)) (s ++ (c ∷ t)) ≡ t
drop-suc-append [] c t = refl
drop-suc-append (d ∷ s) c t = drop-suc-append s c t
