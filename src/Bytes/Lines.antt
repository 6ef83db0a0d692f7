-- ===== src/Bytes/Lines.antt =====
-- std::getline over a whole text, and the stripping of a trailing '\r' that both file readers do.
use nexus_ftp_engine.Prelude.{
  ℕ, ◌≡◌, refl, Bool, not, ◌&&◌, List, [], ◌∷◌, ◌++◌, arith, ◌==◌, if◌then◌else◌,
}
use nexus_ftp_engine.Bytes.{Bytes, is_empty, back, pop_back}
use nexus_ftp_engine.Bytes.Laws.{Lacks}

abbrev cons_line : ℕ → List Bytes → List Bytes
cons_line c [] = (c ∷ []) ∷ []
cons_line c (l ∷ ls) = (c ∷ l) ∷ ls

-- The lines of a text; what stands after the last '\n' is a line unless it is empty.
unfoldable pub get_lines : Bytes → List Bytes
get_lines [] = []
get_lines (c ∷ s) = if c == 10 then [] ∷ get_lines s else cons_line c (get_lines s)

unfoldable pub strip_cr : Bytes → Bytes
strip_cr line = if not (is_empty line) && back line == 13 then pop_back line else line

-- A text that begins with a line and its '\n' has that line first.
pub get_lines-append : (l s : Bytes) → Lacks 10 l → get_lines (l ++ 10 ∷ s) ≡ l ∷ get_lines s
unfolding get_lines
get_lines-append [] s h = refl
get_lines-append (c ∷ l) s h = ground (arith, get_lines-append l s h.1)

back-Lacks : (s : Bytes) → Lacks 13 s → is_empty s ≡ Bool.false → (back s == 13) ≡ Bool.false
unfolding back
back-Lacks [] h e = ground arith
back-Lacks (c ∷ []) h e = ground arith
back-Lacks (c ∷ d ∷ s) h e = back-Lacks (d ∷ s) h.1 refl

-- A line with no '\r' is left as it is.
pub strip_cr-id : (s : Bytes) → Lacks 13 s → strip_cr s ≡ s
unfolding strip_cr
strip_cr-id s h = ground (arith, back-Lacks s h)
