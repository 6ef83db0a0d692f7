-- ===== src/Bytes.antt =====
-- `std::string` as a list of bytes, with the operations of the C++ standard library that the
-- program calls on it.
pub mod Decimal
pub mod Laws
pub mod Assoc
pub mod Lines
use Prim.Native.Char.{code}
use nexus_ftp_engine.Prelude.{
  ℕ, zero, suc, ◌+◌, ◌-◌, String, Bool, true, false, not, ◌&&◌, ◌||◌, Option, none, some, List, [],
  ◌∷◌, ◌++◌, map, length, take, drop, ltb, leb, ◌==◌, if◌then◌else◌,
}

abbrev pub Bytes : Type 0
Bytes = List ℕ

-- A literal of the source: the code points of an ASCII text.
unfoldable pub bytes : String → Bytes
bytes String.[] = []
bytes (String.◌∷◌ c s) = code c ∷ bytes s

-- s == t
unfoldable pub bytes_eq : Bytes → Bytes → Bool
bytes_eq [] [] = true
bytes_eq [] (d ∷ t) = false
bytes_eq (c ∷ s) [] = false
bytes_eq (c ∷ s) (d ∷ t) = c == d && bytes_eq s t

-- s.empty()
abbrev pub is_empty : Bytes → Bool
is_empty [] = true
is_empty (c ∷ s) = false

-- s.find(c), s.find_first_not_of(set) and s.find_last_not_of(set): the first, or last, byte that
-- passes the test.
unfoldable pub find_if : (ℕ → Bool) → Bytes → Option ℕ
find_if p [] = none
find_if p (c ∷ s) =
    if p c then some 0 else (elim (find_if p s) [ none ↦ none | some i ↦ some (suc i) ])

unfoldable pub find_last_if : (ℕ → Bool) → Bytes → Option ℕ
find_last_if p [] = none
find_last_if p (c ∷ s) = elim (find_last_if p s) [
  | some i ↦ some (suc i)
  | none ↦ if p c then some 0 else none
]

abbrev pub find : ℕ → Bytes → Option ℕ
find c = find_if (λ d. d == c)

-- s.substr(pos, count), for pos ≤ s.size()
abbrev pub substr : ℕ → ℕ → Bytes → Bytes
substr pos count s = take count (drop pos s)

-- s.back(), 0 for the empty string, where the source does not call it
unfoldable pub back : Bytes → ℕ
back [] = 0
back (c ∷ []) = c
back (c ∷ d ∷ s) = back (d ∷ s)

-- s.pop_back()
unfoldable pub pop_back : Bytes → Bytes
pop_back [] = []
pop_back (c ∷ []) = []
pop_back (c ∷ d ∷ s) = c ∷ pop_back (d ∷ s)

-- ::toupper and ::tolower in the "C" locale
unfoldable pub to_upper : ℕ → ℕ
to_upper c = if leb b'a' c && leb c b'z' then c - 32 else c

unfoldable pub to_lower : ℕ → ℕ
to_lower c = if leb b'A' c && leb c b'Z' then c + 32 else c

-- isspace in the "C" locale
unfoldable pub is_space : ℕ → Bool
is_space c = c == 32 || leb 9 c && leb c 13

unfoldable pub is_digit : ℕ → Bool
is_digit c = leb b'0' c && leb c b'9'
