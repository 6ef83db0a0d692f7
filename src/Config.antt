-- ===== src/Config.antt =====
-- src/common/config.h
pub mod Settings
use nexus_ftp_engine.Prelude.{
  ℕ, suc, ◌+◌, ◌-◌, Bool, true, false, ◌||◌, not, Option, none, some, List, [], ◌∷◌, ◌==◌, take,
  drop, map, if◌then◌else◌,
}
use nexus_ftp_engine.Prelude.Int.{ℤ}
use nexus_ftp_engine.Bytes.{Bytes, bytes, bytes_eq, find, find_if, find_last_if, substr, to_lower}
use nexus_ftp_engine.Bytes.Assoc.{Assoc, lookup, insert}
use nexus_ftp_engine.Bytes.Decimal.{stoi}
use nexus_ftp_engine.Bytes.Lines.{get_lines, strip_cr}

abbrev pub is_blank : ℕ → Bool
is_blank c = c == b' ' || c == 9

-- Config::trim
unfoldable pub trim : Bytes → Bytes
trim s = elim (find_if (λ c. not (is_blank c)) s) [
  | none ↦ []
  | some start ↦ elim (find_last_if (λ c. not (is_blank c)) s) [
    | none ↦ []
    | some last ↦ substr start (last + 1 - start) s
  ]
]

-- A blank line or a comment.
abbrev pub is_skipped : Bytes → Bool
is_skipped [] = true
is_skipped (c ∷ s) = c == b'#'

-- The body of the loop of Config::load, behind the stripping of '\r'.
unfoldable pub load_stripped : Assoc Bytes → Bytes → Assoc Bytes
load_stripped conf line = if is_skipped line then conf else elim (find b'=' line) [
  | none ↦ conf
  | some eq ↦ insert (trim (take eq line)) (trim (drop (suc eq) line)) conf
]

unfoldable pub load_line : Assoc Bytes → Bytes → Assoc Bytes
unfolding load_stripped
load_line conf raw = load_stripped conf (strip_cr raw)

unfoldable pub load_lines : Assoc Bytes → List Bytes → Assoc Bytes
load_lines conf [] = conf
load_lines conf (line ∷ lines) = load_lines (load_line conf line) lines

-- Config::load; `none` is a file that cannot be opened.
unfoldable pub load : Option Bytes → Assoc Bytes → Bool × Assoc Bytes
unfolding load_lines load_line
load file conf = elim file [
  | none ↦ (false, conf)
  | some text ↦ (true, load_lines conf (get_lines text))
]

-- Config::getString
unfoldable pub get_string : Bytes → Bytes → Assoc Bytes → Bytes
get_string key def conf = elim (lookup key conf) [ none ↦ def | some v ↦ v ]

-- Config::getInt; std::stoi's exceptions are caught.
unfoldable pub get_int : Bytes → ℤ → Assoc Bytes → ℤ
get_int key def conf = elim (lookup key conf) [
  | none ↦ def
  | some v ↦ elim (stoi v) [ none ↦ def | some n ↦ n ]
]

-- Config::getBool
unfoldable pub get_bool : Bytes → Bool → Assoc Bytes → Bool
get_bool key def conf = elim (lookup key conf) [
  | none ↦ def
  | some v ↦
      let lower = map to_lower v in
      bytes_eq lower (bytes "true") || bytes_eq lower (bytes "1") || bytes_eq lower (bytes "yes")
]
