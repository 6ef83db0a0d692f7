-- ===== src/Config/Settings.antt =====
-- src/common/config.h: files of "key=value" lines and the getters.
use nexus_ftp_engine.Prelude.{
  ℕ, zero, suc, ◌+◌, ◌-◌, true, not, ◌<◌, ◌^◌, ◌≡◌, refl, ap, ◌∙◌, false, Option, none, some, List,
  [], ◌∷◌, ◌++◌, map, arith, length, take, drop, take-append, if◌then◌else◌,
}
use nexus_ftp_engine.Prelude.Int.{ℤ, pos}
use nexus_ftp_engine.Bytes.{Bytes, bytes_eq, find, find_if, find_last_if}
use nexus_ftp_engine.Bytes.Laws.{Lacks, Lacks-append, drop-suc-append, find-append}
use nexus_ftp_engine.Bytes.Assoc.{Assoc, lookup, insert, lookup-insert}
use nexus_ftp_engine.Bytes.Decimal.{to_string, stoi-to_string}
use nexus_ftp_engine.Bytes.Lines.{get_lines, get_lines-append, strip_cr-id}
use nexus_ftp_engine.Config.{
  is_blank, trim, is_skipped, load_stripped, load_line, load_lines, load, get_string, get_int,
}

pub record Setting : Type 0 where
  pub key : Bytes
  pub value : Bytes

unfoldable pub setting_line : Setting → Bytes
setting_line x = x.key ++ (b'=' ∷ x.value)

unfoldable pub settings_text : List Setting → Bytes
unfolding setting_line
settings_text [] = []
settings_text (x ∷ settings) = setting_line x ++ (10 ∷ settings_text settings)

-- Neither a space nor a tab, in general and at the ends of a text.
abbrev IsSolid : ℕ → Type 0
IsSolid c = ¬ (c ≡ 32) × ¬ (c ≡ 9)

abbrev FirstSolid : Bytes → Type 0
FirstSolid [] = Unit {0}
FirstSolid (c ∷ s) = IsSolid c

abbrev LastSolid : Bytes → Type 0
LastSolid [] = Unit {0}
LastSolid (c ∷ []) = IsSolid c
LastSolid (c ∷ d ∷ s) = LastSolid (d ∷ s)

-- A key that begins neither the empty line nor a comment.
abbrev Named : Bytes → Type 0
Named [] = ⊥
Named (c ∷ s) = ¬ (c ≡ 35)

solid_lem : (c : ℕ) → IsSolid c → not (is_blank c) ≡ true
solid_lem c (a, b) = ground (arith, a, b)

find_last_if-solid :
    (c : ℕ) (s : Bytes)
    → LastSolid (c ∷ s)
    → find_last_if (λ d. not (is_blank d)) (c ∷ s) ≡ some (length s)
unfolding find_last_if
find_last_if-solid c [] k = rw (solid_lem c k)
find_last_if-solid c (d ∷ s) k = rw (find_last_if-solid d s k)

take_all : (s : Bytes) (n : ℕ) → n ≡ length s → take n s ≡ s
take_all [] zero e = refl
take_all [] (suc n) e = refl
take_all (c ∷ s) zero e = absurd (omega (arith, e))
take_all (c ∷ s) (suc n) e = ap (λ x. c ∷ x) (take_all s n (omega (arith, e)))

trim-between :
    (s : Bytes) (last : ℕ)
    → find_if (λ c. not (is_blank c)) s ≡ some 0
    → find_last_if (λ c. not (is_blank c)) s ≡ some last
    → trim s ≡ take (last + 1 - 0) s
unfolding trim
trim-between s last e k = rw (e, trim) (rw k)

trim-solid : (s : Bytes) → FirstSolid s → LastSolid s → trim s ≡ s
unfolding trim find_if find_last_if
trim-solid [] k l = refl
trim-solid (c ∷ s) k l =
    trim-between (c ∷ s) (length s) (rw (solid_lem c k)) (find_last_if-solid c s l)
    ∙ take_all (c ∷ s) (length s + 1 - 0) (omega arith)

-- A key is not empty, is no comment and has no '='; neither part breaks the line nor has blanks at
-- its ends: no space and no tab.
pub record IsSetting (x : Setting) : Type 0 where
  pub named : Named x.key
  pub key_eq : Lacks b'=' x.key
  pub key_lf : Lacks 10 x.key
  pub key_cr : Lacks 13 x.key
  pub value_lf : Lacks 10 x.value
  pub value_cr : Lacks 13 x.value
  pub key_first : FirstSolid x.key
  pub key_last : LastSolid x.key
  pub value_first : FirstSolid x.value
  pub value_last : LastSolid x.value

abbrev pub AllSettings : List Setting → Type 0
AllSettings [] = Unit {0}
AllSettings (x ∷ settings) = IsSetting x × AllSettings settings

is_skipped-append : (s t : Bytes) → Named s → is_skipped (s ++ t) ≡ false
is_skipped-append [] t k = absurd k
is_skipped-append (c ∷ s) t k = ground (arith, k)

load_stripped-split :
    (line : Bytes) (n : ℕ) (key value : Bytes) (conf : Assoc Bytes)
    → is_skipped line ≡ false
    → find b'=' line ≡ some n
    → trim (take n line) ≡ key
    → trim (drop (suc n) line) ≡ value
    → load_stripped conf line ≡ insert key value conf
unfolding load_stripped
load_stripped-split line n key value conf kept found is_key is_value =
    rw (kept, load_stripped, found) (rw (is_key, is_value))

load_line-setting :
    (x : Setting) (conf : Assoc Bytes)
    → IsSetting x
    → load_line conf (setting_line x) ≡ insert x.key x.value conf
unfolding load_line setting_line
load_line-setting x conf k =
    ap (load_stripped conf) (
      strip_cr-id (x.key ++ (b'=' ∷ x.value))
        (Lacks-append 13 x.key (b'=' ∷ x.value) k.key_cr ((λ e. omega arith), k.value_cr)))
    ∙ load_stripped-split (x.key ++ (b'=' ∷ x.value)) (length x.key) x.key x.value conf
        (is_skipped-append x.key (b'=' ∷ x.value) k.named) (find-append b'=' x.key x.value k.key_eq)
        (ap trim (take-append x.key (b'=' ∷ x.value)) ∙ trim-solid x.key k.key_first k.key_last)
        (ap trim (drop-suc-append x.key b'=' x.value)
          ∙ trim-solid x.value k.value_first k.value_last)

-- The value that the last line with the key gives it, if there is one.
unfoldable pub last_value : Bytes → List Setting → Option Bytes
last_value key [] = none
last_value key (x ∷ settings) = elim (last_value key settings) [
  | some v ↦ some v
  | none ↦ if bytes_eq x.key key then some x.value else none
]

abbrev pub or_else : Option Bytes → Option Bytes → Option Bytes
or_else none other = other
or_else (some v) other = some v

lookup-load_lines :
    (settings : List Setting) (key : Bytes) (conf : Assoc Bytes)
    → AllSettings settings
    → lookup key (load_lines conf (map setting_line settings))
      ≡ or_else (last_value key settings) (lookup key conf)
unfolding load_lines last_value
lookup-load_lines [] key conf k = refl
lookup-load_lines (x ∷ settings) key conf (k, ks) =
    ap (λ c. lookup key (load_lines c (map setting_line settings))) (load_line-setting x conf k)
    ∙ ground (
      arith,
      lookup-load_lines settings key (insert x.key x.value conf) ks,
      lookup-insert x.key key x.value conf,
    )

get_lines-settings_text :
    (settings : List Setting)
    → AllSettings settings
    → get_lines (settings_text settings) ≡ map setting_line settings
unfolding settings_text get_lines setting_line
get_lines-settings_text [] k = refl
get_lines-settings_text (x ∷ settings) (k, ks) =
    get_lines-append (setting_line x) (settings_text settings)
      (Lacks-append 10 x.key (b'=' ∷ x.value) k.key_lf ((λ e. omega arith), k.value_lf))
    ∙ ap (◌∷◌ (setting_line x)) (get_lines-settings_text settings ks)

lookup-settings_text :
    (settings : List Setting) (key : Bytes) (conf : Assoc Bytes)
    → AllSettings settings
    → lookup key (load (some (settings_text settings)) conf).1
      ≡ or_else (last_value key settings) (lookup key conf)
unfolding load
lookup-settings_text settings key conf k =
    ap (λ ls. lookup key (load_lines conf ls)) (get_lines-settings_text settings k)
    ∙ lookup-load_lines settings key conf k

-- The text of a setting, or what was there without the file.
abbrev pub text_or : Option Bytes → Bytes → Bytes
text_or none def = def
text_or (some v) def = v

-- Over a file of settings, of which no key and no value breaks a line or has a space or a tab as its
-- first or last byte, and no key is empty, begins a comment or has a '=', getString returns the value of
-- the last line with the key, and for a key that the file does not set what it returned before the file
-- was read.
pub get_string-settings_text :
    (settings : List Setting) (key def : Bytes) (conf : Assoc Bytes)
    → AllSettings settings
    → get_string key def (load (some (settings_text settings)) conf).1
      ≡ text_or (last_value key settings) (get_string key def conf)
unfolding get_string
get_string-settings_text settings key def conf k =
    ground (arith, lookup-settings_text settings key conf k)

-- Where the last line with the key holds an int in decimal, getInt returns it.
get_int-settings_text :
    (settings : List Setting) (key : Bytes) (def : ℤ) (n : ℕ) (conf : Assoc Bytes)
    → AllSettings settings
    → last_value key settings ≡ some (to_string n)
    → n < 2 ^ 31
    → get_int key def (load (some (settings_text settings)) conf).1 ≡ pos n
unfolding get_int
get_int-settings_text settings key def n conf k last h =
    ground (arith, lookup-settings_text settings key conf k, stoi-to_string n h)
