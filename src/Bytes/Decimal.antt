-- ===== src/Bytes/Decimal.antt =====
-- std::to_string and std::stoi.
use nexus_ftp_engine.Prelude.{
  ℕ, zero, suc, ◌+◌, ◌-◌, ◌*◌, ◌/◌, ◌%◌, ◌^◌, ◌≤◌, ◌<◌, ◌≡◌, refl, ap, ◌∙◌, Bool, true, false,
  Option, none, some, [], ◌∷◌, ◌++◌, arith, length, length-append, ltb, leb, ◌==◌, if◌then◌else◌,
}
use nexus_ftp_engine.Prelude.Int.{ℤ, pos, negsuc}
use nexus_ftp_engine.Bytes.{Bytes, is_empty, is_space, is_digit}

-- The decimal digits of a number below the fuel.
digits : ℕ → ℕ → Bytes
digits zero n = []
digits (suc f) n =
    let rest = digits f (n / 10) in
    if ltb n 10 then (b'0' + n) ∷ [] else rest ++ (b'0' + n % 10) ∷ []

unfoldable pub to_string : ℕ → Bytes
unfolding digits
to_string n = digits (suc n) n

-- The value of a run of digits, after those that `acc` holds.
unfoldable pub decimal : ℕ → Bytes → ℕ
decimal acc [] = acc
decimal acc (c ∷ s) = decimal (acc * 10 + (c - b'0')) s

unfoldable pub take_digits : Bytes → Bytes
take_digits [] = []
take_digits (c ∷ s) = if is_digit c then c ∷ take_digits s else []

unfoldable pub skip_space : Bytes → Bytes
skip_space [] = []
skip_space (c ∷ s) = if is_space c then skip_space s else c ∷ s

-- The number read after the sign; `none` where std::stoi throws: no digits, or outside of int.
unfoldable pub stoi_digits : Bool → Bytes → Option ℤ
unfolding take_digits decimal
stoi_digits negative s =
    let n = decimal 0 (take_digits s) in
    if is_empty (take_digits s)
    then none
    else if negative
    then (if leb n (2 ^ 31) then some (if n == 0 then pos 0 else negsuc (n - 1)) else none)
    else if ltb n (2 ^ 31)
    then some (pos n)
    else none

unfoldable pub stoi_sign : Bytes → Option ℤ
unfolding stoi_digits
stoi_sign [] = none
stoi_sign (c ∷ s) =
    if c == b'-'
    then stoi_digits true s
    else if c == b'+'
    then stoi_digits false s
    else stoi_digits false (c ∷ s)

unfoldable pub stoi : Bytes → Option ℤ
unfolding stoi_sign skip_space is_space is_digit
stoi s = stoi_sign (skip_space s)

-- Every byte is a decimal digit.
abbrev pub AllDigits : Bytes → Type 0
AllDigits [] = Unit {0}
AllDigits (c ∷ s) = (48 ≤ c) × (c ≤ 57) × AllDigits s

pub AllDigits-append : (s t : Bytes) → AllDigits s → AllDigits t → AllDigits (s ++ t)
AllDigits-append [] t h k = k
AllDigits-append (c ∷ s) t h k = (h.0, h.1, AllDigits-append s t h.2 k)

pub decimal-append : (acc : ℕ) (s t : Bytes) → decimal acc (s ++ t) ≡ decimal (decimal acc s) t
unfolding decimal
decimal-append acc [] t = refl
decimal-append acc (c ∷ s) t = decimal-append (acc * 10 + (c - b'0')) s t

digits-AllDigits : (f n : ℕ) → AllDigits (digits f n)
unfolding digits
digits-AllDigits zero n = tt
digits-AllDigits (suc f) n = ground (
  arith,
  digits-AllDigits f (n / 10),
  AllDigits-append (digits f (n / 10)) ((b'0' + n % 10) ∷ []) (digits-AllDigits f (n / 10))
      (omega arith, omega arith, tt),
)

decimal-digits : (f n : ℕ) → n < f → decimal 0 (digits f n) ≡ n
unfolding digits decimal
decimal-digits zero n h = elim h [ ]
decimal-digits (suc f) n h =
    ground (
      arith,
      decimal-append 0 (digits f (n / 10)) ((b'0' + n % 10) ∷ []),
      decimal-digits f (n / 10),
    )

pub to_string-AllDigits : (n : ℕ) → AllDigits (to_string n)
unfolding to_string
to_string-AllDigits n = digits-AllDigits (suc n) n

pub decimal-to_string : (n : ℕ) → decimal 0 (to_string n) ≡ n
unfolding to_string
decimal-to_string n = decimal-digits (suc n) n (omega arith)

snoc-is_empty : (s : Bytes) (c : ℕ) → is_empty (s ++ c ∷ []) ≡ false
snoc-is_empty [] c = refl
snoc-is_empty (d ∷ s) c = refl

pub to_string-is_empty : (n : ℕ) → is_empty (to_string n) ≡ false
unfolding to_string digits
to_string-is_empty n = ground (arith, snoc-is_empty (digits n (n / 10)) (b'0' + n % 10))

pub take_digits-all : (s : Bytes) → AllDigits s → take_digits s ≡ s
unfolding take_digits is_digit
take_digits-all [] h = refl
take_digits-all (c ∷ s) h = ground (arith, take_digits-all s h.2)

-- On a non-empty run of digits, std::stoi returns their value if it fits an int.
pub stoi-AllDigits :
    (s : Bytes)
    → AllDigits s
    → is_empty s ≡ false
    → decimal 0 s < 2 ^ 31
    → stoi s ≡ some (pos (decimal 0 s))
unfolding stoi stoi_sign stoi_digits skip_space is_space
stoi-AllDigits [] h e lt = cc
stoi-AllDigits (c ∷ s) h e lt = ground (arith, take_digits-all (c ∷ s) h)

pub stoi-to_string : (n : ℕ) → n < 2 ^ 31 → stoi (to_string n) ≡ some (pos n)
stoi-to_string n h =
    stoi-AllDigits (to_string n) (to_string-AllDigits n) (to_string-is_empty n)
      (rw (decimal-to_string n) h)
    ∙ ap (λ m. some (pos m)) (decimal-to_string n)

length-digits : (f n : ℕ) → length (digits f n) ≤ f
unfolding digits
length-digits zero n = omega arith
length-digits (suc f) n =
    ground
      (arith, length-digits f (n / 10), length-append (digits f (n / 10)) ((b'0' + n % 10) ∷ []))

pub length-to_string : (n : ℕ) → length (to_string n) ≤ suc n
unfolding to_string
length-to_string n = length-digits (suc n) n
